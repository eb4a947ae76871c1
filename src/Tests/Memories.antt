-- ===== src/Tests/Memories.antt =====
-- Runs of processes that share a block of memory, and of those that open and end a safe connector.
use qbus.Prelude.{
  ℕ, ◌+◌, ◌≡◌, refl, ap, arith, Bool, true, false, if◌then◌else◌, ◌==◌, List, [], ◌∷◌, Option, none,
  some, done, ltb, ◌*◌, ◌-◌, sym, ◌∙◌, not,
}
use qbus.Memory.{Objects, Memory, create, open_object, destroy, absent}
use qbus.Locker.Guard.{Lockable}
use qbus.Locker.Scoped
use qbus.Locker.Spin.{Cas}
use qbus.Bus.Safe
use qbus.Bus.Shared.{us_none}
use qbus.Bus.Shared.Start.{Starts}
use qbus.Bus.Shared.Open
use qbus.Bus.Shared.Open.{Mapped}
use qbus.Tests.Buses.{toy, toy_bus}
use qbus.Connector.Safe.Life.{Parts, do_create, Event, opens, ends}
use qbus.Memory.Laws.{Documented, create_taken-lost}

-- The object that has the name, and the next one to be made.
abbrev System : Type 0
System = Option ℕ × ℕ

abbrev make_only : System → Option (System × ℕ)
make_only (none, next) = some ((some next, next + 1), next)
make_only (some h, next) = none

abbrev system_objects : Objects System ℕ ℕ
system_objects = record {
  create_only = make_only;
  open_only = λ o. o.0;
  truncate = λ o h size. some o;
  mapped_region = λ o h. some (1000 * h);
  remove_object = λ o. (none, o.1);
}

abbrev named : System → Option ℕ
named o = o.0

abbrev is_there : {A : Type 0} → Option A → ℕ
is_there none = 0
is_there (some a) = 1

abbrev value : {A : Type 0} → A → Option A → A
value a none = a
value a (some b) = b

names-Documented : Documented system_objects named
names-Documented = record {
  taken = taken;
  bound = bound;
  opened = λ o. refl;
  resized = λ o o' h size e. sym (ap (λ (z : Option System). (value o z).0) e);
  freed = λ o. refl;
}
  where
    taken : (o : System) (h : ℕ) → named o ≡ some h → make_only o ≡ none
    taken (none, next) h e = absurd (omega (arith, ap is_there e))
    taken (some k, next) h e = refl

    bound : (o o' : System) (h : ℕ) → make_only o ≡ some (o', h) → named o' ≡ some h
    bound (none, next) o' h e =
        sym (ap (λ (z : Option (System × ℕ)). (value (o', h) z).0.0) e)
        ∙ ap some (ap (λ (z : Option (System × ℕ)). (value (o', h) z).1) e)
    bound (some k, next) o' h e = absurd (omega (arith, ap is_there e))

create_taken-lost_example :
    ((create system_objects (absent (some 4, 5)) 100).1 ≡ false)
    × ((open_object system_objects
          (absent (create system_objects (absent (some 4, 5)) 100).0.objects)).1
        ≡ false)
    × ((s : Memory System ℕ ℕ)
        → (open_object system_objects (absent (destroy system_objects s).objects)).1 ≡ false)
create_taken-lost_example =
    create_taken-lost system_objects named names-Documented (some 4, 5) 4 100 refl

-- A safe connector whose locker is a flag, and whose queue counts its objects.
abbrev cas : Cas
cas word with cmp = if word == cmp then (with, word) else (word, word)

abbrev flag : Lockable Bool ℕ
flag = record {
  lock = λ l. done true;
  try_lock = λ l. done (true, not l);
  timed_lock = λ l timeout. done (true, not l);
  unlock = λ l. done false;
  lock_sharable = λ l. done l;
  try_lock_sharable = λ l. done (l, false);
  timed_lock_sharable = λ l timeout. done (l, false);
  unlock_sharable = λ l. done l;
}

abbrev parts : Parts Bool ℕ ℕ ℕ
parts = record {
  cas = cas;
  rounds = 2;
  lockable = flag;
  new_locker = false;
  new_barrier = 0;
  create_queue = λ w. 1;
  open_queue = λ w. w + 1;
  free_queue = λ w. w - 1;
}

abbrev lives : List Event
lives = opens true ∷ opens false ∷ ends ∷ ends ∷ opens true ∷ []

-- A safe bus over a bus whose third subscriber cannot attach.
abbrev bus_parts : Safe.Parts Bool ℕ ℕ
bus_parts = record {
  cas = cas;
  rounds = 2;
  lockable = flag;
  new_locker = false;
  create_body = λ w. (1, true);
  attach_body = λ w. (w + 1, ltb w 2);
  close = λ w. (w - 1, true);
  add_connector = λ w. (w, true);
  remove_connector = λ w. (w, false);
}

abbrev bus_lives : List Event
bus_lives = opens true ∷ opens false ∷ opens true ∷ ends ∷ ends ∷ opens true ∷ []

-- A bus without connectors, whose name another bus has.
abbrev unmade : Mapped ℕ ℕ System ℕ ℕ
unmade = record {
  objects = (some 4, 5);
  pmemory = none;
  shared = record {
    bus = record toy_bus { connectors = [] };
    local = toy_bus.control;
    status = us_none;
  };
}

abbrev unmade_created : Mapped ℕ ℕ System ℕ ℕ × Bool
unmade_created = Open.do_create toy system_objects unmade toy_bus.spec 100

do_create-Starts_example :
    Starts toy unmade_created.0.shared unmade_created.1
    × (unmade_created.1 ≡ false → named unmade_created.0.objects ≡ none)
do_create-Starts_example =
    Open.do_create-Starts toy system_objects named names-Documented unmade toy_bus.spec 100 refl
      refl
