-- ===== src/Tests/Readers.antt =====
-- A run of a reader of a shared queue at a concrete input.
use qbus.Prelude.{
  ℕ, ◌≡◌, refl, arith, inl, false, if◌then◌else◌, ◌==◌, ◌+◌, Run, ◌>>=◌, some, List, [], ◌∷◌, done,
}
use qbus.Bytes.{Mem, read32, read_bytes}
use qbus.Message
use qbus.Message.Make.{no_message}
use qbus.Queue
use qbus.Queue.{Queue}
use qbus.Queue.Layout
use qbus.Queue.Layout.{Item}
use qbus.Queue.Shared
use qbus.Queue.Smart
use qbus.Queue.Service
use qbus.Queue.Shared.{no_head}
use qbus.Queue.Reader.{Views, Owes}
use qbus.Queue.Reader.Session
use qbus.Tests.Queues.{env}

-- The bytes other than 0 of a queue of 70 bytes with one message for two readers.
abbrev bytes : List (ℕ × ℕ)
bytes =
    (1000, 2)
    ∷ (1004, 1)
    ∷ (1012, 70)
    ∷ (1020, 1)
    ∷ (1028, 27)
    ∷ (1032, 3)
    ∷ (1036, 3)
    ∷ (1044, 5)
    ∷ (1048, 2)
    ∷ (1056, 1)
    ∷ (1057, 2)
    ∷ (1058, 3)
    ∷ []

abbrev look_up : List (ℕ × ℕ) → Mem
look_up [] a = 0
look_up ((b, value) ∷ rest) a = if a == b then value else look_up rest a

abbrev reader : Queue
reader = record {
  world = record { mem = look_up bytes; ticks = 0 };
  base = 1008;
  message_desc = no_message;
  shared = 1000;
  m_head = no_head;
  m_counter = 0;
  smart = 0;
  special = false;
}

abbrev message : Item
message = record { tag = 5; body = 1 ∷ 2 ∷ 3 ∷ [] }

reader-Views : Views reader (message ∷ [])
unfolding Queue.capacity Queue.head Queue.tail Shared.head Shared.count Shared.counter read32
    Message.capacity Message.flags Message.tag Layout.used Layout.blocks Layout.first_block
    read_bytes
reader-Views = record {
  held = record {
    ring = record {
      small = omega arith;
      head_in = omega arith;
      fits = omega arith;
      tail_at = refl;
      empty = λ z. absurd (omega arith);
      filled = λ z. omega arith;
    };
    laid = (((refl, refl, refl, refl), refl, omega arith), tt);
    counted = refl;
    pulled = inl refl;
  };
  before = omega arith;
  counter_small = omega arith;
  own_small = omega arith;
}

reader-Owes : Owes reader (message ∷ [])
unfolding Queue.capacity Queue.head Shared.head read32 Message.counter Layout.first_block
reader-Owes = ((omega arith, omega arith), tt)

read_all-Views_example :
    (q' : Queue) × (Session.read_all env reader 1 ≡ done (q', Session.all_seen (message ∷ [])))
    × Views q' []
read_all-Views_example = Session.read_all-Views env reader (message ∷ []) reader-Views reader-Owes

-- A second process comes to a smart queue, has a place booked in another one, and goes.
abbrev other : Message.Env
other = record { sid = 8; clock = λ k. 100 + k }

abbrev connected : Run (ℕ × ℕ × ℕ)
connected = do
  q ← Service.create_smart 3 env (record { mem = λ a. 0; ticks = 0 }) 1 1000 200
  done (Smart.free_space q, Shared.subscriptions_count q, Queue.count q)

abbrev booked : Run (ℕ × ℕ × ℕ)
booked = do
  q ← Service.create_smart 3 env (record { mem = λ a. 0; ticks = 0 }) 1 1000 200
  r ← Service.open_smart 3 other q.world 1000
  b ← Service.create_booked 3 env (record { mem = r.world.mem; ticks = 0 }) 2 2000 200 (some r)
  done (Smart.free_space b, Shared.subscriptions_count b, Queue.count b)

abbrev left : Run (ℕ × ℕ × ℕ)
left = do
  q ← Service.create_smart 3 env (record { mem = λ a. 0; ticks = 0 }) 1 1000 200
  r ← Service.open_smart 3 other q.world 1000
  r' ← Service.close_smart 5 other r
  done (Smart.free_space r', Shared.subscriptions_count r', Queue.count r')
