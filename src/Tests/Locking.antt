-- ===== src/Tests/Locking.antt =====
-- Runs of the lockers and their guards at concrete inputs.
use qbus.Prelude.{
  ◌%◌, ℕ, Bool, spent, fault, ◌<◌, ◌≤◌, ◌⊎◌, ◌==◌, ==_true, ==_false, if◌then◌else◌, ◌+◌, ◌^◌, zero,
  suc, ◌-◌, ◌≡◌, refl, arith, count, inl, inr, true, false, List, [], ◌∷◌, Run, done,
}
use qbus.Locker
use qbus.Locker.Barrier
use qbus.Locker.Barrier.Laws
use qbus.Locker.Spin
use qbus.Locker.Guard.{Lockable, Call, Keeps, SharableKeeps, b2n}
use qbus.Locker.Scoped
use qbus.Locker.Sharable
use qbus.Locker.Exclusion
use qbus.Locker.Counts.{writes, reads}
use qbus.Locker.Threads.{
  idle, booking, draining, reading, after_try, after_book, Move, System, Step, Reach,
}

-- One thread has booked the lock while another one reads, and waits for it.
abbrev sharing_system : System
sharing_system = record { locker = Locker.unlocked; threads = idle ∷ idle ∷ [] }

abbrev read_system : System
read_system = record {
  locker = (Locker.try_lock_sharable Locker.unlocked).0;
  threads = after_try reading idle (Locker.try_lock_sharable Locker.unlocked).1 ∷ idle ∷ [];
}

abbrev called_system : System
called_system = record { locker = read_system.locker; threads = reading ∷ booking false ∷ [] }

abbrev booked_system : System
booked_system = record {
  locker = (Locker.try_book_lock read_system.locker).0;
  threads = reading ∷ after_book false (Locker.try_book_lock read_system.locker).1 ∷ [];
}

booked : Reach booked_system
unfolding Locker.try_lock_sharable Locker.try_book_lock
booked =
    Reach.later
      (Reach.later
        (Reach.later (Reach.start (idle ∷ idle ∷ []) (refl, (refl, tt)))
          (Step.pick [] idle (idle ∷ []) refl Move.call_try_lock_sharable))
        (Step.pick (reading ∷ []) idle [] refl Move.call_lock))
      (Step.pick (reading ∷ []) (booking false) [] refl Move.book)

exclusion_example :
    (count writes booked_system.threads ≤ 1)
    × ((count writes booked_system.threads ≡ 0) ⊎ (count reads booked_system.threads ≡ 0))
exclusion_example = Exclusion.exclusion booked

unlock-done_example :
    Locker.unlock booked_system.locker ≡ done (record booked_system.locker { scoped = 0 })
unfolding Locker.try_lock_sharable Locker.try_book_lock
unlock-done_example = Exclusion.unlock-done (reading ∷ []) [] (draining false) booked refl refl

-- The reader of the booked lock gives it back.
abbrev left_system : System
left_system = record {
  locker = record { scoped = 1; sharable = 0 };
  threads = idle ∷ draining false ∷ [];
}

left : Step booked_system left_system
unfolding Locker.try_lock_sharable Locker.try_book_lock Locker.unlock_sharable
left = Step.pick [] reading (draining false ∷ []) refl (Move.call_unlock_sharable refl)

no_new_reader_example : count reads left_system.threads ≤ count reads booked_system.threads
unfolding Locker.try_lock_sharable Locker.try_book_lock
no_new_reader_example =
    Exclusion.no_new_reader (reading ∷ []) [] (draining false) booked refl refl left

-- A compare-and-swap as documented.
abbrev cas : Spin.Cas
cas word with cmp = if word == cmp then (with, word) else (word, word)

cas-Swaps : Spin.Swaps cas
cas-Swaps =
    (λ word with cmp e. rw (==_true word cmp e), λ word with cmp e. rw (==_false word cmp e))

try_lock_inverted_example : Spin.try_lock cas 0 ≡ (0, true)
try_lock_inverted_example = Spin.try_lock_inverted cas 0 cas-Swaps (omega arith)

lock_never_waits_example : Spin.lock cas 2 0 ≡ done 0
lock_never_waits_example = Spin.lock_never_waits cas 0 0 cas-Swaps (omega arith)

-- A locker that counts its holder.
abbrev toy_lock : ℕ → Run ℕ
toy_lock zero = done 1
toy_lock (suc n) = spent

abbrev pub toy_try : ℕ → Run (ℕ × Bool)
toy_try zero = done (1, true)
toy_try (suc n) = done (suc n, false)

abbrev pub toy_unlock : ℕ → Run ℕ
toy_unlock zero = fault
toy_unlock (suc n) = done n

abbrev pub toy_locker : {T : Type 0} → Lockable ℕ T
toy_locker = record {
  lock = toy_lock;
  try_lock = toy_try;
  timed_lock = λ l t. toy_try l;
  unlock = toy_unlock;
  lock_sharable = toy_lock;
  try_lock_sharable = toy_try;
  timed_lock_sharable = λ l t. toy_try l;
  unlock_sharable = toy_unlock;
}

toy_waits : (l : ℕ) → (toy_lock l ≡ spent) ⊎ ((l' : ℕ) × (toy_lock l ≡ done l') × (l' ≡ l + 1))
toy_waits zero = inr (1, refl, refl)
toy_waits (suc n) = inl refl

toy_tries :
    (l : ℕ) → (toy_try l ≡ spent) ⊎ ((r : ℕ × Bool) × (toy_try l ≡ done r) × (r.0 ≡ l + b2n r.1))
toy_tries zero = inr ((1, true), refl, refl)
toy_tries (suc n) = inr ((suc n, false), refl, omega arith)

pub toy_releases : (l : ℕ) → 0 < l → (l' : ℕ) × (toy_unlock l ≡ done l') × (l' + 1 ≡ l)
toy_releases zero h = absurd (omega arith)
toy_releases (suc n) h = (n, refl, omega arith)

toy_locker-Keeps : Keeps {T = ℕ} toy_locker (λ l. l)
toy_locker-Keeps = (toy_waits, toy_tries, λ t. toy_tries, toy_releases)

toy_locker-SharableKeeps : SharableKeeps {T = ℕ} toy_locker (λ l. l)
toy_locker-SharableKeeps = (toy_waits, toy_tries, λ t. toy_tries, toy_releases)

abbrev own_locker : Lockable ℕ ℕ
own_locker = toy_locker

-- A client that locks twice, of which the second call throws.
abbrev visits : List (Call ℕ)
visits = Call.try_lock ∷ Call.lock ∷ Call.unlock ∷ Call.unlock ∷ Call.lock ∷ []

scoped_balanced_example :
    (Scoped.live own_locker (Scoped.defer {T = ℕ} own_locker 0) visits ≡ spent)
    ⊎ ((l' : ℕ) × (Scoped.live own_locker (Scoped.defer {T = ℕ} own_locker 0) visits ≡ done l')
        × (l' ≡ 0))
scoped_balanced_example = Scoped.scoped_balanced own_locker (λ l. l) toy_locker-Keeps 0 visits

sharable_balanced_example :
    (Sharable.live own_locker (Sharable.defer {T = ℕ} own_locker 0) visits ≡ spent)
    ⊎ ((l' : ℕ) × (Sharable.live own_locker (Sharable.defer {T = ℕ} own_locker 0) visits ≡ done l')
        × (l' ≡ 0))
sharable_balanced_example =
    Sharable.sharable_balanced own_locker (λ l. l) toy_locker-SharableKeeps 0 visits

-- A thread waits at a barrier with a limit. Its wait fails, another thread opens the barrier, and
-- the first one passes.
abbrev opened_late : Barrier.System
opened_late = record {
  barrier = (Barrier.settle (Barrier.open_barrier (Barrier.knocked Barrier.closed))).0;
  threads = Barrier.outside ∷ Barrier.outside ∷ [];
  late = 1;
}

opened_late-Reach : Barrier.Reach opened_late
unfolding Barrier.settle Barrier.open_barrier Barrier.open_loop
opened_late-Reach =
    let b = Barrier.outside ∷ [] in
    Barrier.later
      (Barrier.later
        (Barrier.later
          (Barrier.later
            (Barrier.later
              (Barrier.later
                (Barrier.start (Barrier.outside ∷ Barrier.outside ∷ []) (refl, (refl, tt)))
                (Barrier.pick [] Barrier.outside b refl (Barrier.call {timed = true})))
              (Barrier.pick [] (Barrier.spinning true) b refl (Barrier.spin refl)))
            (Barrier.pick [] (Barrier.arriving true) b refl Barrier.arrive))
          (Barrier.pick [] (Barrier.waiting true) b refl (Barrier.expire refl)))
        (Barrier.pick (Barrier.expired ∷ []) Barrier.outside [] refl Barrier.open_it))
      (Barrier.pick [] Barrier.expired b refl (Barrier.settle_open refl))

barrier_leaks_example :
    ((opened_late.barrier.counter1 + opened_late.barrier.semaphore) % 2 ^ 32 ≡ 1)
    × ((opened_late.barrier.counter2 + 1) % 2 ^ 32 ≡ opened_late.barrier.semaphore % 2 ^ 32)
barrier_leaks_example = Laws.barrier_leaks opened_late-Reach refl refl

-- Nobody has opened it for the next thread, which passes; the counter wraps round.
next_passes :
    (Barrier.wait opened_late.barrier
      ≡ done (record { semaphore = 0; counter1 = 1; counter2 = 2 ^ 32 - 1 }))
unfolding Barrier.settle Barrier.open_barrier Barrier.open_loop Barrier.wait Barrier.knock
    Barrier.expect Barrier.take
next_passes = refl

abbrev one_waits : Barrier.System
one_waits = record {
  barrier = Barrier.knocked Barrier.closed;
  threads = Barrier.waiting false ∷ [];
  late = 0;
}

one_waits-Reach : Barrier.Reach one_waits
one_waits-Reach =
    Barrier.later
      (Barrier.later
        (Barrier.later (Barrier.start (Barrier.outside ∷ []) (refl, tt))
          (Barrier.pick [] Barrier.outside [] refl (Barrier.call {timed = false})))
        (Barrier.pick [] (Barrier.spinning false) [] refl (Barrier.spin refl)))
      (Barrier.pick [] (Barrier.arriving false) [] refl Barrier.arrive)

barrier_counts_example : (1 + 0 ≡ 1) × (0 ≡ 0 + 0)
barrier_counts_example = Laws.barrier_counts one_waits-Reach refl (omega arith)
