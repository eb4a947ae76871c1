-- ===== src/Locker/Barrier.antt =====
-- `shared_barrier` of qbus/locker.h and qbus/locker.cpp: a semaphore and two counters in shared
-- memory, and threads that knock at it and wait until another one opens it. The mutex and the
-- semaphore are boost's: a block under the mutex is one step, a wait takes a token of the semaphore,
-- and a timed wait gives up only while there is none.
pub mod Laws
use qbus.Prelude.{
  ℕ, zero, suc, ◌+◌, ◌≡◌, Bool, true, false, List, [], ◌∷◌, ◌++◌, ◌-◌, Run, done, spent, ◌>>=◌,
  ◌==◌, ltb, if◌then◌else◌, u32, sub32,
}

pub record Barrier : Type 0 where
  pub semaphore : ℕ
  pub counter1 : ℕ
  pub counter2 : ℕ

-- The constructor.
abbrev pub closed : Barrier
closed = record { semaphore = 0; counter1 = 0; counter2 = 0 }

-- The loop of `open`, `while (m_counter1 > 0)`.
unfoldable pub open_loop : ℕ → Barrier → Barrier
open_loop zero b = b
open_loop (suc n) b =
    open_loop n
      (record { semaphore = b.semaphore + 1; counter1 = n; counter2 = u32 (b.counter2 + 1) })

unfoldable pub open_barrier : Barrier → Barrier
open_barrier b = open_loop b.counter1 b

-- `++m_counter1`, and what `expect` does behind its wait.
abbrev pub knocked : Barrier → Barrier
knocked b = record b { counter1 = u32 (b.counter1 + 1) }

abbrev pub passed : Barrier → Barrier
passed b = record b { counter2 = sub32 b.counter2 1 }

-- What `expect` does after a timed wait has failed.
unfoldable pub settle : Barrier → Barrier × Bool
settle b =
    if b.counter2 == 0
    then (record b { counter1 = sub32 b.counter1 1 }, false)
    else (passed b, true)

-- `knock` and `expect` while no other thread moves: they wait for ever where only another thread
-- could let them on.
unfoldable pub knock : Barrier → Run Barrier
knock b = if ltb 0 b.counter2 then spent else done (knocked b)

unfoldable pub take : Barrier → Run Barrier
take b =
    if b.semaphore == 0 then spent else done (passed (record b { semaphore = b.semaphore - 1 }))

unfoldable pub expect : Barrier → Run Barrier
expect b = take b

unfoldable pub wait : Barrier → Run Barrier
wait b = knock b >>= expect

unfoldable pub timed_expect : Barrier → Barrier × Bool
timed_expect b =
    if b.semaphore == 0 then settle b else (passed (record b { semaphore = b.semaphore - 1 }), true)

unfoldable pub timed_wait : Barrier → Run (Barrier × Bool)
timed_wait b = knock b >>= λ b'. done (timed_expect b')

-- Where a thread stands. The Boolean tells a timed wait from one without a limit.
pub data Pc : Type 0 where
  outside : Pc
  spinning : Bool → Pc  -- the loop of `knock`
  arriving : Bool → Pc  -- behind the loop, before the mutex
  waiting : Bool → Pc  -- at the semaphore
  woken : Pc  -- with a token, before the mutex
  expired : Pc  -- after a timed wait that has failed, before the mutex

-- One step of a thread. The last index is 1 if a wait that has failed passes the barrier all the
-- same, and else 0.
pub data Move (b : Barrier) : Pc → Barrier → Pc → ℕ → Type 0 where
  open_it : Move b outside (open_barrier b) outside 0
  call : {timed : Bool} → Move b outside b (spinning timed) 0
  spin : {timed : Bool} → b.counter2 ≡ 0 → Move b (spinning timed) b (arriving timed) 0
  arrive : {timed : Bool} → Move b (arriving timed) (knocked b) (waiting timed) 0
  wake :
      {timed : Bool} {n : ℕ}
      → b.semaphore ≡ n + 1
      → Move b (waiting timed) (record b { semaphore = n }) woken 0
  pass : Move b woken (passed b) outside 0
  expire : b.semaphore ≡ 0 → Move b (waiting true) b expired 0
  settle_late : (settle b).1 ≡ false → Move b expired (settle b).0 outside 0
  settle_open : (settle b).1 ≡ true → Move b expired (settle b).0 outside 1

-- The barrier, its threads, and how many failed waits have passed it.
pub record System : Type 0 where
  pub barrier : Barrier
  pub threads : List Pc
  pub late : ℕ

pub data Step (s : System) : System → Type 0 where
  pick :
      (before : List Pc) (p : Pc) (after : List Pc) {b : Barrier} {p' : Pc} {n : ℕ}
      → s.threads ≡ before ++ p ∷ after
      → Move s.barrier p b p' n
      → Step s (record { barrier = b; threads = before ++ p' ∷ after; late = s.late + n })

abbrev pub AreOutside : List Pc → Type 0
AreOutside [] = Unit
AreOutside (p ∷ ps) = (p ≡ outside) × AreOutside ps

pub data Reach : System → Type 0 where
  start :
      (ps : List Pc) → AreOutside ps → Reach (record { barrier = closed; threads = ps; late = 0 })
  later : {s t : System} → Reach s → Step s t → Reach t
