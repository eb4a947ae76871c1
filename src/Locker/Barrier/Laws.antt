-- ===== src/Locker/Barrier/Laws.antt =====
-- What the counters of a `shared_barrier` (qbus/locker.cpp) count, and what a failed wait that passes
-- leaves behind.
use qbus.Prelude.{
  ℕ, zero, suc, ◌+◌, ◌%◌, ◌^◌, ◌≤◌, ◌<◌, ◌≡◌, ◌∙◌, refl, sym, ap, arith, List, [], ◌∷◌, ◌++◌,
  length, count, count_middle, length-append, u32,
}
use qbus.Locker.Barrier.{
  Barrier, open_loop, open_barrier, settle, Pc, outside, spinning, arriving, waiting, woken,
  expired, Move, System, Step, Reach, AreOutside,
}

-- 1 for a thread that has knocked and has no token, and for one that has a token.
abbrev pub waits : Pc → ℕ
waits (waiting timed) = 1
waits expired = 1
waits p = 0

abbrev pub wakes : Pc → ℕ
wakes woken = 1
wakes p = 0

-- `open` lets all of those pass that have knocked.
open_loop_lem :
    (n : ℕ) (b : Barrier)
    → b.counter1 ≡ n
    → b.counter2 < 2 ^ 32
    → ((open_loop n b).semaphore ≡ b.semaphore + n)
      × ((open_loop n b).counter1 ≡ 0)
      × ((open_loop n b).counter2 ≡ (b.counter2 + n) % 2 ^ 32)
unfolding open_loop
open_loop_lem zero b e h = (omega arith, e, omega arith)
open_loop_lem (suc n) b e h =
    let r =
      open_loop_lem n
        (record { semaphore = b.semaphore + 1; counter1 = n; counter2 = u32 (b.counter2 + 1) }) refl
        (omega arith) in
    (omega (arith, r.0), r.1, omega (arith, r.2))

-- The counters, for `w` waiting threads, `k` woken ones and `late` failed waits that have passed.
abbrev pub Agrees : Barrier → ℕ → ℕ → ℕ → Type 0
Agrees b w k late =
    (b.counter1 < 2 ^ 32)
    × (b.counter2 < 2 ^ 32)
    × ((b.counter1 + b.semaphore) % 2 ^ 32 ≡ (w + late) % 2 ^ 32)
    × ((b.counter2 + late) % 2 ^ 32 ≡ (b.semaphore + k) % 2 ^ 32)

-- Without failed waits that pass, the counters are exact as long as they can be.
abbrev Exact : Barrier → ℕ → ℕ → Type 0
Exact b w k = (b.counter1 + b.semaphore ≡ w) × (b.counter2 ≡ b.semaphore + k)

module _ (b : Barrier) (w k late : ℕ) where
  move-Agrees :
      {p p' : Pc} {b' : Barrier} {n : ℕ}
      → Move b p b' p' n
      → Agrees b (w + waits p) (k + wakes p) late
      → Agrees b' (w + waits p') (k + wakes p') (late + n)
  unfolding open_barrier settle
  move-Agrees Move.open_it a =
      let r = open_loop_lem b.counter1 b refl a.1 in
      (
        omega (arith, r.1),
        omega (arith, r.2),
        omega (arith, r.0, r.1, a.2),
        omega (arith, r.0, r.2, a.3),
      )
  move-Agrees Move.call a = ground (arith, a)
  move-Agrees (Move.spin e) a = ground (arith, a)
  move-Agrees Move.arrive a = ground (arith, a)
  move-Agrees (Move.wake e) a = ground (arith, a)
  move-Agrees Move.pass a = ground (arith, a)
  move-Agrees (Move.expire e) a = ground (arith, a)
  move-Agrees (Move.settle_late e) a = ground (arith, a)
  move-Agrees (Move.settle_open e) a = ground (arith, a)

  move-Exact :
      {p p' : Pc} {b' : Barrier} {n : ℕ}
      → n ≡ 0
      → w + k + 1 < 2 ^ 32
      → Move b p b' p' n
      → Exact b (w + waits p) (k + wakes p)
      → Exact b' (w + waits p') (k + wakes p')
  unfolding open_barrier settle
  move-Exact z h Move.open_it a =
      let r = open_loop_lem b.counter1 b refl (omega (arith, a.1)) in
      (omega (arith, r.0, r.1, a.0), omega (arith, r.0, r.2, a.0, a.1))
  move-Exact z h Move.call a = ground (arith, a)
  move-Exact z h (Move.spin e) a = ground (arith, a)
  move-Exact z h Move.arrive a = ground (arith, a)
  move-Exact z h (Move.wake e) a = ground (arith, a)
  move-Exact z h Move.pass a = ground (arith, a)
  move-Exact z h (Move.expire e) a = ground (arith, a)
  move-Exact z h (Move.settle_late e) a = ground (arith, a)
  move-Exact z h (Move.settle_open e) a = absurd (omega arith)

count-outside : (f : Pc → ℕ) (ps : List Pc) → f outside ≡ 0 → AreOutside ps → count f ps ≡ 0
count-outside f [] z h = refl
count-outside f (p ∷ ps) z h = rw h.0 (omega (arith, count-outside f ps z h.1))

both-le-length : (ps : List Pc) → count waits ps + count wakes ps ≤ length ps
both-le-length [] = omega arith
both-le-length (outside ∷ ps) = omega (arith, both-le-length ps)
both-le-length (spinning timed ∷ ps) = omega (arith, both-le-length ps)
both-le-length (arriving timed ∷ ps) = omega (arith, both-le-length ps)
both-le-length (waiting timed ∷ ps) = omega (arith, both-le-length ps)
both-le-length (woken ∷ ps) = omega (arith, both-le-length ps)
both-le-length (expired ∷ ps) = omega (arith, both-le-length ps)

-- The counts of a list with one thread picked out.
module _ (before after : List Pc) (p : Pc) where
  waits_middle :
      count waits (before ++ p ∷ after) ≡ count waits before + count waits after + waits p
  waits_middle = count_middle waits before after p

  wakes_middle :
      count wakes (before ++ p ∷ after) ≡ count wakes before + count wakes after + wakes p
  wakes_middle = count_middle wakes before after p

Step-Agrees :
    {s t : System}
    → Step s t
    → Agrees s.barrier (count waits s.threads) (count wakes s.threads) s.late
    → Agrees t.barrier (count waits t.threads) (count wakes t.threads) t.late
Step-Agrees {s = s} (Step.pick before p after {p' = p'} e move) a =
    rw (waits_middle before after p', wakes_middle before after p')
      (move-Agrees s.barrier _ _ s.late move
        (rw (e, waits_middle before after p, wakes_middle before after p) at a))

Reach-Agrees :
    {s : System} → Reach s → Agrees s.barrier (count waits s.threads) (count wakes s.threads) s.late
Reach-Agrees (Reach.start ps all) =
    let w = count-outside waits ps refl all in
    let k = count-outside wakes ps refl all in (omega arith, omega arith, omega arith, omega arith)
Reach-Agrees (Reach.later r step) = Step-Agrees step (Reach-Agrees r)

-- The threads of which one moves.
few :
    (before after : List Pc) (p : Pc)
    → length (before ++ p ∷ after) < 2 ^ 32
    → count waits before + count waits after + (count wakes before + count wakes after) + 1 < 2 ^ 32
few before after p h =
    omega (arith, length-append before (p ∷ after), both-le-length before, both-le-length after)

Step-Exact :
    {s t : System}
    → Step s t
    → t.late ≡ 0
    → length t.threads < 2 ^ 32
    → (s.late ≡ 0
        → length s.threads < 2 ^ 32
        → Exact s.barrier (count waits s.threads) (count wakes s.threads))
    → Exact t.barrier (count waits t.threads) (count wakes t.threads)
Step-Exact {s = s} (Step.pick before p after {p' = p'} {n = n} e move) z h exact =
    let same : length s.threads ≡ length (before ++ p' ∷ after) =
      ap length e ∙ length-append before (p ∷ after) ∙ sym (length-append before (p' ∷ after)) in
    rw (waits_middle before after p', wakes_middle before after p')
      (move-Exact s.barrier _ _ s.late (omega arith) (few before after p' h) move (
        rw (e, waits_middle before after p, wakes_middle before after p) at
          (exact (omega arith) (omega (arith, same)))))

-- As long as no failed wait has passed, and with fewer than 2^32 threads, `m_counter1` and the
-- semaphore together count the threads that wait, and `m_counter2` counts the tokens and the
-- threads that have one.
pub barrier_counts :
    {s : System}
    → Reach s
    → s.late ≡ 0
    → length s.threads < 2 ^ 32
    → (s.barrier.counter1 + s.barrier.semaphore ≡ count waits s.threads)
      × (s.barrier.counter2 ≡ s.barrier.semaphore + count wakes s.threads)
barrier_counts (Reach.start ps all) z h =
    let w = count-outside waits ps refl all in
    let k = count-outside wakes ps refl all in (omega arith, omega arith)
barrier_counts (Reach.later r step) z h = Step-Exact step z h (barrier_counts r)

-- When no thread waits or has a token, `m_counter1` and the semaphore together are the number of
-- failed waits that have passed the barrier, and `m_counter2` is as many less than the semaphore,
-- all up to multiples of 2^32.
pub barrier_leaks :
    {s : System}
    → Reach s
    → count waits s.threads ≡ 0
    → count wakes s.threads ≡ 0
    → ((s.barrier.counter1 + s.barrier.semaphore) % 2 ^ 32 ≡ s.late % 2 ^ 32)
      × ((s.barrier.counter2 + s.late) % 2 ^ 32 ≡ s.barrier.semaphore % 2 ^ 32)
barrier_leaks r w k = let a = Reach-Agrees r in (omega (arith, a.2, w), omega (arith, a.3, k))
