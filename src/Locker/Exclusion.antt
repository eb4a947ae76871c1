-- ===== src/Locker/Exclusion.antt =====
-- Mutual exclusion of the threads that use a `shared_locker` (qbus/locker.cpp).
use qbus.Prelude.{
  ℕ, ◌+◌, ◌-◌, ◌≤◌, ◌≡◌, ◌⊎◌, inl, refl, sym, ap, subst, transport, arith, count, count_middle,
  ==_true, ltb-true, List, ◌∷◌, ◌++◌, done,
}
use qbus.Locker
use qbus.Locker.{Locker, uint_max, try_book_lock, count_sharable, try_lock, try_lock_sharable}
use qbus.Locker.Threads.{Pc, Move, System, Step, Reach}
use qbus.Locker.Counts.{books, writes, reads, count-idle, count-writes-le}

-- The locker counts the threads: `b` have booked it, of which `w` write, and `r` read.
abbrev Counts : Locker → ℕ → ℕ → ℕ → Type 0
Counts l b w r = (l.scoped ≡ b) × (b ≤ 1) × (l.sharable ≡ r) × (r ≤ uint_max) × ((w ≡ 0) ⊎ (r ≡ 0))

-- A move of a thread, among `b`, `w` and `r` others, keeps the counts.
module _ (l : Locker) (b w r : ℕ) where
  Move-Counts :
      {p p' : Pc} {l' : Locker}
      → w ≤ b
      → Move l p l' p'
      → Counts l (b + books p) (w + writes p) (r + reads p)
      → Counts l' (b + books p') (w + writes p') (r + reads p')
  unfolding try_book_lock count_sharable try_lock try_lock_sharable Locker.unlock
      Locker.unlock_sharable
  Move-Counts le Move.call_lock c = c
  Move-Counts le Move.book c = ground (arith, c)
  Move-Counts le Move.drain c = ground (arith, c)
  Move-Counts le Move.give_up_booking c = c
  Move-Counts le (Move.give_up_draining e) c = ground (arith, c)
  Move-Counts le Move.call_try_lock c = ground (arith, c)
  Move-Counts le (Move.call_unlock e) c = ground (arith, c)
  Move-Counts le Move.call_lock_sharable c = c
  Move-Counts le Move.share c = ground (arith, c)
  Move-Counts le Move.give_up_sharing c = c
  Move-Counts le Move.call_try_lock_sharable c = ground (arith, c)
  Move-Counts le (Move.call_unlock_sharable e) c = ground (arith, c)

abbrev Counted : Locker → List Pc → Type 0
Counted l ps = Counts l (count books ps) (count writes ps) (count reads ps)

Counted-middle :
    (l : Locker) (before after : List Pc) (p : Pc)
    → Counted l (before ++ p ∷ after)
      ≡ Counts l
          (count books before + count books after + books p)
          (count writes before + count writes after + writes p)
          (count reads before + count reads after + reads p)
Counted-middle l before after p = rw (
  count_middle books before after p,
  count_middle writes before after p,
  count_middle reads before after p,
)

Step-Counted : {s t : System} → Step s t → Counted s.locker s.threads → Counted t.locker t.threads
Step-Counted {s = s} (Step.pick before p after {l = l} {p' = p'} e move) c =
    transport (sym (Counted-middle l before after p')) (
      Move-Counts s.locker _ _ _ (omega (arith, count-writes-le before, count-writes-le after)) move
        (transport (Counted-middle s.locker before after p) (subst (Counted s.locker) e c)))

-- The fields of the locker count its threads: at most one has booked the exclusive lock, and no
-- thread writes while another one reads.
Reach-Counted : {s : System} → Reach s → Counted s.locker s.threads
Reach-Counted (Reach.start ps all) =
    let b = count-idle books ps refl all in
    let w = count-idle writes ps refl all in
    let r = count-idle reads ps refl all in
    (omega arith, omega arith, omega arith, omega arith, inl w)
Reach-Counted (Reach.later r step) = Step-Counted step (Reach-Counted r)

-- Whatever the threads do, at most one of them has the exclusive lock, and none has it while
-- another one has a sharable lock.
pub exclusion :
    {s : System}
    → Reach s
    → (count writes s.threads ≤ 1) × ((count writes s.threads ≡ 0) ⊎ (count reads s.threads ≡ 0))
exclusion {s = s} r = let c = Reach-Counted r in (omega (arith, count-writes-le s.threads), c.4)

-- The assertion of `unlock` never fails: a thread that has booked the exclusive lock or has it can
-- give it back.
pub unlock-done :
    {s : System} (before after : List Pc) (p : Pc)
    → Reach s
    → s.threads ≡ before ++ p ∷ after
    → books p ≡ 1
    → Locker.unlock s.locker ≡ done (record s.locker { scoped = 0 })
unfolding Locker.unlock
unlock-done {s = s} before after p r e h =
    let c = subst (Counted s.locker) e (Reach-Counted r) in
    rw (==_true s.locker.scoped 1 (omega (arith, count_middle books before after p)))

-- The assertion of `unlock_sharable` never fails: a thread that has a sharable lock can give it
-- back.
pub unlock_sharable-done :
    {s : System} (before after : List Pc) (p : Pc)
    → Reach s
    → s.threads ≡ before ++ p ∷ after
    → reads p ≡ 1
    → Locker.unlock_sharable s.locker ≡ done (record s.locker { sharable = s.locker.sharable - 1 })
unfolding Locker.unlock_sharable
unlock_sharable-done {s = s} before after p r e h =
    let c = subst (Counted s.locker) e (Reach-Counted r) in
    rw (ltb-true 0 s.locker.sharable (omega (arith, count_middle reads before after p)))

Move-reads : {l l' : Locker} {p p' : Pc} → l.scoped ≡ 1 → Move l p l' p' → reads p' ≤ reads p
unfolding try_book_lock count_sharable try_lock try_lock_sharable
Move-reads h Move.call_lock = omega arith
Move-reads h Move.book = ground arith
Move-reads h Move.drain = ground arith
Move-reads h Move.give_up_booking = omega arith
Move-reads h (Move.give_up_draining e) = omega arith
Move-reads h Move.call_try_lock = ground arith
Move-reads h (Move.call_unlock e) = omega arith
Move-reads h Move.call_lock_sharable = omega arith
Move-reads h Move.share = ground arith
Move-reads h Move.give_up_sharing = omega arith
Move-reads h Move.call_try_lock_sharable = ground arith
Move-reads h (Move.call_unlock_sharable e) = omega arith

Step-reads :
    {s t : System} → s.locker.scoped ≡ 1 → Step s t → count reads t.threads ≤ count reads s.threads
Step-reads {s = s} h (Step.pick before p after {p' = p'} e move) = omega (
  arith,
  Move-reads h move,
  ap (count reads) e,
  count_middle reads before after p,
  count_middle reads before after p',
)

-- While a thread has booked the exclusive lock or has it, in any state that the threads can reach, no
-- step of any thread leaves more threads with a sharable lock, so that the readers before it drain.
pub no_new_reader :
    {s t : System} (before after : List Pc) (p : Pc)
    → Reach s
    → s.threads ≡ before ++ p ∷ after
    → books p ≡ 1
    → Step s t
    → count reads t.threads ≤ count reads s.threads
no_new_reader {s = s} before after p r e h step =
    let c = subst (Counted s.locker) e (Reach-Counted r) in
    Step-reads (omega (arith, h, c, count_middle books before after p)) step
