-- ===== src/Locker/Threads.antt =====
-- Threads that call the methods of one `shared_locker` (qbus/locker.cpp), interleaved in any order.
-- A block under the guard of `m_lock` is one step; so is a test of the clock, which may come out
-- either way. A thread calls only what the guards `scoped_lock` and `sharable_lock` let it: it
-- unlocks what it has locked.
use qbus.Prelude.{ℕ, Bool, true, false, List, [], ◌∷◌, ◌++◌, ltb, if◌then◌else◌, ◌≡◌, done}
use qbus.Locker
use qbus.Locker.{Locker, LockState, try_book_lock, count_sharable, try_lock, try_lock_sharable}

-- Where a thread stands. The Boolean tells a timed call from one without a limit.
pub data Pc : Type 0 where
  idle : Pc  -- outside of the methods, without a lock
  booking : Bool → Pc  -- the outer loop of `lock` or `timed_lock`
  draining : Bool → Pc  -- the inner loop, `LS_SHARABLE`
  writing : Pc  -- with the exclusive lock
  sharing : Bool → Pc  -- the loop of `lock_sharable` or `timed_lock_sharable`
  reading : Pc  -- with a sharable lock

-- The `switch` of `lock` and `timed_lock`.
abbrev pub after_book : Bool → LockState → Pc
after_book timed LockState.ls_none = writing
after_book timed LockState.ls_scoped = booking timed
after_book timed LockState.ls_sharable = draining timed

abbrev pub after_drain : Bool → ℕ → Pc
after_drain timed count = if ltb 0 count then draining timed else writing

abbrev pub after_try : Pc → Pc → Bool → Pc
after_try won lost true = won
after_try won lost false = lost

-- One step of a thread: the locker and the thread before it, and after it.
pub data Move (l : Locker) : Pc → Locker → Pc → Type 0 where
  call_lock : {timed : Bool} → Move l idle l (booking timed)
  book :
      {timed : Bool}
      → Move l (booking timed) (try_book_lock l).0 (after_book timed (try_book_lock l).1)
  drain : {timed : Bool} → Move l (draining timed) l (after_drain timed (count_sharable l))
  give_up_booking : Move l (booking true) l idle
  give_up_draining : {l' : Locker} → Locker.unlock l ≡ done l' → Move l (draining true) l' idle
  call_try_lock : Move l idle (try_lock l).0 (after_try writing idle (try_lock l).1)
  call_unlock : {l' : Locker} → Locker.unlock l ≡ done l' → Move l writing l' idle
  call_lock_sharable : {timed : Bool} → Move l idle l (sharing timed)
  share :
      {timed : Bool}
      → Move l
          (sharing timed)
          (try_lock_sharable l).0
          (after_try reading (sharing timed) (try_lock_sharable l).1)
  give_up_sharing : Move l (sharing true) l idle
  call_try_lock_sharable :
      Move l idle (try_lock_sharable l).0 (after_try reading idle (try_lock_sharable l).1)
  call_unlock_sharable : {l' : Locker} → Locker.unlock_sharable l ≡ done l' → Move l reading l' idle

-- The locker and its threads.
pub record System : Type 0 where
  pub locker : Locker
  pub threads : List Pc

-- Any one thread moves.
pub data Step (s : System) : System → Type 0 where
  pick :
      (before : List Pc) (p : Pc) (after : List Pc) {l : Locker} {p' : Pc}
      → s.threads ≡ before ++ p ∷ after
      → Move s.locker p l p'
      → Step s (record { locker = l; threads = before ++ p' ∷ after })

abbrev pub AreIdle : List Pc → Type 0
AreIdle [] = Unit
AreIdle (p ∷ ps) = (p ≡ idle) × AreIdle ps

-- What can be reached from a new locker with idle threads.
pub data Reach : System → Type 0 where
  start : (ps : List Pc) → AreIdle ps → Reach (record { locker = Locker.unlocked; threads = ps })
  later : {s t : System} → Reach s → Step s t → Reach t
