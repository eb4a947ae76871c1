-- ===== src/Locker/Calls.antt =====
-- The blocking and timed methods of `shared_locker` (qbus/locker.cpp) as they run while no other
-- thread moves, and the locker as the guards see it.
use qbus.Prelude.{
  ℕ, zero, suc, ◌+◌, Bool, true, false, ◌==◌, ltb, if◌then◌else◌, Run, done, spent, ◌>>=◌,
}
use qbus.Timespec
use qbus.Timespec.{Timespec}
use qbus.Locker
use qbus.Locker.{Locker, LockState, try_book_lock, count_sharable}
use qbus.Locker.Guard.{Lockable}

-- The inner loop of `lock`, `while (count_sharable() > 0)`.
unfoldable pub drain : ℕ → Locker → Run Locker
drain zero l = spent
drain (suc fuel) l = let rest = drain fuel l in if ltb 0 (count_sharable l) then rest else done l

unfoldable pub lock : ℕ → Locker → Run Locker
lock zero l = spent
lock (suc fuel) l =
    let (l', state) = try_book_lock l in
    let again = lock fuel l' in
    elim state [
      | LockState.ls_none ↦ done l'
      | LockState.ls_scoped ↦ again
      | LockState.ls_sharable ↦ drain fuel l'
    ]

unfoldable pub lock_sharable : ℕ → Locker → Run Locker
lock_sharable zero l = spent
lock_sharable (suc fuel) l =
    let (l', won) = Locker.try_lock_sharable l in
    let again = lock_sharable fuel l' in if won then done l' else again

-- A locker, and how often the thread has read the clock.
pub record Timed : Type 0 where
  pub locker : Locker
  pub ticks : ℕ

module _ (clock : ℕ → Timespec) where
  abbrev pub is_early : Timespec → Timed → Bool
  is_early ts t = Timespec.lt (clock t.ticks) ts

  abbrev pub tick : Timed → Timed
  tick t = record t { ticks = t.ticks + 1 }

  -- The inner loop of `timed_lock`, and the `unlock` behind it.
  unfoldable pub timed_drain : ℕ → Timespec → Timed → Run (Timed × Bool)
  timed_drain zero ts t = spent
  timed_drain (suc fuel) ts t =
      let rest = timed_drain fuel ts (tick t) in
      let left = Locker.unlock t.locker >>= λ l. done (record (tick t) { locker = l }, false) in
      if is_early ts t
      then if count_sharable t.locker == 0 then done (tick t, true) else rest
      else left

  unfoldable pub timed_rounds : ℕ → Timespec → Timed → Run (Timed × Bool)
  timed_rounds zero ts t = spent
  timed_rounds (suc fuel) ts t =
      let (l, state) = try_book_lock t.locker in
      let t' : Timed = record (tick t) { locker = l } in
      let again = timed_rounds fuel ts t' in
      let tried : Run (Timed × Bool) = elim state [
        | LockState.ls_none ↦ done (t', true)
        | LockState.ls_scoped ↦ again
        | LockState.ls_sharable ↦ timed_drain fuel ts t'
      ] in
      if is_early ts t then tried else done (tick t, false)

  unfoldable pub timed_lock : ℕ → Timed → Timespec → Run (Timed × Bool)
  timed_lock fuel t timeout = timed_rounds fuel (Timespec.add (clock t.ticks) timeout) (tick t)

  unfoldable pub sharable_rounds : ℕ → Timespec → Timed → Run (Timed × Bool)
  sharable_rounds zero ts t = spent
  sharable_rounds (suc fuel) ts t =
      let (l, won) = Locker.try_lock_sharable t.locker in
      let t' : Timed = record (tick t) { locker = l } in
      let again = sharable_rounds fuel ts t' in
      if is_early ts t then if won then done (t', true) else again else done (tick t, false)

  unfoldable pub timed_lock_sharable : ℕ → Timed → Timespec → Run (Timed × Bool)
  timed_lock_sharable fuel t timeout =
      sharable_rounds fuel (Timespec.add (clock t.ticks) timeout) (tick t)

  abbrev pub on_locker : Timed → Run Locker → Run Timed
  on_locker t out = out >>= λ l. done (record t { locker = l })

  -- What the guards call.
  abbrev pub lockable : ℕ → Lockable Timed Timespec
  lockable fuel = record {
    lock = λ t. on_locker t (lock fuel t.locker);
    try_lock = λ t.
        done (record t { locker = (Locker.try_lock t.locker).0 }, (Locker.try_lock t.locker).1);
    timed_lock = timed_lock fuel;
    unlock = λ t. on_locker t (Locker.unlock t.locker);
    lock_sharable = λ t. on_locker t (lock_sharable fuel t.locker);
    try_lock_sharable = λ t. done (
      record t { locker = (Locker.try_lock_sharable t.locker).0 },
      (Locker.try_lock_sharable t.locker).1,
    );
    timed_lock_sharable = timed_lock_sharable fuel;
    unlock_sharable = λ t. on_locker t (Locker.unlock_sharable t.locker);
  }
