-- ===== src/Locker.antt =====
-- `shared_locker` of qbus/locker.h and qbus/locker.cpp: the state in shared memory, and the
-- operations that run under the guard of `m_lock`.
pub mod Threads
pub mod Counts
pub mod Exclusion
pub mod Spin
pub mod Barrier
pub mod Guard
pub mod Calls
pub mod Scoped
pub mod Sharable
use qbus.Prelude.{
  ℕ, ◌+◌, ◌-◌, ◌^◌, Bool, true, false, ◌&&◌, ◌==◌, ltb, if◌then◌else◌, Run, done, fault,
}

pub record Locker : Type 0 where
  pub scoped : ℕ
  pub sharable : ℕ

pub data LockState : Type 0 where
  ls_scoped : LockState
  ls_sharable : LockState
  ls_none : LockState

-- `UINT_MAX`
abbrev pub uint_max : ℕ
uint_max = 2 ^ 32 - 1

-- The constructor.
abbrev pub unlocked : Locker
unlocked = record { scoped = 0; sharable = 0 }

unfoldable pub try_book_lock : Locker → Locker × LockState
try_book_lock l =
    if l.scoped == 0
    then (record l { scoped = 1 }, if l.sharable == 0 then ls_none else ls_sharable)
    else (l, ls_scoped)

unfoldable pub count_sharable : Locker → ℕ
count_sharable l = l.sharable

unfoldable pub try_lock : Locker → Locker × Bool
try_lock l =
    if l.scoped == 0 && l.sharable == 0 then (record l { scoped = 1 }, true) else (l, false)

-- A failed assertion is a fault.
unfoldable pub unlock : Locker → Run Locker
unlock l = if l.scoped == 1 then done (record l { scoped = 0 }) else fault

unfoldable pub try_lock_sharable : Locker → Locker × Bool
try_lock_sharable l =
    if l.scoped == 0 && ltb l.sharable uint_max
    then (record l { sharable = l.sharable + 1 }, true)
    else (l, false)

unfoldable pub unlock_sharable : Locker → Run Locker
unlock_sharable l =
    if ltb 0 l.sharable then done (record l { sharable = l.sharable - 1 }) else fault
