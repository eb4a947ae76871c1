-- ===== src/Locker/Spin.antt =====
-- `spinlock` of qbus/locker.h and qbus/locker.cpp. The compare-and-swap of the processor, which
-- boost::interprocess offers as `atomic_cas32`, is a parameter: it takes the word in memory, the
-- value to put there and the value to compare with, and returns the word left in memory and the
-- old one.
use qbus.Prelude.{
  ℕ, zero, suc, ◌+◌, ◌≤◌, ℕ_discrete, ◌≡◌, ◌≢◌, Bool, true, false, ◌==◌, if◌then◌else◌, Run, done,
  spent, arith,
}
use qbus.Timespec
use qbus.Timespec.{Timespec}

abbrev pub ls_locked : ℕ
ls_locked = 0

abbrev pub ls_unlocked : ℕ
ls_unlocked = 1

abbrev pub Cas : Type 0
Cas = ℕ → ℕ → ℕ → ℕ × ℕ

module _ (atomic_cas32 : Cas) where
  unfoldable pub try_lock : ℕ → ℕ × Bool
  try_lock word =
      let (word', old) = atomic_cas32 word ls_locked ls_unlocked in
      (word', if ls_locked == old then true else false)

  -- `lock`, with a limit on the number of rounds, without another thread.
  unfoldable pub lock : ℕ → ℕ → Run ℕ
  lock zero word = spent
  lock (suc fuel) word =
      let again = lock fuel (try_lock word).0 in
      if (try_lock word).1 then done (try_lock word).0 else again

-- `timed_lock` up to the time `ts`, without another thread. `clock` shows the time at each read,
-- and `tick` counts the reads.
module _ (atomic_cas32 : Cas) (clock : ℕ → Timespec) where
  unfoldable pub timed_rounds : ℕ → ℕ → ℕ → Timespec → Run (ℕ × Bool)
  timed_rounds zero tick word ts = spent
  timed_rounds (suc fuel) tick word ts =
      let (word', won) = try_lock atomic_cas32 word in
      let again = timed_rounds fuel (tick + 1) word' ts in
      if Timespec.lt (clock tick) ts
      then if won then done (word', true) else again
      else done (word, false)

  unfoldable pub timed_lock : ℕ → ℕ → ℕ → Timespec → Run (ℕ × Bool)
  timed_lock fuel tick word timeout =
      timed_rounds fuel (tick + 1) word (Timespec.add (clock tick) timeout)

-- `atomic_write32` of the unlocked state.
abbrev pub unlock : ℕ → ℕ
unlock word = ls_unlocked

-- The documented behaviour of a compare-and-swap.
abbrev pub Swaps : Cas → Type 0
Swaps cas =
    ((word with cmp : ℕ) → word ≡ cmp → cas word with cmp ≡ (with, word))
    × ((word with cmp : ℕ) → word ≢ cmp → cas word with cmp ≡ (word, word))

-- With a compare-and-swap as documented, `try_lock` returns true exactly on a lock that is held
-- already; it leaves the lock held in either case.
pub try_lock_inverted :
    (cas : Cas) (word : ℕ)
    → Swaps cas
    → word ≤ 1
    → try_lock cas word ≡ (ls_locked, word == ls_locked)
unfolding try_lock
try_lock_inverted cas word swaps h = elim (ℕ_discrete word 1) [
  | yes e ↦ rw (swaps.0 word 0 1 e, e)
  | no ne ↦ let z : word ≡ 0 = omega arith in rw (swaps.1 word 0 1 ne, z)
]

-- With a compare-and-swap as documented, `lock` returns within two rounds from either state of the
-- lock, also if another thread holds it and never gives it back.
pub lock_never_waits :
    (cas : Cas) (fuel word : ℕ)
    → Swaps cas
    → word ≤ 1
    → lock cas (suc (suc fuel)) word ≡ done ls_locked
unfolding lock
lock_never_waits cas fuel word swaps h = elim (ℕ_discrete word 0) [
  | yes e ↦ rw (try_lock_inverted cas word swaps h, e)
  | no ne ↦
      let one : word ≡ 1 = omega arith in
      rw (try_lock_inverted cas word swaps h, one, try_lock_inverted cas 0 swaps (omega arith))
]
