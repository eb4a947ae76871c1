-- ===== src/Connector/Safe/Ready.antt =====
-- A `shared_locker` that no other thread holds, and a `shared_barrier` without tokens that no other
-- thread moves (qbus/locker.cpp), under the timed calls of a safe connector.
use qbus.Prelude.{
  ℕ, suc, ◌+◌, ◌≡◌, refl, sym, subst, arith, true, false, inl, inr, Bool, Bool-cases, done,
}
use qbus.Timespec
use qbus.Timespec.{Timespec}
use qbus.Locker
use qbus.Locker.{try_book_lock}
use qbus.Locker.Calls.{
  Timed, lockable, timed_lock, timed_rounds, timed_lock_sharable, sharable_rounds,
}
use qbus.Locker.Barrier
use qbus.Locker.Barrier.{Barrier}
use qbus.Connector.Safe.{exclusive, sharable, shared_barriers}
use qbus.Connector.Safe.Rounds.{Locks, Leaves}
use qbus.Connector.Safe.Get.{Answers}

abbrev pub Free : Timed → Type 0
Free t = t.locker ≡ Locker.unlocked

abbrev pub writers : Timed → ℕ
writers t = t.locker.scoped

abbrev pub readers : Timed → ℕ
readers t = t.locker.sharable

abbrev free_at : ℕ → Timed
free_at ticks = record { locker = Locker.unlocked; ticks = ticks }

module _ (clock : ℕ → Timespec) (fuel : ℕ) where
  locks_alone :
      (ticks : ℕ) (timeout : Timespec)
      → (r : Timed × Bool) × (timed_lock clock (suc fuel) (free_at ticks) timeout ≡ done r)
        × Leaves (lockable clock (suc fuel)) writers Free exclusive 0 r.0 r.1
  unfolding timed_lock timed_rounds try_book_lock Locker.unlock
  locks_alone ticks timeout =
      let ts = Timespec.add (clock ticks) timeout in
      elim (Bool-cases (Timespec.lt (clock (ticks + 1)) ts)) [
        | inl e ↦ (
          (record { locker = record { scoped = 1; sharable = 0 }; ticks = ticks + 1 + 1 }, true),
          rw e,
          inr (refl, omega arith, (free_at (ticks + 1 + 1), refl, omega arith, refl)),
        )
        | inr e ↦ ((free_at (ticks + 1 + 1), false), rw e, inl (refl, refl, refl))
      ]

  shares_alone :
      (ticks : ℕ) (timeout : Timespec)
      → (r : Timed × Bool) × (timed_lock_sharable clock (suc fuel) (free_at ticks) timeout ≡ done r)
        × Leaves (lockable clock (suc fuel)) readers Free sharable 0 r.0 r.1
  unfolding timed_lock_sharable sharable_rounds Locker.try_lock_sharable Locker.unlock_sharable
  shares_alone ticks timeout =
      let ts = Timespec.add (clock ticks) timeout in
      elim (Bool-cases (Timespec.lt (clock (ticks + 1)) ts)) [
        | inl e ↦ (
          (record { locker = record { scoped = 0; sharable = 1 }; ticks = ticks + 1 + 1 }, true),
          rw e,
          inr (refl, omega arith, (free_at (ticks + 1 + 1), refl, omega arith, refl)),
        )
        | inr e ↦ ((free_at (ticks + 1 + 1), false), rw e, inl (refl, refl, refl))
      ]

  -- A `shared_locker` that is free counts its holder, returns, and is free again, whatever the clock
  -- shows.
  pub Free-Locks :
      Locks (lockable clock (suc fuel)) writers Free exclusive
      × Locks (lockable clock (suc fuel)) readers Free sharable
  Free-Locks = (
    λ t timeout free.
        subst
          (λ x.
            (r : Timed × Bool) × (timed_lock clock (suc fuel) (record t { locker = x }) timeout
              ≡ done r)
            × Leaves (lockable clock (suc fuel)) writers Free exclusive x.scoped r.0 r.1)
          (sym free) (locks_alone t.ticks timeout),
    λ t timeout free.
        subst
          (λ x.
            (r : Timed × Bool) × (timed_lock_sharable clock (suc fuel) (record t { locker = x })
                timeout
              ≡ done r)
            × Leaves (lockable clock (suc fuel)) readers Free sharable x.sharable r.0 r.1)
          (sym free) (shares_alone t.ticks timeout),
  )

abbrev pub Calm : Barrier → Type 0
Calm b = (b.semaphore ≡ 0) × (b.counter2 ≡ 0)

-- A knock and the timed wait behind it return at a calm `shared_barrier`, and leave it calm.
pub Calm-Answers : Answers shared_barriers Calm
unfolding Barrier.knock Barrier.timed_expect Barrier.settle
Calm-Answers b calm = (
  Barrier.knocked b,
  rw (calm.1),
  λ t. (
    ((Barrier.timed_expect (Barrier.knocked b)).0, (Barrier.timed_expect (Barrier.knocked b)).1),
    refl,
    rw (calm.0, calm.1) (refl, refl),
  ),
)
