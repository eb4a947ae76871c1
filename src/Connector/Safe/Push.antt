-- ===== src/Connector/Safe/Push.antt =====
-- `do_push` of `base_safe_connector` and of `safe_connector` (qbus/connector.h) over a
-- `shared_locker`.
use qbus.Prelude.{
  ℕ, ◌≡◌, inl, inr, refl, sym, ap, ap₂, subst, ◌∙◌, Bool-cases, arith, Bool, true, false, List,
  done, if◌then◌else◌, ◌==◌, ◌&&◌,
}
use qbus.Timespec.{Timespec}
use qbus.Connector.{Virtuals}
use qbus.Connector.Safe.{Safe, Barriers, guarded, base_push, safe_push, exclusive}
use qbus.Locker
use qbus.Locker.{Locker}
use qbus.Locker.Scoped
use qbus.Locker.Calls.{Timed, lockable}

-- A locker that no thread holds.
abbrev pub is_free : Locker → Bool
is_free l = l.scoped == 0 && l.sharable == 0

module _ (clock : ℕ → Timespec) (fuel : ℕ) {W P M B : Type 0} (v : Virtuals W P M) where
  -- `guarded` exclusively over a locker of fields `n` and `m`.
  abbrev at : ℕ → ℕ → ℕ → W → B → ℕ → Safe Timed W B
  at n m k w barrier ticks = record {
    locker = record { locker = record { scoped = n; sharable = m }; ticks = k };
    inner = w;
    barrier = barrier;
    ticks = ticks;
  }

  guarded_free :
      {A : Type 0} (work : W → W × A) (failed : A) (k : ℕ) (w : W) (barrier : B) (ticks : ℕ)
      → guarded (lockable clock fuel) v exclusive work failed (at 0 0 k w barrier ticks)
        ≡ done (at 0 0 k (work w).0 barrier ticks, (work w).1)
  unfolding guarded Scoped.make_try Scoped.destroy Locker.try_lock Locker.unlock
  guarded_free work failed k w barrier ticks = refl

  guarded_held :
      {A : Type 0} (work : W → W × A) (failed : A) (n m k : ℕ) (w : W) (barrier : B) (ticks : ℕ)
      → is_free (record { scoped = n; sharable = m }) ≡ false
      → guarded (lockable clock fuel) v exclusive work failed (at n m k w barrier ticks)
        ≡ done (at n m k w barrier ticks, failed)
  unfolding guarded Scoped.make_try Scoped.destroy Locker.try_lock Locker.unlock
  guarded_held work failed n m k w barrier ticks h = rw h

  fields :
      (s : Safe Timed W B)
      → is_free s.locker.locker ≡ true
      → s ≡ at 0 0 s.locker.ticks s.inner s.barrier s.ticks
  fields s h =
      let n : s.locker.locker.scoped ≡ 0 = ground arith in
      let m : s.locker.locker.sharable ≡ 0 = ground arith in
      ap₂ (λ n m. at n m s.locker.ticks s.inner s.barrier s.ticks) n m

  -- `do_push` of `base_safe_connector` is that of the connector below it if no thread holds the
  -- locker, which is free again afterwards; else it returns false and changes nothing.
  pub base_push_lem :
      (s : Safe Timed W B) (tag : ℕ) (source : List ℕ)
      → let (w, result) = v.do_push s.inner tag source in
        base_push (lockable clock fuel) v s tag source ≡ (
          if is_free s.locker.locker
          then done (record s { inner = w }, result)
          else done (s, false))
  unfolding base_push
  base_push_lem s tag source = elim (Bool-cases (is_free s.locker.locker)) [
    | inl e ↦
        subst
          (λ s'.
            guarded (lockable clock fuel) v exclusive (λ w. v.do_push w tag source) false s' ≡ (
              if is_free s'.locker.locker
              then done (
                record s' { inner = (v.do_push s'.inner tag source).0 },
                (v.do_push s'.inner tag source).1,
              )
              else done (s', false)))
          (sym (fields s e))
          (guarded_free (λ w. v.do_push w tag source) false s.locker.ticks s.inner s.barrier
            s.ticks)
    | inr e ↦
        guarded_held (λ w. v.do_push w tag source) false s.locker.locker.scoped
          s.locker.locker.sharable s.locker.ticks s.inner s.barrier s.ticks e
        ∙ ap
            (λ b.
              if b
              then done (
                record s { inner = (v.do_push s.inner tag source).0 },
                (v.do_push s.inner tag source).1,
              )
              else done (s, false))
            (sym e)
  ]

  module _ (b : Barriers B) where
    safe_push_free :
        (k : ℕ) (w : W) (barrier : B) (ticks tag : ℕ) (source : List ℕ)
        → safe_push (lockable clock fuel) v b clock (at 0 0 k w barrier ticks) tag source
          ≡ done (at 0 0 k w barrier ticks, false)
    unfolding safe_push base_push guarded Scoped.make_try Scoped.destroy Locker.try_lock
        Locker.unlock
    safe_push_free k w barrier ticks tag source = refl

    -- `do_push` of a `safe_connector` whose locker is a `shared_locker` returns false and changes
    -- nothing, from every state: it tries the exclusive lock a second time while it holds it.
    pub safe_push-false :
        (s : Safe Timed W B) (tag : ℕ) (source : List ℕ)
        → safe_push (lockable clock fuel) v b clock s tag source ≡ done (s, false)
    unfolding safe_push Scoped.make_try Scoped.destroy Locker.try_lock
    safe_push-false s tag source = elim (Bool-cases (is_free s.locker.locker)) [
      | inl e ↦
          subst (λ s'. safe_push (lockable clock fuel) v b clock s' tag source ≡ done (s', false))
            (sym (fields s e)) (safe_push_free s.locker.ticks s.inner s.barrier s.ticks tag source)
      | inr e ↦ rw e
    ]
