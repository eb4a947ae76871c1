-- ===== src/Connector/Timed.antt =====
-- The timed calls of `base_connector` (qbus/connector.cpp) return once the clock has come to the
-- deadline, and a connector that is closed or of the wrong direction is left alone.
use qbus.Prelude.{
  ℕ, zero, suc, ◌+◌, ◌<◌, ◌≡◌, refl, subst, arith, Bool, true, false, if◌then◌else◌, List, none,
  Run, done, Bool-cases, inl, inr,
}
use qbus.Timespec
use qbus.Timespec.{Timespec}
use qbus.Connector
use qbus.Connector.{Connector, Virtuals, retry, do_timed_push, do_timed_get, do_timed_pop, deadline}

module _ {W P M : Type 0} (v : Virtuals W P M) (clock : ℕ → Timespec) where
  -- A call that returns.
  abbrev pub Ends : {A : Type 0} → Run (Connector W × A) → Type 0
  Ends {A = A} out = (s' : Connector W) × (a : A) × (out ≡ done (s', a))

  retry-Ends :
      {A : Type 0} (attempt : W → W × A) (is_ok : A → Bool) (failed : A) (n fuel : ℕ)
      (s : Connector W) (ts : Timespec)
      → Timespec.lt (clock (s.ticks + n)) ts ≡ false
      → n < fuel
      → Ends (retry v clock attempt is_ok failed fuel s ts)
  unfolding retry
  retry-Ends attempt is_ok failed n zero s ts late h = absurd (omega arith)
  retry-Ends attempt is_ok failed zero (suc fuel) s ts late h =
      let zero_more : s.ticks + 0 ≡ s.ticks = omega arith in
      let e : Timespec.lt (clock s.ticks) ts ≡ false =
        subst (λ k. Timespec.lt (clock k) ts ≡ false) zero_more late in
      (record s { ticks = s.ticks + 1 }, failed, rw e)
  retry-Ends attempt is_ok failed (suc n) (suc fuel) s ts late h =
      let s1 : Connector W = record s { state = (attempt s.state).0; ticks = s.ticks + 1 } in
      let more : s.ticks + suc n ≡ s.ticks + 1 + n = omega arith in
      let r =
        retry-Ends attempt is_ok failed n fuel s1 ts
          (subst (λ k. Timespec.lt (clock k) ts ≡ false) more late) (omega arith) in
      elim (Bool-cases (Timespec.lt (clock s.ticks) ts)) [
        | inr e ↦ (record s { ticks = s.ticks + 1 }, failed, rw e)
        | inl e ↦ elim (Bool-cases (is_ok (attempt s.state).1)) [
          | inl ok ↦ (s1, (attempt s.state).1, rw (e, ok))
          | inr bad ↦ (r.0, r.1, rw (e, bad) r.2)
        ]
      ]

  gated :
      {A : Type 0} (b : Bool) (out : Run (Connector W × A)) (s : Connector W) (a : A)
      → Ends out
      → Ends (if b then out else done (s, a))
  gated true out s a h = h
  gated false out s a h = (s, a, refl)

  -- A timed push, get and pop return, whatever the connector answers, if the clock has come to the
  -- deadline by its `n`-th read in the loop, counted from zero, with fuel for these reads.
  pub timed-Ends :
      (n fuel : ℕ) (s : Connector W) (tag : ℕ) (source : List ℕ) (timeout : Timespec)
      → Timespec.lt (clock (s.ticks + 1 + n)) (deadline v clock s timeout) ≡ false
      → n < fuel
      → Ends (Connector.timed_push v clock fuel s tag source timeout)
        × Ends (Connector.timed_get v clock fuel s timeout)
        × Ends (Connector.timed_pop v clock fuel s timeout)
  unfolding Connector.timed_push Connector.timed_get Connector.timed_pop do_timed_push do_timed_get
      do_timed_pop
  timed-Ends n fuel s tag source timeout late h = (
    gated _ _ s false (retry-Ends _ _ false n fuel _ _ late h),
    gated _ _ s none (retry-Ends _ _ none n fuel _ _ late h),
    gated _ _ s false (retry-Ends _ _ false n fuel _ _ late h),
  )
