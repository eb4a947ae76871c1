-- ===== src/Bus/Directed.antt =====
-- `output_bus` and `input_bus` of qbus/bus.h: buses on which the calls of one direction do nothing but
-- fail, under the loops of `base_bus`.
use qbus.Prelude.{
  ℕ, zero, suc, [], ◌∷◌, sub32, ◌<◌, ◌≡◌, arith, Bool, true, false, Option, none, Run, done,
  if◌then◌else◌, inl, inr, ap, ◌∙◌,
}
use qbus.Bus.{Bus, Connectors}
use qbus.Bus.Calls.{get_loop, pop_loop, push_loop}
use qbus.Bus.Names.{span, ids, span_one}
use qbus.Bus.Laws.{IsBus, behind, Removes-cases, try_remove-Removes}

module _ {W P : Type 0} where
  -- `do_get` and `do_pop` of `output_bus`, and `do_push` of `input_bus`, with or without a timeout.
  unfoldable pub output_get : {M : Type 0} → Bus W P → Run (Bus W P × Option M)
  output_get s = done (s, none)

  unfoldable pub output_pop : Bus W P → Run (Bus W P × Bool)
  output_pop s = done (s, false)

  unfoldable pub input_push : Bus W P → Run (Bus W P × Bool)
  input_push s = done (s, false)

module _ {W P M : Type 0} (c : Connectors W P M) where
  -- `get` and `pop` of an output bus, and `push` of an input bus.
  unfoldable pub get : ℕ → Bus W P → Run (Bus W P × Option M)
  get fuel s = let got = get_loop c output_get fuel s in if s.opened then got else done (s, none)

  unfoldable pub pop : ℕ → Bus W P → Run (Bus W P × Bool)
  pop fuel s =
      let popped = pop_loop c output_pop fuel s in if s.opened then popped else done (s, false)

  unfoldable pub push : ℕ → Bus W P → Run (Bus W P × Bool)
  push fuel s =
      let pushed = push_loop c input_push fuel s in if s.opened then pushed else done (s, false)

  -- Nothing is returned, and only the output connector is left, which is the input connector too.
  abbrev pub Empties : {A : Type 0} → Bus W P → A → Run (Bus W P × A) → Type 0
  Empties s nothing out =
      (s' : Bus W P) × (out ≡ done (s', nothing))
      × IsBus c s'
      × (s'.control.input_id ≡ s.control.output_id)
      × (s'.control.output_id ≡ s.control.output_id)
      × (ids c s'.connectors ≡ s.control.output_id ∷ [])

  only_output :
      (s : Bus W P) (o : ℕ)
      → IsBus c s
      → s.control.input_id ≡ o
      → s.control.output_id ≡ o
      → ids c s.connectors ≡ o ∷ []
  only_output s o bus e e' =
      let one : suc (sub32 s.control.output_id s.control.input_id) ≡ 1 =
        omega (arith, e, e', bus.0) in
      bus.2
      ∙ ap (span s.control.input_id) one
      ∙ span_one s.control.input_id bus.0
      ∙ ap (λ x. x ∷ []) e

  get_loop-Empties :
      (fuel : ℕ) (s : Bus W P)
      → IsBus c s
      → behind s < fuel
      → Empties s none (get_loop c output_get fuel s)
  unfolding get_loop output_get
  get_loop-Empties zero s bus h = absurd (omega arith)
  get_loop-Empties (suc fuel) s bus h =
      let t = try_remove-Removes c s bus in
      elim (Removes-cases c s bus t.0 t.2) [
        | inl a ↦
            let r = get_loop-Empties fuel t.0.0 a.1 (omega (arith, a.2)) in
            (
              r.0,
              rw (t.1, a.0) r.1,
              r.2,
              omega (arith, r.3, a.4),
              omega (arith, r.4, a.4),
              r.5 ∙ ap (λ x. x ∷ []) a.4,
            )
        | inr a ↦
            let i = ap (λ k. k.input_id) a.2 in
            let o = ap (λ k. k.output_id) a.2 in
            let i' : t.0.0.control.input_id ≡ s.control.output_id =
              omega (arith, i, a.3, bus.0, bus.1) in
            (t.0.0, rw (t.1, a.0), a.1, i', o, only_output t.0.0 s.control.output_id a.1 i' o)
      ]

  pop_loop-Empties :
      (fuel : ℕ) (s : Bus W P)
      → IsBus c s
      → behind s < fuel
      → Empties s false (pop_loop c output_pop fuel s)
  unfolding pop_loop output_pop
  pop_loop-Empties zero s bus h = absurd (omega arith)
  pop_loop-Empties (suc fuel) s bus h =
      let t = try_remove-Removes c s bus in
      elim (Removes-cases c s bus t.0 t.2) [
        | inl a ↦
            let r = pop_loop-Empties fuel t.0.0 a.1 (omega (arith, a.2)) in
            (
              r.0,
              rw (t.1, a.0) r.1,
              r.2,
              omega (arith, r.3, a.4),
              omega (arith, r.4, a.4),
              r.5 ∙ ap (λ x. x ∷ []) a.4,
            )
        | inr a ↦
            let i = ap (λ k. k.input_id) a.2 in
            let o = ap (λ k. k.output_id) a.2 in
            let i' : t.0.0.control.input_id ≡ s.control.output_id =
              omega (arith, i, a.3, bus.0, bus.1) in
            (t.0.0, rw (t.1, a.0), a.1, i', o, only_output t.0.0 s.control.output_id a.1 i' o)
      ]

  -- `get` and `pop` of an open output bus return nothing and remove every connector but the output
  -- connector: the one connector that is left is that of the output identifier, which is the input
  -- identifier too then, whatever messages the removed connectors held. The connectors are those that
  -- the control block names before, in order, and there is fuel for those that can be removed.
  pub receive-Empties :
      (fuel : ℕ) (s : Bus W P)
      → IsBus c s
      → s.opened ≡ true
      → behind s < fuel
      → Empties s none (get fuel s) × Empties s false (pop fuel s)
  unfolding get pop
  receive-Empties fuel s bus e h =
      let g = get_loop-Empties fuel s bus h in
      let p = pop_loop-Empties fuel s bus h in
      (
        (
          g.0,
          ap (λ b. if b then get_loop c output_get fuel s else done (s, none)) e ∙ g.1,
          g.2,
          g.3,
          g.4,
          g.5,
        ),
        (
          p.0,
          ap (λ b. if b then pop_loop c output_pop fuel s else done (s, false)) e ∙ p.1,
          p.2,
          p.3,
          p.4,
          p.5,
        ),
      )
