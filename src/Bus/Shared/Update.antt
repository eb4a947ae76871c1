-- ===== src/Bus/Shared/Update.antt =====
-- `update_connectors` of `shared_bus` (qbus/bus.cpp): what it returns, and how far it comes.
use qbus.Prelude.{
  ℕ, zero, suc, ℕ_discrete, ◌+◌, ◌^◌, ◌<◌, ◌≤◌, ◌≡◌, ◌⊎◌, inl, inr, refl, arith, Bool, true, false,
  Run, done, sub32, ==_true, ==_false, ap, ◌∙◌,
}
use qbus.Bus.{Connectors, try_add}
use qbus.Bus.Laws.{IsBus, Adds-cases, Removes-cases, try_add-Adds, try_remove-Removes}
use qbus.Bus.Shared.{
  SharedBus, Status, us_none, us_input, us_output, us_both, is_none, is_updated, with_input,
  output_loop, update_output, update_input, update_all, update_connectors,
}
use qbus.Bus.Shared.Laws.{IsShared, local_view, lag, input_lag, stored, grow-local, shrink-local}

module _ {W P M : Type 0} (c : Connectors W P M) where
  -- The connectors up to `output_id` are added, or an attempt to add one has failed.
  abbrev Grows : SharedBus W P → (output_id : ℕ) → Run (SharedBus W P × Bool) → Type 0
  Grows s output_id out =
      (s' : SharedBus W P) × (ok : Bool) × (out ≡ done (s', ok))
      × IsBus c (local_view s')
      × (s'.bus.control ≡ s.bus.control)
      × (s'.status ≡ s.status)
      × (s'.local.input_id ≡ s.local.input_id)
      × (((ok ≡ true) × (s'.local.output_id ≡ output_id))
          ⊎ ((ok ≡ false)
              × (sub32 output_id s'.local.output_id ≤ sub32 output_id s.local.output_id)))

  output_loop-Grows :
      (fuel : ℕ) (s : SharedBus W P) (output_id : ℕ)
      → IsBus c (local_view s)
      → is_none s.status ≡ false
      → output_id < 2 ^ 32
      → sub32 output_id s.local.output_id < fuel
      → Grows s output_id (output_loop c fuel s output_id)
  unfolding output_loop
  output_loop-Grows zero s output_id bus st r h = absurd (omega arith)
  output_loop-Grows (suc fuel) s output_id bus st r h =
      elim (ℕ_discrete output_id s.local.output_id) [
        | yes e ↦ (s, true, rw (==_true _ _ e), bus, refl, refl, refl, inl (refl, omega arith))
        | no ne ↦
            let out = try_add c (local_view s) in
            let s1 : SharedBus W P = stored s out.0 in
            elim (Adds-cases c (local_view s) bus out (try_add-Adds c (local_view s) bus)) [
              | inl a ↦
                  let rest =
                    output_loop-Grows fuel s1 output_id a.1 st r (omega (arith, a.3, bus.1)) in
                  (
                    rest.0,
                    rest.1,
                    rw (==_false _ _ ne, grow-local c s st, a.0) rest.2,
                    rest.3,
                    rest.4,
                    rest.5,
                    omega (arith, rest.6, a.4),
                    elim rest.7 [
                      | inl d ↦ inl d
                      | inr d ↦ inr (d.0, omega (arith, d.1, a.3, bus.1))
                    ],
                  )
              | inr a ↦ (
                s1,
                false,
                rw (==_false _ _ ne, grow-local c s st, a.0),
                a.1,
                refl,
                refl,
                ap (λ k. k.input_id) a.2,
                inr (refl, omega (arith, ap (λ k. k.output_id) a.2)),
              )
            ]
      ]

  -- The connectors of a bus are up to date, or an attempt to add one has failed.
  abbrev Outputs : SharedBus W P → Run (SharedBus W P × Bool) → Type 0
  Outputs s out =
      (s' : SharedBus W P) × (ok : Bool) × (out ≡ done (s', ok))
      × IsBus c (local_view s')
      × (s'.bus.control ≡ s.bus.control)
      × (s'.local.input_id ≡ s.local.input_id)
      × (((ok ≡ true) × (s'.status ≡ s.status) × (lag s ≡ 0) × (lag s' ≡ 0))
          ⊎ ((ok ≡ true) × (s'.status ≡ us_output) × (0 < lag s) × (lag s' ≡ 0))
          ⊎ ((ok ≡ false) × (lag s' ≤ lag s)))

  update_output-Outputs :
      (fuel : ℕ) (s : SharedBus W P)
      → IsShared c s
      → lag s < fuel
      → Outputs s (update_output c fuel s)
  unfolding update_output is_none
  update_output-Outputs fuel s (none, bus, i, o) h =
      elim (ℕ_discrete s.bus.control.output_id s.local.output_id) [
        | yes e ↦ (
          s,
          true,
          rw (==_true _ _ e),
          bus,
          refl,
          refl,
          inl (refl, refl, omega arith, omega arith),
        )
        | no ne ↦
            let s0 : SharedBus W P = record s { status = us_output } in
            let r = output_loop-Grows fuel s0 s.bus.control.output_id bus refl o h in
            (
              r.0,
              r.1,
              rw (==_false _ _ ne) r.2,
              r.3,
              r.4,
              r.6,
              elim r.7 [
                | inl d ↦ inr (
                    inl (
                      d.0,
                      r.5,
                      omega (arith, bus.1),
                      omega (arith, d.1, ap (λ k. k.output_id) r.4, o),
                    ))
                | inr d ↦ inr (inr (d.0, omega (arith, d.1, ap (λ k. k.output_id) r.4)))
              ],
            )
      ]

  -- At most one connector is removed: then the bus is one connector less behind.
  abbrev Inputs : SharedBus W P → Run (SharedBus W P × Bool) → Type 0
  Inputs s out =
      (s' : SharedBus W P) × (ok : Bool) × (out ≡ done (s', ok))
      × IsBus c (local_view s')
      × (s'.bus.control ≡ s.bus.control)
      × (s'.local.output_id ≡ s.local.output_id)
      × (((ok ≡ true) × (s'.status ≡ s.status) × (input_lag s ≡ 0) × (input_lag s' ≡ 0))
          ⊎ ((ok ≡ true) × (s'.status ≡ with_input s.status) × (input_lag s' + 1 ≡ input_lag s))
          ⊎ ((ok ≡ false) × (input_lag s' ≡ input_lag s)))

  with_input-updating : (status : Status) → is_none (with_input status) ≡ false
  unfolding is_none with_input
  with_input-updating us_none = refl
  with_input-updating us_input = refl
  with_input-updating us_output = refl
  with_input-updating us_both = refl

  update_input-Inputs :
      (s : SharedBus W P)
      → IsBus c (local_view s)
      → s.bus.control.input_id < 2 ^ 32
      → Inputs s (update_input c s)
  unfolding update_input
  update_input-Inputs s bus i = elim (ℕ_discrete s.bus.control.input_id s.local.input_id) [
    | yes e ↦
        (s, true, rw (==_true _ _ e), bus, refl, refl, inl (refl, refl, omega arith, omega arith))
    | no ne ↦
        let s0 : SharedBus W P = record s { status = with_input s.status } in
        let st = with_input-updating s.status in
        let t = try_remove-Removes c (local_view s) bus in
        let e = shrink-local c s0 t.0 st t.1 in
        elim (Removes-cases c (local_view s) bus t.0 t.2) [
          | inl a ↦ (
            stored s0 t.0.0,
            true,
            rw (==_false _ _ ne, e, a.0),
            a.1,
            refl,
            a.4,
            inr (inl (refl, refl, omega (arith, a.3, bus.0, i))),
          )
          | inr a ↦ (
            stored s0 t.0.0,
            false,
            rw (==_false _ _ ne, e, a.0),
            a.1,
            refl,
            ap (λ k. k.output_id) a.2,
            inr (inr (refl, omega (arith, ap (λ k. k.input_id) a.2))),
          )
        ]
  ]

  -- How far an update comes, for each status it returns.
  abbrev pub Moved : SharedBus W P → SharedBus W P → Status → Type 0
  Moved s s' us_none = (lag s' ≤ lag s) × (input_lag s' ≡ input_lag s)
  Moved s s' us_input = (lag s ≡ 0) × (lag s' ≡ 0) × (input_lag s' + 1 ≡ input_lag s)
  Moved s s' us_output = (0 < lag s) × (lag s' ≡ 0) × (input_lag s ≡ 0) × (input_lag s' ≡ 0)
  Moved s s' us_both = (0 < lag s) × (lag s' ≡ 0) × (input_lag s' + 1 ≡ input_lag s)

  -- An update that returns, and leaves the shared control block as it was.
  abbrev pub Updates : SharedBus W P → Run (SharedBus W P × Status) → Type 0
  Updates s out =
      (s' : SharedBus W P) × (status : Status) × (out ≡ done (s', status))
      × IsShared c s'
      × (s'.bus.control ≡ s.bus.control)
      × Moved s s' status

  update_all-Updates :
      (fuel : ℕ) (s : SharedBus W P) → IsShared c s → lag s < fuel → Updates s (update_all c fuel s)
  unfolding update_all with_input
  update_all-Updates fuel s shared h =
      let a = update_output-Outputs fuel s shared h in
      let i = update_input-Inputs a.0 a.3 (omega (arith, shared.2, ap (λ k. k.input_id) a.4)) in
      let out = ap (λ k. k.output_id) a.4 in
      let inp = ap (λ k. k.input_id) a.4 in
      let end : SharedBus W P = record i.0 { status = s.status } in
      let at_end : IsShared c end = (
        shared.0,
        i.3,
        omega (arith, shared.2, inp, ap (λ k. k.input_id) i.4),
        omega (arith, shared.3, out, ap (λ k. k.output_id) i.4),
      ) in
      let control : end.bus.control ≡ s.bus.control = i.4 ∙ a.4 in
      let lags : lag end ≡ lag a.0 = omega (arith, i.5, ap (λ k. k.output_id) i.4) in
      let input_lags : input_lag a.0 ≡ input_lag s = omega (arith, inp, a.5) in
      let st = shared.0 in
      elim a.6 [
        | inl d ↦ elim i.6 [
          | inl e ↦ (
            end,
            us_none,
            rw (a.2, d.0, i.2, e.0, e.1, d.1, st),
            at_end,
            control,
            (omega (arith, lags, d.2, d.3), omega (arith, input_lags, e.2, e.3)),
          )
          | inr (inl e) ↦ (
            end,
            us_input,
            rw (a.2, d.0, i.2, e.0, e.1, d.1, st),
            at_end,
            control,
            (d.2, omega (arith, lags, d.3), omega (arith, input_lags, e.2)),
          )
          | inr (inr e) ↦ (
            end,
            us_none,
            rw (a.2, d.0, i.2, e.0),
            at_end,
            control,
            (omega (arith, lags, d.2, d.3), omega (arith, input_lags, e.1)),
          )
        ]
        | inr (inl d) ↦ elim i.6 [
          | inl e ↦ (
            end,
            us_output,
            rw (a.2, d.0, i.2, e.0, e.1, d.1),
            at_end,
            control,
            (d.2, omega (arith, lags, d.3), omega (arith, input_lags, e.2), e.3),
          )
          | inr (inl e) ↦ (
            end,
            us_both,
            rw (a.2, d.0, i.2, e.0, e.1, d.1),
            at_end,
            control,
            (d.2, omega (arith, lags, d.3), omega (arith, input_lags, e.2)),
          )
          | inr (inr e) ↦ (
            end,
            us_none,
            rw (a.2, d.0, i.2, e.0),
            at_end,
            control,
            (omega (arith, lags, d.2, d.3), omega (arith, input_lags, e.1)),
          )
        ]
        | inr (inr d) ↦ (
          record a.0 { status = s.status },
          us_none,
          rw (a.2, d.0),
          (st, a.3, omega (arith, shared.2, inp), omega (arith, shared.3, out)),
          a.4,
          (d.1, input_lags),
        )
      ]

  Moved-stale :
      (s s' : SharedBus W P) (epoch : ℕ) (status : Status)
      → Moved (record s { local = record s.local { epoch = epoch } }) s' status
      → Moved s s' status
  Moved-stale s s' epoch us_none m = m
  Moved-stale s s' epoch us_input m = m
  Moved-stale s s' epoch us_output m = m
  Moved-stale s s' epoch us_both m = m

  -- On a bus that has exactly the connectors from the output to the input identifier of its copy of
  -- the control block, in this order, `update_connectors` returns, with fuel for the connectors that
  -- other processes have added. It leaves the shared control block as it was, and the bus has
  -- exactly the connectors from the output to the input identifier of the copy then, in this order.
  -- A status with `US_OUTPUT` says that the output connectors were not up to date and are, one with
  -- `US_INPUT` that the bus is one input connector less behind, and `US_NONE` that the bus is not
  -- further behind than before.
  pub update_connectors-Updates :
      (fuel : ℕ) (s : SharedBus W P)
      → IsShared c s
      → lag s < fuel
      → Updates s (update_connectors c fuel s)
  unfolding update_connectors is_updated
  update_connectors-Updates fuel s shared h = elim (ℕ_discrete s.bus.control.epoch s.local.epoch) [
    | yes e ↦ (s, us_none, rw (==_true _ _ e), shared, refl, (omega arith, refl))
    | no ne ↦
        let s0 : SharedBus W P = record s {
          local = record s.local { epoch = s.bus.control.epoch };
        } in
        let r = update_all-Updates fuel s0 shared h in
        (
          r.0,
          r.1,
          rw (==_false _ _ ne) r.2,
          r.3,
          r.4,
          Moved-stale s r.0 s.bus.control.epoch r.1 r.5,
        )
  ]
