-- ===== src/Bus/Loops.antt =====
-- The loops of `push`, `get`, `pop` and `do_open` of `base_bus` (qbus/bus.cpp) end, and leave a bus
-- whose list of connectors agrees with its control block.
use qbus.Prelude.{
  ℕ, zero, suc, ◌+◌, ◌^◌, ◌<◌, ◌≡◌, ◌⊎◌, Option, inl, inr, refl, arith, Bool, true, false, subst,
  ap, sym, ◌∙◌, if◌then◌else◌, [], ◌∷◌, List, length, none, some, Run, done, u32, sub32, Bool-cases,
  Option-cases, ==_true, ==_false, ℕ_discrete,
}
use qbus.Timespec.{Timespec}
use qbus.Bus.Names.{ids, span, Named, make_connector-Named, ids-empty}
use qbus.Bus.{Bus, Connectors, try_add, open_loop, do_open, make_connector, drop_all}
use qbus.Bus.Calls
use qbus.Bus.Calls.{
  at_output, at_input, do_push, do_get, do_pop, do_timed_push, do_timed_get, do_timed_pop,
  push_loop, get_loop, pop_loop,
}
use qbus.Bus.Laws.{
  IsBus, length-IsBus, spare, behind, front-some, back-some, try_add-Adds, try_remove-Removes,
  Adds-cases, Removes-cases,
}

module _ {W P M : Type 0} (c : Connectors W P M) where
  -- A call that returns, and leaves a bus.
  abbrev pub Returns : {A : Type 0} → Run (Bus W P × A) → Type 0
  Returns {A = A} out = (s' : Bus W P) × (a : A) × (out ≡ done (s', a)) × IsBus c s'

  -- An attempt that returns and leaves a bus of the same connectors.
  abbrev Attempts : {A : Type 0} → (Bus W P → Run (Bus W P × A)) → Type 0
  Attempts {A = A} f =
      (s : Bus W P) → IsBus c s → (w : W) × (a : A) × (f s ≡ done (record s { world = w }, a))

  at_output-Attempts : {A : Type 0} (call : W → P → W × A) → Attempts (at_output c call)
  unfolding at_output
  at_output-Attempts call s bus =
      let f = front-some s.connectors _ (length-IsBus c s bus) in
      ((call s.world f.0).0, (call s.world f.0).1, rw f.1)

  at_input-Attempts : {A : Type 0} (call : W → P → W × A) → Attempts (at_input c call)
  unfolding at_input
  at_input-Attempts call s bus =
      let f = back-some s.connectors _ (length-IsBus c s bus) in
      ((call s.world f.0).0, (call s.world f.0).1, rw f.1)

  push_loop-Returns :
      (f : Bus W P → Run (Bus W P × Bool))
      → Attempts f
      → (fuel : ℕ) (s : Bus W P) → IsBus c s
      → spare s < fuel
      → Returns (push_loop c f fuel s)
  unfolding push_loop
  push_loop-Returns f tries zero s bus h = absurd (omega arith)
  push_loop-Returns f tries (suc fuel) s bus h =
      let t = tries s bus in
      let s1 : Bus W P = record s { world = t.0 } in
      let out = try_add c s1 in
      elim (Bool-cases t.1) [
        | inl e ↦ (s1, true, rw (t.2, e), bus)
        | inr e ↦ elim (Adds-cases c s1 bus out (try_add-Adds c s1 bus)) [
          | inl a ↦
              let r = push_loop-Returns f tries fuel out.0 a.1 (omega (arith, a.2)) in
              (r.0, r.1, rw (t.2, e, a.0) r.2, r.3)
          | inr a ↦ (out.0, false, rw (t.2, e, a.0), a.1)
        ]
      ]

  pop_loop-Returns :
      (f : Bus W P → Run (Bus W P × Bool))
      → Attempts f
      → (fuel : ℕ) (s : Bus W P) → IsBus c s
      → behind s < fuel
      → Returns (pop_loop c f fuel s)
  unfolding pop_loop
  pop_loop-Returns f tries zero s bus h = absurd (omega arith)
  pop_loop-Returns f tries (suc fuel) s bus h =
      let a = tries s bus in
      let s1 : Bus W P = record s { world = a.0 } in
      let t = try_remove-Removes c s1 bus in
      elim (Bool-cases a.1) [
        | inl e ↦ (s1, true, rw (a.2, e), bus)
        | inr e ↦ elim (Removes-cases c s1 bus t.0 t.2) [
          | inl b ↦
              let r = pop_loop-Returns f tries fuel t.0.0 b.1 (omega (arith, b.2)) in
              (r.0, r.1, rw (a.2, e, t.1, b.0) r.2, r.3)
          | inr b ↦ (t.0.0, false, rw (a.2, e, t.1, b.0), b.1)
        ]
      ]

  get_loop-Returns :
      (f : Bus W P → Run (Bus W P × Option M))
      → Attempts f
      → (fuel : ℕ) (s : Bus W P) → IsBus c s
      → behind s < fuel
      → Returns (get_loop c f fuel s)
  unfolding get_loop
  get_loop-Returns f tries zero s bus h = absurd (omega arith)
  get_loop-Returns f tries (suc fuel) s bus h =
      let a = tries s bus in
      let s1 : Bus W P = record s { world = a.0 } in
      let t = try_remove-Removes c s1 bus in
      elim (Option-cases a.1) [
        | inr e ↦ (s1, some e.0, rw (a.2, e.1), bus)
        | inl e ↦ elim (Removes-cases c s1 bus t.0 t.2) [
          | inl b ↦
              let r = get_loop-Returns f tries fuel t.0.0 b.1 (omega (arith, b.2)) in
              (r.0, r.1, rw (a.2, e, t.1, b.0) r.2, r.3)
          | inr b ↦ (t.0.0, none, rw (a.2, e, t.1, b.0), b.1)
        ]
      ]

  gated :
      {A : Type 0} (b : Bool) (r : Run (Bus W P × A)) (s : Bus W P) (a : A)
      → IsBus c s
      → Returns r
      → Returns (if b then r else done (s, a))
  gated true r s a bus h = h
  gated false r s a bus h = (s, a, refl, bus)

  -- On a bus that has exactly the connectors from its output to its input identifier, in this order,
  -- `push`, with a timeout or without one, returns, whatever the connectors answer, with fuel for
  -- every connector that can still be added: no dereference fails, and the bus has exactly the
  -- connectors from its output to its input identifier then, in this order.
  pub push-Returns :
      (fuel : ℕ) (s : Bus W P) (tag : ℕ) (source : List ℕ) (timeout : Timespec)
      → IsBus c s
      → spare s < fuel
      → Returns (Calls.push c fuel s tag source)
        × Returns (Calls.timed_push c fuel s tag source timeout)
  unfolding Calls.push Calls.timed_push do_push do_timed_push
  push-Returns fuel s tag source timeout bus h = (
    gated s.opened _ s false bus
        (push_loop-Returns _ (at_output-Attempts (λ w p. c.push w p tag source)) fuel s bus h),
    gated s.opened _ s false bus (
        push_loop-Returns _ (at_output-Attempts (λ w p. c.timed_push w p tag source timeout)) fuel s
          bus h),
  )

  -- On a bus that has exactly the connectors from its output to its input identifier, in this order,
  -- `get`, with a timeout or without one, returns, whatever the connectors answer, with fuel for
  -- every connector that can be removed: no dereference fails, and the bus has exactly the
  -- connectors from its output to its input identifier then, in this order.
  pub get-Returns :
      (fuel : ℕ) (s : Bus W P) (timeout : Timespec)
      → IsBus c s
      → behind s < fuel
      → Returns (Calls.get c fuel s) × Returns (Calls.timed_get c fuel s timeout)
  unfolding Calls.get Calls.timed_get do_get do_timed_get
  get-Returns fuel s timeout bus h = (
    gated s.opened _ s none bus (get_loop-Returns _ (at_input-Attempts c.get) fuel s bus h),
    gated s.opened _ s none bus
        (get_loop-Returns _ (at_input-Attempts (λ w p. c.timed_get w p timeout)) fuel s bus h),
  )

  -- On a bus that has exactly the connectors from its output to its input identifier, in this order,
  -- `pop`, with a timeout or without one, returns, whatever the connectors answer, with fuel for
  -- every connector that can be removed: no dereference fails, and the bus has exactly the
  -- connectors from its output to its input identifier then, in this order.
  pub pop-Returns :
      (fuel : ℕ) (s : Bus W P) (timeout : Timespec)
      → IsBus c s
      → behind s < fuel
      → Returns (Calls.pop c fuel s) × Returns (Calls.timed_pop c fuel s timeout)
  unfolding Calls.pop Calls.timed_pop do_pop do_timed_pop
  pop-Returns fuel s timeout bus h = (
    gated s.opened _ s false bus (pop_loop-Returns _ (at_input-Attempts c.pop) fuel s bus h),
    gated s.opened _ s false bus
        (pop_loop-Returns _ (at_input-Attempts (λ w p. c.timed_pop w p timeout)) fuel s bus h),
  )

  -- How opening ends: with all of the connectors, or with none, and the control block as it was.
  abbrev pub Opens : Bus W P → Run (Bus W P × Bool) → Type 0
  Opens s out =
      (s' : Bus W P) × (b : Bool) × (out ≡ done (s', b))
      × (s'.control ≡ s.control)
      × (((b ≡ true) × IsBus c s') ⊎ ((b ≡ false) × (length s'.connectors ≡ 0)))

  -- The bus with one more connector open.
  abbrev with_opened : Bus W P → W → P → Bus W P
  with_opened s w p = record s { world = w; connectors = p ∷ s.connectors }

  open_loop-next :
      (fuel : ℕ) (s : Bus W P) (id : ℕ) (p : P)
      → (make_connector c s id).1 ≡ some p
      → (id ≡ s.control.output_id → ⊥)
      → Opens s (open_loop c fuel (with_opened s (make_connector c s id).0 p) (u32 (id + 1)))
      → Opens s (open_loop c (suc fuel) s id)
  unfolding open_loop
  open_loop-next fuel s id p e ne r = (r.0, r.1, rw (e, open_loop, ==_false _ _ ne) r.2, r.3, r.4)

  open_loop-last :
      (fuel : ℕ) (s : Bus W P) (id : ℕ) (p : P)
      → (make_connector c s id).1 ≡ some p
      → id ≡ s.control.output_id
      → IsBus c (with_opened s (make_connector c s id).0 p)
      → Opens s (open_loop c (suc fuel) s id)
  unfolding open_loop
  open_loop-last fuel s id p e same bus = (
    with_opened s (make_connector c s id).0 p,
    true,
    rw (e, open_loop, ==_true _ _ same),
    refl,
    inl (refl, bus),
  )

  -- The connectors from the input one to `id`, once that is open too.
  opened_ids :
      (s : Bus W P) (id : ℕ) (p : P)
      → id < 2 ^ 32
      → s.control.input_id < 2 ^ 32
      → (make_connector c s id).1 ≡ some p
      → ids c s.connectors ≡ span s.control.input_id (sub32 id s.control.input_id)
      → ids c (p ∷ s.connectors) ≡ span s.control.input_id (suc (sub32 id s.control.input_id))
  opened_ids s id p l i e n =
      let named : c.id_of p ≡ id = subst (Named c id) e (make_connector-Named c s id) in
      let last : id ≡ u32 (s.control.input_id + sub32 id s.control.input_id) = omega arith in
      ap (λ x. x ∷ ids c s.connectors) (named ∙ last)
      ∙ ap (λ xs. u32 (s.control.input_id + sub32 id s.control.input_id) ∷ xs) n

  open_loop-Opens :
      (fuel : ℕ) (s : Bus W P) (id : ℕ)
      → s.control.input_id < 2 ^ 32
      → s.control.output_id < 2 ^ 32
      → id < 2 ^ 32
      → ids c s.connectors ≡ span s.control.input_id (sub32 id s.control.input_id)
      → sub32 s.control.output_id id < fuel
      → sub32 id s.control.input_id + sub32 s.control.output_id id
        ≡ sub32 s.control.output_id s.control.input_id
      → Opens s (open_loop c fuel s id)
  unfolding open_loop
  open_loop-Opens zero s id i o l n h d = absurd (omega arith)
  open_loop-Opens (suc fuel) s id i o l n h d = elim (Option-cases (make_connector c s id).1) [
    | inl e ↦
        let w = (make_connector c s id).0 in
        (
          record s { world = drop_all c w s.connectors; connectors = [] },
          false,
          rw (e, open_loop),
          refl,
          inr (refl, refl),
        )
    | inr e ↦
        let input = s.control.input_id in
        let all = opened_ids s id e.0 l i e.1 n in
        elim (ℕ_discrete id s.control.output_id) [
          | yes same ↦
              open_loop-last fuel s id e.0 e.1 same
                (i, o, all ∙ ap (λ x. span input (suc (sub32 x input))) same)
          | no ne ↦
              let one_more : suc (sub32 id input) ≡ sub32 (u32 (id + 1)) input = omega arith in
              open_loop-next fuel s id e.0 e.1 ne (
                open_loop-Opens fuel (with_opened s (make_connector c s id).0 e.0) (u32 (id + 1)) i
                  o (omega arith) (all ∙ ap (span input) one_more) (omega arith) (omega arith))
        ]
  ]

  -- `do_open` of a bus without connectors returns, with fuel for every connector that the control
  -- block names, and leaves the control block as it was. It returns true with exactly these
  -- connectors, the one of the output identifier first and that of the input identifier last, or
  -- false with none.
  pub do_open-Opens :
      (fuel : ℕ) (s : Bus W P)
      → s.control.input_id < 2 ^ 32
      → s.control.output_id < 2 ^ 32
      → length s.connectors ≡ 0
      → behind s < fuel
      → Opens s (do_open c fuel s)
  unfolding do_open
  do_open-Opens fuel s i o n h =
      let none_yet : sub32 s.control.input_id s.control.input_id ≡ 0 = omega arith in
      open_loop-Opens fuel s s.control.input_id i o i
        (ids-empty c s.connectors n ∙ sym (ap (span s.control.input_id) none_yet)) h (omega arith)
