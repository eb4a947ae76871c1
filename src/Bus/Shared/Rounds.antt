-- ===== src/Bus/Shared/Rounds.antt =====
-- `do_push`, `do_get` and `do_pop` of `shared_bus` (qbus/bus.cpp) end.
use qbus.Prelude.{
  ℕ, zero, suc, ◌+◌, ◌<◌, ◌≤◌, ◌≡◌, ◌⊎◌, inl, inr, refl, arith, Bool, true, false, Option, none,
  some, Run, done, Bool-cases, Option-cases,
}
use qbus.Bus.{Connectors}
use qbus.Bus.Shared.{
  SharedBus, Status, us_none, us_input, us_output, us_both, has_input, has_output,
  update_input_connector, update_output_connector,
}
use qbus.Bus.Shared.Calls.{push_rounds, get_rounds, pop_rounds, updated_push}
use qbus.Bus.Shared.Laws.{IsShared, lag, input_lag}
use qbus.Bus.Shared.Update.{Moved, update_connectors-Updates}

module _ {W P M : Type 0} (c : Connectors W P M) where
  -- The update before and after a push.
  abbrev OutputUpdates : SharedBus W P → Run (SharedBus W P × Bool) → Type 0
  OutputUpdates s out =
      (s' : SharedBus W P) × (again : Bool) × (out ≡ done (s', again))
      × IsShared c s'
      × (((again ≡ true) × (0 < lag s) × (lag s' ≡ 0)) ⊎ ((again ≡ false) × (lag s' ≤ lag s)))

  output_cases :
      (s s' : SharedBus W P) (status : Status)
      → Moved c s s' status
      → ((has_output status ≡ true) × (0 < lag s) × (lag s' ≡ 0))
        ⊎ ((has_output status ≡ false) × (lag s' ≤ lag s))
  unfolding has_output
  output_cases s s' us_none m = inr (refl, m.0)
  output_cases s s' us_input m = inr (refl, omega (arith, m.0, m.1))
  output_cases s s' us_output m = inl (refl, m.0, m.1)
  output_cases s s' us_both m = inl (refl, m.0, m.1)

  output-OutputUpdates :
      (fuel : ℕ) (s : SharedBus W P)
      → IsShared c s
      → lag s < fuel
      → OutputUpdates s (update_output_connector c fuel s)
  unfolding update_output_connector
  output-OutputUpdates fuel s shared h =
      let u = update_connectors-Updates c fuel s shared h in
      (u.0, has_output u.1, rw u.2, u.3, output_cases s u.0 u.1 u.5)

  abbrev InputUpdates : SharedBus W P → Run (SharedBus W P × Bool) → Type 0
  InputUpdates s out =
      (s' : SharedBus W P) × (again : Bool) × (out ≡ done (s', again))
      × IsShared c s'
      × (((again ≡ true) × (input_lag s' + 1 ≡ input_lag s) × (lag s' ≤ lag s)) ⊎ (again ≡ false))

  input_cases :
      (s s' : SharedBus W P) (status : Status)
      → Moved c s s' status
      → ((has_input status ≡ true) × (input_lag s' + 1 ≡ input_lag s) × (lag s' ≤ lag s))
        ⊎ (has_input status ≡ false)
  unfolding has_input
  input_cases s s' us_none m = inr refl
  input_cases s s' us_input m = inl (refl, m.2, omega (arith, m.0, m.1))
  input_cases s s' us_output m = inr refl
  input_cases s s' us_both m = inl (refl, m.2, omega (arith, m.0, m.1))

  input-InputUpdates :
      (fuel : ℕ) (s : SharedBus W P)
      → IsShared c s
      → lag s < fuel
      → InputUpdates s (update_input_connector c fuel s)
  unfolding update_input_connector
  input-InputUpdates fuel s shared h =
      let u = update_connectors-Updates c fuel s shared h in
      (u.0, has_input u.1, rw u.2, u.3, input_cases s u.0 u.1 u.5)

  -- An attempt that returns and changes nothing but the world.
  abbrev pub Attempts : {A : Type 0} → (SharedBus W P → Run (SharedBus W P × A)) → Type 0
  Attempts {A = A} f =
      (s : SharedBus W P)
      → IsShared c s
      → (w : W) × (a : A) × (f s ≡ done (record s { bus = record s.bus { world = w } }, a))

  -- A call that returns, and leaves the connectors that the copy of the control block names.
  abbrev pub Returns : {A : Type 0} → Run (SharedBus W P × A) → Type 0
  Returns {A = A} out = (s' : SharedBus W P) × (a : A) × (out ≡ done (s', a)) × IsShared c s'

  -- The second round finds the bus up to date.
  push_rounds-last :
      (f : SharedBus W P → Run (SharedBus W P × Bool))
      → Attempts f
      → (rounds fuel : ℕ) (s : SharedBus W P) → IsShared c s
      → lag s ≡ 0
      → 0 < fuel
      → Returns (push_rounds c f (suc rounds) fuel s)
  unfolding push_rounds
  push_rounds-last f tries rounds fuel s shared e h =
      let t = tries s shared in
      let s1 : SharedBus W P = record s { bus = record s.bus { world = t.0 } } in
      let u = output-OutputUpdates fuel s1 shared (omega (arith, e)) in
      elim (Bool-cases t.1) [
        | inr n ↦ (s1, false, rw (t.2, n), shared)
        | inl y ↦ elim u.4 [
          | inl a ↦ absurd (omega (arith, a.1, e))
          | inr a ↦ (u.0, true, rw (t.2, y, u.2, a.0), u.3)
        ]
      ]

  push_rounds-Returns :
      (f : SharedBus W P → Run (SharedBus W P × Bool))
      → Attempts f
      → (rounds fuel : ℕ) (s : SharedBus W P) → IsShared c s
      → lag s < fuel
      → Returns (push_rounds c f (suc (suc rounds)) fuel s)
  unfolding push_rounds
  push_rounds-Returns f tries rounds fuel s shared h =
      let t = tries s shared in
      let s1 : SharedBus W P = record s { bus = record s.bus { world = t.0 } } in
      let u = output-OutputUpdates fuel s1 shared h in
      elim (Bool-cases t.1) [
        | inr n ↦ (s1, false, rw (t.2, n), shared)
        | inl y ↦ elim u.4 [
          | inl a ↦
              let r = push_rounds-last f tries rounds fuel u.0 u.3 a.2 (omega arith) in
              (r.0, r.1, rw (t.2, y, u.2, a.0) r.2, r.3)
          | inr a ↦ (u.0, true, rw (t.2, y, u.2, a.0), u.3)
        ]
      ]

  pub updated_push-Returns :
      (f : SharedBus W P → Run (SharedBus W P × Bool))
      → Attempts f
      → (fuel : ℕ) (s : SharedBus W P) → IsShared c s
      → lag s + 2 ≤ fuel
      → Returns (updated_push c f fuel s)
  unfolding updated_push
  updated_push-Returns f tries zero s shared h = absurd (omega arith)
  updated_push-Returns f tries (suc zero) s shared h = absurd (omega arith)
  updated_push-Returns f tries (suc (suc n)) s shared h =
      let u = output-OutputUpdates (suc (suc n)) s shared (omega arith) in
      let less : lag u.0 ≤ lag s = elim u.4 [ inl a ↦ omega (arith, a.2) | inr a ↦ a.1 ] in
      let r = push_rounds-Returns f tries n (suc (suc n)) u.0 u.3 (omega (arith, less)) in
      (r.0, r.1, rw u.2 r.2, r.3)

  pub get_rounds-Returns :
      (f : SharedBus W P → Run (SharedBus W P × Option M))
      → Attempts f
      → (rounds fuel : ℕ) (s : SharedBus W P) → IsShared c s
      → input_lag s < rounds
      → lag s < fuel
      → Returns (get_rounds c f rounds fuel s)
  unfolding get_rounds
  get_rounds-Returns f tries zero fuel s shared h l = absurd (omega arith)
  get_rounds-Returns f tries (suc rounds) fuel s shared h l =
      let t = tries s shared in
      let s1 : SharedBus W P = record s { bus = record s.bus { world = t.0 } } in
      let u = input-InputUpdates fuel s1 shared l in
      elim (Option-cases t.1) [
        | inr y ↦ (s1, some y.0, rw (t.2, y.1), shared)
        | inl n ↦ elim u.4 [
          | inl a ↦
              let r =
                get_rounds-Returns f tries rounds fuel u.0 u.3 (omega (arith, a.1))
                  (omega (arith, a.2)) in
              (r.0, r.1, rw (t.2, n, u.2, a.0) r.2, r.3)
          | inr a ↦ (u.0, none, rw (t.2, n, u.2, a), u.3)
        ]
      ]

  pub pop_rounds-Returns :
      (f : SharedBus W P → Run (SharedBus W P × Bool))
      → Attempts f
      → (rounds fuel : ℕ) (s : SharedBus W P) → IsShared c s
      → input_lag s < rounds
      → lag s < fuel
      → Returns (pop_rounds c f rounds fuel s)
  unfolding pop_rounds
  pop_rounds-Returns f tries zero fuel s shared h l = absurd (omega arith)
  pop_rounds-Returns f tries (suc rounds) fuel s shared h l =
      let t = tries s shared in
      let s1 : SharedBus W P = record s { bus = record s.bus { world = t.0 } } in
      let u = input-InputUpdates fuel s1 shared l in
      elim (Bool-cases t.1) [
        | inl y ↦ (s1, true, rw (t.2, y), shared)
        | inr n ↦ elim u.4 [
          | inl a ↦
              let r =
                pop_rounds-Returns f tries rounds fuel u.0 u.3 (omega (arith, a.1))
                  (omega (arith, a.2)) in
              (r.0, r.1, rw (t.2, n, u.2, a.0) r.2, r.3)
          | inr a ↦ (u.0, false, rw (t.2, n, u.2, a), u.3)
        ]
      ]
