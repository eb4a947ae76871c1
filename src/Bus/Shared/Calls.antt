-- ===== src/Bus/Shared/Calls.antt =====
-- The messages of `shared_bus` (qbus/bus.cpp): `do_push`, `do_get` and `do_pop`, which bring the
-- connectors up to date before and after the calls of `base_bus`.
use qbus.Prelude.{
  ℕ, zero, suc, Bool, true, false, if◌then◌else◌, List, Option, none, some, Run, done, spent, ◌>>=◌,
}
use qbus.Timespec.{Timespec}
use qbus.Bus.{Bus, Connectors}
use qbus.Bus.Calls
use qbus.Bus.Shared.{SharedBus, view, store, update_input_connector, update_output_connector}

module _ {W P : Type 0} where
  -- A method of `base_bus` on a shared bus.
  unfoldable pub base :
      {A : Type 0} → (Bus W P → Run (Bus W P × A)) → SharedBus W P → Run (SharedBus W P × A)
  base method s = do (b, result) ← method (view s); done (store s b, result)

module _ {W P M : Type 0} (c : Connectors W P M) where
  -- The loop of `do_push`, over the push of `base_bus`: `fuel` bounds each update.
  unfoldable pub push_rounds :
      (SharedBus W P → Run (SharedBus W P × Bool))
      → ℕ
      → ℕ
      → SharedBus W P
      → Run (SharedBus W P × Bool)
  push_rounds attempt zero fuel s = spent
  push_rounds attempt (suc rounds) fuel s = do
    (s1, result) ← attempt s
    elim result [
      | false ↦ done (s1, false)
      | true ↦ do
        (s2, again) ← update_output_connector c fuel s1
        let rest = push_rounds attempt rounds fuel s2
        if again then rest else done (s2, true)
    ]

  -- `do_push`, of the push that each round makes.
  unfoldable pub updated_push :
      (SharedBus W P → Run (SharedBus W P × Bool)) → ℕ → SharedBus W P → Run (SharedBus W P × Bool)
  updated_push attempt fuel s = do
    (s', updated) ← update_output_connector c fuel s
    push_rounds attempt fuel fuel s'

  unfoldable pub get_rounds :
      (SharedBus W P → Run (SharedBus W P × Option M))
      → ℕ
      → ℕ
      → SharedBus W P
      → Run (SharedBus W P × Option M)
  get_rounds attempt zero fuel s = spent
  get_rounds attempt (suc rounds) fuel s = do
    (s1, pmessage) ← attempt s
    elim pmessage [
      | some m ↦ done (s1, some m)
      | none ↦ do
        (s2, again) ← update_input_connector c fuel s1
        let rest = get_rounds attempt rounds fuel s2
        if again then rest else done (s2, none)
    ]

  unfoldable pub pop_rounds :
      (SharedBus W P → Run (SharedBus W P × Bool))
      → ℕ
      → ℕ
      → SharedBus W P
      → Run (SharedBus W P × Bool)
  pop_rounds attempt zero fuel s = spent
  pop_rounds attempt (suc rounds) fuel s = do
    (s1, result) ← attempt s
    elim result [
      | true ↦ done (s1, true)
      | false ↦ do
        (s2, again) ← update_input_connector c fuel s1
        let rest = pop_rounds attempt rounds fuel s2
        if again then rest else done (s2, false)
    ]

  unfoldable pub do_push : ℕ → SharedBus W P → ℕ → List ℕ → Run (SharedBus W P × Bool)
  do_push fuel s tag source = updated_push (base (λ b. Calls.do_push c b tag source)) fuel s

  unfoldable pub do_timed_push :
      ℕ → SharedBus W P → ℕ → List ℕ → Timespec → Run (SharedBus W P × Bool)
  do_timed_push fuel s tag source timeout =
      updated_push (base (λ b. Calls.do_timed_push c b tag source timeout)) fuel s

  unfoldable pub do_get : ℕ → SharedBus W P → Run (SharedBus W P × Option M)
  do_get fuel s = get_rounds (base (Calls.do_get c)) fuel fuel s

  unfoldable pub do_timed_get : ℕ → SharedBus W P → Timespec → Run (SharedBus W P × Option M)
  do_timed_get fuel s timeout = get_rounds (base (λ b. Calls.do_timed_get c b timeout)) fuel fuel s

  unfoldable pub do_pop : ℕ → SharedBus W P → Run (SharedBus W P × Bool)
  do_pop fuel s = pop_rounds (base (Calls.do_pop c)) fuel fuel s

  unfoldable pub do_timed_pop : ℕ → SharedBus W P → Timespec → Run (SharedBus W P × Bool)
  do_timed_pop fuel s timeout = pop_rounds (base (λ b. Calls.do_timed_pop c b timeout)) fuel fuel s
