-- ===== src/Bus/Calls.antt =====
-- `push`, `get` and `pop` of `base_bus` (qbus/bus.cpp), with and without a timeout.
use qbus.Prelude.{
  ℕ, zero, suc, Bool, true, false, if◌then◌else◌, List, Option, none, some, Run, done, spent, ◌>>=◌,
}
use qbus.Timespec.{Timespec}
use qbus.Bus.{Bus, Connectors, front, back, deref, try_add, try_remove}

module _ {W P M : Type 0} (c : Connectors W P M) where
  -- A call of the output connector, and of the input connector.
  unfoldable pub at_output : {A : Type 0} → (W → P → W × A) → Bus W P → Run (Bus W P × A)
  at_output attempt s = do
    p ← deref (front s.connectors)
    let (w, result) = attempt s.world p
    done (record s { world = w }, result)

  unfoldable pub at_input : {A : Type 0} → (W → P → W × A) → Bus W P → Run (Bus W P × A)
  at_input attempt s = do
    p ← deref (back s.connectors)
    let (w, result) = attempt s.world p
    done (record s { world = w }, result)

  unfoldable pub do_push : Bus W P → ℕ → List ℕ → Run (Bus W P × Bool)
  do_push s tag source = at_output (λ w p. c.push w p tag source) s

  unfoldable pub do_get : Bus W P → Run (Bus W P × Option M)
  do_get s = at_input c.get s

  unfoldable pub do_pop : Bus W P → Run (Bus W P × Bool)
  do_pop s = at_input c.pop s

  unfoldable pub do_timed_push : Bus W P → ℕ → List ℕ → Timespec → Run (Bus W P × Bool)
  do_timed_push s tag source timeout = at_output (λ w p. c.timed_push w p tag source timeout) s

  unfoldable pub do_timed_get : Bus W P → Timespec → Run (Bus W P × Option M)
  do_timed_get s timeout = at_input (λ w p. c.timed_get w p timeout) s

  unfoldable pub do_timed_pop : Bus W P → Timespec → Run (Bus W P × Bool)
  do_timed_pop s timeout = at_input (λ w p. c.timed_pop w p timeout) s

  -- The loops of `push`, `get` and `pop`, over the attempt that each round makes.
  unfoldable pub push_loop : (Bus W P → Run (Bus W P × Bool)) → ℕ → Bus W P → Run (Bus W P × Bool)
  push_loop attempt zero s = spent
  push_loop attempt (suc fuel) s = do
    (s1, result) ← attempt s
    let (s2, ok) = try_add c s1
    let rest = push_loop attempt fuel s2
    if result then done (s1, true) else if ok then rest else done (s2, false)

  unfoldable pub get_loop :
      (Bus W P → Run (Bus W P × Option M)) → ℕ → Bus W P → Run (Bus W P × Option M)
  get_loop attempt zero s = spent
  get_loop attempt (suc fuel) s = do
    (s1, pmessage) ← attempt s
    elim pmessage [
      | some m ↦ done (s1, some m)
      | none ↦ do
        (s2, ok) ← try_remove c s1
        let rest = get_loop attempt fuel s2
        if ok then rest else done (s2, none)
    ]

  unfoldable pub pop_loop : (Bus W P → Run (Bus W P × Bool)) → ℕ → Bus W P → Run (Bus W P × Bool)
  pop_loop attempt zero s = spent
  pop_loop attempt (suc fuel) s = do
    (s1, result) ← attempt s
    elim result [
      | true ↦ done (s1, true)
      | false ↦ do
        (s2, ok) ← try_remove c s1
        let rest = pop_loop attempt fuel s2
        if ok then rest else done (s2, false)
    ]

  unfoldable pub push : ℕ → Bus W P → ℕ → List ℕ → Run (Bus W P × Bool)
  push fuel s tag source =
      let pushed = push_loop (λ s'. do_push s' tag source) fuel s in
      if s.opened then pushed else done (s, false)

  unfoldable pub get : ℕ → Bus W P → Run (Bus W P × Option M)
  get fuel s = let got = get_loop do_get fuel s in if s.opened then got else done (s, none)

  unfoldable pub pop : ℕ → Bus W P → Run (Bus W P × Bool)
  pop fuel s = let popped = pop_loop do_pop fuel s in if s.opened then popped else done (s, false)

  unfoldable pub timed_push : ℕ → Bus W P → ℕ → List ℕ → Timespec → Run (Bus W P × Bool)
  timed_push fuel s tag source timeout =
      let pushed = push_loop (λ s'. do_timed_push s' tag source timeout) fuel s in
      if s.opened then pushed else done (s, false)

  unfoldable pub timed_get : ℕ → Bus W P → Timespec → Run (Bus W P × Option M)
  timed_get fuel s timeout =
      let got = get_loop (λ s'. do_timed_get s' timeout) fuel s in
      if s.opened then got else done (s, none)

  unfoldable pub timed_pop : ℕ → Bus W P → Timespec → Run (Bus W P × Bool)
  timed_pop fuel s timeout =
      let popped = pop_loop (λ s'. do_timed_pop s' timeout) fuel s in
      if s.opened then popped else done (s, false)
