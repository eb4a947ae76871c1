-- ===== src/Bus/Shared/Messages.antt =====
-- `do_push`, `do_get` and `do_pop` of `shared_bus` (qbus/bus.cpp) return.
use qbus.Prelude.{ℕ, ◌+◌, ◌<◌, ◌≤◌, ◌≡◌, List, Run, done, length}
use qbus.Timespec.{Timespec}
use qbus.Bus.{Bus, Connectors}
use qbus.Bus.Laws.{length-IsBus, front-some, back-some}
use qbus.Bus.Calls as Base
use qbus.Bus.Calls.{at_output, at_input}
use qbus.Bus.Shared.{SharedBus, is_none, get_controlblock, store}
use qbus.Bus.Shared.Calls
use qbus.Bus.Shared.Calls.{base}
use qbus.Bus.Shared.Laws.{IsShared, local_view, lag, input_lag}
use qbus.Bus.Shared.Rounds.{
  Attempts, Returns, updated_push-Returns, get_rounds-Returns, pop_rounds-Returns,
}

module _ {W P M : Type 0} (c : Connectors W P M) where
  -- A method of `base_bus` that changes nothing but the world.
  base-Attempts :
      {A : Type 0} (method : Bus W P → Run (Bus W P × A))
      → ((b : Bus W P) (n : ℕ)
          → length b.connectors ≡ n + 1
          → (w : W) × (a : A) × (method b ≡ done (record b { world = w }, a)))
      → Attempts c (base method)
  unfolding base store get_controlblock is_none
  base-Attempts method calls s shared =
      let r = calls s.bus _ (length-IsBus c (local_view s) shared.1) in
      (r.0, r.1, rw (shared.0, r.2))

  at_output-world :
      {A : Type 0} (call : W → P → W × A) (b : Bus W P) (n : ℕ)
      → length b.connectors ≡ n + 1
      → (w : W) × (a : A) × (at_output c call b ≡ done (record b { world = w }, a))
  unfolding at_output
  at_output-world call b n e =
      let f = front-some b.connectors n e in ((call b.world f.0).0, (call b.world f.0).1, rw f.1)

  at_input-world :
      {A : Type 0} (call : W → P → W × A) (b : Bus W P) (n : ℕ)
      → length b.connectors ≡ n + 1
      → (w : W) × (a : A) × (at_input c call b ≡ done (record b { world = w }, a))
  unfolding at_input
  at_input-world call b n e =
      let f = back-some b.connectors n e in ((call b.world f.0).0, (call b.world f.0).1, rw f.1)

  -- On a bus that has exactly the connectors from the output to the input identifier of its copy of
  -- the control block, in this order, `do_push`, with a timeout or without one, returns, whatever
  -- the connectors answer, with fuel for the connectors that other processes have added and for two
  -- pushes: no dereference fails, and the bus has exactly the connectors from the output to the
  -- input identifier of its copy then, in this order.
  pub do_push-Returns :
      (fuel : ℕ) (s : SharedBus W P) (tag : ℕ) (source : List ℕ) (timeout : Timespec)
      → IsShared c s
      → lag s + 2 ≤ fuel
      → Returns c (Calls.do_push c fuel s tag source)
        × Returns c (Calls.do_timed_push c fuel s tag source timeout)
  unfolding Calls.do_push Calls.do_timed_push Base.do_push Base.do_timed_push
  do_push-Returns fuel s tag source timeout shared h = (
    updated_push-Returns c _ (base-Attempts _ (at_output-world (λ w p. c.push w p tag source))) fuel
        s shared h,
    updated_push-Returns c _
        (base-Attempts _ (at_output-world (λ w p. c.timed_push w p tag source timeout))) fuel s
        shared h,
  )

  -- On a bus that has exactly the connectors from the output to the input identifier of its copy of
  -- the control block, in this order, `do_get` and `do_pop`, with a timeout or without one, return,
  -- whatever the connectors answer, with fuel for the connectors that other processes have added and
  -- for those that they have removed: no dereference fails, and the bus has exactly the connectors
  -- from the output to the input identifier of its copy then, in this order.
  pub receive-Returns :
      (fuel : ℕ) (s : SharedBus W P) (timeout : Timespec)
      → IsShared c s
      → lag s < fuel
      → input_lag s < fuel
      → Returns c (Calls.do_get c fuel s)
        × Returns c (Calls.do_timed_get c fuel s timeout)
        × Returns c (Calls.do_pop c fuel s)
        × Returns c (Calls.do_timed_pop c fuel s timeout)
  unfolding Calls.do_get Calls.do_timed_get Base.do_get Base.do_timed_get Calls.do_pop
      Calls.do_timed_pop Base.do_pop Base.do_timed_pop
  receive-Returns fuel s timeout shared h l = (
    get_rounds-Returns c _ (base-Attempts _ (at_input-world c.get)) fuel fuel s shared l h,
    get_rounds-Returns c _ (base-Attempts _ (at_input-world (λ w p. c.timed_get w p timeout))) fuel
        fuel s shared l h,
    pop_rounds-Returns c _ (base-Attempts _ (at_input-world c.pop)) fuel fuel s shared l h,
    pop_rounds-Returns c _ (base-Attempts _ (at_input-world (λ w p. c.timed_pop w p timeout))) fuel
        fuel s shared l h,
  )
