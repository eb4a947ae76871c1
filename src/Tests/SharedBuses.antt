-- ===== src/Tests/SharedBuses.antt =====
-- Runs of a shared bus at concrete inputs.
use qbus.Prelude.{ℕ, ◌≡◌, refl, arith, true, [], ◌∷◌, Run, done, ◌>>=◌, length, Bool}
use qbus.Bus
use qbus.Bus.Shared
use qbus.Bus.Shared.{SharedBus, Status}
use qbus.Bus.Shared.Calls
use qbus.Bus.Shared.Laws.{IsShared}
use qbus.Bus.Shared.Update
use qbus.Bus.Shared.Rounds.{Returns}
use qbus.Bus.Shared.Messages
use qbus.Bus.Shared.Drift
use qbus.Tests.Buses.{toy, toy_bus}
use qbus.Tests.Times.{half}

-- Another process has added two connectors and removed one.
abbrev stale : SharedBus ℕ ℕ
stale = record {
  bus = record toy_bus { control = record { epoch = 4; input_id = 1; output_id = 3 } };
  local = record { epoch = 1; input_id = 0; output_id = 1 };
  status = Status.us_none;
}

stale-IsShared : IsShared toy stale
stale-IsShared = (refl, (omega arith, omega arith, refl), omega arith, omega arith)

update_connectors-Updates_example : Update.Updates toy stale (Shared.update_connectors toy 3 stale)
update_connectors-Updates_example =
    Update.update_connectors-Updates toy 3 stale stale-IsShared (omega arith)

do_push-Returns_example :
    Returns toy (Calls.do_push toy 4 stale 5 (1 ∷ []))
    × Returns toy (Calls.do_timed_push toy 4 stale 5 (1 ∷ []) half)
do_push-Returns_example =
    Messages.do_push-Returns toy 4 stale 5 (1 ∷ []) half stale-IsShared (omega arith)

receive-Returns_example :
    Returns toy (Calls.do_get toy 3 stale)
    × Returns toy (Calls.do_timed_get toy 3 stale half)
    × Returns toy (Calls.do_pop toy 3 stale)
    × Returns toy (Calls.do_timed_pop toy 3 stale half)
receive-Returns_example =
    Messages.receive-Returns toy 3 stale half stale-IsShared (omega arith) (omega arith)

-- The update adds two connectors and removes one.
abbrev pushed : Run (ℕ × Bool)
pushed = do
  (s, updated) ← Shared.update_output_connector toy 3 stale
  done (length s.bus.connectors, updated)

pushed_lem : pushed ≡ done (3, true)
unfolding Shared.update_output_connector Shared.update_connectors Shared.update_all
    Shared.is_updated Shared.update_output Shared.update_input Shared.output_loop Shared.grow
    Shared.shrink Shared.add_connector Shared.remove_connector Shared.get_controlblock Shared.store
    Shared.is_none Shared.has_output Shared.with_input Shared.added_locally Shared.removed_locally
    Bus.can_add_connector Bus.add_connector Bus.make_connector Bus.new_capacity
    Bus.can_remove_connector Bus.remove_connector Bus.pop_back
pushed_lem = refl
