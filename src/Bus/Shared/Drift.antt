-- ===== src/Bus/Shared/Drift.antt =====
-- `add_connector` and `remove_connector` of a `shared_bus` (qbus/bus.cpp) that is not up to date.
use qbus.Prelude.{◌+◌, ◌≡◌, suc, ◌∷◌, ◌++◌, u32}
use qbus.Bus
use qbus.Bus.{Bus, Connectors}
use qbus.Bus.Laws.{behind}
use qbus.Bus.Names.{span, ids}
use qbus.Bus.Shared.{SharedBus}
use qbus.Bus.Shared.Laws.{local_view, lag}

module _ {W P M : Type 0} (c : Connectors W P M) where
  -- What the call leaves: a connector of the next shared identifier in front of those there were,
  -- while the copy of the control block names those that the others have added as well.
  abbrev pub Drifts : SharedBus W P → SharedBus W P → Type 0
  Drifts s s' =
      let before = span s.local.input_id (suc (behind (local_view s))) in
      let new_id = u32 (s.bus.control.output_id + 1) in
      (ids c s'.bus.connectors ≡ new_id ∷ before)
      × (span s'.local.input_id (suc (behind (local_view s')))
          ≡ new_id ∷ (span (u32 (s.local.output_id + 1)) (lag s) ++ before))
