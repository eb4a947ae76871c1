-- ===== src/Bus/Shared.antt =====
-- `shared_bus` of qbus/bus.cpp: a bus whose control block stands in the shared memory, with a copy
-- of it in the process, after which the connectors are brought up to date. `fuel` bounds the loops.
-- During a call no other process changes the control block; between calls it can be anything.
pub mod Start
pub mod Open
pub mod Calls
pub mod Laws
pub mod Update
pub mod Rounds
pub mod Drift
pub mod Messages
use qbus.Prelude.{ℕ, zero, suc, Bool, true, false, if◌then◌else◌, ◌==◌, Run, done, spent, ◌>>=◌}
use qbus.Bus
use qbus.Bus.{Bus, Connectors, Controlblock}

-- `update_status`
pub data Status : Type 0 where
  us_none : Status
  us_input : Status
  us_output : Status
  us_both : Status

-- The tests of a status: against `US_NONE`, and the bits of `US_INPUT` and `US_OUTPUT`.
unfoldable pub is_none : Status → Bool
is_none us_none = true
is_none us_input = false
is_none us_output = false
is_none us_both = false

unfoldable pub has_input : Status → Bool
has_input us_none = false
has_input us_input = true
has_input us_output = false
has_input us_both = true

unfoldable pub has_output : Status → Bool
has_output us_none = false
has_output us_input = false
has_output us_output = true
has_output us_both = true

unfoldable pub with_input : Status → Status
with_input us_none = us_input
with_input us_input = us_input
with_input us_output = us_both
with_input us_both = us_input

-- The control block of `bus` is the shared one. `local` is `m_controlblock`.
pub record SharedBus (W P : Type 0) : Type 0 where
  pub bus : Bus W P
  pub local : Controlblock
  pub status : Status

module _ {W P : Type 0} where
  -- The bus as the methods of `base_bus` see it.
  unfoldable pub get_controlblock : SharedBus W P → Controlblock
  get_controlblock s = if is_none s.status then s.bus.control else s.local

  abbrev pub view : SharedBus W P → Bus W P
  view s = record s.bus { control = get_controlblock s }

  -- What a method of `base_bus` leaves.
  unfoldable pub store : SharedBus W P → Bus W P → SharedBus W P
  store s b =
      if is_none s.status
      then record s { bus = b }
      else record s { bus = record b { control = s.bus.control }; local = b.control }

  unfoldable pub is_updated : SharedBus W P → SharedBus W P × Bool
  is_updated s =
      if s.bus.control.epoch == s.local.epoch
      then (s, false)
      else (record s { local = record s.local { epoch = s.bus.control.epoch } }, true)

  -- The end of `add_connector`, and of `remove_connector`.
  unfoldable pub added_locally : SharedBus W P → Bool → SharedBus W P
  added_locally s false = s
  added_locally s true =
      if is_none s.status
      then record s { local = record s.local { output_id = s.bus.control.output_id } }
      else s

  unfoldable pub removed_locally : SharedBus W P → Bool → SharedBus W P
  removed_locally s false = s
  removed_locally s true =
      if is_none s.status
      then record s { local = record s.local { input_id = s.bus.control.input_id } }
      else s

module _ {W P M : Type 0} (c : Connectors W P M) where
  unfoldable pub add_connector : SharedBus W P → SharedBus W P × Bool
  add_connector s =
      let (b, result) = Bus.add_connector c (view s) in (added_locally (store s b) result, result)

  unfoldable pub remove_connector : SharedBus W P → Run (SharedBus W P × Bool)
  remove_connector s = do
    (b, result) ← Bus.remove_connector c (view s)
    done (removed_locally (store s b) result, result)

  -- `can_add_connector() && add_connector()`, and the same of `remove_connector`.
  unfoldable pub grow : SharedBus W P → SharedBus W P × Bool
  grow s = if Bus.can_add_connector c (view s) then add_connector s else (s, false)

  unfoldable pub shrink : SharedBus W P → Run (SharedBus W P × Bool)
  shrink s = if Bus.can_remove_connector c (view s) then remove_connector s else done (s, false)

  -- The loop of `update_connectors`, up to the output connector `output_id`.
  unfoldable pub output_loop : ℕ → SharedBus W P → (output_id : ℕ) → Run (SharedBus W P × Bool)
  output_loop zero s output_id = spent
  output_loop (suc fuel) s output_id =
      let (s', ok) = grow s in
      let rest = output_loop fuel s' output_id in
      if output_id == s.local.output_id
      then done (s, true)
      else if ok
      then rest
      else done (s', false)

  unfoldable pub update_output : ℕ → SharedBus W P → Run (SharedBus W P × Bool)
  update_output fuel s =
      let looped = output_loop fuel (record s { status = us_output }) s.bus.control.output_id in
      if s.bus.control.output_id == s.local.output_id then done (s, true) else looped

  unfoldable pub update_input : SharedBus W P → Run (SharedBus W P × Bool)
  update_input s =
      if s.bus.control.input_id == s.local.input_id
      then done (s, true)
      else shrink (record s { status = with_input s.status })

  -- `update_connectors` of an updated bus. `rollback` gives `m_status` its value back.
  unfoldable pub update_all : ℕ → SharedBus W P → Run (SharedBus W P × Status)
  update_all fuel s = do
    (s1, outputs) ← update_output fuel s
    elim outputs [
      | false ↦ done (record s1 { status = s.status }, us_none)
      | true ↦ do
        (s2, inputs) ← update_input s1
        done (record s2 { status = s.status }, if inputs then s2.status else us_none)
    ]

  unfoldable pub update_connectors : ℕ → SharedBus W P → Run (SharedBus W P × Status)
  update_connectors fuel s =
      let (s', updated) = is_updated s in
      let work = update_all fuel s' in if updated then work else done (s', us_none)

  unfoldable pub update_input_connector : ℕ → SharedBus W P → Run (SharedBus W P × Bool)
  update_input_connector fuel s = do
    (s', status) ← update_connectors fuel s
    done (s', has_input status)

  unfoldable pub update_output_connector : ℕ → SharedBus W P → Run (SharedBus W P × Bool)
  update_output_connector fuel s = do
    (s', status) ← update_connectors fuel s
    done (s', has_output status)
