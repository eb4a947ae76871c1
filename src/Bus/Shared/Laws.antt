-- ===== src/Bus/Shared/Laws.antt =====
-- Bringing the connectors of a `shared_bus` (qbus/bus.cpp) up to date with its control block.
use qbus.Prelude.{
  ℕ, ◌^◌, ◌<◌, ◌≡◌, inl, inr, refl, Bool, true, false, done, ◌>>=◌, ap, sub32, Bool-cases,
}
use qbus.Bus
use qbus.Bus.{Bus, Connectors, try_add, try_remove}
use qbus.Bus.Laws.{IsBus}
use qbus.Bus.Shared.{
  SharedBus, us_none, is_none, get_controlblock, store, added_locally, removed_locally,
  add_connector, remove_connector, grow, shrink,
}

-- The bus as the process that has it sees it.
abbrev pub local_view : {W P : Type 0} → SharedBus W P → Bus W P
local_view s = record s.bus { control = s.local }

-- The connectors are those that the copy of the control block names, each once and in order, and no
-- update is going on.
abbrev pub IsShared : {W P M : Type 0} → Connectors W P M → SharedBus W P → Type 0
IsShared c s =
    (s.status ≡ us_none)
    × IsBus c (local_view s)
    × (s.bus.control.input_id < 2 ^ 32)
    × (s.bus.control.output_id < 2 ^ 32)

-- How many connectors other processes have added, and removed, since the last update.
abbrev pub lag : {W P : Type 0} → SharedBus W P → ℕ
lag s = sub32 s.bus.control.output_id s.local.output_id

abbrev pub input_lag : {W P : Type 0} → SharedBus W P → ℕ
input_lag s = sub32 s.bus.control.input_id s.local.input_id

added_locally-updating :
    {W P : Type 0} (s : SharedBus W P) (b : Bool) → is_none s.status ≡ false → added_locally s b ≡ s
unfolding added_locally
added_locally-updating s false e = refl
added_locally-updating s true e = rw e

removed_locally-updating :
    {W P : Type 0} (s : SharedBus W P) (b : Bool)
    → is_none s.status ≡ false
    → removed_locally s b ≡ s
unfolding removed_locally
removed_locally-updating s false e = refl
removed_locally-updating s true e = rw e

-- What a method that has run on the copy leaves.
abbrev pub stored : {W P : Type 0} → SharedBus W P → Bus W P → SharedBus W P
stored s b = record s { bus = record b { control = s.bus.control }; local = b.control }

get_controlblock-updating :
    {W P : Type 0} (s : SharedBus W P) → is_none s.status ≡ false → get_controlblock s ≡ s.local
unfolding get_controlblock
get_controlblock-updating s e = rw e

store-updating :
    {W P : Type 0} (s : SharedBus W P) (b : Bus W P)
    → is_none s.status ≡ false
    → store s b ≡ stored s b
unfolding store
store-updating s b e = rw e

module _ {W P M : Type 0} (c : Connectors W P M) where
  -- During an update, an attempt to add a connector is that of the local bus.
  pub grow-local :
      (s : SharedBus W P)
      → is_none s.status ≡ false
      → grow c s ≡ (stored s (try_add c (local_view s)).0, (try_add c (local_view s)).1)
  unfolding grow add_connector try_add
  grow-local s e =
      let out = Bus.add_connector c (local_view s) in
      elim (Bool-cases (Bus.can_add_connector c (local_view s))) [
        | inl y ↦ rw (
          get_controlblock-updating s e,
          y,
          store-updating s out.0 e,
          added_locally-updating (stored s out.0) out.1 e,
        )
        | inr n ↦ rw (get_controlblock-updating s e, n)
      ]

  pub shrink-local :
      (s : SharedBus W P) (r : Bus W P × Bool)
      → is_none s.status ≡ false
      → try_remove c (local_view s) ≡ done r
      → shrink c s ≡ done (stored s r.0, r.1)
  unfolding shrink remove_connector try_remove
  shrink-local s r e h = elim (Bool-cases (Bus.can_remove_connector c (local_view s))) [
    | inl y ↦
        let removes : Bus.remove_connector c (local_view s) ≡ done r = rw y at h in
        rw (
          get_controlblock-updating s e,
          y,
          removes,
          store-updating s r.0 e,
          removed_locally-updating (stored s r.0) r.1 e,
        )
    | inr n ↦
        let same : done (local_view s, false) ≡ done r = rw n at h in
        rw (get_controlblock-updating s e, n)
          (ap (λ out. out >>= λ x. done (stored s x.0, x.1)) same)
  ]
