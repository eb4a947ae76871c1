-- ===== src/Bus/Shared/Open.antt =====
-- Creating and opening a `shared_bus` (qbus/bus.cpp) in its shared memory, which is given back when
-- the bus does not start.
use qbus.Prelude.{
  ℕ, ◌≡◌, inl, inr, length, Bool-cases, Bool, true, false, Run, done, ◌>>=◌, if◌then◌else◌, Option,
  none, some,
}
use qbus.Memory
use qbus.Memory.Laws.{Documented, create_free}
use qbus.Memory.{Objects, Memory, absent}
use qbus.Bus.{Connectors, Specification}
use qbus.Bus.Shared.{SharedBus, us_none}
use qbus.Bus.Shared.Start.{create_body, attach_body, Starts, create_body-Starts}

-- The bus, its `m_pmemory`, which can be null, and what the system keeps.
pub record Mapped (W P O H R : Type 0) : Type 0 where
  pub objects : O
  pub pmemory : Option (Memory O H R)
  pub shared : SharedBus W P

module _ {W P M O H R : Type 0} (c : Connectors W P M) (api : Objects O H R) where
  -- The last owner of the `shared_memory` goes, and its destructor runs.
  abbrev pub dropped : O → Option (Memory O H R) → O
  dropped o none = o
  dropped o (some m) = (Memory.destroy api (record m { objects = o })).objects

  unfoldable pub free_memory : Mapped W P O H R → Mapped W P O H R
  free_memory s = record s { objects = dropped s.objects s.pmemory; pmemory = none }

  -- A new `shared_memory` takes the place of the one that `m_pmemory` had; `size` is
  -- `sizeof(bus_body)`.
  unfoldable pub create_memory : Mapped W P O H R → (size : ℕ) → Mapped W P O H R × Bool
  create_memory s size =
      let (m, b) = Memory.create api (absent (dropped s.objects s.pmemory)) size in
      (record s { objects = m.objects; pmemory = some m }, b)

  unfoldable pub open_memory : Mapped W P O H R → Mapped W P O H R × Bool
  open_memory s =
      let (m, b) = Memory.open_object api (absent (dropped s.objects s.pmemory)) in
      (record s { objects = m.objects; pmemory = some m }, b)

  -- The end of `create_body` and `attach_body`.
  unfoldable pub started : Mapped W P O H R → SharedBus W P × Bool → Mapped W P O H R × Bool
  unfolding free_memory
  started s (shared, true) = (record s { shared = shared }, true)
  started s (shared, false) = (free_memory (record s { shared = shared }), false)

  unfoldable pub do_create : Mapped W P O H R → Specification → (size : ℕ) → Mapped W P O H R × Bool
  unfolding create_memory started
  do_create s spec size =
      let (s', b) = create_memory s size in
      if b then started s' (create_body c s'.shared spec) else (s', false)

  unfoldable pub do_open : (fuel : ℕ) → Mapped W P O H R → Run (Mapped W P O H R × Bool)
  unfolding open_memory started
  do_open fuel s =
      let (s', b) = open_memory s in
      let attached = attach_body c fuel s'.shared >>= λ out. done (started s' out) in
      if b then attached else done (s', false)

  module _ (name : O → Option H) (doc : Documented api name) where
    started-Starts :
        (o : O) (m : Memory O H R) (shared0 shared : SharedBus W P) (b : Bool)
        → Starts c shared b
        → let s : Mapped W P O H R = record { objects = o; pmemory = some m; shared = shared0 } in
          Starts c (started s (shared, b)).0.shared (started s (shared, b)).1
          × ((started s (shared, b)).1 ≡ false → name (started s (shared, b)).0.objects ≡ none)
    unfolding started free_memory Memory.remove
    started-Starts o m shared0 shared true h = (h, λ e. absurd (cc e))
    started-Starts o m shared0 shared false h = (h, λ e. doc.freed o)

    -- `do_create` of a bus without connectors returns true with a bus that is up to date and has
    -- exactly the connectors from the output to the input identifier of the new control block; or it returns false, without connectors, and there
    -- is no memory under the name of the bus then, whoever it belonged to. The objects of
    -- boost::interprocess behave as documented.
    pub do_create-Starts :
        (s : Mapped W P O H R) (spec : Specification) (size : ℕ)
        → s.shared.status ≡ us_none
        → length s.shared.bus.connectors ≡ 0
        → Starts c (do_create s spec size).0.shared (do_create s spec size).1
          × ((do_create s spec size).1 ≡ false → name (do_create s spec size).0.objects ≡ none)
    unfolding do_create create_memory
    do_create-Starts s spec size st no_connectors =
        let o = dropped s.objects s.pmemory in
        let made = Memory.create api (absent o) size in
        elim (Bool-cases made.1) [
          | inl e ↦ rw e (
              started-Starts made.0.objects made.0 s.shared (create_body c s.shared spec).0
                (create_body c s.shared spec).1
                (create_body-Starts c s.shared spec st no_connectors))
          | inr e ↦ rw e (no_connectors, λ f. create_free api name doc o size e)
        ]
