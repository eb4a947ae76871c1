-- ===== src/Bus.antt =====
-- `base_bus` of qbus/bus.h and qbus/bus.cpp: a list of connectors, of which messages are pushed to
-- the first one and taken from the last one, and a control block with their identifiers.
pub mod Calls
pub mod Names
pub mod Laws
pub mod Loops
pub mod Growth
pub mod Directed
pub mod Shared
pub mod Safe
use qbus.Prelude.{
  ℕ, ◌≡◌, zero, suc, ◌+◌, ◌*◌, ◌/◌, ◌%◌, ◌^◌, min, max, Bool, true, false, not, ◌||◌, ◌==◌, ltb,
  if◌then◌else◌, List, [], ◌∷◌, ◌++◌, Option, none, some, Run, done, spent, fault, ◌>>=◌, u32,
}
use qbus.Timespec.{Timespec}

-- `specification_type`
pub record Specification : Type 0 where
  pub id : ℕ
  pub keepalive_timeout : ℕ
  pub min_capacity : ℕ
  pub max_capacity : ℕ
  pub capacity_factor : ℕ

-- `controlblock_type`
pub record Controlblock : Type 0 where
  pub epoch : ℕ
  pub input_id : ℕ
  pub output_id : ℕ

-- What a bus calls of its connectors: `W` is the state of the shared memory and of the connector
-- objects, `P` a pointer to a connector, `M` a message. A connector is named by the name of the bus
-- and its identifier, which `id_of` reads from that name, and `parent` is the output connector the
-- bus has. `drop` is the destructor, which runs when the last pointer to a connector goes.
pub record Connectors (W P M : Type 0) : Type 0 where
  pub make : W → (id : ℕ) → W × P
  pub id_of : P → ℕ
  pub id_made : (w : W) (id : ℕ) → id_of (make w id).1 ≡ id
  pub drop : W → P → W
  pub open_at : W → P → (parent : Option P) → W × Bool
  pub create_at : W → P → (id capacity : ℕ) → (timeout : Option ℕ) → (parent : Option P) → W × Bool
  pub capacity : W → P → ℕ
  pub push : W → P → (tag : ℕ) → List ℕ → W × Bool
  pub get : W → P → W × Option M
  pub pop : W → P → W × Bool
  pub timed_push : W → P → (tag : ℕ) → List ℕ → Timespec → W × Bool
  pub timed_get : W → P → Timespec → W × Option M
  pub timed_pop : W → P → Timespec → W × Bool

-- The bus object. `control` is the control block that `get_controlblock` returns.
pub record Bus (W P : Type 0) : Type 0 where
  pub world : W
  pub connectors : List P
  pub control : Controlblock
  pub spec : Specification
  pub opened : Bool

-- The capacity of a connector that is made next to one of `old` bytes, in 32 bits.
unfoldable pub new_capacity : Specification → ℕ → ℕ
new_capacity sp old =
    min (max sp.min_capacity (u32 (old * u32 (sp.capacity_factor + 100)) / 100)) sp.max_capacity

module _ {P : Type 0} where
  abbrev pub front : List P → Option P
  front [] = none
  front (p ∷ ps) = some p

  unfoldable pub back : List P → Option P
  back [] = none
  back (p ∷ []) = some p
  back (p ∷ q ∷ ps) = back (q ∷ ps)

  unfoldable pub pop_back : List P → List P
  pop_back [] = []
  pop_back (p ∷ []) = []
  pop_back (p ∷ q ∷ ps) = p ∷ pop_back (q ∷ ps)

  abbrev pub is_empty : List P → Bool
  is_empty [] = true
  is_empty (p ∷ ps) = false

-- The pointer that is followed.
abbrev pub deref {ℓ} : {A : Type ℓ} → Option A → Run A
deref none = fault
deref (some a) = done a

module _ {W P : Type 0} where
  -- A connector in front of the others.
  abbrev pub added : Bus W P → W × Option P → Bus W P × Bool
  added s (w, none) = (record s { world = w }, false)
  added s (w, some p) = (
    record s {
      world = w;
      connectors = p ∷ s.connectors;
      control = record s.control {
        output_id = u32 (s.control.output_id + 1);
        epoch = u32 (s.control.epoch + 1);
      };
    },
    true,
  )

  -- The connector that is made when none is left.
  abbrev pub refilled : Bus W P → W × Option P → Bus W P × Bool
  refilled s (w, none) = (record s { world = w }, false)
  refilled s (w, some p) = (record s { world = w; connectors = s.connectors ++ p ∷ [] }, true)

  -- The first connector of a new bus.
  abbrev pub first_made : Bus W P → W × Option P → Bus W P × Bool
  first_made s (w, none) = (record s { world = w }, false)
  first_made s (w, some p) = (record s { world = w; connectors = p ∷ s.connectors }, true)

module _ {W P M : Type 0} (c : Connectors W P M) where
  abbrev pub dropped : W → Option P → W
  dropped w none = w
  dropped w (some p) = c.drop w p

  -- `clear`, which goes from the first connector to the last one.
  abbrev pub drop_all : W → List P → W
  drop_all w [] = w
  drop_all w (p ∷ ps) = drop_all (c.drop w p) ps

  -- The last connector goes. `pop_back` of an empty list has no defined behaviour.
  abbrev pub removed : Bus W P → Run (Bus W P)
  removed s =
      if is_empty s.connectors
      then fault
      else done (record s {
        world = dropped s.world (back s.connectors);
        connectors = pop_back s.connectors;
        control = record s.control {
          input_id = u32 (s.control.input_id + 1);
          epoch = u32 (s.control.epoch + 1);
        };
      })

  -- The capacity of the output connector, in a `size_type`.
  abbrev pub old_capacity : W → Option P → ℕ
  old_capacity w none = 0
  old_capacity w (some output) = u32 (c.capacity w output)

  -- `make_connector`: an existing connector is opened, else one is created. A connector that is not
  -- returned is dropped.
  unfoldable pub make_connector : Bus W P → ℕ → W × Option P
  make_connector s id =
      let (w0, p) = c.make s.world id in
      let (w1, opened) = c.open_at w0 p (front s.connectors) in
      let old = old_capacity w1 (front s.connectors) in
      let cpct = new_capacity s.spec old in
      let timeout = if s.spec.keepalive_timeout == 0 then none else some s.spec.keepalive_timeout in
      let (w2, created) = c.create_at w1 p s.spec.id cpct timeout (front s.connectors) in
      if opened
      then (w1, some p)
      else if is_empty s.connectors || ltb 0 s.spec.capacity_factor
      then if ltb old cpct
        then if created then (w2, some p) else (c.drop w2 p, none)
        else (c.drop w1 p, none)
      else (c.drop w1 p, none)

  unfoldable pub can_add_connector : Bus W P → Bool
  can_add_connector s = not (u32 (s.control.output_id + 1) == s.control.input_id)

  unfoldable pub add_connector : Bus W P → Bus W P × Bool
  add_connector s = added s (make_connector s (u32 (s.control.output_id + 1)))

  unfoldable pub can_remove_connector : Bus W P → Bool
  can_remove_connector s = not (s.control.input_id == s.control.output_id)

  unfoldable pub remove_connector : Bus W P → Run (Bus W P × Bool)
  remove_connector s = do
    s' ← removed s
    done (
        if is_empty s'.connectors
        then refilled s' (make_connector s' s'.control.input_id)
        else (s', true))

  -- The body of the loop of `push` after a push has failed.
  unfoldable pub try_add : Bus W P → Bus W P × Bool
  try_add s = if can_add_connector s then add_connector s else (s, false)

  unfoldable pub try_remove : Bus W P → Run (Bus W P × Bool)
  try_remove s = if can_remove_connector s then remove_connector s else done (s, false)

  unfoldable pub do_create : Bus W P → Bus W P × Bool
  do_create s = first_made s (make_connector s 0)

  -- The loop of `do_open`, from the connector `id` on.
  unfoldable pub open_loop : ℕ → Bus W P → ℕ → Run (Bus W P × Bool)
  open_loop zero s id = spent
  open_loop (suc fuel) s id =
      let (w, made) = make_connector s id in
      elim made [
        | none ↦ done (record s { world = drop_all w s.connectors; connectors = [] }, false)
        | some p ↦
            let s' : Bus W P = record s { world = w; connectors = p ∷ s.connectors } in
            let rest = open_loop fuel s' (u32 (id + 1)) in
            if id == s.control.output_id then done (s', true) else rest
      ]

  unfoldable pub do_open : ℕ → Bus W P → Run (Bus W P × Bool)
  do_open fuel s = open_loop fuel s s.control.input_id

  unfoldable pub create_bus : Bus W P → Bus W P × Bool
  create_bus s =
      let (s', result) = do_create s in
      if s.opened then (s, false) else (record s' { opened = result }, result)

  unfoldable pub open_bus : ℕ → Bus W P → Run (Bus W P × Bool)
  open_bus fuel s =
      let opening = do_open fuel s >>= λ r. done (record (r.0) { opened = r.1 }, r.1) in
      if s.opened then done (s, false) else opening

  unfoldable pub close : Bus W P → Bus W P
  close s = record s { world = drop_all s.world s.connectors; connectors = [] }
