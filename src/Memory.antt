-- ===== src/Memory.antt =====
-- `shared_memory` (qbus/memory.cpp): a block of memory that processes share under a name. The
-- shared memory objects of boost::interprocess are a parameter: a constructor of theirs that throws
-- returns `none`.
pub mod Laws
use qbus.Prelude.{ℕ, Bool, true, false, Option, none, some, Run, done, fault}

-- `shared_memory_object` and `mapped_region`, for one name: `O` is what the system keeps, `H` an
-- object, and `R` a region of it in the process.
pub record Objects (O H R : Type 0) : Type 0 where
  pub create_only : O → Option (O × H)
  pub open_only : O → Option H
  pub truncate : O → H → ℕ → Option O
  pub mapped_region : O → H → Option R
  pub remove_object : O → O

-- A `shared_memory`, with what the system keeps.
pub record Memory (O H R : Type 0) : Type 0 where
  pub objects : O
  pub pmemory : Option H
  pub pregion : Option R

module _ {O H R : Type 0} (api : Objects O H R) where
  -- `remove`, which takes the name away, and which is all that the destructor does.
  unfoldable pub remove : Memory O H R → Memory O H R
  remove s = record s { objects = api.remove_object s.objects }

  abbrev pub destroy : Memory O H R → Memory O H R
  destroy s = remove s

  -- The last step of `create` and of `open`: the region of an object is mapped.
  unfoldable pub map_object : Memory O H R → H → Memory O H R × Bool
  map_object s h = elim (api.mapped_region s.objects h) [
    | none ↦ (remove s, false)
    | some r ↦ (record s { pmemory = some h; pregion = some r }, true)
  ]

  unfoldable pub resize : Memory O H R → H → ℕ → Memory O H R × Bool
  unfolding map_object
  resize s h size = elim (api.truncate s.objects h size) [
    | none ↦ (remove s, false)
    | some o ↦ map_object (record s { objects = o }) h
  ]

  unfoldable pub create : Memory O H R → ℕ → Memory O H R × Bool
  unfolding resize
  create s size = elim s.pmemory [
    | some h ↦ (s, false)
    | none ↦ elim (api.create_only s.objects) [
      | none ↦ (remove s, false)
      | some made ↦ resize (record s { objects = made.0 }) made.1 size
    ]
  ]

  unfoldable pub open_object : Memory O H R → Memory O H R × Bool
  unfolding map_object
  open_object s = elim s.pmemory [
    | some h ↦ (s, false)
    | none ↦ elim (api.open_only s.objects) [ none ↦ (remove s, false) | some h ↦ map_object s h ]
  ]

-- A process that has neither created nor opened the memory.
abbrev pub absent : {O H R : Type 0} → O → Memory O H R
absent o = record { objects = o; pmemory = none; pregion = none }
