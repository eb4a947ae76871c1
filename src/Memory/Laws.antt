-- ===== src/Memory/Laws.antt =====
-- What processes that share a `shared_memory` (qbus/memory.cpp) under one name can rely on.
use qbus.Prelude.{ℕ, ◌≡◌, ◌∙◌, true, false, Option, none, some, Option-cases, inl, inr}
use qbus.Memory.{Objects, Memory, create, open_object, map_object, resize, remove, destroy, absent}

-- What boost::interprocess documents: `name` is the object that has the name, if there is one.
pub record Documented {O H R : Type 0} (api : Objects O H R) (name : O → Option H) : Type 0 where
  pub taken : (o : O) (h : H) → name o ≡ some h → api.create_only o ≡ none
  pub bound : (o o' : O) (h : H) → api.create_only o ≡ some (o', h) → name o' ≡ some h
  pub opened : (o : O) → api.open_only o ≡ name o
  pub resized : (o o' : O) (h : H) (size : ℕ) → api.truncate o h size ≡ some o' → name o' ≡ name o
  pub freed : (o : O) → name (api.remove_object o) ≡ none

module _ {O H R : Type 0} (api : Objects O H R) (name : O → Option H)
    (doc : Documented api name) where
  open_free : (o : O) → name o ≡ none → (open_object api (absent o)).1 ≡ false
  unfolding open_object
  open_free o e = rw (doc.opened o, e)

  -- A process that creates the memory while another one has it under the name gets false, and takes
  -- the name away: no process can open the memory from then on. So does every process that ends.
  pub create_taken-lost :
      (o : O) (h : H) (size : ℕ)
      → name o ≡ some h
      → ((create api (absent o) size).1 ≡ false)
        × ((open_object api (absent (create api (absent o) size).0.objects)).1 ≡ false)
        × ((s : Memory O H R) → (open_object api (absent (destroy api s).objects)).1 ≡ false)
  unfolding create remove
  create_taken-lost o h size e = (
    rw (doc.taken o h e),
    rw (doc.taken o h e) (open_free (api.remove_object o) (doc.freed o)),
    λ s. open_free (api.remove_object s.objects) (doc.freed s.objects),
  )

  -- A process that opens the memory gets the object that another one has created, if each of the
  -- two can map it.
  pub create-open_object :
      (o o1 o2 : O) (h : H) (size : ℕ) (r r' : R)
      → api.create_only o ≡ some (o1, h)
      → api.truncate o1 h size ≡ some o2
      → api.mapped_region o2 h ≡ some r
      → ((create api (absent o) size)
          ≡ (record { objects = o2; pmemory = some h; pregion = some r }, true))
        × (open_object api (absent o2)
            ≡ (record { objects = o2; pmemory = some h; pregion = some r }, true))
  unfolding create open_object resize map_object
  create-open_object o o1 o2 h size r r' e f g =
      let named = doc.opened o2 ∙ doc.resized o1 o2 h size f ∙ doc.bound o o1 h e in
      (rw (e, resize, f, map_object, g), rw (named, map_object, g))

  -- A create that fails leaves nothing under the name.
  pub create_free :
      (o : O) (size : ℕ)
      → (create api (absent o) size).1 ≡ false
      → name (create api (absent o) size).0.objects ≡ none
  unfolding create remove
  create_free o size = elim (Option-cases (api.create_only o)) [
    | inl e ↦ rw e (λ f. doc.freed o)
    | inr made ↦ elim (Option-cases (api.truncate made.0.0 made.0.1 size)) [
      | inl e ↦ rw (made.1, resize, e) (λ f. doc.freed made.0.0)
      | inr sized ↦ elim (Option-cases (api.mapped_region sized.0 made.0.1)) [
        | inl e ↦ rw (made.1, resize, sized.1, map_object, e) (λ f. doc.freed sized.0)
        | inr r ↦ rw (made.1, resize, sized.1, map_object, r.1) (λ f. absurd (cc f))
      ]
    ]
  ]
