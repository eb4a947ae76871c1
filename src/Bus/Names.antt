-- ===== src/Bus/Names.antt =====
-- The identifiers of the connectors of a `base_bus` (qbus/bus.cpp), in the order of its list: the
-- newest one first.
use qbus.Prelude.{
  ℕ, zero, suc, ◌+◌, ◌^◌, ◌<◌, ◌≡◌, ◌∙◌, refl, ap, arith, Bool, true, false, if◌then◌else◌, List,
  [], ◌∷◌, ◌++◌, length, Option, none, some, u32, sub32, ltb, ◌||◌, ◌==◌,
}
use qbus.Bus.{
  Bus, Connectors, pop_back, make_connector, is_empty, front, old_capacity, new_capacity,
}

-- `count` identifiers from `first` on, which wrap round, with the last one first.
abbrev pub span : (first count : ℕ) → List ℕ
span first zero = []
span first (suc n) = u32 (first + n) ∷ span first n

pub length-span : (first n : ℕ) → length (span first n) ≡ n
length-span first zero = refl
length-span first (suc n) = ap suc (length-span first n)

-- One more identifier, behind the last one.
pub span_add :
    (i o : ℕ)
    → i < 2 ^ 32
    → o < 2 ^ 32
    → 0 < sub32 i (u32 (o + 1))
    → u32 (o + 1) ∷ span i (suc (sub32 o i)) ≡ span i (suc (sub32 (u32 (o + 1)) i))
span_add i o a b h =
    let e : suc (sub32 o i) ≡ sub32 (u32 (o + 1)) i = omega arith in
    let f : u32 (o + 1) ≡ u32 (i + suc (sub32 o i)) = omega arith in
    ap (λ x. x ∷ span i (suc (sub32 o i))) f ∙ ap (λ n. span i (suc n)) e

-- The identifiers without the first one of them.
pub pop_back-span : (i n : ℕ) → pop_back (span i (suc n)) ≡ span (u32 (i + 1)) n
unfolding pop_back
pop_back-span i zero = refl
pop_back-span i (suc n) =
    let e : u32 (i + suc n) ≡ u32 (u32 (i + 1) + n) = omega arith in
    ap (λ x. x ∷ pop_back (span i (suc n))) e
    ∙ ap (λ xs. u32 (u32 (i + 1) + n) ∷ xs) (pop_back-span i n)

-- The identifiers of a longer stretch are those of its end, before those of its beginning.
pub span-append : (i n m : ℕ) → span i (n + m) ≡ span (u32 (i + m)) n ++ span i m
span-append i zero m = let e : 0 + m ≡ m = omega arith in ap (span i) e
span-append i (suc n) m =
    let e : u32 (i + (n + m)) ≡ u32 (u32 (i + m) + n) = omega arith in
    let longer : suc n + m ≡ suc (n + m) = omega arith in
    ap (span i) longer
    ∙ ap (λ x. x ∷ span i (n + m)) e
    ∙ ap (λ xs. u32 (u32 (i + m) + n) ∷ xs) (span-append i n m)

-- A stretch that is continued behind others, which it does not have.
pub span_skip :
    (i o o1 : ℕ)
    → i < 2 ^ 32
    → o < 2 ^ 32
    → o1 < 2 ^ 32
    → sub32 o1 o + sub32 o i + 1 < 2 ^ 32
    → span i (suc (sub32 (u32 (o1 + 1)) i))
      ≡ u32 (o1 + 1) ∷ (span (u32 (o + 1)) (sub32 o1 o) ++ span i (suc (sub32 o i)))
span_skip i o o1 a b d h =
    let e : sub32 (u32 (o1 + 1)) i ≡ sub32 o1 o + suc (sub32 o i) = omega arith in
    let f : u32 (i + (sub32 o1 o + suc (sub32 o i))) ≡ u32 (o1 + 1) = omega arith in
    let g : u32 (i + suc (sub32 o i)) ≡ u32 (o + 1) = omega arith in
    ap (λ n. span i (suc n)) e
    ∙ ap (λ x. x ∷ span i (sub32 o1 o + suc (sub32 o i))) f
    ∙ ap (λ xs. u32 (o1 + 1) ∷ xs)
        (span-append i (sub32 o1 o) (suc (sub32 o i))
          ∙ ap (λ x. span x (sub32 o1 o) ++ span i (suc (sub32 o i))) g)

pub span_one : (i : ℕ) → i < 2 ^ 32 → span i 1 ≡ i ∷ []
span_one i h = let e : u32 (i + 0) ≡ i = omega arith in ap (λ x. x ∷ []) e

module _ {W P M : Type 0} (c : Connectors W P M) where
  abbrev pub ids : List P → List ℕ
  ids [] = []
  ids (p ∷ ps) = c.id_of p ∷ ids ps

  pub length-ids : (ps : List P) → length (ids ps) ≡ length ps
  length-ids [] = refl
  length-ids (p ∷ ps) = ap suc (length-ids ps)

  pub ids-empty : (ps : List P) → length ps ≡ 0 → ids ps ≡ []
  ids-empty [] e = refl
  ids-empty (p ∷ ps) e = absurd (omega (arith, e))

  pub ids-pop_back : (ps : List P) → ids (pop_back ps) ≡ pop_back (ids ps)
  unfolding pop_back
  ids-pop_back [] = refl
  ids-pop_back (p ∷ []) = refl
  ids-pop_back (p ∷ q ∷ ps) = ap (λ xs. c.id_of p ∷ xs) (ids-pop_back (q ∷ ps))

  -- The connector that has been made, if there is one, is that of the identifier.
  abbrev pub Named : ℕ → Option P → Type 0
  Named id none = Unit
  Named id (some p) = c.id_of p ≡ id

  either_Named :
      (b : Bool) (x y : W × Option P) (id : ℕ)
      → Named id (x.1)
      → Named id (y.1)
      → Named id ((if b then x else y).1)
  either_Named true x y id h k = h
  either_Named false x y id h k = k

  pub make_connector-Named : (s : Bus W P) (id : ℕ) → Named id (make_connector c s id).1
  unfolding make_connector
  make_connector-Named s id =
      let made = c.id_made s.world id in
      let p = (c.make s.world id).1 in
      let parent = front s.connectors in
      let opening = c.open_at (c.make s.world id).0 p parent in
      let w1 = opening.0 in
      let old = old_capacity c w1 parent in
      let cpct = new_capacity s.spec old in
      let timeout = if s.spec.keepalive_timeout == 0 then none else some s.spec.keepalive_timeout in
      let creating = c.create_at w1 p s.spec.id cpct timeout parent in
      let lost : W × Option P = (c.drop w1 p, none) in
      let last : W × Option P =
        if creating.1 then (creating.0, some p) else (c.drop creating.0 p, none) in
      let grown : W × Option P = if ltb old cpct then last else lost in
      let may_grow = is_empty s.connectors || ltb 0 s.spec.capacity_factor in
      either_Named opening.1 (w1, some p) (if may_grow then grown else lost) id made
        (either_Named may_grow grown lost id
          (either_Named (ltb old cpct) last lost id
            (either_Named creating.1 (creating.0, some p) (c.drop creating.0 p, none) id made tt)
            tt)
          tt)
