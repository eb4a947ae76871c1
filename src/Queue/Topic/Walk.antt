-- ===== src/Queue/Topic/Walk.antt =====
-- Where the messages of a ring begin, and that the headers of later messages are apart from those
-- before (the layout of qbus/queue.cpp).
use qbus.Prelude.{
  ℕ, zero, suc, ◌+◌, ◌-◌, ◌%◌, ◌≤◌, ◌<◌, ◌≡◌, inl, inr, refl, arith, List, [], ◌∷◌, ◌++◌, length,
  dec_lt, subst, drop,
}
use qbus.Bytes.Words.{Apart}
use qbus.Queue.Layout.{
  Item, used, after, shape, skipped, whole, split, first_block, span, InSpan, InSpan-mono,
  InSpan-after, wrap_cases,
}

-- The position behind `k` messages.
abbrev pub walk : ℕ → ℕ → List Item → ℕ → ℕ
walk c t xs zero = t
walk c t [] (suc k) = t
walk c t (x ∷ xs) (suc k) = walk c (after c t (length x.body)) xs k

pub walk-lt : (c t : ℕ) (xs : List Item) (k : ℕ) → t < c → walk c t xs k < c
walk-lt c t xs zero h = h
walk-lt c t [] (suc k) h = h
walk-lt c t (x ∷ xs) (suc k) h = walk-lt c (after c t (length x.body)) xs k (omega arith)

-- The address `a` is one of the `u` bytes from `t` on.
pub record Inside (d c t u a : ℕ) : Type 0 where
  pub pos : ℕ
  pub pos_in : pos < c
  pub at : a ≡ d + pos
  pub in_span : InSpan c t u pos

first_block-Inside :
    (d c t n i : ℕ)
    → t < c
    → used c t n ≤ c
    → i < 24
    → Inside d c t (used c t n) (first_block d c t + i)
first_block-Inside d c t n i h k l = elim (shape d c t n) [
  | skipped p b v f ↦ record {
    pos = i;
    pos_in = omega arith;
    at = rw f refl;
    in_span = ground arith;
  }
  | whole p q b v f ↦ record {
    pos = t + i;
    pos_in = omega arith;
    at = rw f (omega arith);
    in_span = inl (omega arith);
  }
  | split p q b v f ↦ record {
    pos = t + i;
    pos_in = omega arith;
    at = rw f (omega arith);
    in_span = inl (omega arith);
  }
]

pub walk-Inside :
    (d c t : ℕ) (xs : List Item) (k i : ℕ)
    → t < c
    → span c t xs ≤ c
    → k < length xs
    → i < 24
    → Inside d c t (span c t xs) (first_block d c (walk c t xs k) + i)
walk-Inside d c t [] k i h s l j = absurd (omega arith)
walk-Inside d c t (x ∷ xs) zero i h s l j =
    let u = used c t (length x.body) in
    let f = first_block-Inside d c t (length x.body) i h (omega arith) j in
    record {
      pos = f.pos;
      pos_in = f.pos_in;
      at = f.at;
      in_span = InSpan-mono c t u (span c t (x ∷ xs)) f.pos (omega arith) f.in_span;
    }
walk-Inside d c t (x ∷ xs) (suc k) i h s l j =
    let u = used c t (length x.body) in
    let t' = after c t (length x.body) in
    let f = walk-Inside d c t' xs k i (omega arith) (omega arith) (omega arith) j in
    record {
      pos = f.pos;
      pos_in = f.pos_in;
      at = f.at;
      in_span = InSpan-after c t u (span c t' xs) f.pos h s f.pos_in f.in_span;
    }

apart_spans :
    (c t u v x : ℕ) → t < c → u + v ≤ c → x < c → InSpan c t u x → InSpan c ((t + u) % c) v x → ⊥
apart_spans c t u v x h k l p q = ground (arith, wrap_cases c t u h (omega arith))

-- The header of a later message is apart from the bytes of the first one.
pub later-Apart :
    (d c t : ℕ) (x : Item) (xs : List Item) (k y : ℕ)
    → t < c
    → span c t (x ∷ xs) ≤ c
    → k < length xs
    → y < c
    → InSpan c t (used c t (length x.body)) y
    → Apart (first_block d c (walk c t (x ∷ xs) (suc k))) 24 (d + y)
later-Apart d c t x xs k y h s l yc i =
    let t' = after c t (length x.body) in
    let p = first_block d c (walk c t' xs k) in
    elim (dec_lt (d + y) p) [
      | yes b ↦ inl b
      | no b ↦ elim (dec_lt (d + y) (p + 24)) [
        | no e ↦ inr (omega arith)
        | yes e ↦
            let f =
              walk-Inside d c t' xs k (d + y - p) (omega arith) (omega arith) l (omega arith) in
            let same : f.pos ≡ y = omega (arith, f.at) in
            absurd (
              apart_spans c t (used c t (length x.body)) (span c t' xs) y h s yc i
                (subst (λ z. InSpan c t' (span c t' xs) z) same f.in_span))
      ]
    ]

-- The message behind `k` others.
pub record Next (c t : ℕ) (xs : List Item) (k : ℕ) : Type 0 where
  pub item : Item
  pub rest : List Item
  pub drop_at : drop k xs ≡ item ∷ rest
  pub rest_at : drop (suc k) xs ≡ rest
  pub walk_at : walk c t xs (suc k) ≡ after c (walk c t xs k) (length item.body)

pub next : (c t : ℕ) (xs : List Item) (k : ℕ) → k < length xs → Next c t xs k
next c t [] k h = absurd (omega arith)
next c t (x ∷ xs) zero h = record {
  item = x;
  rest = xs;
  drop_at = refl;
  rest_at = refl;
  walk_at = refl;
}
next c t (x ∷ xs) (suc k) h =
    let n = next c (after c t (length x.body)) xs k (omega arith) in
    record {
      item = n.item;
      rest = n.rest;
      drop_at = n.drop_at;
      rest_at = n.rest_at;
      walk_at = n.walk_at;
    }

-- One more message behind the others changes no position.
pub walk-append :
    (c t : ℕ) (xs ys : List Item) (k : ℕ) → k ≤ length xs → walk c t (xs ++ ys) k ≡ walk c t xs k
walk-append c t xs ys zero h = refl
walk-append c t [] ys (suc k) h = absurd (omega arith)
walk-append c t (x ∷ xs) ys (suc k) h =
    walk-append c (after c t (length x.body)) xs ys k (omega arith)
