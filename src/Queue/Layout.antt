-- ===== src/Queue/Layout.antt =====
-- Where messages lie in the data of a queue of capacity `c`: a message of `n` bytes that begins at
-- position `t` is one block, or one block at position 0 if no header and byte fit behind `t`, or a
-- block up to the end and one at position 0 with the rest. `d` is the address of the data.
pub mod Frame
use qbus.Prelude.{
  ℕ, ◌+◌, ◌-◌, ◌%◌, ◌≤◌, ◌<◌, ◌≡◌, ◌∙◌, ◌⊎◌, inl, inr, arith, Bool, true, List, [], ◌∷◌, ◌++◌,
  length, if◌then◌else◌, leb, leb-true, leb-false, dec_lt, mod-eq_of_lt, mod-eq-sub-mod,
  mod-add-mod, ap,
}
use qbus.Bytes.{Mem}
use qbus.Message
use qbus.Message.Chain.Blocks.{Block, Stored}

-- A message as its writer and its reader see it.
pub record Item : Type 0 where
  pub tag : ℕ
  pub body : List ℕ

abbrev pub block : ℕ → ℕ → Block
block start cap = record { start = start; cap = cap }

unfoldable pub blocks : ℕ → ℕ → ℕ → ℕ → List Block
blocks d c t n =
    if leb (c - t) 24
    then block d n ∷ []
    else if leb n (c - t - 24)
    then block (d + t) n ∷ []
    else block (d + t) (c - t - 24) ∷ block d (n - (c - t - 24)) ∷ []

-- The bytes of the ring that the message takes, with those left unused behind `t`.
unfoldable pub used : ℕ → ℕ → ℕ → ℕ
used c t n =
    if leb (c - t) 24
    then c - t + (24 + n)
    else if leb n (c - t - 24)
    then 24 + n
    else c - t + (24 + (n - (c - t - 24)))

abbrev pub after : ℕ → ℕ → ℕ → ℕ
after c t n = (t + used c t n) % c

-- The address of the first header.
unfoldable pub first_block : ℕ → ℕ → ℕ → ℕ
first_block d c t = if leb (c - t) 24 then d else d + t

-- The three ways in which a message of `n` bytes can lie at `t`.
pub data Shape (d c t n : ℕ) : Type 0 where
  skipped :
      c ≤ t + 24
      → blocks d c t n ≡ block d n ∷ []
      → used c t n ≡ c - t + (24 + n)
      → first_block d c t ≡ d
      → Shape d c t n
  whole :
      t + 24 + n ≤ c
      → t + 24 < c
      → blocks d c t n ≡ block (d + t) n ∷ []
      → used c t n ≡ 24 + n
      → first_block d c t ≡ d + t
      → Shape d c t n
  split :
      t + 24 < c
      → c < t + 24 + n
      → blocks d c t n ≡ block (d + t) (c - t - 24) ∷ block d (n - (c - t - 24)) ∷ []
      → used c t n ≡ c - t + (24 + (n - (c - t - 24)))
      → first_block d c t ≡ d + t
      → Shape d c t n

pub shape : (d c t n : ℕ) → Shape d c t n
unfolding blocks used first_block
shape d c t n = elim (dec_lt (t + 24) c) [
  | no p ↦
      skipped (omega arith) (rw (leb-true (c - t) 24 (omega arith)))
        (rw (leb-true (c - t) 24 (omega arith))) (rw (leb-true (c - t) 24 (omega arith)))
  | yes p ↦ elim (dec_lt c (t + 24 + n)) [
    | no k ↦
        whole (omega arith) p
          (rw (leb-false (c - t) 24 (omega arith), leb-true n (c - t - 24) (omega arith)))
          (rw (leb-false (c - t) 24 (omega arith), leb-true n (c - t - 24) (omega arith)))
          (rw (leb-false (c - t) 24 (omega arith)))
    | yes k ↦
        split p k (rw (leb-false (c - t) 24 (omega arith), leb-false n (c - t - 24) (omega arith)))
          (rw (leb-false (c - t) 24 (omega arith), leb-false n (c - t - 24) (omega arith)))
          (rw (leb-false (c - t) 24 (omega arith)))
  ]
]

abbrev pub IsLaid : Mem → ℕ → ℕ → ℕ → Item → Type 0
IsLaid m d c t x =
    Stored true m (blocks d c t (length x.body)) x.body
    × (Message.tag m (first_block d c t) ≡ x.tag)
    × (0 < length x.body)

-- The messages lie one behind the other, the first one at `t`.
abbrev pub AreLaid : Mem → ℕ → ℕ → ℕ → List Item → Type 0
AreLaid m d c t [] = Unit
AreLaid m d c t (x ∷ xs) = IsLaid m d c t x × AreLaid m d c (after c t (length x.body)) xs

abbrev pub span : ℕ → ℕ → List Item → ℕ
span c t [] = 0
span c t (x ∷ xs) = used c t (length x.body) + span c (after c t (length x.body)) xs

-- The position `x` is one of the `u` positions of the ring from `t` on.
abbrev pub InSpan : ℕ → ℕ → ℕ → ℕ → Type 0
InSpan c t u x = ((t ≤ x) × (x < t + u)) ⊎ (x + c < t + u)

-- Going `u` steps round the ring.
pub wrap_cases :
    (c t u : ℕ)
    → t < c
    → u ≤ c
    → (((t + u) % c ≡ t + u) × (t + u < c)) ⊎ (((t + u) % c ≡ t + u - c) × (c ≤ t + u))
wrap_cases c t u h k = elim (dec_lt (t + u) c) [
  | yes p ↦ inl (mod-eq_of_lt p, p)
  | no p ↦ inr (
    mod-eq-sub-mod {n = t + u} {m = c} (omega arith)
        ∙ mod-eq_of_lt {n = t + u - c} {m = c} (omega arith),
    omega arith,
  )
]

pub used-ge : (c t n : ℕ) → 24 + n ≤ used c t n
unfolding used
used-ge c t n = ground arith

pub used-le : (c t n : ℕ) → used c t n ≤ n + 48
unfolding used
used-le c t n = ground arith

pub InSpan-after :
    (c t u v x : ℕ) → t < c → u + v ≤ c → x < c → InSpan c ((t + u) % c) v x → InSpan c t (u + v) x
InSpan-after c t u v x h k l p = ground (arith, wrap_cases c t u h (omega arith))

pub InSpan-mono : (c t u v x : ℕ) → u ≤ v → InSpan c t u x → InSpan c t v x
InSpan-mono c t u v x h p = ground arith

pub after-span : (c t u v : ℕ) → ((t + u) % c + v) % c ≡ (t + (u + v)) % c
after-span c t u v = rw mod-add-mod (ap (λ n. n % c) (omega arith))
