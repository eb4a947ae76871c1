-- ===== src/Queue/Fifo/Bounds.antt =====
-- Bounds on what a ring holds, and where the first header of a message lies.
use qbus.Prelude.{ℕ, ◌+◌, ◌-◌, ◌*◌, ◌≤◌, ◌<◌, ◌≡◌, refl, ap, arith, List, [], ◌∷◌, length}
use qbus.Bytes.Words.{Apart}
use qbus.Message.Chain.Blocks.{Block, chain_of}
use qbus.Queue.Layout.{
  Item, block, blocks, used, after, shape, skipped, whole, split, first_block, span, InSpan,
  wrap_cases, used-ge,
}

-- Each message takes at least 24 bytes.
pub length-span : (c t : ℕ) (xs : List Item) → 24 * length xs ≤ span c t xs
length-span c t [] = omega arith
length-span c t (x ∷ xs) =
    omega (arith, used-ge c t (length x.body), length-span c (after c t (length x.body)) xs)

pub span-empty : (c t : ℕ) (xs : List Item) → length xs ≡ 0 → span c t xs ≡ 0
span-empty c t [] h = refl
span-empty c t (x ∷ xs) h = absurd (omega arith)

-- The blocks of a message begin with the one of its first header.
pub record Starts (d c t n : ℕ) : Type 0 where
  pub cap : ℕ
  pub others : List Block
  pub at : blocks d c t n ≡ block (first_block d c t) cap ∷ others

pub starts : (d c t n : ℕ) → Starts d c t n
starts d c t n = elim (shape d c t n) [
  | skipped p b v f ↦ record { cap = n; others = []; at = rw (b, f) }
  | whole p q b v f ↦ record { cap = n; others = []; at = rw (b, f) }
  | split p q b v f ↦ record {
    cap = c - t - 24;
    others = block d (n - (c - t - 24)) ∷ [];
    at = rw (b, f);
  }
]

-- So does the chain.
pub record ChainStarts (d c t n : ℕ) : Type 0 where
  pub others : List ℕ
  pub at : chain_of (blocks d c t n) ≡ first_block d c t ∷ others

pub chain_starts : (d c t n : ℕ) → ChainStarts d c t n
chain_starts d c t n =
    let s = starts d c t n in record { others = chain_of s.others; at = ap chain_of s.at }

-- The first header lies in the span of its message, inside the data.
module _ (d c t n : ℕ) (t_in : t < c) (fits : used c t n ≤ c) where
  pub first_block-ge : d ≤ first_block d c t
  first_block-ge = elim (shape d c t n) [
    | skipped p b v f ↦ rw f (omega arith)
    | whole p q b v f ↦ rw f (omega arith)
    | split p q b v f ↦ rw f (omega arith)
  ]

  pub first_block-le : first_block d c t + 24 ≤ d + c
  first_block-le = elim (shape d c t n) [
    | skipped p b v f ↦ rw f (omega arith)
    | whole p q b v f ↦ rw f (omega arith)
    | split p q b v f ↦ rw f (omega arith)
  ]

  -- It is apart from the messages behind.
  pub first_block-Apart :
      (v x : ℕ)
      → used c t n + v ≤ c
      → x < c
      → InSpan c (after c t n) v x
      → Apart (first_block d c t) 24 (d + x)
  first_block-Apart v x h k i = elim (shape d c t n) [
    | skipped p b w f ↦ rw f (ground (arith, wrap_cases c t (used c t n) t_in fits))
    | whole p q b w f ↦ rw f (ground (arith, wrap_cases c t (used c t n) t_in fits))
    | split p q b w f ↦ rw f (ground (arith, wrap_cases c t (used c t n) t_in fits))
  ]
