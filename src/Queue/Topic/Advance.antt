-- ===== src/Queue/Topic/Advance.antt =====
-- A subscriber of a `shared_queue` (qbus/queue.cpp) goes on from a message: its counter is one less.
use qbus.Prelude.{
  ℕ, zero, suc, ◌+◌, ◌^◌, ◌≤◌, ◌<◌, ◌≡◌, ◌∙◌, inl, refl, sym, arith, true, List, [], ◌∷◌, length,
  subst, ℕ_discrete, ==_true,
}
use qbus.Bytes.{Mem}
use qbus.Bytes.Words.{Apart}
use qbus.Message
use qbus.Message.Fields.{tag-Agree}
use qbus.Message.Chain.Blocks.{Stored, Stored-fields, AreDisjoint}
use qbus.Queue.Layout.{Item, block, blocks, used, after, first_block, IsLaid, AreLaid, span}
use qbus.Queue.Layout.Frame.{SameSpan, Agree-first, AreLaid-SameSpan, IsLaid-SameSpan}
use qbus.Queue.Reader.{counter-Agree}
use qbus.Queue.Topic.Counted.{AreCounted, AreCounted-cong, AreCounted-SameSpan, disjoint_blocks}
use qbus.Queue.Fifo.Bounds.{starts, first_block-Apart}
use qbus.Queue.Topic.Walk.{walk, later-Apart}
use qbus.Spec.Topic.Zeros.{zeros-counts, zeros-same, at-same, at-other}
use qbus.Spec.Topic.{preds, ◌at◌is◌}

-- A write to the counter of one message.
module _ (m m' : Mem) (d c : ℕ) where
  -- It is the counter of the message behind `k` others.
  abbrev pub OnlyCounter : ℕ → List Item → ℕ → Type 0
  OnlyCounter t xs k = (b : ℕ) → Apart (first_block d c (walk c t xs k) + 16) 4 b → m' b ≡ m b

  pub IsLaid-counter :
      (t : ℕ) (x : Item)
      → ((b : ℕ) → Apart (first_block d c t + 16) 4 b → m' b ≡ m b)
      → AreDisjoint (blocks d c t (length x.body))
      → IsLaid m d c t x
      → IsLaid m' d c t x
  IsLaid-counter t x only disjoint laid =
      let s = starts d c t (length x.body) in
      (
        subst (λ bs. Stored true m' bs x.body) (sym s.at)
            (Stored-fields true m m' (block (first_block d c t) s.cap) s.others x.body
              (subst AreDisjoint s.at disjoint).0 (λ b h. only b (ground arith))
              (subst (λ bs. Stored true m bs x.body) s.at laid.0)),
        tag-Agree m m' (first_block d c t) (λ b l h. only b (inl (omega arith))) ∙ laid.1,
        laid.2,
      )

  rest_same :
      (t : ℕ) (x : Item) (xs : List Item)
      → t < c
      → span c t (x ∷ xs) ≤ c
      → OnlyCounter t (x ∷ xs) 0
      → SameSpan m m' d c (after c t (length x.body)) (span c (after c t (length x.body)) xs)
  rest_same t x xs h k only y l i = only (d + y) (
      let o =
        first_block-Apart d c t (length x.body) h (omega arith)
          (span c (after c t (length x.body)) xs) y k l i in
      ground arith)

  first_same :
      (t : ℕ) (x : Item) (xs : List Item) (k : ℕ)
      → t < c
      → span c t (x ∷ xs) ≤ c
      → k < length xs
      → OnlyCounter t (x ∷ xs) (suc k)
      → SameSpan m m' d c t (used c t (length x.body))
  first_same t x xs k h s l only y yc i =
      only (d + y) (let o = later-Apart d c t x xs k y h s l yc i in ground arith)

  pub AreLaid-counter :
      (t : ℕ) (xs : List Item) (k : ℕ)
      → c < 2 ^ 32
      → t < c
      → span c t xs ≤ c
      → k < length xs
      → OnlyCounter t xs k
      → AreLaid m d c t xs
      → AreLaid m' d c t xs
  AreLaid-counter t [] k small h s l only laid = tt
  AreLaid-counter t (x ∷ xs) zero small h s l only laid = (
    IsLaid-counter t x only (disjoint_blocks d c t (length x.body) small h (omega arith)) laid.0,
    AreLaid-SameSpan m m' d c (after c t (length x.body)) xs (omega arith) (omega arith)
        (rest_same t x xs h s only) laid.1,
  )
  AreLaid-counter t (x ∷ xs) (suc k) small h s l only laid = (
    IsLaid-SameSpan m m' d c t x h (omega arith) (first_same t x xs k h s (omega arith) only)
        laid.0,
    AreLaid-counter (after c t (length x.body)) xs k small (omega arith) (omega arith) (omega arith)
        only laid.1,
  )

  -- The subscriber `i` goes on from a message, which counts one less then.
  pub AreCounted-advance :
      (t : ℕ) (xs : List Item) (n i k : ℕ) (seen : ℕ → ℕ)
      → t < c
      → span c t xs ≤ c
      → k < length xs
      → i < n
      → seen i ≡ k
      → OnlyCounter t xs k
      → Message.counter m' (first_block d c (walk c t xs k)) + 1
        ≡ Message.counter m (first_block d c (walk c t xs k))
      → AreCounted m d c t xs n seen
      → AreCounted m' d c t xs n (seen at i is k + 1)
  AreCounted-advance t [] n i k seen h s l r e only less counted = tt
  AreCounted-advance t (x ∷ xs) n i zero seen h s l r e only less counted = (
    omega (arith, less, counted.0, zeros-counts n seen i 1 r e (omega arith)),
    AreCounted-cong m' d c (after c t (length x.body)) xs n (preds seen) (preds (seen at i is 1))
        (λ j z. elim (ℕ_discrete j i) [
          | yes same ↦ rw (same, e, ==_true i i refl)
          | no other ↦ rw (at-other seen i 1 j other)
        ])
        (AreCounted-SameSpan m m' d c (after c t (length x.body)) xs n (preds seen) (omega arith)
          (omega arith) (rest_same t x xs h s only) counted.1),
  )
  AreCounted-advance t (x ∷ xs) n i (suc k) seen h s l r e only less counted =
      let same = first_same t x xs k h s (omega arith) only in
      (
        counter-Agree m m' (first_block d c t)
              (Agree-first m m' d c t (length x.body) h (omega arith) same)
            ∙ counted.0
            ∙ sym (zeros-same n seen i (suc k + 1) (omega arith) (omega arith)),
        AreCounted-cong m' d c (after c t (length x.body)) xs n (preds seen at i is k + 1)
            (preds (seen at i is suc k + 1))
            (λ j z. elim (ℕ_discrete j i) [
              | yes eq ↦
                  rw (eq, at-same (preds seen) i (k + 1), at-same seen i (suc k + 1)) (omega arith)
              | no other ↦
                  rw (at-other seen i (suc k + 1) j other, at-other (preds seen) i (k + 1) j other)
            ])
            (AreCounted-advance (after c t (length x.body)) xs n i k (preds seen) (omega arith)
              (omega arith) (omega arith) r (omega (arith, e)) only less counted.1),
      )
