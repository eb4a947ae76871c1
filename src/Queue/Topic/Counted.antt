-- ===== src/Queue/Topic/Counted.antt =====
-- The counters of the messages in the ring of a `shared_queue` (qbus/queue.cpp): each message counts
-- the subscribers that have not seen it.
use qbus.Prelude.{
  ℕ, zero, suc, ◌+◌, ◌-◌, ◌%◌, ◌^◌, ◌≤◌, ◌<◌, ◌≡◌, ◌∙◌, refl, sym, arith, List, [], ◌∷◌, ◌++◌,
  length, subst, ap, mod-eq_of_lt,
}
use qbus.Bytes.{Mem}
use qbus.Message
use qbus.Message.Chain.Blocks.{AreDisjoint}
use qbus.Queue.Layout.{
  Item, blocks, used, after, after-span, first_block, span, InSpan-mono, InSpan-after,
}
use qbus.Queue.Layout.Frame.{SameSpan, Agree-first}
use qbus.Queue.Write.{AreDisjoint-blocks}
use qbus.Queue.Reader.{counter-Agree}
use qbus.Queue.Topic.Walk.{walk}
use qbus.Spec.Topic.Zeros.{zeros-cong, zeros-all}
use qbus.Spec.Topic.{zeros, preds}

abbrev pub AreCounted : Mem → ℕ → ℕ → ℕ → List Item → ℕ → (ℕ → ℕ) → Type 0
AreCounted m d c t [] n seen = Unit
AreCounted m d c t (x ∷ xs) n seen =
    (Message.counter m (first_block d c t) ≡ zeros n seen)
    × AreCounted m d c (after c t (length x.body)) xs n (preds seen)

pub AreCounted-cong :
    (m : Mem) (d c t : ℕ) (xs : List Item) (n : ℕ) (f g : ℕ → ℕ)
    → ((i : ℕ) → i < n → f i ≡ g i)
    → AreCounted m d c t xs n f
    → AreCounted m d c t xs n g
AreCounted-cong m d c t [] n f g e h = tt
AreCounted-cong m d c t (x ∷ xs) n f g e h = (
  h.0 ∙ zeros-cong n f g e,
  AreCounted-cong m d c (after c t (length x.body)) xs n (preds f) (preds g)
      (λ i l. omega (arith, e i l)) h.1,
)

-- The bytes of the first message, and of the others, are among those of all of them.
pub SameSpan-first :
    (m m' : Mem) (d c t : ℕ) (x : Item) (xs : List Item)
    → SameSpan m m' d c t (span c t (x ∷ xs))
    → SameSpan m m' d c t (used c t (length x.body))
SameSpan-first m m' d c t x xs same y l i =
    same y l (InSpan-mono c t (used c t (length x.body)) (span c t (x ∷ xs)) y (omega arith) i)

pub SameSpan-rest :
    (m m' : Mem) (d c t : ℕ) (x : Item) (xs : List Item)
    → t < c
    → span c t (x ∷ xs) ≤ c
    → SameSpan m m' d c t (span c t (x ∷ xs))
    → SameSpan m m' d c (after c t (length x.body)) (span c (after c t (length x.body)) xs)
SameSpan-rest m m' d c t x xs h k same y l i =
    same y l (
      InSpan-after c t (used c t (length x.body)) (span c (after c t (length x.body)) xs) y h k l i)

pub AreCounted-SameSpan :
    (m m' : Mem) (d c t : ℕ) (xs : List Item) (n : ℕ) (seen : ℕ → ℕ)
    → t < c
    → span c t xs ≤ c
    → SameSpan m m' d c t (span c t xs)
    → AreCounted m d c t xs n seen
    → AreCounted m' d c t xs n seen
AreCounted-SameSpan m m' d c t [] n seen h k same counted = tt
AreCounted-SameSpan m m' d c t (x ∷ xs) n seen h k same counted = (
  counter-Agree m m' (first_block d c t) (
        Agree-first m m' d c t (length x.body) h (omega arith)
          (SameSpan-first m m' d c t x xs same))
      ∙ counted.0,
  AreCounted-SameSpan m m' d c (after c t (length x.body)) xs n (preds seen) (omega arith)
      (omega arith) (SameSpan-rest m m' d c t x xs h k same) counted.1,
)

-- One more message behind the others, which nobody has seen.
pub AreCounted-append :
    (m : Mem) (d c t : ℕ) (xs : List Item) (x : Item) (n : ℕ) (seen : ℕ → ℕ)
    → t < c
    → ((i : ℕ) → i < n → seen i ≤ length xs)
    → Message.counter m (first_block d c ((t + span c t xs) % c)) ≡ n
    → AreCounted m d c t xs n seen
    → AreCounted m d c t (xs ++ x ∷ []) n seen
AreCounted-append m d c t [] x n seen h k e counted =
    let z = zeros-all n seen (λ i l. omega (arith, k i l)) in
    let here : (t + 0) % c ≡ t = ap (λ n. n % c) (omega arith) ∙ mod-eq_of_lt h in
    (subst (λ s. Message.counter m (first_block d c s) ≡ zeros n seen) here (e ∙ sym z), tt)
AreCounted-append m d c t (y ∷ xs) x n seen h k e counted =
    let t' = after c t (length y.body) in
    let further = after-span c t (used c t (length y.body)) (span c t' xs) in
    (
      counted.0,
      AreCounted-append m d c t' xs x n (preds seen) (omega arith) (λ i l. omega (arith, k i l))
          (subst (λ s. Message.counter m (first_block d c s) ≡ n) (sym further) e) counted.1,
    )

pub disjoint_blocks :
    (d c t n : ℕ) → c < 2 ^ 32 → t < c → used c t n ≤ c → AreDisjoint (blocks d c t n)
disjoint_blocks d c t n small h k =
    AreDisjoint-blocks d c t t 0 0 n
      (record {
        small = small;
        head_in = h;
        fits = omega arith;
        tail_at = sym (ap (λ n. n % c) (omega arith) ∙ mod-eq_of_lt h);
        empty = λ z. refl;
        filled = λ z. absurd (z refl);
      })
      (omega arith)

-- The counter of the message behind `k` others.
pub AreCounted-at :
    (m : Mem) (d c t : ℕ) (xs : List Item) (n k : ℕ) (seen : ℕ → ℕ)
    → k < length xs
    → AreCounted m d c t xs n seen
    → Message.counter m (first_block d c (walk c t xs k)) ≡ zeros n (λ i. seen i - k)
AreCounted-at m d c t [] n k seen h counted = absurd (omega arith)
AreCounted-at m d c t (x ∷ xs) n zero seen h counted =
    counted.0 ∙ zeros-cong n seen (λ i. seen i - 0) (λ i l. omega arith)
AreCounted-at m d c t (x ∷ xs) n (suc k) seen h counted =
    AreCounted-at m d c (after c t (length x.body)) xs n k (preds seen) (omega arith) counted.1
    ∙ zeros-cong n (λ i. seen i - 1 - k) (λ i. seen i - suc k) (λ i l. omega arith)

pub AreCounted-eq :
    (m : Mem) {d c t d' c' t' : ℕ} (xs : List Item) (n : ℕ) (seen : ℕ → ℕ)
    → d' ≡ d
    → c' ≡ c
    → t' ≡ t
    → AreCounted m d c t xs n seen
    → AreCounted m d' c' t' xs n seen
AreCounted-eq m xs n seen ed ec et h = rw (ed, ec, et) h
