-- ===== src/Queue/Fifo/Moves.antt =====
-- How the list of messages moves: it stays while only free bytes change, it grows by a message laid
-- behind the tail, and it loses its first one when the head moves on.
use qbus.Prelude.{
  length-append, ℕ, ◌+◌, ◌-◌, ◌%◌, ◌^◌, ◌≤◌, ◌<◌, ◌≡◌, ◌∙◌, inl, inr, sym, ap, subst, arith, List,
  [], ◌∷◌, ◌++◌, length,
}
use qbus.Bytes.{Mem}
use qbus.Message.Make.{Desc}
use qbus.Queue.Layout.{Item, used, after, IsLaid, span, after-span, used-ge}
use qbus.Queue.Layout.Frame.{SameSpan, AreLaid-SameSpan, AreLaid-append, span-append}
use qbus.Queue.{Queue, mem, data_start, capacity, head, tail, count}
use qbus.Queue.Fifo.{Holds, HoldsAt, IsFirst}
use qbus.Queue.Fifo.Bounds.{length-span, span-empty}

module _ (m m' : Mem) (d c hd tl cnt : ℕ) (desc : Desc) (xs : List Item)
    (h : HoldsAt m d c hd tl cnt desc xs) where
  pub HoldsAt-same : SameSpan m m' d c hd (span c hd xs) → HoldsAt m' d c hd tl cnt desc xs
  HoldsAt-same same = record {
    ring = h.ring;
    laid = AreLaid-SameSpan m m' d c hd xs h.ring.head_in h.ring.fits same h.laid;
    counted = h.counted;
    pulled = h.pulled;
  }

  -- There is room for one more in the count.
  pub count-small : cnt + 1 < 2 ^ 32
  count-small =
      omega (arith, h.ring.small, h.ring.fits, h.counted, length-span c hd xs, h.ring.head_in)

pub IsFirst-append :
    (d c hd : ℕ) (desc : Desc) (xs : List Item) (x : Item)
    → IsFirst d c hd desc xs
    → IsFirst d c hd desc (xs ++ x ∷ [])
IsFirst-append d c hd desc [] x h = absurd h
IsFirst-append d c hd desc (y ∷ xs) x h = h

module _ (m m' : Mem) (d c hd tl cnt : ℕ) (desc : Desc) (xs : List Item) (x : Item)
    (h : HoldsAt m d c hd tl cnt desc xs) where
  pub HoldsAt-append :
      used c tl (length x.body) ≤ c - span c hd xs
      → SameSpan m m' d c hd (span c hd xs)
      → IsLaid m' d c tl x
      → HoldsAt m' d c hd (after c tl (length x.body)) (cnt + 1) desc (xs ++ x ∷ [])
  HoldsAt-append fits same laid =
      let at = h.ring.tail_at in
      let grown = span-append c hd xs x h.ring.head_in in
      let e : span c hd (xs ++ x ∷ []) ≡ span c hd xs + used c tl (length x.body) =
        subst (λ t. span c hd (xs ++ x ∷ []) ≡ span c hd xs + used c t (length x.body)) (sym at)
          grown in
      record {
        ring = record {
          small = h.ring.small;
          head_in = h.ring.head_in;
          fits = omega (arith, h.ring.fits, e);
          tail_at = rw e (
              ap (λ t. (t + used c tl (length x.body)) % c) at
              ∙ after-span c hd (span c hd xs) (used c tl (length x.body)));
          empty = λ z. absurd (omega arith);
          filled = λ z. omega (arith, e, used-ge c tl (length x.body));
        };
        laid =
            AreLaid-append m' d c hd xs x h.ring.head_in
              (AreLaid-SameSpan m m' d c hd xs h.ring.head_in h.ring.fits same h.laid)
              (subst (λ t. IsLaid m' d c t x) at laid);
        counted = omega (arith, h.counted, length-append xs (x ∷ []));
        pulled = elim h.pulled [ inl e ↦ inl e | inr f ↦ inr (IsFirst-append d c hd desc xs x f) ];
      }

module _ (m m' : Mem) (d c hd tl cnt : ℕ) (desc desc' : Desc) (x : Item) (xs : List Item)
    (h : HoldsAt m d c hd tl cnt desc (x ∷ xs)) where
  pub HoldsAt-tail :
      SameSpan m m' d c (after c hd (length x.body)) (span c (after c hd (length x.body)) xs)
      → desc'.chain ≡ []
      → HoldsAt m' d c (after c hd (length x.body)) tl (cnt - 1) desc' xs
  HoldsAt-tail same null =
      let u = used c hd (length x.body) in
      let hd' = after c hd (length x.body) in
      let v = span c hd' xs in
      let in' : hd' < c = omega (arith, h.ring.head_in) in
      record {
        ring = record {
          small = h.ring.small;
          head_in = in';
          fits = omega (arith, h.ring.fits);
          tail_at = h.ring.tail_at ∙ sym (after-span c hd u v);
          empty = λ z. span-empty c hd' xs (omega (arith, h.counted));
          filled = λ z. omega (arith, h.counted, length-span c hd' xs);
        };
        laid = AreLaid-SameSpan m m' d c hd' xs in' (omega (arith, h.ring.fits)) same h.laid.1;
        counted = omega (arith, h.counted);
        pulled = inl null;
      }

-- A queue object holds what its header fields say.
pub HoldsAt-fields :
    (q : Queue) {d c hd tl cnt : ℕ} {desc : Desc} {xs : List Item}
    → data_start q ≡ d
    → capacity q ≡ c
    → head q ≡ hd
    → tail q ≡ tl
    → count q ≡ cnt
    → HoldsAt (mem q) d c hd tl cnt desc xs
    → HoldsAt (mem q) (data_start q) (capacity q) (head q) (tail q) (count q) desc xs
HoldsAt-fields q ed ec eh et en h = rw (ed, ec, eh, et, en) h

-- The kept description is no part of the header.
pub Holds-desc :
    (q : Queue) {desc : Desc} {xs : List Item}
    → HoldsAt (mem q) (data_start q) (capacity q) (head q) (tail q) (count q) desc xs
    → Holds (record q { message_desc = desc }) xs
unfolding capacity head tail count
Holds-desc q h = h
