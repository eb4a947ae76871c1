-- ===== src/Spec/Feed.antt =====
-- What subscribers see of a topic, whatever becomes of its ring: all messages that were published so
-- far, of which each subscriber has passed some. This is written independently of qbus/queue.cpp.
use qbus.Prelude.{
  drop-append, drop-drop, ℕ, subst, Bool, ◌⊎◌, inl, inr, dec_le, leb-true, leb-false, ◌+◌, ◌<◌, ◌≤◌,
  ◌≡◌, ◌∙◌, refl, sym, ap, arith, true, false, List, [], ◌∷◌, ◌++◌, length, drop, dec_lt, ltb-true,
  ltb-false, ==_true, ==_false, ℕ_discrete, length-append,
}
use qbus.Queue.Layout.{Item, used, span, after}
use qbus.Spec.Topic.Zeros.{zeros-none}
use qbus.Spec.{Op, Reply, oldest}
use qbus.Spec.Topic.{
  Topic, empty, behind, zeros, preds, ◌at◌is◌, cleaned, placed, publish, advance, answer, answers,
}

-- The replies fit a feed of which `sent` has been published and `place i` passed by `i`: an accepted
-- push adds to it, `get` shows the next message that the subscriber has not passed, and `pop` passes
-- it, which fails exactly if there is none.
abbrev pub IsFeed : List Item → (ℕ → ℕ) → List (ℕ × Op) → List Reply → Type 0
IsFeed sent place [] [] = Unit
IsFeed sent place ((i, Op.push x) ∷ calls) (Reply.pushed true ∷ replies) =
    IsFeed (sent ++ x ∷ []) place calls replies
IsFeed sent place ((i, Op.push x) ∷ calls) (Reply.pushed false ∷ replies) =
    IsFeed sent place calls replies
IsFeed sent place ((i, Op.get) ∷ calls) (Reply.got item ∷ replies) =
    (item ≡ oldest (drop (place i) sent)) × IsFeed sent place calls replies
IsFeed sent place ((i, Op.pop) ∷ calls) (Reply.popped true ∷ replies) =
    (place i < length sent) × IsFeed sent (place at i is place i + 1) calls replies
IsFeed sent place ((i, Op.pop) ∷ calls) (Reply.popped false ∷ replies) =
    (place i ≡ length sent) × IsFeed sent place calls replies
IsFeed sent place calls replies = ⊥

-- The topic holds the end of the feed; `gone` messages have left it.
record Follows (n : ℕ) (items : List Item) (seen : ℕ → ℕ) (sent : List Item) (place : ℕ → ℕ)
    (gone : ℕ) : Type 0 where
  rest : drop gone sent ≡ items
  within : gone + length items ≡ length sent
  placed_at : (i : ℕ) → i < n → place i ≡ gone + seen i
  seen_le : (i : ℕ) → i < n → seen i ≤ length items

-- The oldest message that the subscriber has not seen is the next of the feed.
next_same :
    (n : ℕ) (items : List Item) (seen : ℕ → ℕ) (sent : List Item) (place : ℕ → ℕ) (gone i : ℕ)
    → i < n
    → Follows n items seen sent place gone
    → drop (seen i) items ≡ drop (place i) sent
next_same n items seen sent place gone i h f =
    ap (drop (seen i)) (sym f.rest)
    ∙ sym (drop-drop gone (seen i) sent)
    ∙ ap (λ k. drop k sent) (sym (f.placed_at i h))

-- What the cleaned topic still holds.
pub record FollowsAny (n : ℕ) (t : Topic) (sent : List Item) (place : ℕ → ℕ) : Type 0 where
  gone : ℕ
  follows : Follows n t.items t.seen sent place gone

cleaned-Follows :
    (n cap start : ℕ) (items : List Item) (seen : ℕ → ℕ) (sent : List Item) (place : ℕ → ℕ)
    (gone : ℕ)
    → Follows n items seen sent place gone
    → FollowsAny n (cleaned n cap start items seen) sent place
unfolding cleaned
cleaned-Follows n cap start [] seen sent place gone f = record { gone = gone; follows = f }
cleaned-Follows n cap start (x ∷ xs) seen sent place gone f =
    let rest : Follows n (x ∷ xs) seen sent place gone
        → zeros n seen ≡ 0
        → FollowsAny n (cleaned n cap (after cap start (length x.body)) xs (preds seen)) sent
            place =
      λ f z.
        cleaned-Follows n cap (after cap start (length x.body)) xs (preds seen) sent place
          (gone + 1)
          (record {
            rest = drop-drop gone 1 sent ∙ ap (drop 1) f.rest;
            within = omega (arith, f.within);
            placed_at = λ i h. omega (arith, f.placed_at i h, zeros-none n seen i z h);
            seen_le = λ i h. omega (arith, f.seen_le i h);
          }) in
    elim (ℕ_discrete (zeros n seen) 0) [
      | yes all ↦ rw (==_true (zeros n seen) 0 all) (rest f all)
      | no some_behind ↦
          rw (==_false (zeros n seen) 0 some_behind) (record { gone = gone; follows = f })
    ]

append-Follows :
    (n : ℕ) (items : List Item) (seen : ℕ → ℕ) (sent : List Item) (place : ℕ → ℕ) (gone : ℕ)
    (x : Item)
    → Follows n items seen sent place gone
    → Follows n (items ++ x ∷ []) seen (sent ++ x ∷ []) place gone
append-Follows n items seen sent place gone x f =
    let a = length-append items (x ∷ []) in
    let b = length-append sent (x ∷ []) in
    record {
      rest =
          drop-append gone sent (x ∷ []) (omega (arith, f.within)) ∙ ap (λ l. l ++ x ∷ []) f.rest;
      within = omega (arith, f.within, a, b);
      placed_at = f.placed_at;
      seen_le = λ i h. omega (arith, f.seen_le i h, a);
    }

advance-Follows :
    (n : ℕ) (items : List Item) (seen : ℕ → ℕ) (sent : List Item) (place : ℕ → ℕ) (gone i : ℕ)
    → seen i < length items
    → Follows n items seen sent place gone
    → Follows n items (seen at i is seen i + 1) sent (place at i is place i + 1) gone
advance-Follows n items seen sent place gone i l f = record {
  rest = f.rest;
  within = f.within;
  placed_at = λ j h. elim (ℕ_discrete j i) [
    | yes e ↦ rw (==_true j i e) (omega (arith, f.placed_at i (subst (λ k. k < n) e h)))
    | no ne ↦ rw (==_false j i ne) (f.placed_at j h)
  ];
  seen_le = λ j h. elim (ℕ_discrete j i) [
    | yes e ↦ rw (==_true j i e) (omega arith)
    | no ne ↦ rw (==_false j i ne) (f.seen_le j h)
  ];
}

-- All callers are among `n` subscribers.
abbrev pub AreCallers : ℕ → List (ℕ × Op) → Type 0
AreCallers n [] = Unit
AreCallers n ((i, op) ∷ calls) = (i < n) × AreCallers n calls

placed_cases :
    (t : Topic) (x : Item)
    → (placed t x ≡ (record t { items = t.items ++ x ∷ [] }, true)) ⊎ (placed t x ≡ (t, false))
unfolding placed
placed_cases t x =
    let need = span t.cap t.start t.items + used t.cap (behind t) (length x.body) in
    elim (dec_le need t.cap) [
      | yes h ↦ inl (rw (leb-true need t.cap h))
      | no h ↦ inr (rw (leb-false need t.cap (omega arith)))
    ]

-- Whatever the subscribers do, the replies of the topic are those of a feed.
pub answers-IsFeed :
    (n : ℕ) (t : Topic) (calls : List (ℕ × Op)) (sent : List Item) (place : ℕ → ℕ)
    → AreCallers n calls
    → FollowsAny n t sent place
    → IsFeed sent place calls (answers n t calls).1
unfolding answers answer publish advance
answers-IsFeed n t [] sent place h f = tt
answers-IsFeed n t ((i, Op.push x) ∷ calls) sent place h f =
    let t' = cleaned n t.cap t.start t.items t.seen in
    let c = cleaned-Follows n t.cap t.start t.items t.seen sent place f.gone f.follows in
    let P = λ (a : Topic × Bool).
      IsFeed sent place ((i, Op.push x) ∷ calls) (Reply.pushed a.1 ∷ (answers n a.0 calls).1) in
    elim (placed_cases t' x) [
      | inl e ↦ subst P (sym e) (
          answers-IsFeed n (record t' { items = t'.items ++ x ∷ [] }) calls (sent ++ x ∷ []) place
            h.1
            (record {
              gone = c.gone;
              follows = append-Follows n t'.items t'.seen sent place c.gone x c.follows;
            }))
      | inr e ↦ subst P (sym e) (answers-IsFeed n t' calls sent place h.1 c)
    ]
answers-IsFeed n t ((i, Op.get) ∷ calls) sent place h f = (
  ap oldest (next_same n t.items t.seen sent place f.gone i h.0 f.follows),
  answers-IsFeed n t calls sent place h.1 f,
)
answers-IsFeed n t ((i, Op.pop) ∷ calls) sent place h f =
    let at_place = f.follows.placed_at i h.0 in
    elim (dec_lt (t.seen i) (length t.items)) [
      | yes l ↦ rw (ltb-true (t.seen i) (length t.items) l) (
        omega (arith, at_place, f.follows.within),
        answers-IsFeed n (record t { seen = t.seen at i is t.seen i + 1 }) calls sent
            (place at i is place i + 1) h.1
            (record {
              gone = f.gone;
              follows = advance-Follows n t.items t.seen sent place f.gone i l f.follows;
            }),
      )
      | no l ↦ rw (ltb-false (t.seen i) (length t.items) (omega arith)) (
        omega (arith, at_place, f.follows.within, f.follows.seen_le i h.0),
        answers-IsFeed n t calls sent place h.1 f,
      )
    ]

-- From the beginning, with `cap` bytes and nothing published.
pub answers-IsFeed_empty :
    (n cap : ℕ) (calls : List (ℕ × Op))
    → AreCallers n calls
    → IsFeed [] (λ i. 0) calls (answers n (empty cap) calls).1
answers-IsFeed_empty n cap calls h =
    answers-IsFeed n (empty cap) calls [] (λ i. 0) h
      (record {
        gone = 0;
        follows = record {
          rest = refl;
          within = refl;
          placed_at = λ i l. omega arith;
          seen_le = λ i l. omega arith;
        };
      })
