-- ===== src/Queue/Write/Full.antt =====
-- The loop of `static_make_message` over a ring in which the message does not fit: no message is
-- made, and only free bytes have been written.
use qbus.Prelude.{
  ℕ, suc, ◌+◌, ◌-◌, ◌≤◌, ◌<◌, ◌≡◌, ◌≢◌, ◌∙◌, ◌⊎◌, inl, inr, refl, arith, [], Option, none, some,
  done, dec_lt,
}
use qbus.Message.{Pmessage, Env, World, make_message}
use qbus.Message.Fields.{make_message-Apart}
use qbus.Message.Chain.{attach}
use qbus.Message.Make.{Region, Regions, make_chunks, next_region}
use qbus.Message.Make.Steps.{make_chunks-none, make_chunks-part}
use qbus.Message.Make.Search.{found, none_found, found_second, none_second, none_third}
use qbus.Queue.{free_region}
use qbus.Queue.Layout.{used, shape, skipped, whole, split, InSpan}
use qbus.Queue.Regions.{
  region, IsRing, turn, straight, turned, free-first, free-turned, free-low, free-end,
}
use qbus.Queue.Write.{Kept}

pub Kept-refl : (d c hd u : ℕ) (w : World) → Kept d c hd u w.mem w.mem
Kept-refl d c hd u w = record { span = λ x h i. refl; outside = λ b h. refl }

Kept-trans :
    (d c hd u : ℕ) (w w1 w2 : World)
    → Kept d c hd u w.mem w1.mem
    → Kept d c hd u w1.mem w2.mem
    → Kept d c hd u w.mem w2.mem
Kept-trans d c hd u w w1 w2 k1 k2 = record {
  span = λ x h i. k2.span x h i ∙ k1.span x h i;
  outside = λ b h. k2.outside b h ∙ k1.outside b h;
}

-- A header written at a free position.
Kept-make_message :
    (d c hd u : ℕ) (env : Env) (w : World) (p k : ℕ)
    → p + 24 ≤ c
    → ((x : ℕ) → p ≤ x → x < p + 24 → InSpan c hd u x → ⊥)
    → Kept d c hd u w.mem (make_message env w (d + p) k).mem
Kept-make_message d c hd u env w p k fits free = record {
  span = λ x h i. make_message-Apart env w (d + p) k (d + x) (elim (dec_lt x p) [
    | yes q ↦ inl (omega arith)
    | no q ↦ elim (dec_lt x (p + 24)) [
      | yes r ↦ absurd (free x (omega arith) r i)
      | no r ↦ inr (omega arith)
    ]
  ]);
  outside = λ b h. make_message-Apart env w (d + p) k b (ground arith);
}

module _ (env : Env) (d c hd tl cnt u n : ℕ) (ring : IsRing c hd tl cnt u) (some_data : 0 < n) where
  abbrev free : Regions
  free = free_region c hd tl cnt

  -- The loop ends with no message.
  pub record Refused (fuel k : ℕ) (prev : Option Region) (chain : Pmessage) (w : World)
      : Type 0 where
    pub world : World
    pub refused_at : make_chunks fuel env free d w k prev chain ≡ done (world, none, [])
    pub kept : Kept d c hd u w.mem world.mem

  at_end : (p s : ℕ) → p + s ≡ hd → free (some (region p s)) ≡ region hd 0
  at_end p s e = free-end c hd tl cnt ring.small ring.head_in p s e

  Refused-none :
      (fuel k : ℕ) (prev : Option Region) (chain : Pmessage) (w : World)
      → 0 < k
      → next_region 4 free prev ≡ done none
      → Refused (suc fuel) k prev chain w
  Refused-none fuel k prev chain w p e = record {
    world = w;
    refused_at = make_chunks-none env free d w k prev chain p fuel e;
    kept = Kept-refl d c hd u w;
  }

  -- A region up to the head takes a part, and nothing is left for the rest.
  Refused-part :
      (fuel k : ℕ) (prev : Option Region) (chain : Pmessage) (w : World) (p s : ℕ)
      → 0 < k
      → next_region 4 free prev ≡ done (some (region p s))
      → p + s ≡ hd
      → 24 < s
      → s < k + 24
      → ((x : ℕ) → p ≤ x → x < p + 24 → InSpan c hd u x → ⊥)
      → Refused (suc (suc fuel)) k prev chain w
  Refused-part fuel k prev chain w p s pos e end big short out = record {
    world = make_message env w (d + p) (s - 24);
    refused_at =
        make_chunks-part env free d w k prev chain pos (region p s) e (suc fuel) big short
        ∙ make_chunks-none env free d _ (k - (s - 24)) (some (region p s)) _ (omega arith) fuel
            (none_found free (some (region p s)) (region hd 0) (at_end p s end) refl);
    kept = Kept-make_message d c hd u env w p (s - 24) (omega (arith, ring.head_in)) out;
  }

  module _ (w : World) (at_tail : tl + c ≡ hd + u) (above : tl ≤ hd) (nonempty : cnt ≢ 0) where
    only : free none ≡ region tl (hd - tl)
    only = free-turned c hd tl cnt ring.small ring.head_in above nonempty

    short : c - u < used c tl n → hd - tl < n + 24
    short full = elim (shape d c tl n) [
      | skipped p b v f ↦ omega (arith, ring.head_in)
      | whole p q b v f ↦ omega (arith, ring.fits)
      | split p q b v f ↦ omega (arith, ring.head_in)
    ]

    turned_full : c - u < used c tl n → Refused 4 n none [] w
    turned_full full = elim (dec_lt 24 (hd - tl)) [
      | yes big ↦
          Refused-part 2 n none [] w tl (hd - tl) some_data
            (found free none (region tl (hd - tl)) only big) (omega arith) big (short full)
            (λ x l h i. ground (arith, ring.fits, ring.head_in))
      | no not_big ↦ elim (dec_lt 0 (hd - tl)) [
        | yes low ↦ Refused-none 3 n none [] w some_data (
            none_second free none (region tl (hd - tl)) (region hd 0) only low (omega arith)
              (at_end tl (hd - tl) (omega arith)) refl)
        | no zero ↦
            Refused-none 3 n none [] w some_data
              (none_found free none (region tl (hd - tl)) only (omega arith))
      ]
    ]

  module _ (w : World) (at_tail : tl ≡ hd + u) (below : hd + u < c)
      (or_empty : (cnt ≡ 0) ⊎ (hd < tl)) where
    first : free none ≡ region tl (c - tl)
    first = free-first c hd tl cnt ring.small ring.head_in (omega arith) or_empty

    low : free (some (region tl (c - tl))) ≡ region 0 hd
    low = free-low c hd tl cnt ring.small ring.head_in tl (c - tl) (omega arith)

    low_free : 24 < hd → (x : ℕ) → 0 ≤ x → x < 0 + 24 → InSpan c hd u x → ⊥
    low_free h x p q i = ground arith

    -- The first region was too small, and the one at position 0 is too.
    skipped_full : c ≤ tl + 24 → hd < 24 + n → Refused 4 n none [] w
    skipped_full p h = elim (dec_lt 24 hd) [
      | yes big ↦
          Refused-part 2 n none [] w 0 hd some_data
            (found_second free none (region tl (c - tl)) (region 0 hd) first (omega arith)
              (omega arith) low big)
            (omega arith) big (omega arith) (low_free big)
      | no not_big ↦ elim (dec_lt 0 hd) [
        | yes more ↦ Refused-none 3 n none [] w some_data (
            none_third free none (region tl (c - tl)) (region 0 hd) first (omega arith)
              (omega arith) low (region hd 0) more (omega arith) (at_end 0 hd (omega arith)) refl)
        | no zero ↦ Refused-none 3 n none [] w some_data (
            none_second free none (region tl (c - tl)) (region 0 hd) first (omega arith)
              (omega arith) low (omega arith))
      ]
    ]

    -- The first region took a part, and the one at position 0 is too small for the rest.
    low_full :
        (k : ℕ) (chain : Pmessage) (w1 : World)
        → 0 < k
        → hd < 24 + k
        → Refused 3 k (some (region tl (c - tl))) chain w1
    low_full k chain w1 pos h = elim (dec_lt 24 hd) [
      | yes big ↦
          Refused-part 1 k _ chain w1 0 hd pos (found free _ (region 0 hd) low big) (omega arith)
            big (omega arith) (low_free big)
      | no not_big ↦ elim (dec_lt 0 hd) [
        | yes more ↦ Refused-none 2 k _ chain w1 pos (
            none_second free _ (region 0 hd) (region hd 0) low more (omega arith)
              (at_end 0 hd (omega arith)) refl)
        | no zero ↦
            Refused-none 2 k _ chain w1 pos (none_found free _ (region 0 hd) low (omega arith))
      ]
    ]

    split_full :
        tl + 24 < c → c < tl + 24 + n → hd < 24 + (n - (c - tl - 24)) → Refused 4 n none [] w
    split_full p q h =
        let w1 = make_message env w (d + tl) (c - tl - 24) in
        let r = low_full (n - (c - tl - 24)) (attach [] (d + tl)) w1 (omega arith) h in
        record {
          world = r.world;
          refused_at =
              make_chunks-part env free d w n none [] some_data (region tl (c - tl))
                (found free none (region tl (c - tl)) first (omega arith)) 3 (omega arith)
                (omega arith)
              ∙ r.refused_at;
          kept =
              Kept-trans d c hd u w w1 r.world
                (Kept-make_message d c hd u env w tl (c - tl - 24) (omega arith)
                  (λ x l k i. ground arith))
                r.kept;
        }

    straight_full : c - u < used c tl n → Refused 4 n none [] w
    straight_full full = elim (shape d c tl n) [
      | skipped p b v f ↦ skipped_full p (omega arith)
      | whole p q b v f ↦ absurd (omega arith)
      | split p q b v f ↦ split_full p q (omega arith)
    ]

  -- A message that does not fit is refused, and the messages that are there are kept.
  pub chunks_full : (w : World) → c - u < used c tl n → Refused 4 n none [] w
  chunks_full w full = elim (turn c hd tl cnt u ring) [
    | straight at_tail below or_empty ↦ straight_full w at_tail below or_empty full
    | turned at_tail above nonempty ↦ turned_full w at_tail above nonempty full
  ]
