-- ===== src/Queue/Write/Chunks.antt =====
-- The loop of `static_make_message` over a ring: the blocks of a message that fits, and nothing
-- returned for one that does not.
use qbus.Prelude.{
  ℕ, ◌+◌, ◌-◌, ◌%◌, ◌≤◌, ◌<◌, ◌≡◌, ◌≢◌, ◌∙◌, ap, subst, refl, sym, ◌⊎◌, arith, List, [], ◌∷◌,
  Option, none, some, done,
}
use native.Mathlib.Nat.{add-mod_left}
use qbus.Message.{Pmessage, Env, World, make_message}
use qbus.Message.Chain.{attach}
use qbus.Message.Chain.Blocks.{Block, chain_of}
use qbus.Message.Chain.Headers.{with_headers}
use qbus.Message.Make.{Region, Regions, make_chunks}
use qbus.Message.Make.Steps.{make_chunks-part, make_chunks-fit}
use qbus.Message.Make.Search.{found, found_second}
use qbus.Queue.{free_region}
use qbus.Queue.Layout.{blocks, used, shape, skipped, whole, split}
use qbus.Queue.Regions.{region, IsRing, turn, straight, turned, free-first, free-turned, free-low}

abbrev pub last_cap : List Block → ℕ
last_cap [] = 0
last_cap (b ∷ []) = b.cap
last_cap (b ∷ c ∷ bs) = last_cap (c ∷ bs)

module _ (env : Env) (d c hd tl cnt u n : ℕ) (w : World) (ring : IsRing c hd tl cnt u)
    (some_data : 0 < n) where
  abbrev free : Regions
  free = free_region c hd tl cnt

  abbrev IsMade : World × Option Region × Pmessage → Type 0
  IsMade out = make_chunks 4 env free d w n none [] ≡ done out

  -- The blocks are laid out, and the last region gives the end of the message.
  pub record Chunks : Type 0 where
    pub last_region : Region
    pub made_at :
        make_chunks 4 env free d w n none []
        ≡ done (with_headers env w (blocks d c tl n), some last_region, chain_of (blocks d c tl n))
    pub in_range : last_region.pos + (24 + last_cap (blocks d c tl n)) ≤ c
    pub end_at : (last_region.pos + (24 + last_cap (blocks d c tl n))) % c ≡ (tl + used c tl n) % c

  tail_in : tl < c
  tail_in = elim (turn c hd tl cnt u ring) [
    | straight at_tail below or_empty ↦ omega arith
    | turned at_tail above nonempty ↦ omega (arith, ring.fits, ring.head_in)
  ]

  end_turned : (k : ℕ) → (0 + k) % c ≡ (tl + (c - tl + k)) % c
  end_turned k =
      ap (λ a. a % c) (omega arith)
      ∙ sym (add-mod_left c k)
      ∙ ap (λ a. a % c) (omega (arith, tail_in))

  -- The rest of a message goes to position 0.
  low_fit :
      (k : ℕ) (prev : Option Region) (w : World) (chain : Pmessage)
      → 0 < k
      → 24 + k ≤ hd
      → free prev ≡ region 0 hd
      → make_chunks 3 env free d w k prev chain
        ≡ done (make_message env w d k, some (region 0 hd), attach chain d)
  low_fit k prev w chain p fits at =
      let e : d + 0 ≡ d = omega arith in
      subst
        (λ a.
          make_chunks 3 env free d w k prev chain
          ≡ done (make_message env w a k, some (region 0 hd), attach chain a))
        e
        (make_chunks-fit env free d w k prev chain p (region 0 hd)
          (found free prev (region 0 hd) at (omega arith)) 1 fits)

  -- The first region goes up to the end of the data.
  module _ (at_tail : tl ≡ hd + u) (below : hd + u < c) (or_empty : (cnt ≡ 0) ⊎ (hd < tl)) where
    first : free none ≡ region tl (c - tl)
    first = free-first c hd tl cnt ring.small ring.head_in (omega arith) or_empty

    low : free (some (region tl (c - tl))) ≡ region 0 hd
    low = free-low c hd tl cnt ring.small ring.head_in tl (c - tl) (omega arith)

    straight_fit : used c tl n ≤ c - u → Chunks
    straight_fit fits = elim (shape d c tl n) [
      | skipped p b v f ↦ record {
        last_region = region 0 hd;
        made_at =
            let e : d + 0 ≡ d = omega arith in
            rw b (
              subst
                (λ a.
                  make_chunks 4 env free d w n none []
                  ≡ done (make_message env w a n, some (region 0 hd), a ∷ []))
                e
                (make_chunks-fit env free d w n none [] some_data (region 0 hd)
                  (found_second free none (region tl (c - tl)) (region 0 hd) first (omega arith)
                    (omega arith) low (omega arith))
                  2 (omega arith)));
        in_range = rw b (omega arith);
        end_at = rw (b, v) (end_turned (24 + n));
      }
      | whole p q b v f ↦ record {
        last_region = region tl (c - tl);
        made_at = rw b (
            make_chunks-fit env free d w n none [] some_data (region tl (c - tl))
              (found free none (region tl (c - tl)) first (omega arith)) 2 (omega arith));
        in_range = rw b (omega arith);
        end_at = rw (b, v) refl;
      }
      | split p q b v f ↦ record {
        last_region = region 0 hd;
        made_at = rw b (
            make_chunks-part env free d w n none [] some_data (region tl (c - tl))
              (found free none (region tl (c - tl)) first (omega arith)) 3 (omega arith)
              (omega arith)
            ∙ low_fit (n - (c - tl - 24)) (some (region tl (c - tl))) _ _ (omega arith)
                (omega arith) low);
        in_range = rw b (omega arith);
        end_at = rw (b, v) (end_turned (24 + (n - (c - tl - 24))));
      }
    ]

  -- The free bytes do not go round the end.
  module _ (at_tail : tl + c ≡ hd + u) (above : tl ≤ hd) (nonempty : cnt ≢ 0) where
    only : free none ≡ region tl (hd - tl)
    only = free-turned c hd tl cnt ring.small ring.head_in above nonempty

    turned_fit : used c tl n ≤ c - u → Chunks
    turned_fit fits = elim (shape d c tl n) [
      | skipped p b v f ↦ absurd (omega (arith, ring.fits, ring.head_in))
      | whole p q b v f ↦ record {
        last_region = region tl (hd - tl);
        made_at = rw b (
            make_chunks-fit env free d w n none [] some_data (region tl (hd - tl))
              (found free none (region tl (hd - tl)) only (omega (arith, ring.fits))) 2
              (omega (arith, ring.fits)));
        in_range = rw b (omega arith);
        end_at = rw (b, v) refl;
      }
      | split p q b v f ↦ absurd (omega (arith, ring.fits, ring.head_in))
    ]

  -- A message that fits is laid out in its blocks.
  pub chunks_fit : used c tl n ≤ c - u → Chunks
  chunks_fit fits = elim (turn c hd tl cnt u ring) [
    | straight at_tail below or_empty ↦ straight_fit at_tail below or_empty fits
    | turned at_tail above nonempty ↦ turned_fit at_tail above nonempty fits
  ]
