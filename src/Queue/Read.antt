-- ===== src/Queue/Read.antt =====
-- `static_get_message` over the busy regions of a ring (qbus/message.h, qbus/queue.cpp): the first
-- message of those that lie from `hd` on is found, with its chain and the position behind it.
use qbus.Prelude.{
  ℕ, suc, ◌+◌, ◌-◌, ◌%◌, ◌^◌, ◌≤◌, ◌<◌, ◌≡◌, ◌∙◌, ◌⊎◌, refl, ap, sym, subst, arith, true, false,
  List, [], ◌∷◌, length, bit_and, ◌&&◌, ◌==◌, inl, inr, Option, none, some, done,
}
use native.Mathlib.Nat.{add-mod_left}
use qbus.Bytes.{Mem}
use qbus.Message
use qbus.Message.{Pmessage}
use qbus.Message.Chain.{attach}
use qbus.Message.Chain.Blocks.{Block, chain_of, Stored}
use qbus.Message.Make.{
  Region, Regions, is_null, last, next_region, end_of, get_chunks, static_get_message,
}
use qbus.Message.Make.Steps.{get_chunks-tail, get_chunks-more}
use qbus.Message.Make.Search.{found, found_second}
use qbus.Queue.{busy_region}
use qbus.Queue.Layout.{Item, block, blocks, used, after, shape, skipped, whole, split}
use qbus.Queue.Regions.{region, busy-first, busy-turned, busy-low}

-- `hd` to `tl` holds at least the message of `n` bytes, in `u` bytes altogether.
pub record Reads (c hd tl u n : ℕ) : Type 0 where
  pub small : c < 2 ^ 32
  pub head_in : hd < c
  pub fits : u ≤ c
  pub tail_at : ((tl ≡ hd + u) × (hd + u < c)) ⊎ ((tl + c ≡ hd + u) × (tl ≤ hd))
  pub holds : used c hd n ≤ u
  pub some_data : 0 < n

module _ (m : Mem) (d c hd tl u : ℕ) (x : Item) (reads : Reads c hd tl u (length x.body))
    (laid : Stored true m (blocks d c hd (length x.body)) x.body) where
  abbrev n : ℕ
  n = length x.body

  abbrev busy : Regions
  busy = busy_region c hd tl false

  tail_in : tl < c
  tail_in = ground (arith, reads)

  abbrev StoredAt : List Block → Type 0
  StoredAt bs = Stored true m bs x.body

  -- The description of the message.
  pub record Found : Type 0 where
    pub next : ℕ
    pub found_at :
        static_get_message busy d m
        ≡ done (record { chain = chain_of (blocks d c hd n); next = next })
    pub next_at : next % c ≡ after c hd n

  end_low : (k : ℕ) → (0 + (24 + k)) % c ≡ (hd + (c - hd + (24 + k))) % c
  end_low k =
      ap (λ a. a % c) (omega arith)
      ∙ sym (add-mod_left c (24 + k))
      ∙ ap (λ a. a % c) (omega (arith, reads.head_in))

  -- A region whose block is the last one of the message.
  take_tail :
      (prev : Option Region) (chain : Pmessage) (r : Region) (a cap f fuel : ℕ)
      → next_region 4 busy prev ≡ done (some r)
      → d + r.pos ≡ a
      → Message.flags m a ≡ f
      → Message.capacity m (last (attach chain a)) ≡ cap
      → (is_null chain && bit_and f 1 == 0) ≡ false
      → (bit_and f 2 == 0) ≡ false
      → r.pos + (24 + cap) ≤ c
      → get_chunks (suc fuel) busy d m prev chain
        ≡ done (record { chain = attach chain a; next = r.pos + (24 + cap) })
  unfolding end_of Message.size
  take_tail prev chain r a cap f fuel at e flag room h t fits =
      let s : (r.pos + (24 + cap)) % 2 ^ 32 ≡ r.pos + (24 + cap) = omega (arith, reads.small) in
      get_chunks-tail busy d m prev chain r at fuel f (rw e flag) h t ∙ rw (e, room, s)

  module _ (turned_at : tl + c ≡ hd + u) (above : tl ≤ hd) where
    first : busy none ≡ region hd (c - hd)
    first = busy-turned c hd tl reads.small tail_in above reads.head_in

    low : 0 < tl → busy (some (region hd (c - hd))) ≡ region 0 tl
    low h = busy-low c hd tl reads.small tail_in hd (c - hd) (omega (arith, reads.head_in)) h

    read_skipped :
        c ≤ hd + 24 → blocks d c hd n ≡ block d n ∷ [] → used c hd n ≡ c - hd + (24 + n) → Found
    unfolding static_get_message
    read_skipped p b v =
        let s = subst StoredAt b laid in
        record {
          next = 0 + (24 + n);
          found_at = rw b (
              take_tail none [] (region 0 tl) d n 3 3
                (found_second busy none (region hd (c - hd)) (region 0 tl) first
                  (omega (arith, reads.head_in)) (omega arith) (low (omega (arith, reads.holds)))
                  (omega (arith, reads.holds, reads.some_data)))
                (omega arith) s.1 s.0 refl refl (omega (arith, reads.holds, reads.fits)));
          next_at = rw v (end_low n);
        }

    read_split :
        hd + 24 < c
        → c < hd + 24 + n
        → blocks d c hd n ≡ block (d + hd) (c - hd - 24) ∷ block d (n - (c - hd - 24)) ∷ []
        → used c hd n ≡ c - hd + (24 + (n - (c - hd - 24)))
        → Found
    unfolding static_get_message
    read_split p q b v =
        let s = subst StoredAt b laid in
        record {
          next = 0 + (24 + (n - (c - hd - 24)));
          found_at = rw b (
              get_chunks-more busy d m none [] (region hd (c - hd))
                (found busy none (region hd (c - hd)) first (omega arith)) 3 1 s.1 refl refl
              ∙ take_tail (some (region hd (c - hd))) ((d + hd) ∷ []) (region 0 tl) d
                  (n - (c - hd - 24)) 2 2
                  (found busy (some (region hd (c - hd))) (region 0 tl)
                    (low (omega (arith, reads.holds))) (omega (arith, reads.holds)))
                  (omega arith) s.3.1 s.3.0 refl refl (omega (arith, reads.holds, reads.fits)));
          next_at = rw v (end_low (n - (c - hd - 24)));
        }

  read_whole :
      (len : ℕ)
      → busy none ≡ region hd len
      → 24 + n ≤ len
      → hd + 24 + n ≤ c
      → blocks d c hd n ≡ block (d + hd) n ∷ []
      → used c hd n ≡ 24 + n
      → Found
  unfolding static_get_message
  read_whole len at big fits b v =
      let s = subst StoredAt b laid in
      record {
        next = hd + (24 + n);
        found_at = rw b (
            take_tail none [] (region hd len) (d + hd) n 3 3
              (found busy none (region hd len) at (omega (arith, reads.some_data))) refl s.1 s.0
              refl refl (omega arith));
        next_at = rw v;
      }

  -- The first message is found.
  pub read_first : Found
  read_first = elim (shape d c hd n) [
    | skipped p b v f ↦ elim reads.tail_at [
      | inl t ↦ absurd (omega (arith, reads.holds))
      | inr t ↦ read_skipped t.0 t.1 p b v
    ]
    | whole p q b v f ↦ elim reads.tail_at [
      | inl t ↦
          read_whole (tl - hd) (busy-first c hd tl reads.small tail_in (omega (arith, reads.holds)))
            (omega (arith, reads.holds)) p b v
      | inr t ↦ read_whole (c - hd) (first t.0 t.1) (omega arith) p b v
    ]
    | split p q b v f ↦ elim reads.tail_at [
      | inl t ↦ absurd (omega (arith, reads.holds))
      | inr t ↦ read_split t.0 t.1 p q b v
    ]
  ]
