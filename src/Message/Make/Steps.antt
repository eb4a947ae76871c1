-- ===== src/Message/Make/Steps.antt =====
-- Single rounds of the loops of `static_make_message` and `static_get_message` (qbus/message.h),
-- for any queue: which region is taken, and what is done with it.
use qbus.Prelude.{
  ℕ, suc, ◌+◌, ◌-◌, ◌≤◌, ◌<◌, ◌≡◌, arith, true, false, [], Option, none, some, done, ==_true,
  ==_false, leb-true, leb-false, bit_and, min, ◌&&◌, ◌==◌,
}
use qbus.Bytes.{Mem}
use qbus.Message.{Pmessage, Env, World, flags, make_message, static_capacity}
use qbus.Message.Chain.{attach}
use qbus.Message.Make.{
  Region, Regions, is_null, next_region, make_chunks, get_chunks, end_of, region_fuel,
}

module _ (regions : Regions) (prev : Option Region) where
  pub next_region-empty :
      (fuel : ℕ) → (regions prev).size ≡ 0 → next_region (suc fuel) regions prev ≡ done none
  unfolding next_region
  next_region-empty fuel h = rw (==_true (regions prev).size 0 h)

  pub next_region-take :
      (fuel : ℕ)
      → 24 < (regions prev).size
      → next_region (suc fuel) regions prev ≡ done (some (regions prev))
  unfolding next_region
  next_region-take fuel h =
      rw (==_false (regions prev).size 0 (omega arith), leb-false (regions prev).size 24 h)

  pub next_region-skip :
      (fuel : ℕ)
      → 0 < (regions prev).size
      → (regions prev).size ≤ 24
      → next_region (suc fuel) regions prev ≡ next_region fuel regions (some (regions prev))
  unfolding next_region
  next_region-skip fuel p h =
      rw (==_false (regions prev).size 0 (omega arith), leb-true (regions prev).size 24 h)

module _ (env : Env) (regions : Regions) (base : ℕ) (w : World) (rest : ℕ) (prev : Option Region)
    (chain : Pmessage) (more : 0 < rest) where
  -- No region is left for the rest of the data.
  pub make_chunks-none :
      (fuel : ℕ)
      → next_region region_fuel regions prev ≡ done none
      → make_chunks (suc fuel) env regions base w rest prev chain ≡ done (w, none, [])
  unfolding make_chunks
  make_chunks-none fuel h = rw (==_false rest 0 (omega arith), h)

  module _ (r : Region) (found : next_region region_fuel regions prev ≡ done (some r)) where
    -- The region takes a part of the rest.
    pub make_chunks-part :
        (fuel : ℕ)
        → 24 < r.size
        → r.size < rest + 24
        → make_chunks (suc fuel) env regions base w rest prev chain
          ≡ make_chunks fuel env regions base
              (make_message env w (base + r.pos) (r.size - 24))
              (rest - (r.size - 24))
              (some r)
              (attach chain (base + r.pos))
    unfolding make_chunks
    make_chunks-part fuel h k =
        let e : min rest (static_capacity r.size) ≡ r.size - 24 = ground arith in
        rw (==_false rest 0 (omega arith), found, e)

    -- The region takes all of the rest.
    pub make_chunks-fit :
        (fuel : ℕ)
        → 24 + rest ≤ r.size
        → make_chunks (suc (suc fuel)) env regions base w rest prev chain
          ≡ done (make_message env w (base + r.pos) rest, some r, attach chain (base + r.pos))
    unfolding make_chunks
    make_chunks-fit fuel h =
        let e : min rest (static_capacity r.size) ≡ rest = ground arith in
        let z : rest - rest ≡ 0 = omega arith in rw (==_false rest 0 (omega arith), found, e, z)

module _ (regions : Regions) (base : ℕ) (m : Mem) (prev : Option Region) (chain : Pmessage)
    (r : Region) (found : next_region region_fuel regions prev ≡ done (some r)) where
  -- The last block of a message; it carries the head flag if it is the first one too.
  pub get_chunks-tail :
      (fuel f : ℕ)
      → flags m (base + r.pos) ≡ f
      → (is_null chain && bit_and f 1 == 0) ≡ false
      → (bit_and f 2 == 0) ≡ false
      → get_chunks (suc fuel) regions base m prev chain
        ≡ done (record {
          chain = attach chain (base + r.pos);
          next = end_of m r (attach chain (base + r.pos));
        })
  unfolding get_chunks
  get_chunks-tail fuel f e h t = rw (found, get_chunks, e, h, t)

  -- A block with more blocks behind it.
  pub get_chunks-more :
      (fuel f : ℕ)
      → flags m (base + r.pos) ≡ f
      → (is_null chain && bit_and f 1 == 0) ≡ false
      → (bit_and f 2 == 0) ≡ true
      → get_chunks (suc fuel) regions base m prev chain
        ≡ get_chunks fuel regions base m (some r) (attach chain (base + r.pos))
  unfolding get_chunks
  get_chunks-more fuel f e h t = rw (found, get_chunks, e, h, t)
