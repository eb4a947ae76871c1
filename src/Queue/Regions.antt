-- ===== src/Queue/Regions.antt =====
-- The regions of a ring: what `get_free_region` and `get_busy_region` of qbus/queue.cpp return, one
-- after the other, for a ring of capacity `c` with `u` bytes in use from `hd` on.
use qbus.Prelude.{
  ℕ, ◌+◌, ◌-◌, ◌%◌, ◌^◌, ◌≤◌, ◌<◌, ◌≡◌, ◌≢◌, ◌⊎◌, inl, inr, arith, false, none, some, dec_lt, u64,
  mod-eq_of_lt,
}
use qbus.Message.Make.{Region}
use native.Mathlib.Nat.{mod_self}
use qbus.Queue.{free_region, busy_region}
use qbus.Queue.Layout.{wrap_cases}

abbrev pub region : ℕ → ℕ → Region
region pos size = record { pos = pos; size = size }

-- The header fields of a queue that holds `cnt` messages in `u` bytes from `hd` on.
pub record IsRing (c hd tl cnt u : ℕ) : Type 0 where
  pub small : c < 2 ^ 32
  pub head_in : hd < c
  pub fits : u ≤ c
  pub tail_at : tl ≡ (hd + u) % c
  pub empty : cnt ≡ 0 → u ≡ 0
  pub filled : cnt ≢ 0 → 0 < u

-- The busy bytes do not go round the end, or they do.
pub data Turn (c hd tl cnt u : ℕ) : Type 0 where
  straight : tl ≡ hd + u → hd + u < c → ((cnt ≡ 0) ⊎ (hd < tl)) → Turn c hd tl cnt u
  turned : tl + c ≡ hd + u → tl ≤ hd → cnt ≢ 0 → Turn c hd tl cnt u

pub turn : (c hd tl cnt u : ℕ) → IsRing c hd tl cnt u → Turn c hd tl cnt u
turn c hd tl cnt u r = elim (wrap_cases c hd u r.head_in r.fits) [
  | inl w ↦ straight (omega (arith, r.tail_at, w.0)) w.1 (elim (dec_lt 0 cnt) [
    | yes p ↦ inr (omega (arith, r.tail_at, w.0, r.filled (omega arith)))
    | no p ↦ inl (omega arith)
  ])
  | inr w ↦
      turned (omega (arith, r.tail_at, w.0)) (omega (arith, r.tail_at, w.0, r.fits))
        (λ e. omega (arith, r.empty e, w.1, r.head_in))
]

module _ (c : ℕ) (small : c < 2 ^ 32) where
  next-end : (p s : ℕ) → p + s ≡ c → u64 (p + s) % c ≡ 0
  next-end p s e = let f : u64 (p + s) ≡ c = omega arith in rw f (mod_self c)

  next-in : (p s v : ℕ) → p + s ≡ v → v < c → u64 (p + s) % c ≡ v
  next-in p s v e h = let f : u64 (p + s) ≡ v = omega arith in rw f (mod-eq_of_lt h)

module _ (c hd tl cnt : ℕ) (small : c < 2 ^ 32) (hd_in : hd < c) where
  pub free-first :
      tl < c → ((cnt ≡ 0) ⊎ (hd < tl)) → free_region c hd tl cnt none ≡ region tl (c - tl)
  unfolding free_region
  free-first h e = ground arith

  pub free-turned : tl ≤ hd → cnt ≢ 0 → free_region c hd tl cnt none ≡ region tl (hd - tl)
  unfolding free_region
  free-turned h e = ground arith

  -- Behind the end of the data: the region up to the head.
  pub free-low : (p s : ℕ) → p + s ≡ c → free_region c hd tl cnt (some (region p s)) ≡ region 0 hd
  unfolding free_region
  free-low p s e = rw (next-end c small p s e) (ground arith)

  -- Behind a region that ends at the head there is nothing.
  pub free-end : (p s : ℕ) → p + s ≡ hd → free_region c hd tl cnt (some (region p s)) ≡ region hd 0
  unfolding free_region
  free-end p s e = rw (next-in c small p s hd e hd_in) (ground arith)

-- The busy regions; `e` is the result of `empty`.
module _ (c hd tl : ℕ) (small : c < 2 ^ 32) (tl_in : tl < c) where
  pub busy-first : hd < tl → busy_region c hd tl false none ≡ region hd (tl - hd)
  unfolding busy_region
  busy-first h = ground arith

  pub busy-turned : tl ≤ hd → hd < c → busy_region c hd tl false none ≡ region hd (c - hd)
  unfolding busy_region
  busy-turned h k = ground arith

  pub busy-low :
      (p s : ℕ) → p + s ≡ c → 0 < tl → busy_region c hd tl false (some (region p s)) ≡ region 0 tl
  unfolding busy_region
  busy-low p s e h = rw (next-end c small p s e) (ground arith)
