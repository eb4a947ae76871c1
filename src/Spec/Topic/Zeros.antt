-- ===== src/Spec/Topic/Zeros.antt =====
-- Counting the subscribers that have not seen a message.
use qbus.Prelude.{ℕ, zero, suc, ◌+◌, ◌≤◌, ◌<◌, ◌≡◌, ◌≢◌, refl, arith, ℕ_discrete, ==_true, ==_false}
use qbus.Spec.Topic.{zeros, ◌at◌is◌}

pub zeros-cong : (n : ℕ) (f g : ℕ → ℕ) → ((i : ℕ) → i < n → f i ≡ g i) → zeros n f ≡ zeros n g
zeros-cong zero f g h = refl
zeros-cong (suc n) f g h = rw (h n (omega arith), zeros-cong n f g (λ i l. h i (omega arith)))

pub zeros-le : (n : ℕ) (f : ℕ → ℕ) → zeros n f ≤ n
zeros-le zero f = omega arith
zeros-le (suc n) f = ground (arith, zeros-le n f)

pub zeros-all : (n : ℕ) (f : ℕ → ℕ) → ((i : ℕ) → i < n → f i ≡ 0) → zeros n f ≡ n
zeros-all zero f h = refl
zeros-all (suc n) f h =
    rw (h n (omega arith), zeros-all n f (λ i l. h i (omega arith))) (omega arith)

pub zeros-none : (n : ℕ) (f : ℕ → ℕ) (i : ℕ) → zeros n f ≡ 0 → i < n → 0 < f i
zeros-none zero f i e h = absurd (omega arith)
zeros-none (suc n) f i e h = elim (ℕ_discrete i n) [
  | yes same ↦ rw same (ground arith)
  | no other ↦ zeros-none n f i (ground arith) (omega arith)
]

pub at-same : (f : ℕ → ℕ) (i v : ℕ) → (f at i is v) i ≡ v
at-same f i v = rw (==_true i i refl)

pub at-other : (f : ℕ → ℕ) (i v j : ℕ) → j ≢ i → (f at i is v) j ≡ f j
at-other f i v j h = rw (==_false j i h)

-- Past the last subscriber nothing counts.
zeros-beyond : (n : ℕ) (f : ℕ → ℕ) (i v : ℕ) → n ≤ i → zeros n (f at i is v) ≡ zeros n f
zeros-beyond n f i v h = zeros-cong n (f at i is v) f (λ j l. at-other f i v j (λ e. omega arith))

pub zeros-counts :
    (n : ℕ) (f : ℕ → ℕ) (i v : ℕ) → i < n → f i ≡ 0 → 0 < v → zeros n (f at i is v) + 1 ≡ zeros n f
zeros-counts zero f i v h e p = absurd (omega arith)
zeros-counts (suc n) f i v h e p = elim (ℕ_discrete n i) [
  | yes same ↦
      let b = zeros-beyond n f i v (omega arith) in
      let new : (f at i is v) n ≡ v = rw (==_true n i same) in
      let old : f n ≡ 0 = rw same e in
      rw (new, old, b, ==_false v 0 (λ z. omega arith)) (omega arith)
  | no other ↦
      let r = zeros-counts n f i v (omega arith) e p in
      rw (at-other f i v n other) (omega (arith, r))
]

pub zeros-same : (n : ℕ) (f : ℕ → ℕ) (i v : ℕ) → 0 < f i → 0 < v → zeros n (f at i is v) ≡ zeros n f
zeros-same zero f i v h p = refl
zeros-same (suc n) f i v h p = elim (ℕ_discrete n i) [
  | yes same ↦
      let new : (f at i is v) n ≡ v = rw (==_true n i same) in
      let old : 0 < f n = rw same h in
      rw (
        new,
        zeros-same n f i v h p,
        ==_false v 0 (λ z. omega arith),
        ==_false (f n) 0 (λ z. omega arith),
      )
  | no other ↦ rw (at-other f i v n other, zeros-same n f i v h p)
]

-- A subscriber that has seen nothing is counted.
pub zeros-some : (n : ℕ) (f : ℕ → ℕ) (i : ℕ) → i < n → f i ≡ 0 → 0 < zeros n f
zeros-some n f i h e = omega (arith, zeros-counts n f i 1 h e (omega arith))
