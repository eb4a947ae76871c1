-- ===== src/Queue/Layout/Frame.antt =====
-- Messages stay where they lie while no byte of their span is written.
use qbus.Prelude.{
  ℕ, ◌+◌, ◌-◌, ◌%◌, ◌≤◌, ◌<◌, ◌≡◌, ◌∙◌, arith, inl, true, List, [], ◌∷◌, ◌++◌, length, subst, ap,
  sym, mod-eq_of_lt,
}
use qbus.Bytes.{Mem}
use qbus.Bytes.Words.{Agree}
use qbus.Message.Fields.{tag-Agree}
use qbus.Message.Chain.Blocks.{SameOn, Stored-SameOn}
use qbus.Queue.Layout.{
  Item, shape, skipped, whole, split, blocks, used, after, first_block, IsLaid, AreLaid, span,
  InSpan, InSpan-mono, InSpan-after, after-span,
}

-- The memories agree on the `u` positions from `t` on.
abbrev pub SameSpan : Mem → Mem → ℕ → ℕ → ℕ → ℕ → Type 0
SameSpan m m' d c t u = (x : ℕ) → x < c → InSpan c t u x → m' (d + x) ≡ m (d + x)

SameSpan-Agree :
    (m m' : Mem) (d c t u a n : ℕ)
    → SameSpan m m' d c t u
    → a + n ≤ c
    → ((x : ℕ) → a ≤ x → x < a + n → InSpan c t u x)
    → Agree m m' (d + a) n
SameSpan-Agree m m' d c t u a n same fits inside b l h =
    let e : d + (b - d) ≡ b = omega arith in
    subst (λ y. m' y ≡ m y) e
      (same (b - d) (omega arith) (inside (b - d) (omega arith) (omega arith)))

-- The blocks of a message, and its first header, lie in its span.
module _ (m m' : Mem) (d c t n : ℕ) (t_in : t < c) (fits : used c t n ≤ c)
    (same : SameSpan m m' d c t (used c t n)) where
  SameOn-low :
      (k : ℕ)
      → 24 + k ≤ c
      → ((x : ℕ) → x < 24 + k → InSpan c t (used c t n) x)
      → Agree m m' d (24 + k)
  SameOn-low k low inside b l h =
      SameSpan-Agree m m' d c t (used c t n) 0 (24 + k) same (omega arith)
        (λ x p q. inside x (omega arith)) b (omega arith) (omega arith)

  SameOn-blocks : SameOn m m' (blocks d c t n)
  SameOn-blocks = elim (shape d c t n) [
    | skipped p b u f ↦ rw b (SameOn-low n (omega arith) (λ x h. ground arith), tt)
    | whole p q b u f ↦ rw b (
      SameSpan-Agree m m' d c t (used c t n) t (24 + n) same (omega arith)
          (λ x l h. inl (omega arith)),
      tt,
    )
    | split p q b u f ↦ rw b (
      SameSpan-Agree m m' d c t (used c t n) t (24 + (c - t - 24)) same (omega arith)
          (λ x l h. inl (omega arith)),
      (SameOn-low (n - (c - t - 24)) (omega arith) (λ x h. ground arith), tt),
    )
  ]

  pub Agree-first : Agree m m' (first_block d c t) 24
  Agree-first = elim (shape d c t n) [
    | skipped p b u f ↦
        rw f (λ x l h. SameOn-low 0 (omega arith) (λ y k. ground arith) x l (omega arith))
    | whole p q b u f ↦ rw f (
        SameSpan-Agree m m' d c t (used c t n) t 24 same (omega arith) (λ x l h. inl (omega arith)))
    | split p q b u f ↦ rw f (
        SameSpan-Agree m m' d c t (used c t n) t 24 same (omega arith) (λ x l h. inl (omega arith)))
  ]

pub IsLaid-SameSpan :
    (m m' : Mem) (d c t : ℕ) (x : Item)
    → t < c
    → used c t (length x.body) ≤ c
    → SameSpan m m' d c t (used c t (length x.body))
    → IsLaid m d c t x
    → IsLaid m' d c t x
IsLaid-SameSpan m m' d c t x h k same laid =
    let n = length x.body in
    (
      Stored-SameOn true m m' (blocks d c t n) x.body (SameOn-blocks m m' d c t n h k same) laid.0,
      tag-Agree m m' (first_block d c t)
            (λ b l i. Agree-first m m' d c t n h k same b (omega arith) (omega arith))
          ∙ laid.1,
      laid.2,
    )

-- A write outside the span of the messages leaves them all as they lie.
pub AreLaid-SameSpan :
    (m m' : Mem) (d c t : ℕ) (xs : List Item)
    → t < c
    → span c t xs ≤ c
    → SameSpan m m' d c t (span c t xs)
    → AreLaid m d c t xs
    → AreLaid m' d c t xs
AreLaid-SameSpan m m' d c t [] h k same laid = tt
AreLaid-SameSpan m m' d c t (x ∷ xs) h k same laid =
    let u = used c t (length x.body) in
    let v = span c (after c t (length x.body)) xs in
    (
      IsLaid-SameSpan m m' d c t x h (omega arith)
          (λ y l i. same y l (InSpan-mono c t u (u + v) y (omega arith) i)) laid.0,
      AreLaid-SameSpan m m' d c (after c t (length x.body)) xs (omega arith) (omega arith)
          (λ y l i. same y l (InSpan-after c t u v y h k l i)) laid.1,
    )

-- One more message behind the others.
pub AreLaid-append :
    (m : Mem) (d c t : ℕ) (xs : List Item) (x : Item)
    → t < c
    → AreLaid m d c t xs
    → IsLaid m d c ((t + span c t xs) % c) x
    → AreLaid m d c t (xs ++ x ∷ [])
AreLaid-append m d c t [] x h laid last =
    (subst (λ s. IsLaid m d c s x) (ap (λ n. n % c) (omega arith) ∙ mod-eq_of_lt h) last, tt)
AreLaid-append m d c t (y ∷ xs) x h laid last =
    let u = used c t (length y.body) in
    (
      laid.0,
      AreLaid-append m d c (after c t (length y.body)) xs x (omega arith) laid.1 (
          subst (λ s. IsLaid m d c s x)
            (sym (after-span c t u (span c (after c t (length y.body)) xs))) last),
    )

pub span-append :
    (c t : ℕ) (xs : List Item) (x : Item)
    → t < c
    → span c t (xs ++ x ∷ []) ≡ span c t xs + used c ((t + span c t xs) % c) (length x.body)
span-append c t [] x h =
    let e : (t + 0) % c ≡ t = ap (λ n. n % c) (omega arith) ∙ mod-eq_of_lt h in rw e (omega arith)
span-append c t (y ∷ xs) x h =
    let u = used c t (length y.body) in
    rw
      (
        span-append c (after c t (length y.body)) xs x (omega arith),
        after-span c t u (span c (after c t (length y.body)) xs),
      )
      (omega arith)
