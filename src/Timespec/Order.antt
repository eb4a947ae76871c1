-- ===== src/Timespec/Order.antt =====
-- The comparisons of qbus/common.cpp are those of the nanoseconds since the earliest time.
use qbus.Prelude.{ℕ, ◌+◌, ◌*◌, ◌^◌, ◌≡◌, arith, ltb, leb, ◌==◌, u64, not}
use qbus.Timespec.{Timespec, IsNormal, eq, ne, lt, gt, le, ge}

-- The time in nanoseconds, counted from the least `time_t`.
abbrev pub nanoseconds : Timespec → ℕ
nanoseconds t = u64 (t.tv_sec + 2 ^ 63) * 1000000000 + t.tv_nsec

lt_lem : (a b : Timespec) → IsNormal a → IsNormal b → lt a b ≡ ltb (nanoseconds a) (nanoseconds b)
unfolding lt
lt_lem a b na nb = ground arith

gt_lem : (a b : Timespec) → IsNormal a → IsNormal b → gt a b ≡ ltb (nanoseconds b) (nanoseconds a)
unfolding gt
gt_lem a b na nb = ground arith

eq_lem : (a b : Timespec) → IsNormal a → IsNormal b → eq a b ≡ (nanoseconds a == nanoseconds b)
unfolding eq
eq_lem a b na nb = ground arith

not-ltb : (a b : ℕ) → not (ltb a b) ≡ leb b a
not-ltb a b = ground arith

-- The six comparisons of normal times are the comparisons of their nanoseconds.
pub comparisons :
    (a b : Timespec)
    → IsNormal a
    → IsNormal b
    → (lt a b ≡ ltb (nanoseconds a) (nanoseconds b))
      × (gt a b ≡ ltb (nanoseconds b) (nanoseconds a))
      × (le a b ≡ leb (nanoseconds a) (nanoseconds b))
      × (ge a b ≡ leb (nanoseconds b) (nanoseconds a))
      × (eq a b ≡ (nanoseconds a == nanoseconds b))
      × (ne a b ≡ not (nanoseconds a == nanoseconds b))
unfolding le ge ne
comparisons a b na nb = (
  lt_lem a b na nb,
  gt_lem a b na nb,
  rw (gt_lem a b na nb) (not-ltb (nanoseconds b) (nanoseconds a)),
  rw (lt_lem a b na nb) (not-ltb (nanoseconds a) (nanoseconds b)),
  eq_lem a b na nb,
  rw (eq_lem a b na nb),
)
