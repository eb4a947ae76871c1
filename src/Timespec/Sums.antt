-- ===== src/Timespec/Sums.antt =====
-- The sum and the difference of times (qbus/common.cpp).
use qbus.Prelude.{◌+◌, ◌*◌, ◌^◌, ◌≡◌, ◌<◌, arith}
use qbus.Timespec.{Timespec, IsNormal, add, sub}
use qbus.Timespec.Order.{nanoseconds}

-- Sums and differences of normal times are normal.
pub add-sub-IsNormal :
    (a b : Timespec) → IsNormal a → IsNormal b → IsNormal (add a b) × IsNormal (sub a b)
unfolding add sub
add-sub-IsNormal a b na nb = ground arith

-- Of normal times, subtracting what has been added gives the time back, also if the seconds
-- overflow.
pub sub-add : (a b : Timespec) → IsNormal a → IsNormal b → sub (add a b) b ≡ a
unfolding add sub
sub-add a b na nb = ground arith

-- A time plus a timeout that is not negative is that many nanoseconds later. The times must be
-- normal, and the sum must be a time.
pub nanoseconds-add :
    (a b : Timespec)
    → IsNormal a
    → IsNormal b
    → b.tv_sec < 2 ^ 63
    → nanoseconds a + (b.tv_sec * 1000000000 + b.tv_nsec) < 2 ^ 64 * 1000000000
    → nanoseconds (add a b) ≡ nanoseconds a + (b.tv_sec * 1000000000 + b.tv_nsec)
unfolding add
nanoseconds-add a b na nb pos fits = ground arith
