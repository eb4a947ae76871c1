-- ===== src/Tests/Times.antt =====
-- Runs of the operators on times at concrete inputs.
use qbus.Prelude.{ltb, leb, ◌==◌, not, ◌+◌, ◌^◌, ◌-◌, ◌≡◌, arith}
use qbus.Timespec
use qbus.Timespec.{Timespec, IsNormal}
use qbus.Timespec.Order
use qbus.Timespec.Order.{nanoseconds}
use qbus.Timespec.Sums

-- A second before the epoch, and half a second.
abbrev before_epoch : Timespec
before_epoch = record { tv_sec = 2 ^ 64 - 1; tv_nsec = 700000000 }

abbrev pub half : Timespec
half = record { tv_sec = 0; tv_nsec = 500000000 }

comparisons_example :
    let a = nanoseconds before_epoch in
    let b = nanoseconds half in
    (Timespec.lt before_epoch half ≡ ltb a b)
    × (Timespec.gt before_epoch half ≡ ltb b a)
    × (Timespec.le before_epoch half ≡ leb a b)
    × (Timespec.ge before_epoch half ≡ leb b a)
    × (Timespec.eq before_epoch half ≡ (a == b))
    × (Timespec.ne before_epoch half ≡ not (a == b))
comparisons_example =
    Order.comparisons before_epoch half (omega arith, omega arith) (omega arith, omega arith)

nanoseconds-add_example :
    nanoseconds (Timespec.add before_epoch half) ≡ nanoseconds before_epoch + 500000000
nanoseconds-add_example =
    Sums.nanoseconds-add before_epoch half (omega arith, omega arith) (omega arith, omega arith)
      (omega arith) (omega arith)
