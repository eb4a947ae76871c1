-- ===== src/Timespec.antt =====
-- The operators on `struct timespec` of qbus/common.cpp. Seconds and nanoseconds are 64-bit words
-- read as signed numbers in two's complement, as `time_t` and `long` are.
pub mod Order
pub mod Sums
use qbus.Prelude.{
  ℕ, ◌+◌, ◌%◌, ◌^◌, ◌<◌, Bool, not, ◌&&◌, ◌||◌, ◌==◌, ltb, if◌then◌else◌, u64, sub64,
}

pub record Timespec : Type 0 where
  pub tv_sec : ℕ
  pub tv_nsec : ℕ

-- The order of signed words.
abbrev pub slt : ℕ → ℕ → Bool
slt a b = ltb (u64 (a + 2 ^ 63)) (u64 (b + 2 ^ 63))

unfoldable pub eq : Timespec → Timespec → Bool
eq ts1 ts2 = ts1.tv_sec == ts2.tv_sec && ts1.tv_nsec == ts2.tv_nsec

unfoldable pub ne : Timespec → Timespec → Bool
ne ts1 ts2 = not (eq ts1 ts2)

unfoldable pub lt : Timespec → Timespec → Bool
lt ts1 ts2 = slt ts1.tv_sec ts2.tv_sec || ts1.tv_sec == ts2.tv_sec && slt ts1.tv_nsec ts2.tv_nsec

unfoldable pub gt : Timespec → Timespec → Bool
gt ts1 ts2 = slt ts2.tv_sec ts1.tv_sec || ts1.tv_sec == ts2.tv_sec && slt ts2.tv_nsec ts1.tv_nsec

unfoldable pub le : Timespec → Timespec → Bool
le ts1 ts2 = not (gt ts1 ts2)

unfoldable pub ge : Timespec → Timespec → Bool
ge ts1 ts2 = not (lt ts1 ts2)

-- `operator+`: `++tv_sec` and the subtraction of a second if the nanoseconds reach one.
unfoldable pub add : Timespec → Timespec → Timespec
add ts1 ts2 =
    let sec = u64 (ts1.tv_sec + ts2.tv_sec) in
    let nsec = u64 (ts1.tv_nsec + ts2.tv_nsec) in
    if not (slt nsec 1000000000)
    then record { tv_sec = u64 (sec + 1); tv_nsec = sub64 nsec 1000000000 }
    else record { tv_sec = sec; tv_nsec = nsec }

-- `operator-`
unfoldable pub sub : Timespec → Timespec → Timespec
sub ts1 ts2 =
    if slt ts1.tv_nsec ts2.tv_nsec
    then record {
      tv_sec = sub64 (sub64 ts1.tv_sec ts2.tv_sec) 1;
      tv_nsec = sub64 (u64 (1000000000 + ts1.tv_nsec)) ts2.tv_nsec;
    }
    else record { tv_sec = sub64 ts1.tv_sec ts2.tv_sec; tv_nsec = sub64 ts1.tv_nsec ts2.tv_nsec }

-- The seconds are a 64-bit word, and the nanoseconds are less than a second.
abbrev pub IsNormal : Timespec → Type 0
IsNormal t = (t.tv_sec < 2 ^ 64) × (t.tv_nsec < 1000000000)
