-- ===== src/Locker/Counts.antt =====
-- How many threads hold a `shared_locker` (qbus/locker.cpp), and how a step changes that.
use qbus.Prelude.{ℕ, ◌≤◌, ◌≡◌, refl, arith, count, List, [], ◌∷◌}
use qbus.Locker.Threads.{Pc, idle, booking, draining, writing, sharing, reading, AreIdle}

-- 1 for a thread that has booked the exclusive lock, has it, or has a sharable one.
abbrev pub books : Pc → ℕ
books (draining timed) = 1
books writing = 1
books p = 0

abbrev pub writes : Pc → ℕ
writes writing = 1
writes p = 0

abbrev pub reads : Pc → ℕ
reads reading = 1
reads p = 0

pub count-idle : (f : Pc → ℕ) (ps : List Pc) → f idle ≡ 0 → AreIdle ps → count f ps ≡ 0
count-idle f [] z h = refl
count-idle f (p ∷ ps) z h = rw (h.0) (omega (arith, count-idle f ps z h.1))

writes-le-books : (p : Pc) → writes p ≤ books p
writes-le-books idle = omega arith
writes-le-books (booking timed) = omega arith
writes-le-books (draining timed) = omega arith
writes-le-books writing = omega arith
writes-le-books (sharing timed) = omega arith
writes-le-books reading = omega arith

pub count-writes-le : (ps : List Pc) → count writes ps ≤ count books ps
count-writes-le [] = omega arith
count-writes-le (p ∷ ps) = omega (arith, writes-le-books p, count-writes-le ps)
