-- ===== src/Bytes/Words.antt =====
-- The laws of the 32-bit accesses: what a store changes, and what a load sees of it.
use qbus.Prelude.{ℕ, ◌+◌, ◌^◌, ◌≤◌, ◌<◌, ◌≡◌, ◌⊎◌, arith}
use qbus.Bytes.{Mem, write8, read32, write32}

-- The address `b` is not among the `n` addresses from `a` on.
abbrev pub Apart : ℕ → ℕ → ℕ → Type 0
Apart a n b = (b < a) ⊎ (a + n ≤ b)

-- The memories agree on the `n` bytes from `a` on.
abbrev pub Agree : Mem → Mem → ℕ → ℕ → Type 0
Agree m m' a n = (b : ℕ) → a ≤ b → b < a + n → m' b ≡ m b

pub write8-Apart : (m : Mem) (a v b : ℕ) → Apart a 1 b → write8 m a v b ≡ m b
unfolding write8
write8-Apart m a v b h = ground arith

pub write32-Apart : (m : Mem) (a v b : ℕ) → Apart a 4 b → write32 m a v b ≡ m b
unfolding write32
write32-Apart m a v b h = ground arith

pub read32-Agree : (m m' : Mem) (a : ℕ) → Agree m m' a 4 → read32 m' a ≡ read32 m a
unfolding read32
read32-Agree m m' a h = omega (
  arith,
  h a (omega arith) (omega arith),
  h (a + 1) (omega arith) (omega arith),
  h (a + 2) (omega arith) (omega arith),
  h (a + 3) (omega arith) (omega arith),
)

pub read32-write32_self : (m : Mem) (a v : ℕ) → v < 2 ^ 32 → read32 (write32 m a v) a ≡ v
unfolding read32 write32
read32-write32_self m a v h = ground arith

pub read32-write32_apart :
    (m : Mem) (a v b : ℕ) → (b + 4 ≤ a) ⊎ (a + 4 ≤ b) → read32 (write32 m a v) b ≡ read32 m b
read32-write32_apart m a v b h =
    read32-Agree m (write32 m a v) b (λ c p q. write32-Apart m a v c (ground arith))
