-- ===== src/Bytes.antt =====
-- Shared memory as bytes by address. `read32` and `write32` are the accesses
-- `*reinterpret_cast<uint32_t*>(p)` of qbus/message.cpp and qbus/queue.cpp, little-endian, and
-- `write_bytes`, `read_bytes` and `clear_bytes` the `memcpy` and `memset` that they call.
pub mod Words
pub mod Blocks
use qbus.Prelude.{ℕ, zero, suc, ◌+◌, ◌*◌, ◌/◌, ◌%◌, ◌^◌, List, [], ◌∷◌, if◌then◌else◌, ◌==◌}

abbrev pub Mem : Type 0
Mem = ℕ → ℕ

-- A store of one byte.
unfoldable pub write8 : Mem → ℕ → ℕ → Mem
write8 m a v b = if a == b then v else m b

unfoldable pub read32 : Mem → ℕ → ℕ
read32 m a = m a + 0x100 * m (a + 1) + 0x10000 * m (a + 2) + 0x1000000 * m (a + 3)

-- A store of `value` into a `uint32_t`: the low 32 bits, lowest byte first.
unfoldable pub write32 : Mem → ℕ → ℕ → Mem
unfolding write8
write32 m a value =
    write8
      (write8 (write8 (write8 m a (value % 0x100)) (a + 1) (value / 0x100 % 0x100)) (a + 2)
        (value / 0x10000 % 0x100))
      (a + 3) (value / 0x1000000 % 0x100)

-- `memcpy` into the memory, from a list of bytes.
unfoldable pub write_bytes : Mem → ℕ → List ℕ → Mem
write_bytes m a [] = m
write_bytes m a (x ∷ xs) = write_bytes (write8 m a x) (a + 1) xs

-- `memcpy` of `n` bytes out of the memory.
unfoldable pub read_bytes : Mem → ℕ → ℕ → List ℕ
read_bytes m a zero = []
read_bytes m a (suc n) = m a ∷ read_bytes m (a + 1) n

-- `memset` of `n` bytes to zero.
unfoldable pub clear_bytes : Mem → ℕ → ℕ → Mem
clear_bytes m a zero = m
clear_bytes m a (suc n) = clear_bytes (write8 m a 0) (a + 1) n
