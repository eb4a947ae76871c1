-- ===== src/Bytes/Blocks.antt =====
-- The laws of the block copies.
use qbus.Prelude.{ℕ, zero, suc, ◌+◌, ◌≡◌, ◌∙◌, refl, ap₂, inl, List, [], ◌∷◌, length, arith}
use qbus.Bytes.{Mem, write8, write_bytes, read_bytes, clear_bytes}
use qbus.Bytes.Words.{Apart, Agree, write8-Apart}

pub write_bytes-Apart :
    (m : Mem) (a : ℕ) (xs : List ℕ) (b : ℕ) → Apart a (length xs) b → write_bytes m a xs b ≡ m b
unfolding write_bytes
write_bytes-Apart m a [] b h = refl
write_bytes-Apart m a (x ∷ xs) b h =
    write_bytes-Apart (write8 m a x) (a + 1) xs b (ground arith)
    ∙ write8-Apart m a x b (ground arith)

pub clear_bytes-Apart : (m : Mem) (a n b : ℕ) → Apart a n b → clear_bytes m a n b ≡ m b
unfolding clear_bytes
clear_bytes-Apart m a zero b h = refl
clear_bytes-Apart m a (suc n) b h =
    clear_bytes-Apart (write8 m a 0) (a + 1) n b (ground arith)
    ∙ write8-Apart m a 0 b (ground arith)

pub read_bytes-Agree :
    (m m' : Mem) (a n : ℕ) → Agree m m' a n → read_bytes m' a n ≡ read_bytes m a n
unfolding read_bytes
read_bytes-Agree m m' a zero h = refl
read_bytes-Agree m m' a (suc n) h =
    ap₂ ◌∷◌ (h a (omega arith) (omega arith))
      (read_bytes-Agree m m' (a + 1) n (λ b p q. h b (omega arith) (omega arith)))

pub read_bytes-write_bytes :
    (m : Mem) (a : ℕ) (xs : List ℕ) → read_bytes (write_bytes m a xs) a (length xs) ≡ xs
unfolding read_bytes write_bytes write8
read_bytes-write_bytes m a [] = refl
read_bytes-write_bytes m a (x ∷ xs) =
    ap₂ ◌∷◌ (write_bytes-Apart (write8 m a x) (a + 1) xs a (inl (omega arith)) ∙ ground arith)
      (read_bytes-write_bytes (write8 m a x) (a + 1) xs)

pub length-read_bytes : (m : Mem) (a n : ℕ) → length (read_bytes m a n) ≡ n
unfolding read_bytes
length-read_bytes m a zero = refl
length-read_bytes m a (suc n) = omega (arith, length-read_bytes m (a + 1) n)
