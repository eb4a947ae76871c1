-- ===== src/Message/Chain/Laws.antt =====
-- Packing data into a chain of messages, `base_message::pack` of qbus/message.cpp: all of the data
-- is stored, the flags mark the ends, and no other byte changes; unpacking gives the data back.
use qbus.Prelude.{
  ℕ, ◌+◌, ◌^◌, ◌<◌, ◌≡◌, ◌∙◌, inl, inr, refl, arith, Bool, true, false, List, [], ◌∷◌, length, take,
  drop, leb-true, leb-false, sym, bit_and, length-take, length-drop, take_all, drop_all,
}
use qbus.Bytes.{Mem, read_bytes, write_bytes}
use qbus.Bytes.Words.{Apart, Agree}
use qbus.Bytes.Blocks.{write_bytes-Apart, read_bytes-Agree, read_bytes-write_bytes}
use qbus.Message.{header_size, flags, set_flags}
use qbus.Message.Fields.{set_flags-Apart, flags-set_flags, capacity-Agree, flags-Agree}
use qbus.Message.Chain.{pack, unpack, drop_head, not_head}
use qbus.Message.Chain.Blocks.{
  Block, chain_of, room, HasCaps, Clear, AreDisjoint, ArePositive, Untouched, Untouched-Clear,
  flags_of, Stored, Stored-SameOn, SameOn-Clear, HasCaps-SameOn, unpack-Stored,
}

-- One block: the data behind the header, and the flags.
put_block : Mem → Block → List ℕ → ℕ → Mem
put_block m b xs v = set_flags (write_bytes m (b.start + 24) xs) b.start v

module _ (m : Mem) (b : Block) (xs : List ℕ) (v : ℕ) (fits : length xs ≡ b.cap) where
  put_block-Apart :
      (x : ℕ) → Apart b.start 4 x → Apart (b.start + 24) b.cap x → put_block m b xs v x ≡ m x
  unfolding put_block
  put_block-Apart x p q =
      set_flags-Apart _ b.start v x p ∙ write_bytes-Apart m (b.start + 24) xs x (ground arith)

  read-put_block : read_bytes (put_block m b xs v) (b.start + 24) b.cap ≡ xs
  unfolding put_block
  read-put_block = rw (← fits) (
      read_bytes-Agree _ _ (b.start + 24) (length xs)
        (λ x l h. set_flags-Apart _ b.start v x (inr (omega arith)))
      ∙ read_bytes-write_bytes m (b.start + 24) xs)

  flags-put_block : v < 2 ^ 32 → flags (put_block m b xs v) b.start ≡ v
  unfolding put_block
  flags-put_block h = flags-set_flags _ b.start v h

flags_of-drop_head : (bs : List Block) → bit_and (flags_of true bs) not_head ≡ flags_of false bs
flags_of-drop_head [] = refl
flags_of-drop_head (c ∷ bs) = refl

flags_of-lt : (first : Bool) (bs : List Block) → flags_of first bs < 2 ^ 32
flags_of-lt first bs = ground arith

drop_head-Apart : (m : Mem) (p x : ℕ) → Apart p 4 x → drop_head m p x ≡ m x
unfolding drop_head
drop_head-Apart m p x h = set_flags-Apart m p _ x h

-- Dropping the head flag turns the blocks of a message into those behind another block.
drop_head-Stored :
    (m : Mem) (b : Block) (bs : List Block) (source : List ℕ)
    → Clear b bs
    → Stored true m (b ∷ bs) source
    → Stored false (drop_head m b.start) (b ∷ bs) source
unfolding drop_head
drop_head-Stored m b bs source d s = (
  capacity-Agree _ _ b.start (λ x l h. drop_head-Apart m b.start x (inr (omega arith))) ∙ s.0,
  rw (s.1, flags_of-drop_head bs) (flags-set_flags m b.start _ (flags_of-lt false bs)),
  read_bytes-Agree _ _ (b.start + 24) b.cap
        (λ x l h. drop_head-Apart m b.start x (inr (omega arith)))
      ∙ s.2,
  Stored-SameOn false _ _ bs (drop b.cap source)
      (SameOn-Clear _ _ b bs d (λ x h. drop_head-Apart m b.start x (ground arith))) s.3,
)

-- What `pack` leaves: the size of the data, the data in the blocks, and no other byte changed.
pub record Packed (m : Mem) (bs : List Block) (source : List ℕ) (out : ℕ × Mem) : Type 0 where
  pub size : out.0 ≡ length source
  pub stored : Stored true out.1 bs source
  pub kept : (x : ℕ) → Untouched bs x → out.1 x ≡ m x

pack_one :
    (m : Mem) (b : Block) (source : List ℕ)
    → HasCaps m (b ∷ [])
    → length source ≡ b.cap
    → Packed m (b ∷ []) source (length source, put_block m b source 3)
pack_one m b source caps fits = record {
  size = refl;
  stored = (
    capacity-Agree _ _ b.start
          (λ x l h. put_block-Apart m b source 3 fits x (inr (omega arith)) (inl (omega arith)))
        ∙ caps.0,
    flags-put_block m b source 3 fits (omega arith),
    read-put_block m b source 3 fits ∙ sym (take_all b.cap source (omega arith)),
    drop_all b.cap source (omega arith),
  );
  kept = λ x u. put_block-Apart m b source 3 fits x u.0.0 u.0.1;
}

-- The first block of a chain, written before the blocks behind it.
module _ (m : Mem) (b c : Block) (bs : List Block) (source : List ℕ) (caps : HasCaps m (b ∷ c ∷ bs))
    (apart : AreDisjoint (b ∷ c ∷ bs)) (fits : length source ≡ room (b ∷ c ∷ bs)) where
  first_part : List ℕ
  first_part = take b.cap source

  first_fits : length first_part ≡ b.cap
  unfolding first_part
  first_fits = omega (arith, length-take b.cap source)

  abbrev m1 : Mem
  m1 = put_block m b first_part 1

  m1-Apart : (x : ℕ) → Apart b.start (header_size + b.cap) x → m1 x ≡ m x
  m1-Apart x h = put_block-Apart m b first_part 1 first_fits x (ground arith) (ground arith)

  HasCaps-m1 : HasCaps m1 (c ∷ bs)
  HasCaps-m1 = HasCaps-SameOn m m1 (c ∷ bs) (SameOn-Clear m m1 b (c ∷ bs) apart.0 m1-Apart) caps.1

  module _ (out : ℕ × Mem) (packed : Packed m1 (c ∷ bs) (drop b.cap source) out) where
    abbrev m3 : Mem
    m3 = drop_head out.1 c.start

    m3_kept : (x : ℕ) → Untouched (c ∷ bs) x → m3 x ≡ m1 x
    m3_kept x u = drop_head-Apart out.1 c.start x u.0.0 ∙ packed.kept x u

    m3-m1 : Agree m1 m3 b.start (header_size + b.cap)
    m3-m1 x l h = m3_kept x (Untouched-Clear b (c ∷ bs) x apart.0 l (omega arith))

    pack_more : Packed m (b ∷ c ∷ bs) source (b.cap + out.0, m3)
    unfolding first_part
    pack_more = record {
      size = omega (arith, packed.size, length-drop b.cap source);
      stored = (
        capacity-Agree m1 m3 b.start (λ x l h. m3-m1 x (omega arith) (omega arith))
            ∙ capacity-Agree m m1 b.start (λ x l h.
              put_block-Apart m b first_part 1 first_fits x (inr (omega arith)) (inl (omega arith)))
            ∙ caps.0,
        flags-Agree m1 m3 b.start (λ x l h. m3-m1 x (omega arith) (omega arith))
            ∙ flags-put_block m b first_part 1 first_fits (omega arith),
        read_bytes-Agree m1 m3 (b.start + 24) b.cap (λ x l h. m3-m1 x (omega arith) (omega arith))
            ∙ read-put_block m b first_part 1 first_fits,
        drop_head-Stored out.1 c bs (drop b.cap source) apart.1.0 packed.stored,
      );
      kept = λ x u. m3_kept x u.1 ∙ put_block-Apart m b first_part 1 first_fits x u.0.0 u.0.1;
    }

-- Packing as much data as the chain has room for stores all of it, marks the first and the last
-- block, and changes only the flags and the data of the blocks. The blocks must not overlap, and
-- each one behind the first must have room.
pub pack-Packed :
    (m : Mem) (b : Block) (bs : List Block) (source : List ℕ)
    → HasCaps m (b ∷ bs)
    → AreDisjoint (b ∷ bs)
    → ArePositive bs
    → length source ≡ room (b ∷ bs)
    → Packed m (b ∷ bs) source (pack m (chain_of (b ∷ bs)) source)
unfolding pack put_block first_part
pack-Packed m b [] source caps apart pos fits =
    rw (caps.0, leb-true (length source) b.cap (omega arith))
      (pack_one m b source caps (omega arith))
pack-Packed m b (c ∷ bs) source caps apart pos fits =
    rw (caps.0, leb-false (length source) b.cap (omega arith))
      (pack_more m b c bs source caps apart fits _ (
        pack-Packed (m1 m b c bs source caps apart fits) c bs (drop b.cap source)
          (HasCaps-m1 m b c bs source caps apart fits) apart.1 pos.1
          (omega (arith, length-drop b.cap source))))

-- What is packed into a chain with exactly the room for it is unpacked again, and `pack` returns
-- its size. The blocks must not overlap, and each one behind the first must have room.
pub unpack-pack :
    (m : Mem) (b : Block) (bs : List Block) (source : List ℕ)
    → HasCaps m (b ∷ bs)
    → AreDisjoint (b ∷ bs)
    → ArePositive bs
    → length source ≡ room (b ∷ bs)
    → let (packed_size, m') = pack m (chain_of (b ∷ bs)) source in
      (packed_size ≡ length source) × (unpack m' (chain_of (b ∷ bs)) ≡ source)
unpack-pack m b bs source caps apart pos fits =
    let packed = pack-Packed m b bs source caps apart pos fits in
    (packed.size, unpack-Stored true _ (b ∷ bs) source packed.stored)

-- Packing as much data as a chain has room for changes no byte outside the flags and the data of
-- its blocks. The blocks must not overlap, and each one behind the first must have room.
pub pack_apart :
    (m : Mem) (b : Block) (bs : List Block) (source : List ℕ) (x : ℕ)
    → HasCaps m (b ∷ bs)
    → AreDisjoint (b ∷ bs)
    → ArePositive bs
    → length source ≡ room (b ∷ bs)
    → Untouched (b ∷ bs) x
    → (pack m (chain_of (b ∷ bs)) source).1 x ≡ m x
pack_apart m b bs source x caps apart pos fits u =
    (pack-Packed m b bs source caps apart pos fits).kept x u
