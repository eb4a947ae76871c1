-- ===== src/Message/Fields.antt =====
-- The header fields of qbus/message.cpp: what the constructor sets, and that the accessors of one
-- message leave all memory outside the message's header alone.
use qbus.Prelude.{ℕ, ◌+◌, ◌-◌, ◌%◌, ◌^◌, ◌<◌, ◌≡◌, ◌∙◌, inl, arith}
use qbus.Bytes.{Mem}
use qbus.Bytes.Words.{
  Apart, Agree, write32-Apart, read32-Agree, read32-write32_self, read32-write32_apart,
}
use qbus.Bytes.Blocks.{clear_bytes-Apart}
use qbus.Message.{
  Env, World, header_size, sid, timestamp, tag, flags, capacity, counter, set_sid, set_timestamp,
  set_tag, set_flags, set_capacity, set_counter, inc_counter, dec_counter, make_message,
}

-- The constructor writes the header and nothing else.
pub make_message-Apart :
    (env : Env) (w : World) (p cpct b : ℕ)
    → Apart p header_size b
    → (make_message env w p cpct).mem b ≡ w.mem b
unfolding make_message set_sid set_capacity set_timestamp
make_message-Apart env w p cpct b h =
    write32-Apart _ (p + 20) _ b (ground arith)
    ∙ write32-Apart _ (p + 8) _ b (ground arith)
    ∙ write32-Apart _ (p + 4) _ b (ground arith)
    ∙ clear_bytes-Apart w.mem p header_size b h

pub capacity-make_message :
    (env : Env) (w : World) (p cpct : ℕ)
    → cpct < 2 ^ 32
    → capacity (make_message env w p cpct).mem p ≡ cpct
unfolding make_message set_sid set_capacity set_timestamp capacity
capacity-make_message env w p cpct h =
    read32-write32_apart _ (p + 20) _ (p + 4) (inl (omega arith))
    ∙ read32-write32_apart _ (p + 8) _ (p + 4) (inl (omega arith))
    ∙ read32-write32_self _ (p + 4) cpct h

pub sid-make_message :
    (env : Env) (w : World) (p cpct : ℕ)
    → env.sid < 2 ^ 32
    → sid (make_message env w p cpct).mem p ≡ env.sid
unfolding make_message set_sid set_capacity set_timestamp sid
sid-make_message env w p cpct h =
    read32-write32_apart _ (p + 20) _ (p + 8) (inl (omega arith))
    ∙ read32-write32_self _ (p + 8) env.sid h

pub timestamp-make_message :
    (env : Env) (w : World) (p cpct : ℕ)
    → env.clock w.ticks < 2 ^ 32
    → timestamp (make_message env w p cpct).mem p ≡ env.clock w.ticks
unfolding make_message set_timestamp timestamp
timestamp-make_message env w p cpct h = read32-write32_self _ (p + 20) (env.clock w.ticks) h

pub set_tag-Apart : (m : Mem) (p v b : ℕ) → Apart (p + 12) 4 b → set_tag m p v b ≡ m b
unfolding set_tag
set_tag-Apart m p v b h = write32-Apart m (p + 12) v b h

pub tag-set_tag : (m : Mem) (p v : ℕ) → v < 2 ^ 32 → tag (set_tag m p v) p ≡ v
unfolding tag set_tag
tag-set_tag m p v h = read32-write32_self m (p + 12) v h

pub set_flags-Apart : (m : Mem) (p v b : ℕ) → Apart p 4 b → set_flags m p v b ≡ m b
unfolding set_flags
set_flags-Apart m p v b h = write32-Apart m (p + 0) v b (ground arith)

pub flags-set_flags : (m : Mem) (p v : ℕ) → v < 2 ^ 32 → flags (set_flags m p v) p ≡ v
unfolding flags set_flags
flags-set_flags m p v h = read32-write32_self m (p + 0) v h

pub set_counter-Apart : (m : Mem) (p v b : ℕ) → Apart (p + 16) 4 b → set_counter m p v b ≡ m b
unfolding set_counter
set_counter-Apart m p v b h = write32-Apart m (p + 16) v b h

pub counter-set_counter : (m : Mem) (p v : ℕ) → v < 2 ^ 32 → counter (set_counter m p v) p ≡ v
unfolding counter set_counter
counter-set_counter m p v h = read32-write32_self m (p + 16) v h

pub capacity-Agree : (m m' : Mem) (p : ℕ) → Agree m m' (p + 4) 4 → capacity m' p ≡ capacity m p
unfolding capacity
capacity-Agree m m' p h = read32-Agree m m' (p + 4) h

pub flags-Agree : (m m' : Mem) (p : ℕ) → Agree m m' p 4 → flags m' p ≡ flags m p
unfolding flags
flags-Agree m m' p h = read32-Agree m m' (p + 0) (λ b q r. h b (omega arith) (omega arith))

pub tag-Agree : (m m' : Mem) (p : ℕ) → Agree m m' (p + 12) 4 → tag m' p ≡ tag m p
unfolding tag
tag-Agree m m' p h = read32-Agree m m' (p + 12) h

pub counter-Agree : (m m' : Mem) (p : ℕ) → Agree m m' (p + 16) 4 → counter m' p ≡ counter m p
unfolding counter
counter-Agree m m' p h = read32-Agree m m' (p + 16) h

-- Taking a reference and giving it back restores the counter, also across the wrap at 2^32.
pub dec_counter-inc_counter :
    (m : Mem) (p : ℕ)
    → counter m p < 2 ^ 32
    → let (up, m') = inc_counter m p in
      let (down, m'') = dec_counter m' p in (down ≡ counter m p) × (counter m'' p ≡ counter m p)
unfolding inc_counter dec_counter
dec_counter-inc_counter m p h =
    let e = counter-set_counter m p ((counter m p + 1) % 2 ^ 32) (omega arith) in
    let d : (counter (set_counter m p ((counter m p + 1) % 2 ^ 32)) p + 2 ^ 32 - 1) % 2 ^ 32
        ≡ counter m p =
      omega arith in
    (d, counter-set_counter _ p _ (omega arith) ∙ d)

pub dec_counter-Apart : (m : Mem) (p b : ℕ) → Apart (p + 16) 4 b → (dec_counter m p).1 b ≡ m b
unfolding dec_counter
dec_counter-Apart m p b h = write32-Apart m (p + 16) _ b h
