-- ===== src/Message/Chain.antt =====
-- Chained messages, qbus/message.cpp: `pack`, `unpack`, `attach` and the totals over a chain.
pub mod Blocks
pub mod Laws
pub mod Headers
use qbus.Prelude.{
  ℕ, ◌+◌, ◌-◌, List, [], ◌∷◌, ◌++◌, if◌then◌else◌, leb, length, take, drop, bit_and, bit_or,
}
use qbus.Bytes.{Mem, write_bytes, read_bytes}
use qbus.Message.{
  Pmessage, flg_head, flg_tail, data_offset, flags, capacity, set_flags, static_size,
}

-- `~FLG_HEAD` on a `flags_type`.
abbrev pub not_head : ℕ
not_head = 0xfffffffe

-- `m_pmessage->flags(m_pmessage->flags() & ~FLG_HEAD)`
unfoldable pub drop_head : Mem → ℕ → Mem
drop_head m p = set_flags m p (bit_and (flags m p) not_head)

-- `pack` returns the size of the packed data. Where a part of the data is left and no message is
-- chained, that part is not packed.
unfoldable pub pack : Mem → Pmessage → List ℕ → ℕ × Mem
pack m [] source = (0, m)
pack m (p ∷ []) source =
    let cpct = capacity m p in
    if leb (length source) cpct
    then (
      length source,
      set_flags (write_bytes m (p + data_offset) source) p (bit_or flg_head flg_tail),
    )
    else (cpct, set_flags (write_bytes m (p + data_offset) (take cpct source)) p flg_head)
pack m (p ∷ q ∷ rest) source =
    let cpct = capacity m p in
    let m' = set_flags (write_bytes m (p + data_offset) (take cpct source)) p flg_head in
    let (rest_size, m'') = pack m' (q ∷ rest) (drop cpct source) in
    if leb (length source) cpct
    then (
      length source,
      set_flags (write_bytes m (p + data_offset) source) p (bit_or flg_head flg_tail),
    )
    else (cpct + rest_size, drop_head m'' q)

-- `unpack`, as the bytes that it writes to `dest`.
unfoldable pub unpack : Mem → Pmessage → List ℕ
unpack m [] = []
unpack m (p ∷ rest) = read_bytes m (p + data_offset) (capacity m p) ++ unpack m rest

unfoldable pub total_capacity : Mem → Pmessage → ℕ
total_capacity m [] = 0
total_capacity m (p ∷ rest) = capacity m p + total_capacity m rest

-- `data_size` is `total_capacity`.
unfoldable pub data_size : Mem → Pmessage → ℕ
unfolding total_capacity
data_size m chain = total_capacity m chain

unfoldable pub total_size : Mem → Pmessage → ℕ
total_size m [] = 0
total_size m (p ∷ rest) = static_size (capacity m p) + total_size m rest

-- `attach` on the last message of a chain.
abbrev pub attach : Pmessage → ℕ → Pmessage
attach chain p = chain ++ p ∷ []
