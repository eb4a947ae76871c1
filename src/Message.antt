-- ===== src/Message.antt =====
-- The message in shared memory: qbus/message.h (`base_message`, its offsets and sizes) and
-- qbus/message.cpp (the accessors and the constructor). A message is named by `m_ptr`, the address
-- of its header; a `pmessage_type` by the addresses of the chained messages, the empty list being
-- the null pointer.
pub mod Chain
pub mod Make
pub mod Fields
use qbus.Prelude.{ℕ, ◌+◌, ◌-◌, ◌%◌, ◌^◌, List, if◌then◌else◌, ltb}
use qbus.Bytes.{Mem, read32, write32, clear_bytes}

abbrev pub flg_head : ℕ
flg_head = 1

abbrev pub flg_tail : ℕ
flg_tail = 2

abbrev pub flags_offset : ℕ
flags_offset = 0

abbrev pub capacity_offset : ℕ
capacity_offset = 4

abbrev pub sid_offset : ℕ
sid_offset = 8

abbrev pub tag_offset : ℕ
tag_offset = 12

abbrev pub counter_offset : ℕ
counter_offset = 16

abbrev pub ts_offset : ℕ
ts_offset = 20

abbrev pub data_offset : ℕ
data_offset = 24

abbrev pub header_size : ℕ
header_size = data_offset

abbrev pub Pmessage : Type 0
Pmessage = List ℕ

-- What the process reads from outside: `get_sid`, and the successive results of `get_timestamp`.
pub record Env : Type 0 where
  pub sid : ℕ
  pub clock : ℕ → ℕ

-- The shared memory, and how often the clock has been read.
pub record World : Type 0 where
  pub mem : Mem
  pub ticks : ℕ

unfoldable pub sid : Mem → ℕ → ℕ
sid m p = read32 m (p + sid_offset)

unfoldable pub timestamp : Mem → ℕ → ℕ
timestamp m p = read32 m (p + ts_offset)

unfoldable pub tag : Mem → ℕ → ℕ
tag m p = read32 m (p + tag_offset)

unfoldable pub flags : Mem → ℕ → ℕ
flags m p = read32 m (p + flags_offset)

unfoldable pub capacity : Mem → ℕ → ℕ
capacity m p = read32 m (p + capacity_offset)

unfoldable pub counter : Mem → ℕ → ℕ
counter m p = read32 m (p + counter_offset)

unfoldable pub set_sid : Mem → ℕ → ℕ → Mem
set_sid m p value = write32 m (p + sid_offset) value

unfoldable pub set_timestamp : Mem → ℕ → ℕ → Mem
set_timestamp m p value = write32 m (p + ts_offset) value

unfoldable pub set_tag : Mem → ℕ → ℕ → Mem
set_tag m p value = write32 m (p + tag_offset) value

unfoldable pub set_flags : Mem → ℕ → ℕ → Mem
set_flags m p value = write32 m (p + flags_offset) value

unfoldable pub set_capacity : Mem → ℕ → ℕ → Mem
set_capacity m p value = write32 m (p + capacity_offset) value

unfoldable pub set_counter : Mem → ℕ → ℕ → Mem
set_counter m p value = write32 m (p + counter_offset) value

-- The atomic updates of the reference counter, with the value that they return. Both wrap at 2^32.
unfoldable pub inc_counter : Mem → ℕ → ℕ × Mem
unfolding counter set_counter
inc_counter m p = let value = (counter m p + 1) % 2 ^ 32 in (value, set_counter m p value)

unfoldable pub dec_counter : Mem → ℕ → ℕ × Mem
unfolding counter set_counter
dec_counter m p = let value = (counter m p + 2 ^ 32 - 1) % 2 ^ 32 in (value, set_counter m p value)

-- `static_size` and `static_capacity`. A `size_t` has 64 bits, and the sizes stay below 2^33.
abbrev pub static_size : ℕ → ℕ
static_size cpct = header_size + cpct

abbrev pub static_capacity : ℕ → ℕ
static_capacity sz = if ltb header_size sz then sz - header_size else 0

unfoldable pub size : Mem → ℕ → ℕ
size m p = static_size (capacity m p)

-- `get_timestamp`: the clock moves on at each reading.
unfoldable pub get_timestamp : Env → World → ℕ × World
get_timestamp env w = (env.clock w.ticks, record w { ticks = w.ticks + 1 })

-- The constructor with a capacity: a cleared header, then its capacity, source and time.
unfoldable pub make_message : Env → World → ℕ → ℕ → World
unfolding get_timestamp
make_message env w p cpct =
    let m = set_sid (set_capacity (clear_bytes w.mem p header_size) p cpct) p env.sid in
    let (ts, w') = get_timestamp env (record w { mem = m }) in
    record w' { mem = set_timestamp m p ts }
