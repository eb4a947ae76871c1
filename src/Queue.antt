-- ===== src/Queue.antt =====
-- The queue in shared memory: `base_queue` of qbus/queue.h and qbus/queue.cpp, its header and its
-- regions. One record holds the fields of a queue object of any class beside the shared memory;
-- the classes that lack a field leave it alone.
pub mod Simple
pub mod Shared
pub mod Smart
pub mod Layout
pub mod Regions
pub mod Write
pub mod Read
pub mod Header
pub mod Fifo
pub mod Class
pub mod Base
pub mod Open
pub mod Service
pub mod Reader
pub mod Topic
use qbus.Prelude.{
  ℕ, ◌+◌, ◌%◌, Bool, ◌||◌, Option, none, some, if◌then◌else◌, ltb, ◌==◌, u64, sub32, sub64,
}
use qbus.Bytes.{Mem, read32, write32}
use qbus.Message.{World}
use qbus.Message.Make.{Region, Desc}

abbrev pub id_offset : ℕ
id_offset = 0

abbrev pub capacity_offset : ℕ
capacity_offset = 4

abbrev pub timeout_offset : ℕ
timeout_offset = 8

abbrev pub count_offset : ℕ
count_offset = 12

abbrev pub head_offset : ℕ
head_offset = 16

abbrev pub tail_offset : ℕ
tail_offset = 20

abbrev pub data_offset : ℕ
data_offset = 24

abbrev pub header_size : ℕ
header_size = data_offset

abbrev pub static_size : ℕ → ℕ
static_size cpct = header_size + cpct

-- `base` is the `m_ptr` of `base_queue`, `shared` that of `base_shared_queue`, and `smart` that of
-- `smart_shared_queue`; `special` is `m_state == ST_PUSH_SPECIAL_MESSAGE`.
pub record Queue : Type 0 where
  pub world : World
  pub base : ℕ
  pub message_desc : Desc
  pub shared : ℕ
  pub m_head : ℕ
  pub m_counter : ℕ
  pub smart : ℕ
  pub special : Bool

abbrev pub mem : Queue → Mem
mem q = q.world.mem

abbrev pub with_mem : Queue → Mem → Queue
with_mem q m = record q { world = record q.world { mem = m } }

unfoldable pub id : Queue → ℕ
id q = read32 (mem q) (q.base + id_offset)

unfoldable pub set_id : Queue → ℕ → Queue
set_id q value = with_mem q (write32 (mem q) (q.base + id_offset) value)

unfoldable pub capacity : Queue → ℕ
capacity q = read32 (mem q) (q.base + capacity_offset)

unfoldable pub set_capacity : Queue → ℕ → Queue
set_capacity q value = with_mem q (write32 (mem q) (q.base + capacity_offset) value)

unfoldable pub keepalive_timeout : Queue → ℕ
keepalive_timeout q = read32 (mem q) (q.base + timeout_offset)

unfoldable pub set_keepalive_timeout : Queue → ℕ → Queue
set_keepalive_timeout q value = with_mem q (write32 (mem q) (q.base + timeout_offset) value)

unfoldable pub count : Queue → ℕ
count q = read32 (mem q) (q.base + count_offset)

unfoldable pub set_count : Queue → ℕ → Queue
set_count q value = with_mem q (write32 (mem q) (q.base + count_offset) value)

unfoldable pub head : Queue → ℕ
head q = read32 (mem q) (q.base + head_offset)

-- A capacity of 0 divides by zero here; `Open.create` rules it out.
unfoldable pub set_head : Queue → ℕ → Queue
set_head q value = with_mem q (write32 (mem q) (q.base + head_offset) (value % capacity q))

unfoldable pub tail : Queue → ℕ
tail q = read32 (mem q) (q.base + tail_offset)

unfoldable pub set_tail : Queue → ℕ → Queue
set_tail q value = with_mem q (write32 (mem q) (q.base + tail_offset) (value % capacity q))

-- `data(pos)` is `data_start q + pos`.
abbrev pub data_start : Queue → ℕ
data_start q = q.base + data_offset

unfoldable pub size : Queue → ℕ
size q = static_size (capacity q)

unfoldable pub clear : Queue → Queue
clear q = set_count (set_tail (set_head q 0) 0) 0

-- The free region behind a tail, and the one behind a region: `get_free_region`.
unfoldable pub free_region : ℕ → ℕ → ℕ → ℕ → Option Region → Region
free_region cpct hd tl cnt none =
    if cnt == 0 || ltb hd tl
    then record { pos = tl; size = sub64 cpct tl }
    else record { pos = tl; size = sub32 hd tl }
free_region cpct hd tl cnt (some prev) =
    let next = u64 (prev.pos + prev.size) % cpct in
    if ltb hd next
    then record { pos = next; size = sub64 cpct next }
    else record { pos = next; size = sub32 hd next }

unfoldable pub get_free_region : Queue → Option Region → Region
get_free_region q prev = free_region (capacity q) (head q) (tail q) (count q) prev

-- `get_busy_region`, over the results of the virtual `head` and `empty`.
unfoldable pub busy_region : ℕ → ℕ → ℕ → Bool → Option Region → Region
busy_region cpct hd tl is_empty none =
    if is_empty || ltb hd tl
    then record { pos = hd; size = sub32 tl hd }
    else record { pos = hd; size = sub64 cpct hd }
busy_region cpct hd tl is_empty (some prev) =
    let next = u64 (prev.pos + prev.size) % cpct in
    if ltb next tl
    then record { pos = next; size = sub32 tl next }
    else record { pos = next; size = sub64 cpct next }

-- `garbage_info_type`
pub record Garbage : Type 0 where
  pub number : ℕ
  pub total : ℕ

abbrev pub no_garbage : Garbage
no_garbage = record { number = 0; total = 0 }
