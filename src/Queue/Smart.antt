-- ===== src/Queue/Smart.antt =====
-- `smart_shared_queue` of qbus/queue.cpp: a shared queue whose readers come and go. It keeps the
-- free space of the queue beside it, reserves room for service messages, and passes over service
-- messages and the reader's own.
use qbus.Prelude.{
  ℕ, zero, suc, ◌+◌, ◌*◌, List, [], ◌∷◌, Option, none, some, Run, done, spent, fault, ◌>>=◌,
  if◌then◌else◌, ltb, ◌==◌, not, ◌&&◌, u32, u64, sub32, sub64,
}
use qbus.Bytes.{read32, write32}
use qbus.Message
use qbus.Message.{Env, Pmessage}
use qbus.Message.Chain.{total_size}
use qbus.Message.Make.{Region, Regions, Desc, no_message}
use qbus.Queue
use qbus.Queue.{Queue, Garbage, mem, with_mem}
use qbus.Queue.Shared
use qbus.Queue.Shared.{first_of}

abbrev pub free_space_offset : ℕ
free_space_offset = 0

abbrev pub header_size : ℕ
header_size = 4

abbrev pub static_size : ℕ → ℕ
static_size cpct = header_size + Shared.static_size cpct

-- `service_message::TAG` and the codes, qbus/service_message.h.
abbrev pub service_tag : ℕ
service_tag = 0xffffffff

abbrev pub code_connect : ℕ
code_connect = 0

abbrev pub code_disconnect : ℕ
code_disconnect = 1

abbrev pub code_book : ℕ
code_book = 2

unfoldable pub size : Queue → ℕ
size q = static_size (Queue.capacity q)

unfoldable pub free_space : Queue → ℕ
free_space q = read32 (mem q) (q.smart + free_space_offset)

unfoldable pub set_free_space : Queue → ℕ → Queue
set_free_space q value = with_mem q (write32 (mem q) (q.smart + free_space_offset) value)

-- `atomic_add32` of a value, and of its negation.
unfoldable pub inc_free_space : Queue → ℕ → Queue
unfolding free_space set_free_space
inc_free_space q value = set_free_space q (u32 (free_space q + u32 value))

unfoldable pub dec_free_space : Queue → ℕ → Queue
unfolding free_space set_free_space
dec_free_space q value = set_free_space q (sub32 (free_space q) (u32 value))

unfoldable pub clean_messages : Queue → Run (Queue × Garbage)
clean_messages q = do
  (q', info) ← Shared.clean_messages q
  done (if info.number == 0 then q' else inc_free_space q' info.total, info)

-- Room for two service messages of each subscriber.
unfoldable pub reserved_space : Queue → ℕ
reserved_space q = u64 (2 * Message.static_size 1 * Shared.subscriptions_count q)

-- `free_space() - reserved_space`, on a `size_t`.
unfoldable pub available_space : Queue → ℕ
available_space q = sub64 (free_space q) (reserved_space q)

abbrev pub size_before : Option Region → ℕ
size_before none = 0
size_before (some prev) = prev.size

unfoldable pub get_free_region : Queue → Regions
unfolding reserved_space available_space
get_free_region q prev =
    let region = Queue.get_free_region q prev in
    let sz = u64 (region.size + size_before prev) in
    if q.special
    then region
    else if ltb (available_space q) sz
    then record region { size = sub64 region.size (sub64 sz (available_space q)) }
    else region

-- A pushed chain takes its total size from the free space; a null one takes nothing.
unfoldable pub spend : Queue → Pmessage → Queue
unfolding dec_free_space
spend q [] = q
spend q (p ∷ rest) = dec_free_space q (total_size (mem q) (p ∷ rest))

unfoldable pub push_message : Env → Queue → List ℕ → Run (Queue × Desc)
unfolding get_free_region spend
push_message env q source = do
  (q', d) ← Shared.push_message env (get_free_region q) q source
  done (spend q' d.chain, d)

-- `get_message`: a message of another process that is no service message is returned; the others
-- are popped. The fuel bounds the messages that are passed over.
unfoldable pub get_message : ℕ → Env → Queue → Run (Queue × Desc)
get_message zero env q = spent
get_message (suc fuel) env q = elim (Shared.get_message q) [
  | done d ↦ elim (first_of d.chain) [
    | done p ↦
        if not (Message.sid (mem q) p == env.sid) && not (Message.tag (mem q) p == service_tag)
        then done (q, d)
        else elim (Shared.pop_message q d) [
          | done q' ↦
              let rest = get_message fuel env q' in
              if Shared.count q' == 0 then done (q', no_message) else rest
          | spent ↦ spent
          | fault ↦ fault
        ]
    | spent ↦ spent
    | fault ↦ fault
  ]
  | spent ↦ spent
  | fault ↦ fault
]
