-- ===== src/Queue/Shared.antt =====
-- `base_shared_queue` of qbus/queue.cpp: many readers, each with a head and a counter of its own
-- in its queue object, over one queue in shared memory.
use qbus.Prelude.{
  spent, fault, ℕ, zero, suc, ◌+◌, ◌%◌, List, [], ◌∷◌, Run, done, ◌>>=◌, check, if◌then◌else◌, not,
  ◌==◌, u32, sub32,
}
use qbus.Bytes.{read32, write32}
use qbus.Message
use qbus.Message.{Env, Pmessage}
use qbus.Message.Chain.{total_size}
use qbus.Message.Make.{Regions, Desc, static_make_message, static_get_message}
use qbus.Queue
use qbus.Queue.{Queue, Garbage, no_garbage, mem, with_mem, data_start, busy_region}

abbrev pub subs_count_offset : ℕ
subs_count_offset = 0

abbrev pub counter_offset : ℕ
counter_offset = 4

abbrev pub header_size : ℕ
header_size = 8

abbrev pub static_size : ℕ → ℕ
static_size cpct = header_size + Queue.static_size cpct

-- `pos_type(-1)`, the head of an object that has popped nothing.
abbrev pub no_head : ℕ
no_head = 0xffffffff

unfoldable pub subscriptions_count : Queue → ℕ
subscriptions_count q = read32 (mem q) (q.shared + subs_count_offset)

unfoldable pub set_subscriptions_count : Queue → ℕ → Queue
set_subscriptions_count q value = with_mem q (write32 (mem q) (q.shared + subs_count_offset) value)

unfoldable pub inc_subscriptions_count : Queue → ℕ × Queue
unfolding subscriptions_count set_subscriptions_count
inc_subscriptions_count q =
    let value = u32 (subscriptions_count q + 1) in (value, set_subscriptions_count q value)

unfoldable pub dec_subscriptions_count : Queue → ℕ × Queue
unfolding subscriptions_count set_subscriptions_count
dec_subscriptions_count q =
    let value = sub32 (subscriptions_count q) 1 in (value, set_subscriptions_count q value)

unfoldable pub counter : Queue → ℕ
counter q = read32 (mem q) (q.shared + counter_offset)

unfoldable pub set_counter : Queue → ℕ → Queue
set_counter q value = with_mem q (write32 (mem q) (q.shared + counter_offset) value)

unfoldable pub size : Queue → ℕ
size q = static_size (Queue.capacity q)

unfoldable pub head : Queue → ℕ
head q = if q.m_head == no_head then Queue.head q else q.m_head

unfoldable pub count : Queue → ℕ
unfolding counter
count q = sub32 (counter q) q.m_counter

unfoldable pub get_busy_region : Queue → Regions
unfolding head count
get_busy_region q = busy_region (Queue.capacity q) (head q) (Queue.tail q) (count q == 0)

unfoldable pub get_message : Queue → Run Desc
unfolding get_busy_region
get_message q = static_get_message (get_busy_region q) (data_start q) (mem q)

-- `message_desc.first`, dereferenced; a null one is a fault.
abbrev pub first_of : Pmessage → Run ℕ
first_of [] = fault
first_of (p ∷ rest) = done p

unfoldable pub pop_message : Queue → Desc → Run Queue
pop_message q d = do
  p ← first_of d.chain
  let (value, m) = Message.dec_counter (mem q) p
  check (not (value == 0xffffffff)) (
      done (record (with_mem q m) {
        m_head = d.next % Queue.capacity q;
        m_counter = u32 (q.m_counter + 1);
      }))

-- The end of `push_message`, at a chain that may be null.
unfoldable pub count_message : Queue → Pmessage → Queue
unfolding counter set_counter subscriptions_count
count_message q [] = q
count_message q (p ∷ rest) =
    let q' = with_mem q (Message.set_counter (mem q) p (subscriptions_count q)) in
    set_counter q' (u32 (counter q' + 1))

-- `push_message`, over the virtual `get_free_region`.
unfoldable pub push_message : Env → Regions → Queue → List ℕ → Run (Queue × Desc)
push_message env regions q source = do
  (w, d) ← static_make_message env regions (data_start q) q.world source
  done (count_message (record q { world = w }) d.chain, d)

-- The loop of `clean_messages`, `while (cnt-- > 0)`, with the object reading from the shared head.
unfoldable pub clean_loop : ℕ → Queue → Garbage → Run (Queue × Garbage)
unfolding get_message
clean_loop zero q info = done (q, info)
clean_loop (suc cnt) q info = elim (get_message q) [
  | done d ↦ elim (first_of d.chain) [
    | done p ↦
        if Message.counter (mem q) p == 0
        then clean_loop cnt (Queue.set_count (Queue.set_head q d.next) cnt)
            (record { number = info.number + 1; total = info.total + total_size (mem q) d.chain })
        else done (q, info)
    | _ ↦ done (q, info)
  ]
  | spent ↦ spent
  | fault ↦ fault
]

-- `clean_messages`: the object's head and counter are rolled back at its end.
unfoldable pub clean_messages : Queue → Run (Queue × Garbage)
unfolding clean_loop
clean_messages q = if Queue.count q == 0 then done (q, no_garbage) else do
  (q', info) ←
      clean_loop (Queue.count q) (record q { m_head = no_head; m_counter = sub32 q.m_counter 1 })
        no_garbage
  done (record q' { m_head = q.m_head; m_counter = q.m_counter }, info)
