-- ===== src/Queue/Open.antt =====
-- Creating and opening a queue, the constructors and destructors of qbus/queue.cpp. A capacity that
-- is 0 as a `uint32_t` is a fault: `clear` divides by it.
pub mod Fresh
use qbus.Prelude.{ℕ, ◌+◌, Bool, Run, done, fault, ◌>>=◌, if◌then◌else◌, ◌==◌, u32}
use qbus.Message.{World}
use qbus.Message.Make.{no_message}
use qbus.Queue
use qbus.Queue.{Queue}
use qbus.Queue.Shared
use qbus.Queue.Shared.{no_head}

-- A queue object over the header at `ptr`; `shared` and `smart` are the addresses of the headers
-- of the classes that have them.
abbrev pub object : World → ℕ → ℕ → ℕ → Queue
object w base shared smart = record {
  world = w;
  base = base;
  message_desc = no_message;
  shared = shared;
  m_head = no_head;
  m_counter = 0;
  smart = smart;
  special = Bool.false;
}

-- The constructor of `base_queue` with a capacity.
unfoldable pub create_base : Queue → ℕ → ℕ → Run Queue
create_base q qid cpct =
    if u32 cpct == 0
    then fault
    else done
        (Queue.clear (Queue.set_keepalive_timeout (Queue.set_capacity (Queue.set_id q qid) cpct) 0))

unfoldable pub open_simple : World → ℕ → Queue
open_simple w ptr = object w ptr 0 0

unfoldable pub create_simple : World → ℕ → ℕ → ℕ → Run Queue
unfolding create_base
create_simple w qid ptr cpct = create_base (object w ptr 0 0) qid cpct

unfoldable pub open_base_shared : World → ℕ → Queue
open_base_shared w ptr =
    let q = object w (ptr + Shared.header_size) ptr 0 in record q { m_counter = Shared.counter q }

unfoldable pub create_base_shared : World → ℕ → ℕ → ℕ → Run Queue
unfolding create_base
create_base_shared w qid ptr cpct = do
  q ← create_base (object w (ptr + Shared.header_size) ptr 0) qid cpct
  done (Shared.set_subscriptions_count (Shared.set_counter q 0) 0)

unfoldable pub open_shared : World → ℕ → Queue
unfolding open_base_shared
open_shared w ptr = (Shared.inc_subscriptions_count (open_base_shared w ptr)).1

unfoldable pub create_shared : World → ℕ → ℕ → ℕ → Run Queue
unfolding create_base_shared
create_shared w qid ptr cpct = do
  q ← create_base_shared w qid ptr cpct
  done (Shared.set_subscriptions_count q 1)

-- The destructor of `shared_queue`.
unfoldable pub close_shared : Queue → Queue
close_shared q = (Shared.dec_subscriptions_count q).1

unfoldable pub open_unreadable : World → ℕ → Queue
unfolding open_base_shared
open_unreadable w ptr = open_base_shared w ptr

unfoldable pub create_unreadable : World → ℕ → ℕ → ℕ → Run Queue
unfolding create_base_shared
create_unreadable w qid ptr cpct = do
  q ← create_base_shared w qid ptr cpct
  done (Shared.set_subscriptions_count q 0)
