-- ===== src/Queue/Class.antt =====
-- The classes of queues and their virtual functions, qbus/queue.h: which method each class runs.
use qbus.Prelude.{ℕ, ◌+◌, List, Run, done, ◌>>=◌, u32}
use qbus.Message.{Env}
use qbus.Message.Make.{Desc}
use qbus.Queue
use qbus.Queue.{Queue, Garbage, no_garbage}
use qbus.Queue.Simple
use qbus.Queue.Shared
use qbus.Queue.Smart

pub data Class : Type 0 where
  simple shared unreadable smart : Class

unfoldable pub count : Class → Queue → ℕ
count Class.simple q = Queue.count q
count _ q = Shared.count q

unfoldable pub size : Class → Queue → ℕ
size Class.simple q = Queue.size q
size Class.smart q = Smart.size q
size _ q = Shared.size q

-- `unreadable_shared_queue` counts what it cleans as popped.
unfoldable pub clean_unreadable : Queue → Run (Queue × Garbage)
clean_unreadable q = do
  (q', info) ← Shared.clean_messages q
  done (record q' { m_counter = u32 (q'.m_counter + info.number) }, info)

unfoldable pub clean_messages : Class → Queue → Run (Queue × Garbage)
clean_messages Class.simple q = done (q, no_garbage)
clean_messages Class.shared q = Shared.clean_messages q
clean_messages Class.unreadable q = clean_unreadable q
clean_messages Class.smart q = Smart.clean_messages q

unfoldable pub push_message : Class → Env → Queue → List ℕ → Run (Queue × Desc)
push_message Class.simple env q source = Simple.push_message env q source
push_message Class.smart env q source = Smart.push_message env q source
push_message _ env q source = Shared.push_message env (Queue.get_free_region q) q source

-- A smart queue passes over at most as many messages as it has not yet read.
unfoldable pub get_message : Class → Env → Queue → Run (Queue × Desc)
get_message Class.simple env q = do d ← Simple.get_message q; done (q, d)
get_message Class.smart env q = Smart.get_message (Shared.count q + 1) env q
get_message _ env q = do d ← Shared.get_message q; done (q, d)

unfoldable pub pop_message : Class → Queue → Desc → Run Queue
pop_message Class.simple q d = Simple.pop_message q d
pop_message _ q d = Shared.pop_message q d
