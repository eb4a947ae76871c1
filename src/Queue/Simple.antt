-- ===== src/Queue/Simple.antt =====
-- `simple_queue` of qbus/queue.cpp: one reader, which moves the head and the count in the shared
-- header.
use qbus.Prelude.{ℕ, List, Run, done, ◌>>=◌, sub64, ◌==◌}
use qbus.Message
use qbus.Message.{Env}
use qbus.Message.Make.{Regions, Desc, static_make_message, static_get_message}
use qbus.Queue
use qbus.Queue.{Queue, mem, with_mem, data_start, busy_region}
use qbus.Queue.Shared.{first_of}

unfoldable pub push_message : Env → Queue → List ℕ → Run (Queue × Desc)
push_message env q source = do
  (w, d) ← static_make_message env (Queue.get_free_region q) (data_start q) q.world source
  done (record q { world = w }, d)

unfoldable pub get_busy_region : Queue → Regions
get_busy_region q =
    busy_region (Queue.capacity q) (Queue.head q) (Queue.tail q) (Queue.count q == 0)

unfoldable pub get_message : Queue → Run Desc
unfolding get_busy_region
get_message q = static_get_message (get_busy_region q) (data_start q) (mem q)

unfoldable pub pop_message : Queue → Desc → Run Queue
pop_message q d = do
  p ← first_of d.chain
  let q' = Queue.set_head (with_mem q (Message.dec_counter (mem q) p).1) d.next
  done (Queue.set_count q' (sub64 (Queue.count q') 1))
