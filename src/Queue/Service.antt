-- ===== src/Queue/Service.antt =====
-- The life of a `smart_shared_queue` (qbus/queue.cpp): its constructors, its destructor, and the
-- service messages by which a reader tells the others that it comes, goes, or is booked for a queue
-- that is not open yet. `fuel` bounds each loop.
use qbus.Prelude.{
  ℕ, zero, suc, ◌+◌, ◌-◌, Bool, true, ◌&&◌, [], ◌∷◌, Option, none, some, Run, done, spent, ◌>>=◌,
  check, if◌then◌else◌, ltb, ◌==◌,
}
use qbus.Bytes.{Mem}
use qbus.Message
use qbus.Message.{Env, World, data_offset}
use qbus.Queue
use qbus.Queue.{Queue, mem}
use qbus.Queue.Shared
use qbus.Queue.Shared.{first_of}
use qbus.Queue.Smart
use qbus.Queue.Smart.{service_tag, code_connect, code_disconnect, code_book}
use qbus.Queue.Class.{Class}
use qbus.Queue.Base
use qbus.Queue.Open

-- `service_message::code`
unfoldable pub service_code : Mem → ℕ → ℕ
service_code m p = m (p + data_offset)

unfoldable pub push_rounds : ℕ → Env → Queue → (code : ℕ) → Run Queue
push_rounds zero env q code = spent
push_rounds (suc fuel) env q code = do
  (q', pushed) ← Base.push Class.smart env q service_tag (code ∷ [])
  let rest = push_rounds fuel env q' code
  if pushed then done q' else rest

-- The reserve does not bind while `m_state` is `ST_PUSH_SPECIAL_MESSAGE`; `rollback` restores it.
unfoldable pub push_service_message : ℕ → Env → Queue → (code : ℕ) → Run Queue
push_service_message fuel env q code = do
  q' ← push_rounds fuel env (record q { special = true }) code
  done (record q' { special = q.special })

unfoldable pub initialize : ℕ → Env → Queue → Run Queue
initialize fuel env q = do
  q1 ← push_service_message fuel env q code_connect
  let q2 : Queue = record q1 { m_head = Queue.tail q1; m_counter = Shared.counter q1 }
  done (Shared.inc_subscriptions_count q2).1

-- The object over the header of `base_shared_queue` behind its own.
unfoldable pub attach : World → (ptr : ℕ) → Queue
attach w ptr = record (Open.open_base_shared w (ptr + Smart.header_size)) { smart = ptr }

unfoldable pub make : World → (qid ptr cpct : ℕ) → Run Queue
make w qid ptr cpct = do
  q ← Open.create_base_shared w qid (ptr + Smart.header_size) cpct
  done (record q { smart = ptr })

unfoldable pub with_free_space : Queue → Queue
with_free_space q = Smart.set_free_space q (Queue.capacity q)

unfoldable pub open_smart : ℕ → Env → World → (ptr : ℕ) → Run Queue
open_smart fuel env w ptr = initialize fuel env (attach w ptr)

unfoldable pub create_smart : ℕ → Env → World → (qid ptr cpct : ℕ) → Run Queue
create_smart fuel env w qid ptr cpct = do
  q ← make w qid ptr cpct
  initialize fuel env (with_free_space q)

-- The loop of the constructor with a parent: the booked places are counted, up to the first message
-- that is none.
unfoldable pub pass_booked : ℕ → Queue → (booked : ℕ) → Run (Queue × ℕ)
pass_booked zero q booked = spent
pass_booked (suc fuel) q booked = if Shared.count q == 0 then done (q, booked) else do
  d ← Shared.get_message q
  p ← first_of d.chain
  check (Message.tag (mem q) p == service_tag) (do
    q' ← Shared.pop_message q d
    let rest = pass_booked fuel q' (booked + 1)
    if service_code (mem q) p == code_book then rest else done (q', booked))

-- With a parent, a queue that is opened was booked before: it reads from the first message on.
unfoldable pub open_booked : ℕ → Env → World → (ptr : ℕ) → (parent : Option Queue) → Run Queue
open_booked fuel env w ptr none = open_smart fuel env w ptr
open_booked fuel env w ptr (some parent) = do
  (q, booked) ← pass_booked fuel (record (attach w ptr) { m_counter = 0 }) 0
  check (ltb 0 booked) (done q)

unfoldable pub book : ℕ → Env → Queue → (places : ℕ) → Run Queue
book fuel env q zero = done q
book fuel env q (suc places) = do
  q' ← push_service_message fuel env q code_book
  book fuel env q' places

-- A queue that is created next to its parent has a booked place for every other subscriber.
unfoldable pub booked_for : ℕ → Env → Queue → (subscribers : ℕ) → Run Queue
booked_for fuel env q subscribers =
    let booking =
      book fuel env (Shared.set_subscriptions_count q (subscribers - 1)) (subscribers - 1) in
    if ltb 1 subscribers then booking else done q

unfoldable pub create_booked :
    ℕ → Env → World → (qid ptr cpct : ℕ) → (parent : Option Queue) → Run Queue
create_booked fuel env w qid ptr cpct none = create_smart fuel env w qid ptr cpct
create_booked fuel env w qid ptr cpct (some parent) = do
  q ← make w qid ptr cpct
  q' ← booked_for fuel env q (Shared.subscriptions_count parent)
  initialize fuel env q'

-- The service message by which this process leaves.
unfoldable pub is_farewell : Env → Mem → ℕ → Bool
is_farewell env m p =
    (Message.sid m p == env.sid)
    && (Message.tag m p == service_tag)
    && (service_code m p == code_disconnect)

-- The loop of the destructor: everything is popped up to the message that this process leaves with.
unfoldable pub leave : ℕ → Env → Queue → Run Queue
leave zero env q = spent
leave (suc fuel) env q = do
  d ← Shared.get_message q
  p ← first_of d.chain
  q' ← Shared.pop_message q d
  let rest = leave fuel env q'
  if is_farewell env (mem q) p then done q' else rest

unfoldable pub close_smart : ℕ → Env → Queue → Run Queue
close_smart fuel env q = do
  q1 ← push_service_message fuel env q code_disconnect
  leave fuel env (Shared.dec_subscriptions_count q1).1
