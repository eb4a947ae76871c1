-- ===== src/Queue/Base.antt =====
-- The public operations of `base_queue`, qbus/queue.cpp: `push` with its keep-alive loop, `get`,
-- `pop` and `clean`, over the virtual functions of the class.
use qbus.Prelude.{
  ℕ, zero, suc, ◌+◌, Bool, true, false, List, [], ◌∷◌, Run, done, spent, ◌>>=◌, if◌then◌else◌, ltb,
  ◌==◌, sub64,
}
use qbus.Message
use qbus.Message.{Env, Pmessage}
use qbus.Message.Make.{Desc, is_null}
use qbus.Queue
use qbus.Queue.{Queue, mem, with_mem}
use qbus.Queue.Class
use qbus.Queue.Class.{Class}

unfoldable pub empty : Class → Queue → Bool
empty c q = Class.count c q == 0

unfoldable pub clean : Class → Queue → Run (Queue × ℕ)
clean c q = do (q', info) ← Class.clean_messages c q; done (q', info.number)

-- The end of `do_push`: a message that was made is tagged, and the tail and the count move on.
unfoldable pub commit : ℕ → Queue × Desc → Queue × Bool
commit tag (q, d) = elim d.chain [
  | [] ↦ (q, false)
  | p ∷ rest ↦
      let q' = Queue.set_tail (with_mem q (Message.set_tag (mem q) p tag)) d.next in
      (Queue.set_count q' (Queue.count q' + 1), true)
]

unfoldable pub do_push : Class → Env → Queue → ℕ → List ℕ → Run (Queue × Bool)
do_push c env q tag source = do
  (q', info) ← Class.clean_messages c q
  made ← Class.push_message c env q' source
  done (commit tag made)

-- `!message_desc.first || message_desc.first->timestamp() > limit`
unfoldable pub is_alive : Queue → Pmessage → ℕ → Bool
is_alive q [] limit = true
is_alive q (p ∷ rest) limit = ltb limit (Message.timestamp (mem q) p)

-- The keep-alive loop: messages older than `limit` are removed until the push succeeds.
unfoldable pub push_loop : ℕ → Class → Env → Queue → ℕ → List ℕ → ℕ → Run (Queue × Bool)
unfolding empty is_alive
push_loop zero c env q tag source limit = spent
push_loop (suc fuel) c env q tag source limit =
    let loop = push_loop fuel c env in
    if empty c q then done (q, false) else do
      (q1, d) ← Class.get_message c env q
      if is_alive q1 d.chain limit then done (q1, false) else do
        q2 ← Class.pop_message c q1 d
        (q3, pushed) ← do_push c env q2 tag source
        elim pushed [ true ↦ done (q3, true) | false ↦ loop q3 tag source limit ]

-- Each round of the loop removes a message, so the count bounds the rounds.
unfoldable pub push : Class → Env → Queue → ℕ → List ℕ → Run (Queue × Bool)
push c env q tag source = do
  (q1, pushed) ← do_push c env q tag source
  let timeout = Queue.keepalive_timeout q1
  let (now, w) = Message.get_timestamp env q1.world
  elim pushed [
    | true ↦ done (q1, true)
    | false ↦
        if timeout == 0
        then done (q1, false)
        else push_loop (Class.count c q1 + 1) c env (record q1 { world = w }) tag source
            (sub64 now timeout)
  ]

-- `get` keeps the description of the message for `pop`.
unfoldable pub get : Class → Env → Queue → Run (Queue × Pmessage)
get c env q =
    if Class.count c q == 0
    then done (q, [])
    else do (q', d) ← Class.get_message c env q; done (record q' { message_desc = d }, d.chain)

-- `m_message_desc`, filled by `get_message` if it is null.
unfoldable pub pulled : Class → Env → Queue → Run (Queue × Desc)
pulled c env q =
    if is_null q.message_desc.chain then Class.get_message c env q else done (q, q.message_desc)

unfoldable pub pop : Class → Env → Queue → Run (Queue × Bool)
pop c env q = if Class.count c q == 0 then done (q, false) else do
  (q1, d) ← pulled c env q
  q2 ← Class.pop_message c q1 d
  done (record q2 { message_desc = record d { chain = [] } }, true)
