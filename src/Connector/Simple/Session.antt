-- ===== src/Connector/Simple/Session.antt =====
-- A client's calls on a connector over a `simple_queue` (qbus/connector.h, qbus/connector.cpp,
-- qbus/queue.cpp), against the queue of `Spec`, for connectors of every direction.
use qbus.Prelude.{
  ℕ, ◌≡◌, refl, true, false, if◌then◌else◌, List, [], ◌∷◌, Option, none, some, Run, done, spent,
  fault,
}
use qbus.Timespec.{Timespec}
use qbus.Message.{Env, Pmessage}
use qbus.Queue.{Queue}
use qbus.Queue.Layout.{Item}
use qbus.Queue.Fifo.Session.{
  Refines, AreItems, IsItem, read_item, push-Puts, drops, get-Refines, read_item-Carries,
}
use qbus.Queue.Fifo.Get.{get-Gets}
use qbus.Queue.Fifo.Pop.{pop-Pops}
use qbus.Spec.{Fifo, Op, Reply, put, drop_first, oldest}
use qbus.Connector
use qbus.Connector.{Connector, Direction, con_in, con_out, con_bidir, Virtuals, is_input, is_output}
use qbus.Connector.Simple.{
  Cell, closed, queued, simple_queue, Mapping, simple_connector, directed, do_push, do_get, do_pop,
  on_queue, message_at,
}

-- What a client reads of the message that `get` returned.
unfoldable pub read_message : Run Cell → Option Pmessage → Option Item
read_message (done (queued q)) (some chain) = read_item q chain
read_message (done (queued q)) none = none
read_message (done (closed w)) m = none
read_message spent m = none
read_message fault m = none

module _ {P : Type 0} (v : Virtuals (Run Cell) P Pmessage) (clock : ℕ → Timespec) where
  unfoldable pub answer : Connector (Run Cell) → Op → Connector (Run Cell) × Reply
  answer s (Op.push x) = let (s', b) = Connector.push v clock s x.tag x.body in (s', Reply.pushed b)
  answer s Op.get =
      let (s', m) = Connector.get v clock s in (s', Reply.got (read_message s'.state m))
  answer s Op.pop = let (s', b) = Connector.pop v clock s in (s', Reply.popped b)

  unfoldable pub answers : Connector (Run Cell) → List Op → Connector (Run Cell) × List Reply
  answers s [] = (s, [])
  answers s (op ∷ ops) = let (s1, r) = answer s op in let (s2, rs) = answers s1 ops in (s2, r ∷ rs)

-- What the client is to see: the list of `Spec`, behind the calls that the direction allows.
unfoldable pub expected : Direction → Fifo → Op → Fifo × Reply
expected d s (Op.push x) =
    if is_output d then ((put s x).0, Reply.pushed (put s x).1) else (s, Reply.pushed false)
expected d s Op.get = (s, Reply.got (if is_input d then oldest s.items else none))
expected d s Op.pop =
    if is_input d
    then ((drop_first s s.items).0, Reply.popped (drop_first s s.items).1)
    else (s, Reply.popped false)

unfoldable pub all_expected : Direction → Fifo → List Op → Fifo × List Reply
all_expected d s [] = (s, [])
all_expected d s (op ∷ ops) =
    let (s1, r) = expected d s op in let (s2, rs) = all_expected d s1 ops in (s2, r ∷ rs)

-- An open connector over a queue.
abbrev pub over : Queue → Direction → ℕ → Connector (Run Cell)
over q d ticks = record { state = done (queued q); direction = d; opened = true; ticks = ticks }

-- One call, and the queue that it leaves.
abbrev pub Answers : Direction → ℕ → Fifo × Reply → Connector (Run Cell) × Reply → Type 0
Answers d ticks e out = (q' : Queue) × (out ≡ (over q' d ticks, e.1)) × Refines q' e.0

read_message-at :
    (q : Queue) (chain : Pmessage)
    → read_message (done (queued q)) (message_at chain) ≡ read_item q chain
unfolding read_message read_item
read_message-at q [] = refl
read_message-at q (p ∷ rest) = refl

-- The connectors of simple queues, by their direction; `P` is a pointer to a parent.
abbrev pub virtuals : {P : Type 0} → Mapping → Env → Direction → Virtuals (Run Cell) P Pmessage
virtuals mapping env d = directed d (simple_connector simple_queue mapping env)

module _ (P : Type 0) (mapping : Mapping) (env : Env) (clock : ℕ → Timespec) (q : Queue) (s : Fifo)
    (ticks : ℕ) (r : Refines q s) where
  abbrev answered : Direction → Op → Connector (Run Cell) × Reply
  answered d op = answer (virtuals {P = P} mapping env d) clock (over q d ticks) op

  push-Answers :
      (d : Direction) (x : Item)
      → IsItem x
      → Answers d ticks (expected d s (Op.push x)) (answered d (Op.push x))
  unfolding answer expected Connector.push do_push on_queue
  push-Answers con_in x item = (q, refl, r)
  push-Answers con_out x item =
      let p = push-Puts env q s x r item in (p.queue, rw p.put_at, p.refines)
  push-Answers con_bidir x item =
      let p = push-Puts env q s x r item in (p.queue, rw p.put_at, p.refines)

  get-Answers : (d : Direction) → Answers d ticks (expected d s Op.get) (answered d Op.get)
  unfolding answer expected Connector.get do_get on_queue read_item read_message
  get-Answers con_in =
      let g = get-Gets env q s.items r.holds in
      let q' : Queue = record q { message_desc = g.desc } in
      (
        q',
        rw (g.got_at, read_message-at q' g.chain, read_item-Carries q g.chain s.items g.carries),
        get-Refines env q s r,
      )
  get-Answers con_out = (q, refl, r)
  get-Answers con_bidir =
      let g = get-Gets env q s.items r.holds in
      let q' : Queue = record q { message_desc = g.desc } in
      (
        q',
        rw (g.got_at, read_message-at q' g.chain, read_item-Carries q g.chain s.items g.carries),
        get-Refines env q s r,
      )

  pop-Answers : (d : Direction) → Answers d ticks (expected d s Op.pop) (answered d Op.pop)
  unfolding answer expected Connector.pop do_pop on_queue
  pop-Answers con_in =
      let p = drops q s s.items _ refl r (pop-Pops env q s.items r.holds) in (p.0, rw p.1, p.2)
  pop-Answers con_out = (q, refl, r)
  pop-Answers con_bidir =
      let p = drops q s s.items _ refl r (pop-Pops env q s.items r.holds) in (p.0, rw p.1, p.2)

  answer-Answers :
      (d : Direction) (op : Op) (ops : List Op)
      → AreItems (op ∷ ops)
      → Answers d ticks (expected d s op) (answered d op) × AreItems ops
  answer-Answers d (Op.push x) ops items = (push-Answers d x items.0, items.1)
  answer-Answers d Op.get ops items = (get-Answers d, items)
  answer-Answers d Op.pop ops items = (pop-Answers d, items)

-- A client of an open connector over a simple queue sees the list of the specification behind the
-- calls that the direction of the connector allows, and false or nothing for the others. Every call
-- returns, and the queue still stands for the list at the end.
pub session-Answers :
    (P : Type 0) (mapping : Mapping) (env : Env) (clock : ℕ → Timespec) (d : Direction)
    (ops : List Op) (q : Queue) (s : Fifo) (ticks : ℕ)
    → Refines q s
    → AreItems ops
    → (q' : Queue) × (answers (virtuals {P = P} mapping env d) clock (over q d ticks) ops
        ≡ (over q' d ticks, (all_expected d s ops).1))
      × Refines q' (all_expected d s ops).0
unfolding answers all_expected
session-Answers P mapping env clock d [] q s ticks r items = (q, refl, r)
session-Answers P mapping env clock d (op ∷ ops) q s ticks r items =
    let a = answer-Answers P mapping env clock q s ticks r d op ops items in
    let rest =
      session-Answers P mapping env clock d ops a.0.0 (expected d s op).0 ticks a.0.2 a.1 in
    (rest.0, rw (a.0.1, rest.1), rest.2)
