-- ===== src/Queue/Fifo/Session.antt =====
-- A client's calls on a `simple_queue` without keep-alive (qbus/queue.cpp), against the queue of
-- `Spec`.
use qbus.Prelude.{
  ℕ, ◌+◌, ◌%◌, ◌^◌, ◌≤◌, ◌<◌, ◌≡◌, ◌∙◌, refl, sym, ap, ap₂, arith, Bool, true, false, List, [], ◌∷◌,
  length, Option, none, some, Run, done, ◌>>=◌, leb, leb-true, leb-false, dec_le,
}
use qbus.Message
use qbus.Message.{Env, Pmessage}
use qbus.Message.Chain.{unpack}
use qbus.Queue.{Queue, mem, capacity, head, tail, keepalive_timeout}
use qbus.Queue.Layout.{Item, used, used-ge, used-le, span}
use qbus.Queue.Class.{Class}
use qbus.Queue.Base
use qbus.Queue.Fifo.{Holds}
use qbus.Queue.Fifo.Push.{do_push-fit, do_push-full}
use qbus.Queue.Fifo.Get.{Carries, get-Gets}
use qbus.Queue.Fifo.Pop.{Pops, pop-Pops, next_head}
use qbus.Queue.Header.{capacity-desc, head-desc, timeout-desc}
use qbus.Spec
use qbus.Spec.{Fifo, Op, Reply, behind, put, oldest, drop_first}

-- What a client reads of the message that `get` returned.
unfoldable pub read_item : Queue → Pmessage → Option Item
read_item q [] = none
read_item q (p ∷ rest) =
    some (record { tag = Message.tag (mem q) p; body = unpack (mem q) (p ∷ rest) })

-- A client's calls in order.
unfoldable pub run : Env → Queue → List Op → Run (List Reply)
run env q [] = done []
run env q (Op.push x ∷ ops) = do
  (q', b) ← Base.push Class.simple env q x.tag x.body
  replies ← run env q' ops
  done (Reply.pushed b ∷ replies)
run env q (Op.get ∷ ops) = do
  (q', chain) ← Base.get Class.simple env q
  replies ← run env q' ops
  done (Reply.got (read_item q chain) ∷ replies)
run env q (Op.pop ∷ ops) = do
  (q', b) ← Base.pop Class.simple env q
  replies ← run env q' ops
  done (Reply.popped b ∷ replies)

-- The queue object stands for the queue of the specification, and keeps no message alive.
pub record Refines (q : Queue) (s : Fifo) : Type 0 where
  pub holds : Holds q s.items
  pub cap_at : capacity q ≡ s.cap
  pub start_at : head q ≡ s.start
  pub no_timeout : keepalive_timeout q ≡ 0

-- A message has data, and its tag is a `uint32_t`.
abbrev pub IsItem : Item → Type 0
IsItem x = (0 < length x.body) × (x.tag < 2 ^ 32)

-- What `push` leaves and returns, against `put`.
pub record Puts (q : Queue) (s : Fifo) (x : Item) (out : Run (Queue × Bool)) : Type 0 where
  pub queue : Queue
  pub put_at : out ≡ done (queue, (put s x).1)
  pub refines : Refines queue (put s x).0

module _ (env : Env) (q : Queue) (s : Fifo) (x : Item) (r : Refines q s) (item : IsItem x) where
  tail_at : tail q ≡ behind s
  tail_at = r.holds.ring.tail_at ∙ ap₂ (λ c h. (h + span c h s.items) % c) r.cap_at r.start_at

  abbrev need : ℕ
  need = used (capacity q) (tail q) (length x.body)

  abbrev in_use : ℕ
  in_use = span (capacity q) (head q) s.items

  same_test :
      leb (span s.cap s.start s.items + used s.cap (behind s) (length x.body)) s.cap
      ≡ leb (in_use + need) (capacity q)
  same_test = rw (r.cap_at, r.start_at, tail_at)

  push-fit : in_use + need ≤ capacity q → Puts q s x (Base.push Class.simple env q x.tag x.body)
  unfolding Base.push put
  push-fit fits =
      let a =
        do_push-fit env q s.items x r.holds item.0 item.1 (omega (arith, r.holds.ring.fits)) in
      let e = same_test ∙ leb-true (in_use + need) (capacity q) fits in
      record {
        queue = a.queue;
        put_at = rw (a.pushed_at, e);
        refines = rw e (record {
          holds = a.holds_more;
          cap_at = a.capacity_same ∙ r.cap_at;
          start_at = a.head_same ∙ r.start_at;
          no_timeout = a.timeout_same ∙ r.no_timeout;
        });
      }

  push-full : capacity q < in_use + need → Puts q s x (Base.push Class.simple env q x.tag x.body)
  unfolding Base.push put
  push-full full =
      let a =
        do_push-full env q s.items x r.holds item.0 item.1 (omega (arith, r.holds.ring.fits)) in
      let e = same_test ∙ leb-false (in_use + need) (capacity q) full in
      let t = a.header_same.timeout_same ∙ r.no_timeout in
      record {
        queue = a.queue;
        put_at = rw (a.rejected_at, e, t);
        refines = rw e (record {
          holds = a.holds_same;
          cap_at = a.header_same.capacity_same ∙ r.cap_at;
          start_at = a.header_same.head_same ∙ r.start_at;
          no_timeout = t;
        });
      }

  -- `push` takes a message exactly if the specification does, and puts it behind the others.
  pub push-Puts : Puts q s x (Base.push Class.simple env q x.tag x.body)
  push-Puts = elim (dec_le (in_use + need) (capacity q)) [
    | yes fits ↦ push-fit fits
    | no full ↦ push-full (omega arith)
  ]

-- What the client reads is the oldest message.
pub read_item-Carries :
    (q : Queue) (chain : Pmessage) (xs : List Item)
    → Carries q chain xs
    → read_item q chain ≡ oldest xs
unfolding read_item
read_item-Carries q chain [] e = rw e
read_item-Carries q chain (x ∷ xs) c =
    rw c.3
      (ap₂ (λ t b. some (record { tag = t; body = b })) c.4 (ap (unpack (mem q)) (sym c.3) ∙ c.0))

-- `get` leaves a queue that stands for the same list.
pub get-Refines :
    (env : Env) (q : Queue) (s : Fifo) (r : Refines q s)
    → Refines (record q { message_desc = (get-Gets env q s.items r.holds).desc }) s
get-Refines env q s r = record {
  holds = (get-Gets env q s.items r.holds).holds_still;
  cap_at = capacity-desc q _ ∙ r.cap_at;
  start_at = head-desc q _ ∙ r.start_at;
  no_timeout = timeout-desc q _ ∙ r.no_timeout;
}

-- `pop` does to the queue what `drop_first` does to the list.
pub drops :
    (q : Queue) (s : Fifo) (xs : List Item) (out : Run (Queue × Bool))
    → s.items ≡ xs
    → Refines q s
    → Pops q xs out
    → (queue : Queue) × (out ≡ done (queue, (drop_first s xs).1))
      × Refines queue (drop_first s xs).0
unfolding drop_first
drops q s [] out e r p = (
  p.queue,
  p.popped_at,
  record {
    holds = rw e p.holds_rest;
    cap_at = p.capacity_same ∙ r.cap_at;
    start_at = p.head_at ∙ r.start_at;
    no_timeout = p.timeout_same ∙ r.no_timeout;
  },
)
drops q s (x ∷ xs) out e r p = (
  p.queue,
  p.popped_at,
  record {
    holds = p.holds_rest;
    cap_at = p.capacity_same ∙ r.cap_at;
    start_at = p.head_at ∙ ap₂ (λ c h. next_head c h (x ∷ xs)) r.cap_at r.start_at;
    no_timeout = p.timeout_same ∙ r.no_timeout;
  },
)

abbrev pub AreItems : List Op → Type 0
AreItems [] = Unit
AreItems (Op.push x ∷ ops) = IsItem x × AreItems ops
AreItems (op ∷ ops) = AreItems ops

-- No sequence of calls tells the queue in shared memory from the list of the specification: every
-- call returns, and returns what the specification says.
pub run-Refines :
    (env : Env) (q : Queue) (s : Fifo) (ops : List Op)
    → Refines q s
    → AreItems ops
    → run env q ops ≡ done (Spec.run s ops)
unfolding run Spec.run
run-Refines env q s [] r items = refl
run-Refines env q s (Op.push x ∷ ops) r items =
    let p = push-Puts env q s x r items.0 in
    rw (p.put_at, run-Refines env p.queue (put s x).0 ops p.refines items.1)
run-Refines env q s (Op.get ∷ ops) r items =
    let g = get-Gets env q s.items r.holds in
    rw (
      g.got_at,
      run-Refines env _ s ops (get-Refines env q s r) items,
      read_item-Carries q g.chain s.items g.carries,
    )
run-Refines env q s (Op.pop ∷ ops) r items =
    let p = drops q s s.items _ refl r (pop-Pops env q s.items r.holds) in
    rw (p.1, run-Refines env p.0 (drop_first s s.items).0 ops p.2 items)

-- A push succeeds if 48 bytes are free beside those of its data, wherever the tail stands.
pub push_room :
    (env : Env) (q : Queue) (s : Fifo) (x : Item)
    → Refines q s
    → IsItem x
    → span s.cap s.start s.items + (length x.body + 48) ≤ s.cap
    → (q' : Queue) × (Base.push Class.simple env q x.tag x.body ≡ done (q', true))
unfolding put
push_room env q s x r item h =
    let p = push-Puts env q s x r item in
    let u = used s.cap (behind s) (length x.body) in
    let e =
      leb-true (span s.cap s.start s.items + u) s.cap
        (omega (arith, used-le s.cap (behind s) (length x.body))) in
    (p.queue, rw e at p.put_at)

-- A push fails if fewer bytes are free than its data and one header take: it returns false, and the
-- queue still stands for the same messages.
pub push_without_room :
    (env : Env) (q : Queue) (s : Fifo) (x : Item)
    → Refines q s
    → IsItem x
    → s.cap < span s.cap s.start s.items + (length x.body + 24)
    → (q' : Queue) × (Base.push Class.simple env q x.tag x.body ≡ done (q', false)) × Refines q' s
unfolding put
push_without_room env q s x r item h =
    let p = push-Puts env q s x r item in
    let u = used s.cap (behind s) (length x.body) in
    let e =
      leb-false (span s.cap s.start s.items + u) s.cap
        (omega (arith, used-ge s.cap (behind s) (length x.body))) in
    (p.queue, rw e at p.put_at, rw e at p.refines)
