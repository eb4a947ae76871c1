-- ===== src/Queue/Topic/Session.antt =====
-- Calls of the subscribers of a `shared_queue` without keep-alive (qbus/queue.cpp), in any order,
-- against the topic of `Spec.Topic`.
use qbus.Prelude.{
  ℕ, ◌+◌, ◌%◌, ◌<◌, ◌≤◌, ◌≡◌, ◌∙◌, refl, sym, ap, ap₂, subst, arith, Bool, true, false, List, [],
  ◌∷◌, ◌++◌, length, Run, done, leb, leb-true, leb-false, dec_le,
}
use qbus.Message.{Env}
use qbus.Queue
use qbus.Queue.{Queue, data_start, capacity, head, tail}
use qbus.Queue.Layout.{Item, used, span}
use qbus.Queue.Class
use qbus.Queue.Class.{Class}
use qbus.Queue.Base
use qbus.Queue.Shared
use qbus.Queue.Fifo.Session.{IsItem}
use qbus.Queue.Topic.{
  Local, System, own, object, keep, call, calls, Log, StandsIn, AllStand, Serves, Answers,
}
use qbus.Queue.Topic.Place.{Log-wear, count-wear, keep-readers}
use qbus.Queue.Topic.Get.{get-Answers}
use qbus.Queue.Topic.Pop.{pop-Answers}
use qbus.Queue.Topic.Clean.{CleansAll, clean_messages-Cleans}
use qbus.Queue.Topic.Push.{push_rest, push_rest-fit, push_rest-full}
use qbus.Spec.{Op, Reply}
use qbus.Spec.Topic.{Topic, behind, cleaned, placed, publish, answer, answers}

-- `do_push` once the ring has been cleaned to a topic, which answers `a`.
record Places (q : Queue) (n : ℕ) (a : Topic × Bool) (readers : ℕ → Local)
    (out : Run (Queue × Bool)) : Type 0 where
  queue : Queue
  placed_at : out ≡ done (queue, a.1)
  log : Log queue n a.0.items a.0.seen
  cap_at : capacity queue ≡ a.0.cap
  start_at : head queue ≡ a.0.start
  stand : AllStand queue n a.0.items a.0.seen readers
  same_own : own queue ≡ own q

module _ (env : Env) (q : Queue) (n : ℕ) (t : Topic) (readers : ℕ → Local)
    (log : Log q n t.items t.seen) (cap_at : capacity q ≡ t.cap) (start_at : head q ≡ t.start)
    (stand : AllStand q n t.items t.seen readers) (x : Item) (item : IsItem x) where
  tail_at : tail q ≡ behind t
  tail_at = log.held.ring.tail_at ∙ ap₂ (λ c h. (h + span c h t.items) % c) cap_at start_at

  abbrev need : ℕ
  need = used (capacity q) (tail q) (length x.body)

  abbrev in_use : ℕ
  in_use = span (capacity q) (head q) t.items

  same_test :
      leb (span t.cap t.start t.items + used t.cap (behind t) (length x.body)) t.cap
      ≡ leb (in_use + need) (capacity q)
  same_test = rw (cap_at, start_at, tail_at)

  placed-fit :
      in_use + need ≤ capacity q → placed t x ≡ (record t { items = t.items ++ x ∷ [] }, true)
  unfolding placed
  placed-fit fits = rw (same_test ∙ leb-true (in_use + need) (capacity q) fits)

  placed-full : capacity q < in_use + need → placed t x ≡ (t, false)
  unfolding placed
  placed-full full = rw (same_test ∙ leb-false (in_use + need) (capacity q) full)

  place : Places q n (placed t x) readers (push_rest env q x)
  place = elim (dec_le (in_use + need) (capacity q)) [
    | yes fits ↦
        let a =
          push_rest-fit env q n t.items t.seen readers log stand x item.0 item.1
            (omega (arith, log.held.ring.fits)) in
        subst (λ b. Places q n b readers (push_rest env q x)) (sym (placed-fit fits))
          (record {
            queue = a.queue;
            placed_at = a.appended_at;
            log = a.log;
            cap_at = a.cap_same ∙ cap_at;
            start_at = a.start_same ∙ start_at;
            stand = a.stand;
            same_own = a.same_own;
          })
    | no all ↦
        let a =
          push_rest-full env q n t.items t.seen readers log stand x item.0 item.1
            (omega (arith, log.held.ring.fits)) in
        subst (λ b. Places q n b readers (push_rest env q x)) (sym (placed-full (omega arith)))
          (record {
            queue = a.queue;
            placed_at = a.appended_at;
            log = a.log;
            cap_at = a.cap_same ∙ cap_at;
            start_at = a.start_same ∙ start_at;
            stand = a.stand;
            same_own = a.same_own;
          })
  ]

own-eq :
    (r r' : Local)
    → r.m_head ≡ r'.m_head
    → r.m_counter ≡ r'.m_counter
    → r.message_desc ≡ r'.message_desc
    → r ≡ r'
own-eq r r' e f g =
    ap₂ (λ a b. record { m_head = a; m_counter = b; message_desc = r.message_desc }) e f
    ∙ ap (λ d. record { m_head = r'.m_head; m_counter = r'.m_counter; message_desc = d }) g

-- Without keep-alive `push` is `do_push`.
push_lem :
    (env : Env) (q q1 : Queue) (tag : ℕ) (body : List ℕ) (b : Bool)
    → Base.do_push Class.shared env q tag body ≡ done (q1, b)
    → Queue.keepalive_timeout q1 ≡ 0
    → Base.push Class.shared env q tag body ≡ done (q1, b)
unfolding Base.push
push_lem env q q1 tag body true e h = rw e
push_lem env q q1 tag body false e h = rw (e, h)

module _ (env : Env) (s : System) (n : ℕ) (t : Topic) (serves : Serves s n t) (i : ℕ) (i_in : i < n)
    (x : Item) (item : IsItem x) where
  abbrev q : Queue
  q = object s i

  stand : AllStand q n t.items t.seen s.readers
  unfolding capacity head Shared.counter
  stand = serves.readers

  cleans :
      CleansAll q n
        (cleaned n (capacity q) (head q) t.items t.seen)
        s.readers
        (Shared.clean_messages q)
  cleans =
      let e =
        count-wear s.queue (s.readers i) t.items (t.seen i) serves.log (serves.readers i i_in) in
      clean_messages-Cleans q n t.items t.seen s.readers (Log-wear s.queue (s.readers i) serves.log)
        stand (omega (arith, e)) (serves.readers i i_in).own_small

  abbrev t' : Topic
  t' = cleaned n (capacity q) (head q) t.items t.seen

  pushes :
      Places cleans.cleans.queue n (placed t' x) s.readers (push_rest env cleans.cleans.queue x)
  pushes =
      let c = cleans.cleans in
      place env c.queue n t' s.readers c.log c.cap_at c.start_at c.stand x item

  do_push_at : Base.do_push Class.shared env q x.tag x.body ≡ done (pushes.queue, (placed t' x).1)
  unfolding Base.do_push Class.clean_messages Class.push_message
  do_push_at = rw (cleans.cleans.cleaned_at) pushes.placed_at

  own_at : own pushes.queue ≡ s.readers i
  own_at =
      pushes.same_own
      ∙ own-eq (own cleans.cleans.queue) (s.readers i) cleans.same_head cleans.same_own
          cleans.cleans.same_desc

  abbrev after_push : Topic
  after_push = (placed t' x).0

  serves_after : Serves (keep s i pushes.queue) n after_push
  serves_after = record {
    log = pushes.log;
    cap_at = pushes.cap_at;
    start_at = pushes.start_at;
    readers =
        keep-readers s i n pushes.queue
          (λ j r. StandsIn pushes.queue after_push.items (after_push.seen j) r)
          (subst (λ r. StandsIn pushes.queue after_push.items (after_push.seen i) r) (sym own_at)
            (pushes.stand i i_in))
          (λ j h ne. pushes.stand j h);
  }

  published : placed t' x ≡ publish n t x
  unfolding publish capacity head
  published = ap₂ (λ c h. placed (cleaned n c h t.items t.seen) x) serves.cap_at serves.start_at

  -- A message is published after those that all subscribers have seen have left the ring.
  pub push-Answers : Answers n (answer n t i (Op.push x)) (call env s i (Op.push x))
  unfolding call answer
  push-Answers =
      subst (λ a. Answers n (a.0, Reply.pushed a.1) (call env s i (Op.push x))) published
        (record {
          system = keep s i pushes.queue;
          answered_at = rw (
              push_lem env q pushes.queue x.tag x.body (placed t' x).1 do_push_at
                pushes.log.no_timeout);
          serves = serves_after;
        })

-- The messages that the calls push are messages, and the callers are subscribers.
abbrev pub AreCalls : ℕ → List (ℕ × Op) → Type 0
AreCalls n [] = Unit
AreCalls n ((i, Op.push x) ∷ rest) = (i < n) × IsItem x × AreCalls n rest
AreCalls n ((i, op) ∷ rest) = (i < n) × AreCalls n rest

-- No sequence of calls of the subscribers tells the queue in shared memory from the topic of the
-- specification: every call returns, and returns what the specification says.
pub calls-Answers :
    (env : Env) (s : System) (n : ℕ) (t : Topic) (rest : List (ℕ × Op))
    → Serves s n t
    → AreCalls n rest
    → (s' : System) × (calls env s rest ≡ done (s', (answers n t rest).1))
      × Serves s' n (answers n t rest).0
unfolding calls answers
calls-Answers env s n t [] serves h = (s, refl, serves)
calls-Answers env s n t ((i, Op.push x) ∷ rest) serves h =
    let a = push-Answers env s n t serves i h.0 x h.1 in
    let r = calls-Answers env a.system n _ rest a.serves h.2 in (r.0, rw (a.answered_at, r.1), r.2)
calls-Answers env s n t ((i, Op.get) ∷ rest) serves h =
    let a = get-Answers env s n t serves i h.0 in
    let r = calls-Answers env a.system n _ rest a.serves h.1 in (r.0, rw (a.answered_at, r.1), r.2)
calls-Answers env s n t ((i, Op.pop) ∷ rest) serves h =
    let a = pop-Answers env s n t serves i h.0 in
    let r = calls-Answers env a.system n _ rest a.serves h.1 in (r.0, rw (a.answered_at, r.1), r.2)
