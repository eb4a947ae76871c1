-- ===== src/Queue/Topic/Start.antt =====
-- A `shared_queue` that is created, and opened by more subscribers before the first message
-- (the constructors of qbus/queue.cpp), from where on the subscribers call it.
use qbus.Prelude.{
  ℕ, zero, suc, ◌+◌, ◌^◌, ◌<◌, ◌≡◌, ◌∙◌, inr, refl, sym, ap, arith, List, [], ◌∷◌, subst, done,
  ◌>>=◌,
}
use qbus.Bytes.{read32}
use qbus.Bytes.Words.{Apart, read32-Agree, read32-write32_self, write32-Apart}
use qbus.Message.{Env, World}
use qbus.Message.Make.{no_message}
use qbus.Queue.{Queue, mem, data_start, capacity, head, tail, count}
use qbus.Queue.Header.{SameHeader, SameHeader-Agree}
use qbus.Queue.Shared
use qbus.Queue.Shared.{no_head}
use qbus.Queue.Open
use qbus.Queue.Fifo.Moves.{HoldsAt-same}
use qbus.Queue.Reader.Pop.{HoldsAt-eq}
use qbus.Queue.Topic.{System, own, calls, Log, Stands, Serves}
use qbus.Queue.Topic.Place.{keep-readers, Stands-eq}
use qbus.Queue.Topic.Session.{AreCalls, calls-Answers}
use qbus.Spec.{Op, Reply}
use qbus.Spec.Topic
use qbus.Spec.Topic.{Topic, empty}
use qbus.Spec.Feed.{IsFeed, AreCallers, answers-IsFeed_empty}
use qbus.Queue.Topic.Created.{join, subscribed, Starts, Stands-first, q2, created_at, created}

-- One more subscriber.
module _ (ptr n cpct : ℕ) (s : System) (few : n + 1 < 2 ^ 32) (starts : Starts ptr n cpct s) where
  abbrev q : Queue
  q = s.queue

  abbrev o : Queue
  o = Open.open_shared q.world ptr

  log : Log q n [] (λ i. 0)
  log = starts.serves.log

  fields_open : (o.base ≡ ptr + 8) × (o.shared ≡ ptr)
  unfolding Open.open_shared Open.open_base_shared Shared.inc_subscriptions_count
      Shared.set_subscriptions_count
  fields_open = (refl, refl)

  open_other : (b : ℕ) → Apart ptr 4 b → mem o b ≡ mem q b
  unfolding Open.open_shared Open.open_base_shared Shared.inc_subscriptions_count
      Shared.set_subscriptions_count
  open_other b h = write32-Apart (mem q) (ptr + 0) _ b (ground arith)

  header_open : SameHeader q o
  header_open =
      SameHeader-Agree q o (fields_open.0 ∙ sym starts.base_at)
        (λ b l h. open_other b (inr (omega (arith, l, starts.base_at))))

  total_open : Shared.counter o ≡ Shared.counter q
  unfolding Shared.counter
  total_open =
      ap (λ a. read32 (mem o) (a + 4)) (fields_open.1 ∙ sym starts.shared_at)
      ∙ read32-Agree (mem q) (mem o) (q.shared + 4)
          (λ b l h. open_other b (inr (omega (arith, l, starts.shared_at))))

  own_open :
      (m_counter : ℕ) × (m_counter ≡ Shared.counter q)
      × (own o ≡ record { m_head = no_head; m_counter = m_counter; message_desc = no_message })
  unfolding Open.open_shared Open.open_base_shared Shared.inc_subscriptions_count
      Shared.set_subscriptions_count Shared.counter
  own_open =
      (read32 (mem q) (ptr + 4), ap (λ a. read32 (mem q) (a + 4)) (sym starts.shared_at), refl)

  subscribed_open : Shared.subscriptions_count o ≡ n + 1
  unfolding Open.open_shared Open.open_base_shared Shared.inc_subscriptions_count
      Shared.set_subscriptions_count Shared.subscriptions_count
  subscribed_open =
      let e : read32 (mem q) (ptr + 0) ≡ n =
        ap (λ a. read32 (mem q) (a + 0)) (sym starts.shared_at) ∙ log.subscribed in
      read32-write32_self (mem q) (ptr + 0) _ (omega arith) ∙ (omega (arith, e))

  joined : Starts ptr (n + 1) cpct (join ptr n s)
  unfolding join
  joined =
      let h = header_open in
      let ed = ap (λ b. b + 24) h.base in
      let at_start = starts.serves.start_at in
      record {
        serves = record {
          log = record {
            held = HoldsAt-eq (mem o) ed h.capacity_same h.head_same h.tail_same h.count_same (
                HoldsAt-same (mem q) (mem o) (data_start q) (capacity q) (head q) (tail q) (count q)
                  no_message [] log.held
                  (λ y l i. open_other _ (inr (omega (arith, starts.base_at)))));
            counted = tt;
            subscribed = subscribed_open;
            few = few;
            before = omega (arith, fields_open.0, fields_open.1);
            counter_small = omega (arith, total_open, log.counter_small);
            no_timeout = h.timeout_same ∙ log.no_timeout;
          };
          cap_at = h.capacity_same ∙ starts.serves.cap_at;
          start_at = h.head_same ∙ at_start;
          readers =
              keep-readers s n (n + 1) o
                (λ j r. Stands (data_start o) (capacity o) (head o) (Shared.counter o) [] 0 r)
                (subst (λ r. Stands (data_start o) (capacity o) (head o) (Shared.counter o) [] 0 r)
                  (sym own_open.2)
                  (Stands-eq ed h.capacity_same (h.head_same ∙ at_start) total_open refl (
                    Stands-first (data_start q) (capacity q) (Shared.counter q) own_open.0
                      own_open.1 log.counter_small)))
                (λ j l ne.
                  Stands-eq ed h.capacity_same h.head_same total_open refl
                    (starts.serves.readers j (omega arith)));
        };
        base_at = fields_open.0;
        shared_at = fields_open.1;
      }

-- The created queue with its subscribers stands for a topic that nothing has been published to.
subscribed-Starts :
    (n : ℕ) (w : World) (qid ptr cpct : ℕ)
    → 0 < cpct
    → cpct < 2 ^ 32
    → n + 1 < 2 ^ 32
    → (s : System) × (subscribed n w qid ptr cpct ≡ done s) × Starts ptr (n + 1) cpct s
unfolding subscribed
subscribed-Starts zero w qid ptr cpct positive small few = (
  record {
    queue = q2 w qid ptr cpct positive small;
    readers = λ i. own (q2 w qid ptr cpct positive small);
  },
  rw (created_at w qid ptr cpct positive small),
  created w qid ptr cpct positive small,
)
subscribed-Starts (suc n) w qid ptr cpct positive small few =
    let r = subscribed-Starts n w qid ptr cpct positive small (omega arith) in
    let e : suc n ≡ n + 1 = omega arith in
    (
      join ptr (suc n) r.0,
      rw r.1,
      subst (λ k. Starts ptr (k + 1) cpct (join ptr k r.0)) (sym e)
          (joined ptr (n + 1) cpct r.0 (omega arith) r.2),
    )

-- From its creation on, over any memory, a shared queue of at least one byte and less than 2^32
-- that n more subscribers (fewer than 2^32 - 1) open before the first message answers every
-- sequence of calls of its subscribers (pushes of messages with data and a 32-bit tag, gets and
-- pops, in any order) as the topic of the specification does, and each call returns: a push is
-- accepted exactly if its message fits into the ring beside the messages that some subscriber has
-- not popped, from the first such one on.
pub subscribed-calls :
    (env : Env) (n : ℕ) (w : World) (qid ptr cpct : ℕ) (ops : List (ℕ × Op))
    → 0 < cpct
    → cpct < 2 ^ 32
    → n + 1 < 2 ^ 32
    → AreCalls (n + 1) ops
    → (s : System) × ((subscribed n w qid ptr cpct >>= λ s0. calls env s0 ops)
        ≡ done (s, (Topic.answers (n + 1) (empty cpct) ops).1))
      × Serves s (n + 1) (Topic.answers (n + 1) (empty cpct) ops).0
subscribed-calls env n w qid ptr cpct ops positive small few h =
    let r = subscribed-Starts n w qid ptr cpct positive small few in
    let c = calls-Answers env r.0 (n + 1) (empty cpct) ops r.2.serves h in (c.0, rw r.1 c.1, c.2)

AreCalls-AreCallers : (n : ℕ) (ops : List (ℕ × Op)) → AreCalls n ops → AreCallers n ops
AreCalls-AreCallers n [] h = tt
AreCalls-AreCallers n ((i, Op.push x) ∷ ops) h = (h.0, AreCalls-AreCallers n ops h.2)
AreCalls-AreCallers n ((i, Op.get) ∷ ops) h = (h.0, AreCalls-AreCallers n ops h.1)
AreCalls-AreCallers n ((i, Op.pop) ∷ ops) h = (h.0, AreCalls-AreCallers n ops h.1)

-- From its creation on, over any memory, in every sequence of calls of the subscribers of a shared
-- queue of `cpct` bytes (between 1 and 2^32 - 1) that `n` more (fewer than 2^32 - 1) open before the
-- first message, each call returns, and each subscriber is shown all accepted messages (which have
-- data and a 32-bit tag), once, in the order in which they were accepted, whole and with their tags:
-- `get` shows the first one that it has not popped, and `pop` goes on to the next one and fails
-- exactly if it has popped them all.
pub subscribed-IsFeed :
    (env : Env) (n : ℕ) (w : World) (qid ptr cpct : ℕ) (ops : List (ℕ × Op))
    → 0 < cpct
    → cpct < 2 ^ 32
    → n + 1 < 2 ^ 32
    → AreCalls (n + 1) ops
    → (s : System) × (replies : List Reply) × ((subscribed n w qid ptr cpct >>= λ s0.
          calls env s0 ops)
        ≡ done (s, replies))
      × IsFeed [] (λ i. 0) ops replies
subscribed-IsFeed env n w qid ptr cpct ops positive small few h =
    let r = subscribed-calls env n w qid ptr cpct ops positive small few h in
    (
      r.0,
      (Topic.answers (n + 1) (empty cpct) ops).1,
      r.1,
      answers-IsFeed_empty (n + 1) cpct ops (AreCalls-AreCallers (n + 1) ops h),
    )
