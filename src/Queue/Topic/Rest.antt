-- ===== src/Queue/Topic/Rest.antt =====
-- The first message of a `shared_queue` (qbus/queue.cpp) leaves the ring, when all subscribers have
-- seen it.
use qbus.Prelude.{
  ℕ, zero, suc, ◌+◌, ◌-◌, ◌%◌, ◌^◌, ◌<◌, ◌≡◌, ◌∙◌, inl, inr, refl, ap, ap₂, arith, List, ◌∷◌,
  length, sub32,
}
use qbus.Bytes.Words.{read32-Agree, Apart}
use qbus.Message.Make.{no_message}
use qbus.Queue
use qbus.Queue.{
  Queue, Garbage, no_garbage, mem, data_start, capacity, head, tail, count, keepalive_timeout,
}
use qbus.Queue.Header.{
  set_head-Apart, set_count-Apart, capacity-set_head, capacity-set_count, tail-set_head,
  tail-set_count, head-set_head, head-set_count, count-set_count, timeout-set_head,
  timeout-set_count,
}
use qbus.Queue.Layout.{Item, after, span}
use qbus.Queue.Layout.Frame.{SameSpan}
use qbus.Queue.Shared
use qbus.Queue.Shared.{no_head}
use qbus.Queue.Fifo.Moves.{HoldsAt-tail}
use qbus.Queue.Fifo.Bounds.{length-span}
use qbus.Queue.Reader.Pop.{HoldsAt-eq}
use qbus.Queue.Topic.{Local, Log, Stands, AllStand}
use qbus.Spec.Topic.Zeros.{zeros-none}
use qbus.Queue.Topic.Counted.{AreCounted-eq, AreCounted-SameSpan}
use qbus.Queue.Topic.Place.{Stands-eq}
use qbus.Spec.Topic.{zeros, preds}

-- A subscriber that has seen the first message stands for the others.
Stands-rest :
    (d c hd total : ℕ) (x : Item) (xs : List Item) (k : ℕ) (r : Local)
    → 0 < k
    → Stands d c hd total (x ∷ xs) k r
    → Stands d c (after c hd (length x.body)) total xs (k - 1) r
Stands-rest d c hd total x xs zero r h s = absurd (omega arith)
Stands-rest d c hd total x xs (suc k) r h s = Stands-eq refl refl refl refl (omega arith) (record {
  seen_le = omega (arith, s.seen_le);
  place = elim s.place [ inl p ↦ absurd (omega (arith, p.1)) | inr p ↦ inr p ];
  left = s.left ∙ (omega arith);
  own_small = s.own_small;
  pulled = s.pulled;
})

abbrev pub after_first : Queue → List Item → ℕ → Queue
after_first q xs next = Queue.set_count (Queue.set_head q next) (length xs)

-- The first message, which nobody is counted on any more, leaves the ring.
module _ (q : Queue) (n : ℕ) (x : Item) (xs : List Item) (seen : ℕ → ℕ) (readers : ℕ → Local)
    (log : Log q n (x ∷ xs) seen) (stand : AllStand q n (x ∷ xs) seen readers) (next : ℕ)
    (next_at : next % capacity q ≡ after (capacity q) (head q) (length x.body)) where
  abbrev c : ℕ
  c = capacity q

  abbrev d : ℕ
  d = data_start q

  abbrev hd' : ℕ
  hd' = after c (head q) (length x.body)

  abbrev pub q1 : Queue
  q1 = Queue.set_head q next

  abbrev q2 : Queue
  q2 = after_first q xs next

  hd_in : hd' < c
  hd_in = omega (arith, log.held.ring.head_in)

  few_items : length xs < 2 ^ 32
  few_items = omega (arith, log.held.ring.small, log.held.ring.fits, length-span c hd' xs)

  pub base_at :
      (q2.base ≡ q.base)
      × (q2.shared ≡ q.shared)
      × (q2.message_desc ≡ q.message_desc)
      × (q2.m_head ≡ q.m_head)
      × (q2.m_counter ≡ q.m_counter)
  unfolding Queue.set_head Queue.set_count
  base_at = (refl, refl, refl, refl, refl)

  mem_at : (b : ℕ) → Apart q.base 24 b → mem q2 b ≡ mem q b
  unfolding Queue.set_head
  mem_at b h = set_count-Apart q1 (length xs) b h ∙ set_head-Apart q next b h

  pub capacity_at : capacity q2 ≡ c
  capacity_at = capacity-set_count q1 (length xs) ∙ capacity-set_head q next

  pub head_at : head q2 ≡ hd'
  head_at =
      head-set_count q1 (length xs)
      ∙ head-set_head q next (omega (arith, next_at, hd_in, log.held.ring.small))
      ∙ next_at

  tail_at : tail q2 ≡ tail q
  tail_at = tail-set_count q1 (length xs) ∙ tail-set_head q next

  count_at : count q2 ≡ count q - 1
  count_at = count-set_count q1 (length xs) few_items ∙ (omega (arith, log.held.counted))

  pub total_at : Shared.counter q2 ≡ Shared.counter q
  unfolding Shared.counter Queue.set_head Queue.set_count
  total_at =
      read32-Agree (mem q) (mem q2) (q.shared + 4)
        (λ b l h. mem_at b (inl (omega (arith, log.before))))

  pub count-first : Shared.count q2 ≡ Shared.count q
  unfolding Shared.count
  count-first = ap₂ (λ a b. sub32 a b) total_at base_at.4

  subscribed_at : Shared.subscriptions_count q2 ≡ Shared.subscriptions_count q
  unfolding Shared.subscriptions_count Queue.set_head Queue.set_count
  subscribed_at =
      read32-Agree (mem q) (mem q2) (q.shared + 0)
        (λ b l h. mem_at b (inl (omega (arith, log.before))))

  rest_same : SameSpan (mem q) (mem q2) d c hd' (span c hd' xs)
  rest_same y h i = mem_at (d + y) (inr (omega arith))

  pub Log-rest : Log q2 n xs (preds seen)
  Log-rest = record {
    held = HoldsAt-eq (mem q2) (ap (λ b. b + 24) base_at.0) capacity_at head_at tail_at count_at (
        HoldsAt-tail (mem q) (mem q2) d c (head q) (tail q) (count q) no_message no_message x xs
          log.held rest_same refl);
    counted =
        AreCounted-eq (mem q2) xs n (preds seen) (ap (λ b. b + 24) base_at.0) capacity_at head_at (
          AreCounted-SameSpan (mem q) (mem q2) d c hd' xs n (preds seen) hd_in
            (omega (arith, log.held.ring.fits)) rest_same log.counted.1);
    subscribed = subscribed_at ∙ log.subscribed;
    few = log.few;
    before = omega (arith, log.before, base_at.0, base_at.1);
    counter_small = omega (arith, total_at, log.counter_small);
    no_timeout = timeout-set_count q1 (length xs) ∙ timeout-set_head q next ∙ log.no_timeout;
  }

  pub AllStand-rest : zeros n seen ≡ 0 → AllStand q2 n xs (preds seen) readers
  AllStand-rest z i h = Stands-eq (ap (λ b. b + 24) base_at.0) capacity_at head_at total_at refl (
      Stands-rest d c (head q) (Shared.counter q) x xs (seen i) (readers i)
        (zeros-none n seen i z h) (stand i h))
