-- ===== src/Queue/Topic/Told.antt =====
-- The counters that `push_message` of a `shared_queue` (qbus/queue.cpp) sets.
use qbus.Prelude.{ℕ, ◌+◌, ◌^◌, ◌<◌, ◌≤◌, ◌≡◌, ◌∙◌, inl, inr, refl, ap, arith, ◌∷◌, u32}
use qbus.Bytes.{Mem}
use qbus.Bytes.Words.{Apart, read32-Agree, read32-write32_self, write32-Apart}
use qbus.Message
use qbus.Message.{Env, World, Pmessage}
use qbus.Message.Fields.{set_counter-Apart, counter-set_counter, counter-Agree}
use qbus.Queue.{Queue, mem, with_mem}
use qbus.Queue.Shared

-- The made message counts `n` subscribers, and then the queue counts one more message.
module _ (q : Queue) (w : World) (p : ℕ) where
  abbrev made_queue : Queue
  made_queue = record q { world = w }

  abbrev pub told : Queue
  told = with_mem made_queue (Message.set_counter w.mem p (Shared.subscriptions_count made_queue))

  abbrev pub counted_queue : Queue
  counted_queue = Shared.set_counter told (u32 (Shared.counter told + 1))

  pub count_message_lem :
      (rest : Pmessage)
      → Shared.count_message made_queue (p ∷ rest) ≡ record q { world = counted_queue.world }
  unfolding Shared.count_message Shared.set_counter
  count_message_lem rest = refl

  module _ (n : ℕ) (above : q.base + 24 ≤ p) (before : q.shared + 8 ≤ q.base)
      (kept : (b : ℕ) → b < q.base + 24 → w.mem b ≡ mem q b)
      (subscribed : Shared.subscriptions_count q ≡ n) where
    abbrev m1 : Mem
    m1 = mem counted_queue

    subscribed_made : Shared.subscriptions_count made_queue ≡ n
    unfolding Shared.subscriptions_count
    subscribed_made =
        read32-Agree (mem q) w.mem (q.shared + 0) (λ b l h. kept b (omega arith)) ∙ subscribed

    total_told : Shared.counter told ≡ Shared.counter q
    unfolding Shared.counter
    total_told =
        read32-Agree (mem q) (mem told) (q.shared + 4)
          (λ b l h. set_counter-Apart w.mem p _ b (inl (omega arith)) ∙ kept b (omega arith))

    -- All but the two counters is as it was made.
    pub others_same : (b : ℕ) → Apart (p + 16) 4 b → Apart (q.shared + 4) 4 b → m1 b ≡ w.mem b
    unfolding Shared.set_counter
    others_same b h k =
        write32-Apart (mem told) (q.shared + 4) _ b k ∙ set_counter-Apart w.mem p _ b h

    pub header_same : (b : ℕ) → q.base ≤ b → b < q.base + 24 → m1 b ≡ mem q b
    header_same b l h = others_same b (inl (omega arith)) (inr (omega arith)) ∙ kept b (omega arith)

    pub total_counted :
        Shared.counter (record q { world = counted_queue.world }) ≡ u32 (Shared.counter q + 1)
    unfolding Shared.counter Shared.set_counter
    total_counted =
        read32-write32_self (mem told) (q.shared + 4) (u32 (Shared.counter told + 1)) (omega arith)
        ∙ ap (λ a. u32 (a + 1)) total_told

    pub subscribed_counted :
        Shared.subscriptions_count (record q { world = counted_queue.world }) ≡ n
    unfolding Shared.subscriptions_count
    subscribed_counted =
        read32-Agree w.mem m1 (q.shared + 0)
          (λ b l h. others_same b (inl (omega arith)) (inl (omega arith)))
        ∙ subscribed_made

    pub counter_counted : n < 2 ^ 32 → Message.counter m1 p ≡ n
    unfolding Shared.set_counter
    counter_counted h =
        counter-Agree (mem told) m1 p
          (λ b l k. write32-Apart (mem told) (q.shared + 4) _ b (inr (omega arith)))
        ∙ counter-set_counter w.mem p _ (omega (arith, subscribed_made))
        ∙ subscribed_made
