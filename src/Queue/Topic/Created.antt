-- ===== src/Queue/Topic/Created.antt =====
-- A `shared_queue` that has just been created, and opened by subscribers (the constructors of
-- qbus/queue.cpp).
use qbus.Prelude.{
  ℕ, zero, suc, ◌+◌, ◌^◌, ◌<◌, ◌≤◌, ◌≡◌, ◌∙◌, inl, inr, refl, sym, arith, [], subst, Run, done,
  ◌>>=◌, ==_false, u32,
}
use qbus.Bytes.{Mem}
use qbus.Bytes.Words.{read32-Agree, read32-write32_self, write32-Apart}
use qbus.Message.{World}
use qbus.Message.Make.{no_message}
use qbus.Queue
use qbus.Queue.{Queue, mem, data_start, capacity, head, tail, count, keepalive_timeout}
use qbus.Queue.Header.{SameHeader, SameHeader-Agree}
use qbus.Queue.Shared
use qbus.Queue.Shared.{no_head}
use qbus.Queue.Open
use qbus.Queue.Open.Fresh.{fresh, fresh_header}
use qbus.Queue.Fifo.{HoldsAt}
use qbus.Queue.Reader.Pop.{HoldsAt-eq}
use qbus.Queue.Topic.{System, own, keep, Stands, Serves}
use qbus.Queue.Topic.Place.{Stands-eq}
use qbus.Spec.Topic.{empty}

-- One more process opens the queue at `ptr` as the subscriber `n`.
unfoldable pub join : (ptr n : ℕ) → System → System
join ptr n s = keep s n (Open.open_shared s.queue.world ptr)

-- A process creates the queue, and `n` more open it.
unfoldable pub subscribed : ℕ → World → (qid ptr cpct : ℕ) → Run System
subscribed zero w qid ptr cpct = do
  q ← Open.create_shared w qid ptr cpct
  done (record { queue = q; readers = λ i. own q })
subscribed (suc n) w qid ptr cpct = do s ← subscribed n w qid ptr cpct; done (join ptr (suc n) s)

-- The queue lies at `ptr`, empty, for `n` subscribers.
pub record Starts (ptr n cpct : ℕ) (s : System) : Type 0 where
  pub serves : Serves s n (empty cpct)
  pub base_at : s.queue.base ≡ ptr + 8
  pub shared_at : s.queue.shared ≡ ptr

-- A ring without messages.
HoldsAt-empty : (m : Mem) (d c : ℕ) → 0 < c → c < 2 ^ 32 → HoldsAt m d c 0 0 0 no_message []
HoldsAt-empty m d c positive small = record {
  ring = record {
    small = small;
    head_in = positive;
    fits = omega arith;
    tail_at = omega arith;
    empty = λ z. refl;
    filled = λ z. absurd (z refl);
  };
  laid = tt;
  counted = refl;
  pulled = inl refl;
}

-- A subscriber that came before the first message.
pub Stands-first :
    (d c total m_counter : ℕ)
    → m_counter ≡ total
    → total < 2 ^ 32
    → Stands d c 0 total [] 0
        (record { m_head = no_head; m_counter = m_counter; message_desc = no_message })
Stands-first d c total m_counter e h = record {
  seen_le = omega arith;
  place = inl (refl, refl);
  left = omega arith;
  own_small = omega arith;
  pulled = inl refl;
}

module _ (w : World) (qid ptr cpct : ℕ) (positive : 0 < cpct) (small : cpct < 2 ^ 32) where
  abbrev q0 : Queue
  q0 = fresh (Open.object w (ptr + 8) ptr 0) qid cpct small positive

  abbrev q1 : Queue
  q1 = Shared.set_subscriptions_count (Shared.set_counter q0 0) 0

  abbrev pub q2 : Queue
  q2 = Shared.set_subscriptions_count q1 1

  fields :
      (q0.base ≡ ptr + 8)
      × (q0.shared ≡ ptr)
      × (own q0 ≡ record { m_head = no_head; m_counter = 0; message_desc = no_message })
  unfolding Queue.clear Queue.set_count Queue.set_tail Queue.set_head Queue.set_keepalive_timeout
      Queue.set_capacity Queue.set_id
  fields = (refl, refl, refl)

  pub created_at : Open.create_shared w qid ptr cpct ≡ done q2
  unfolding Open.create_shared Open.create_base_shared Open.create_base
  created_at = let e : u32 cpct ≡ cpct = omega arith in rw (e, ==_false cpct 0 (omega arith))

  above_same : (b : ℕ) → ptr + 8 ≤ b → mem q2 b ≡ mem q0 b
  unfolding Shared.set_subscriptions_count Shared.set_counter
  above_same b h =
      write32-Apart (mem q1) (q0.shared + 0) 1 b (inr (omega (arith, fields.1)))
      ∙ write32-Apart (mem (Shared.set_counter q0 0)) (q0.shared + 0) 0 b
          (inr (omega (arith, fields.1)))
      ∙ write32-Apart (mem q0) (q0.shared + 4) 0 b (inr (omega (arith, fields.1)))

  still : (q2.base ≡ q0.base) × (q2.shared ≡ q0.shared) × (own q2 ≡ own q0)
  unfolding Shared.set_subscriptions_count Shared.set_counter
  still = (refl, refl, refl)

  header : SameHeader q0 q2
  header = SameHeader-Agree q0 q2 still.0 (λ b l h. above_same b (omega (arith, l, fields.0)))

  counter_at : Shared.counter q2 ≡ 0
  unfolding Shared.counter Shared.set_subscriptions_count Shared.set_counter
  counter_at =
      read32-Agree (mem (Shared.set_counter q0 0)) (mem q2) (q0.shared + 4) (λ b l h.
        write32-Apart (mem q1) (q0.shared + 0) 1 b (inr (omega arith))
        ∙ write32-Apart (mem (Shared.set_counter q0 0)) (q0.shared + 0) 0 b (inr (omega arith)))
      ∙ read32-write32_self (mem q0) (q0.shared + 4) 0 (omega arith)

  subscribed_at : Shared.subscriptions_count q2 ≡ 1
  unfolding Shared.subscriptions_count Shared.set_subscriptions_count Shared.set_counter Queue.clear
  subscribed_at = read32-write32_self (mem q1) (q0.shared + 0) 1 (omega arith)

  pub created : Starts ptr 1 cpct (record { queue = q2; readers = λ i. own q2 })
  created =
      let h = fresh_header (Open.object w (ptr + 8) ptr 0) qid cpct small positive in
      let ec = header.capacity_same ∙ h.0 in
      let eh = header.head_same ∙ h.1 in
      record {
        serves = record {
          log = record {
            held =
                HoldsAt-eq (mem q2) refl ec eh (header.tail_same ∙ h.2) (header.count_same ∙ h.3)
                  (HoldsAt-empty (mem q2) (data_start q2) cpct positive small);
            counted = tt;
            subscribed = subscribed_at;
            few = omega arith;
            before = omega (arith, still.0, still.1, fields.0, fields.1);
            counter_small = omega (arith, counter_at);
            no_timeout = header.timeout_same ∙ h.4;
          };
          cap_at = ec;
          start_at = eh;
          readers = λ i l.
              subst (λ r. Stands (data_start q2) (capacity q2) (head q2) (Shared.counter q2) [] 0 r)
                (sym (still.2 ∙ fields.2))
                (Stands-eq refl refl eh counter_at refl
                  (Stands-first (data_start q2) (capacity q2) 0 0 refl (omega arith)));
        };
        base_at = still.0 ∙ fields.0;
        shared_at = still.1 ∙ fields.1;
      }
