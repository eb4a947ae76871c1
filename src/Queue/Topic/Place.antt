-- ===== src/Queue/Topic/Place.antt =====
-- A subscriber of a `shared_queue` (qbus/queue.cpp) has before it what it has not seen.
use qbus.Prelude.{
  drop-append, ℕ, zero, suc, ◌+◌, ◌-◌, ◌^◌, ◌≤◌, ◌<◌, ◌≡◌, ◌⊎◌, inl, inr, refl, arith, List, [],
  ◌∷◌, length, drop, ==_true, ==_false, ◌≢◌, ℕ_discrete, subst, sym, sub32, u32, ◌++◌, ◌∙◌,
  length-append,
}
use qbus.Bytes.{Mem}
use qbus.Message.Make.{Desc, no_message}
use qbus.Queue.{Queue, mem, data_start, capacity, head, tail, count, keepalive_timeout}
use qbus.Queue.Layout.{Item, after}
use qbus.Queue.Shared
use qbus.Queue.Fifo.{HoldsAt, IsFirst}
use qbus.Queue.Fifo.Moves.{HoldsAt-tail, IsFirst-append}
use qbus.Queue.Reader.{Views}
use qbus.Queue.Reader.Pop.{HoldsAt-eq}
use qbus.Queue.Topic.{Local, System, wear, own, keep, Log, Stands, StandsIn}
use qbus.Queue.Topic.Walk.{walk, walk-lt, walk-append}

pub HoldsAt-drop :
    (m : Mem) (d c hd tl cnt cnt' : ℕ) (desc0 desc : Desc) (xs : List Item) (k : ℕ)
    → k ≤ length xs
    → cnt' ≡ length xs - k
    → HoldsAt m d c hd tl cnt desc0 xs
    → ((desc.chain ≡ []) ⊎ IsFirst d c (walk c hd xs k) desc (drop k xs))
    → HoldsAt m d c (walk c hd xs k) tl cnt' desc (drop k xs)
HoldsAt-drop m d c hd tl cnt cnt' desc0 desc xs zero h e held first =
    HoldsAt-eq m refl refl refl refl (omega (arith, e, held.counted))
      (record { ring = held.ring; laid = held.laid; counted = held.counted; pulled = first })
HoldsAt-drop m d c hd tl cnt cnt' desc0 desc [] (suc k) h e held first = absurd (omega arith)
HoldsAt-drop m d c hd tl cnt cnt' desc0 desc (x ∷ xs) (suc k) h e held first =
    HoldsAt-drop m d c (after c hd (length x.body)) tl (cnt - 1) cnt' no_message desc xs k
      (omega arith) (omega (arith, e))
      (HoldsAt-tail m m d c hd tl cnt desc0 no_message x xs held (λ y l i. refl) refl) first

-- The shared fields do not depend on whose object it is.
module _ (q : Queue) (r : Local) where
  pub Log-wear :
      {n : ℕ} {xs : List Item} {seen : ℕ → ℕ} → Log q n xs seen → Log (wear q r) n xs seen
  unfolding capacity head tail count keepalive_timeout Shared.subscriptions_count Shared.counter
  Log-wear log = record {
    held = log.held;
    counted = log.counted;
    subscribed = log.subscribed;
    few = log.few;
    before = log.before;
    counter_small = log.counter_small;
    no_timeout = log.no_timeout;
  }

  module _ {n : ℕ} (xs : List Item) {seen : ℕ → ℕ} (k : ℕ) (log : Log q n xs seen)
      (stands : StandsIn q xs k r) where
    pub head-wear : Shared.head (wear q r) ≡ walk (capacity q) (head q) xs k
    unfolding Shared.head head capacity
    head-wear = elim stands.place [
      | inl p ↦ rw (p.0, p.1)
      | inr p ↦
          rw
            (==_false r.m_head 0xffffffff (λ z. omega (
              arith,
              p,
              log.held.ring.small,
              walk-lt (capacity q) (head q) xs k log.held.ring.head_in,
            )))
            p
    ]

    pub count-wear : Shared.count (wear q r) ≡ length xs - k
    unfolding Shared.count Shared.counter
    count-wear = stands.left

    pub Views-wear : Views (wear q r) (drop k xs)
    unfolding capacity tail Shared.counter
    Views-wear = record {
      held = HoldsAt-eq (mem q) refl refl head-wear refl count-wear (
          HoldsAt-drop (mem q) (data_start q) (capacity q) (head q) (tail q) (count q)
            (length xs - k) no_message r.message_desc xs k stands.seen_le refl log.held
            stands.pulled);
      before = log.before;
      counter_small = log.counter_small;
      own_small = stands.own_small;
    }

pub Stands-eq :
    {d c hd total k d' c' hd' total' k' : ℕ} {xs : List Item} {r : Local}
    → d' ≡ d
    → c' ≡ c
    → hd' ≡ hd
    → total' ≡ total
    → k' ≡ k
    → Stands d c hd total xs k r
    → Stands d' c' hd' total' xs k' r
Stands-eq ed ec eh et ek s = rw (ed, ec, eh, et, ek) s

-- What holds of the caller's new fields and of the others' old ones holds of all.
pub keep-readers :
    (s : System) (i n : ℕ) (q : Queue) (P : ℕ → Local → Type 0)
    → P i (own q)
    → ((j : ℕ) → j < n → j ≢ i → P j (s.readers j))
    → (j : ℕ) → j < n
    → P j ((keep s i q).readers j)
keep-readers s i n q P mine others j h = elim (ℕ_discrete j i) [
  | yes e ↦ rw (==_true j i e) (subst (λ k. P k (own q)) (sym e) mine)
  | no ne ↦ rw (==_false j i ne) (others j h ne)
]

left-append :
    (total m_counter len k len' : ℕ)
    → total < 2 ^ 32
    → m_counter < 2 ^ 32
    → len + 1 < 2 ^ 32
    → k ≤ len
    → len' ≡ len + 1
    → sub32 total m_counter ≡ len - k
    → sub32 (u32 (total + 1)) m_counter ≡ len' - k
left-append total m_counter len k len' h l room le e left = omega arith

-- A subscriber has one more message before it.
pub Stands-append :
    (d c hd total : ℕ) (xs : List Item) (x : Item) (k : ℕ) (r : Local)
    → total < 2 ^ 32
    → length xs + 1 < 2 ^ 32
    → Stands d c hd total xs k r
    → Stands d c hd (u32 (total + 1)) (xs ++ x ∷ []) k r
Stands-append d c hd total xs x k r small room s =
    let w = walk-append c hd xs (x ∷ []) k s.seen_le in
    let n = length-append xs (x ∷ []) in
    record {
      seen_le = omega (arith, s.seen_le, n);
      place = elim s.place [ inl p ↦ inl p | inr p ↦ inr (p ∙ sym w) ];
      left =
          left-append total r.m_counter (length xs) k (length (xs ++ x ∷ [])) small s.own_small room
            s.seen_le n s.left;
      own_small = s.own_small;
      pulled = elim s.pulled [
        | inl null ↦ inl null
        | inr first ↦ inr (
            rw (w, drop-append k xs (x ∷ []) s.seen_le)
              (IsFirst-append d c (walk c hd xs k) r.message_desc (drop k xs) x first))
      ];
    }
