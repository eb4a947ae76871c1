-- ===== src/Queue/Reader/Pop.antt =====
-- `get` and `pop` of a reader of a `shared_queue` (qbus/queue.cpp).
use qbus.Prelude.{
  ℕ, ◌+◌, ◌-◌, ◌%◌, ◌^◌, ◌≤◌, ◌<◌, ◌≡◌, ◌∙◌, inl, inr, refl, ap, arith, ◌⊎◌, true, false, List, [],
  ◌∷◌, length, Run, done, ==_true, ==_false, sub32, u32,
}
use qbus.Bytes.{Mem}
use qbus.Bytes.Words.{read32-Agree}
use qbus.Message
use qbus.Message.{Env, Pmessage}
use qbus.Message.Fields.{dec_counter-Apart, counter-set_counter}
use qbus.Message.Make.{Desc, is_null}
use qbus.Queue.{Queue, mem, with_mem, data_start, capacity, head, tail}
use qbus.Queue.Header.{SameHeader, SameHeader-Agree}
use qbus.Queue.Layout.{Item, first_block, span, after}
use qbus.Queue.Layout.Frame.{SameSpan}
use qbus.Queue.Class
use qbus.Queue.Class.{Class}
use qbus.Queue.Shared
use qbus.Queue.Base.{get, pop, pulled}
use qbus.Queue.Reader.{Views, AreOwed, AreOwed-SameSpan, Owes, get_first, first-Carries, count-ne}
use qbus.Queue.Fifo.{HoldsAt, IsFirst}
use qbus.Queue.Fifo.Get.{Carries}
use qbus.Queue.Fifo.Moves.{HoldsAt-tail}
use qbus.Queue.Fifo.Bounds.{chain_starts, first_block-ge, first_block-Apart}

-- The object after the message at `p` has been popped.
unfoldable pub popped : Queue → ℕ → Desc → Queue
popped q p d = record (with_mem q (Message.dec_counter (mem q) p).1) {
  m_head = d.next % capacity q;
  m_counter = u32 (q.m_counter + 1);
  message_desc = record d { chain = [] };
}

-- The position of the message that is read next.
abbrev pub next_at : Queue → ℕ
next_at q = first_block (data_start q) (capacity q) (Shared.head q)

sub_step :
    (a a' b : ℕ)
    → a' ≡ a
    → a < 2 ^ 32
    → b < 2 ^ 32
    → 0 < sub32 a b
    → sub32 a' (u32 (b + 1)) ≡ sub32 a b - 1
sub_step a a' b e h k l = omega arith

pub HoldsAt-eq :
    (m : Mem) {d c hd tl cnt d' c' hd' tl' cnt' : ℕ} {desc : Desc} {xs : List Item}
    → d' ≡ d
    → c' ≡ c
    → hd' ≡ hd
    → tl' ≡ tl
    → cnt' ≡ cnt
    → HoldsAt m d c hd tl cnt desc xs
    → HoldsAt m d' c' hd' tl' cnt' desc xs
HoldsAt-eq m ed ec eh et en h = rw (ed, ec, eh, et, en) h

AreOwed-eq :
    (m : Mem) {d c t d' c' t' : ℕ} (xs : List Item)
    → d' ≡ d
    → c' ≡ c
    → t' ≡ t
    → AreOwed m d c t xs
    → AreOwed m d' c' t' xs
AreOwed-eq m xs ed ec et h = rw (ed, ec, et) h

module _ (q : Queue) (x : Item) (xs : List Item) (v : Views q (x ∷ xs)) (desc : Desc)
    (first : IsFirst (data_start q) (capacity q) (Shared.head q) desc (x ∷ xs)) where
  abbrev hd : ℕ
  hd = Shared.head q

  abbrev d : ℕ
  d = data_start q

  abbrev c : ℕ
  c = capacity q

  abbrev n : ℕ
  n = length x.body

  abbrev p : ℕ
  p = first_block d c hd

  abbrev q' : Queue
  q' = popped q p desc

  above : d ≤ p
  above = first_block-ge d c hd n v.held.ring.head_in (omega (arith, v.held.ring.fits))

  pub same : SameHeader q q'
  unfolding popped
  same =
      SameHeader-Agree q q' refl
        (λ b l h. dec_counter-Apart (mem q) p b (inl (omega (arith, above))))

  pub counter-popped : Shared.counter q' ≡ Shared.counter q
  unfolding Shared.counter popped
  counter-popped =
      read32-Agree (mem q) (mem q') (q.shared + 4)
        (λ b l h. dec_counter-Apart (mem q) p b (inl (omega (arith, above, v.before))))

  pub subscribed-popped : Shared.subscriptions_count q' ≡ Shared.subscriptions_count q
  unfolding Shared.subscriptions_count popped
  subscribed-popped =
      read32-Agree (mem q) (mem q') (q.shared + 0)
        (λ b l h. dec_counter-Apart (mem q) p b (inl (omega (arith, above, v.before))))

  pub head-popped : Shared.head q' ≡ after c hd n
  unfolding Shared.head popped
  head-popped =
      let e : desc.next % c ≡ after c hd n = first.1 in
      rw
        (==_false (desc.next % c) 0xffffffff
          (λ z. omega (arith, v.held.ring.head_in, v.held.ring.small)))
        e

  pub count-popped : Shared.count q' ≡ Shared.count q - 1
  unfolding Shared.count popped
  count-popped =
      sub_step (Shared.counter q) (Shared.counter q') q.m_counter counter-popped v.counter_small
        v.own_small (omega (arith, v.held.counted))

  data-popped : SameSpan (mem q) (mem q') d c (after c hd n) (span c (after c hd n) xs)
  unfolding popped
  data-popped y h i = dec_counter-Apart (mem q) p (d + y) (
      let o =
        first_block-Apart d c hd n v.held.ring.head_in (omega (arith, v.held.ring.fits))
          (span c (after c hd n) xs) y v.held.ring.fits h i in
      ground arith)

  pub Views-popped : Views q' xs
  unfolding popped
  Views-popped = record {
    held =
        HoldsAt-eq (mem q') (ap (λ b. b + 24) same.base) same.capacity_same head-popped
          same.tail_same count-popped
          (HoldsAt-tail (mem q) (mem q') d c hd (tail q) (Shared.count q) q.message_desc
            (record desc { chain = [] }) x xs v.held data-popped refl);
    before = v.before;
    counter_small = omega (arith, counter-popped, v.counter_small);
    own_small = omega arith;
  }

  pub Owes-popped : Owes q (x ∷ xs) → Owes q' xs
  Owes-popped owed =
      AreOwed-eq (mem q') xs (ap (λ b. b + 24) same.base) same.capacity_same head-popped (
        AreOwed-SameSpan (mem q) (mem q') d c (after c hd n) xs (omega (arith, v.held.ring.head_in))
          (omega (arith, v.held.ring.fits)) data-popped owed.1)

pub dec_counter-owed :
    (m : Mem) (p : ℕ)
    → 0 < Message.counter m p
    → Message.counter m p < 2 ^ 32
    → Message.counter (Message.dec_counter m p).1 p + 1 ≡ Message.counter m p
unfolding Message.dec_counter
dec_counter-owed m p h k =
    omega
      (arith, counter-set_counter m p ((Message.counter m p + 2 ^ 32 - 1) % 2 ^ 32) (omega arith))

pop_message_lem :
    (q : Queue) (desc : Desc) (rest : Pmessage)
    → desc.chain ≡ next_at q ∷ rest
    → 0 < Message.counter (mem q) (next_at q)
    → Message.counter (mem q) (next_at q) < 2 ^ 32
    → Shared.pop_message q desc
      ≡ done (record (popped q (next_at q) desc) { message_desc = q.message_desc })
unfolding Shared.pop_message popped Message.dec_counter
pop_message_lem q desc rest e h k =
    let value = (Message.counter (mem q) (next_at q) + 2 ^ 32 - 1) % 2 ^ 32 in
    rw (e, ==_false value 0xffffffff (λ z. omega arith))

-- What `get` leaves and returns.
pub record Gets (q : Queue) (xs : List Item) (out : Run (Queue × Pmessage)) : Type 0 where
  pub desc : Desc
  pub chain : Pmessage
  pub got_at : out ≡ done (record q { message_desc = desc }, chain)
  pub carries : Carries q chain xs
  pub views_still : Views (record q { message_desc = desc }) xs

Views-desc :
    (q : Queue) (desc : Desc) (xs : List Item)
    → Views q xs
    → ((desc.chain ≡ []) ⊎ IsFirst (data_start q) (capacity q) (Shared.head q) desc xs)
    → Views (record q { message_desc = desc }) xs
unfolding capacity head tail Shared.head Shared.count Shared.counter
Views-desc q desc xs v first = record {
  held = record {
    ring = v.held.ring;
    laid = v.held.laid;
    counted = v.held.counted;
    pulled = first;
  };
  before = v.before;
  counter_small = v.counter_small;
  own_small = v.own_small;
}

pub Owes-desc :
    (q : Queue) (desc : Desc) (xs : List Item)
    → Owes q xs
    → Owes (record q { message_desc = desc }) xs
unfolding capacity head Shared.head
Owes-desc q desc xs h = h

-- `get` changes nothing but the kept description, and returns the oldest message that the reader has
-- not read.
pub get-Gets_shared :
    (env : Env) (q : Queue) (xs : List Item) → Views q xs → Gets q xs (get Class.shared env q)
unfolding get Class.count Class.get_message
get-Gets_shared env q [] v = record {
  desc = q.message_desc;
  chain = [];
  got_at = rw (==_true (Shared.count q) 0 v.held.counted);
  carries = refl;
  views_still = v;
}
get-Gets_shared env q (x ∷ xs) v =
    let f = get_first q x xs v in
    record {
      desc = f.desc;
      chain = f.desc.chain;
      got_at = rw (==_false (Shared.count q) 0 (count-ne q x xs v), f.first_at);
      carries = first-Carries q x xs v f.desc f.is_first;
      views_still = Views-desc q f.desc (x ∷ xs) v (inr f.is_first);
    }

-- The description that `pop` works on.
record Pulls (env : Env) (q : Queue) (x : Item) (xs : List Item) : Type 0 where
  desc : Desc
  pulled_at : pulled Class.shared env q ≡ done (q, desc)
  is_first : IsFirst (data_start q) (capacity q) (Shared.head q) desc (x ∷ xs)

pulls : (env : Env) (q : Queue) (x : Item) (xs : List Item) → Views q (x ∷ xs) → Pulls env q x xs
unfolding pulled Class.get_message
pulls env q x xs v = elim v.held.pulled [
  | inl null ↦
      let f = get_first q x xs v in
      record { desc = f.desc; pulled_at = rw (ap is_null null, f.first_at); is_first = f.is_first }
  | inr first ↦
      let s = chain_starts (data_start q) (capacity q) (Shared.head q) (length x.body) in
      record {
        desc = q.message_desc;
        pulled_at =
            let e : is_null q.message_desc.chain ≡ false = ap is_null (first.0 ∙ s.at) in rw e;
        is_first = first;
      }
]

-- `pop` of a reader with messages before it, when readers are still counted on the next one.
pub record Pops (env : Env) (q : Queue) (x : Item) (xs : List Item) : Type 0 where
  pub desc : Desc
  pub is_first : IsFirst (data_start q) (capacity q) (Shared.head q) desc (x ∷ xs)
  pub popped_at : pop Class.shared env q ≡ done (popped q (next_at q) desc, true)

pub pop-Pops :
    (env : Env) (q : Queue) (x : Item) (xs : List Item)
    → Views q (x ∷ xs)
    → 0 < Message.counter (mem q) (next_at q)
    → Message.counter (mem q) (next_at q) < 2 ^ 32
    → Pops env q x xs
unfolding pop Class.count Class.pop_message popped
pop-Pops env q x xs v some_left small =
    let g = pulls env q x xs v in
    let s = chain_starts (data_start q) (capacity q) (Shared.head q) (length x.body) in
    record {
      desc = g.desc;
      is_first = g.is_first;
      popped_at =
          rw
            (
              ==_false (Shared.count q) 0 (count-ne q x xs v),
              g.pulled_at,
              pop_message_lem q g.desc s.others (g.is_first.0 ∙ s.at) some_left small,
            )
            refl;
    }

-- `pop` of a reader with messages before it, on each of which readers are still counted, returns
-- true. The reader has the others before it then, the popped message counts one reader less, and the
-- header that the processes share is as before.
pub pop-Views :
    (env : Env) (q : Queue) (x : Item) (xs : List Item)
    → Views q (x ∷ xs)
    → Owes q (x ∷ xs)
    → (q' : Queue) × (pop Class.shared env q ≡ done (q', true))
      × Views q' xs
      × Owes q' xs
      × SameHeader q q'
      × (Message.counter (mem q') (next_at q) + 1 ≡ Message.counter (mem q) (next_at q))
unfolding popped
pop-Views env q x xs v owed =
    let p = pop-Pops env q x xs v owed.0.0 owed.0.1 in
    (
      popped q (next_at q) p.desc,
      p.popped_at,
      Views-popped q x xs v p.desc p.is_first,
      Owes-popped q x xs v p.desc p.is_first owed,
      same q x xs v p.desc p.is_first,
      dec_counter-owed (mem q) (next_at q) owed.0.0 owed.0.1,
    )
