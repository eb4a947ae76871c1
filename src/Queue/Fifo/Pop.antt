-- ===== src/Queue/Fifo/Pop.antt =====
-- `pop` of qbus/queue.cpp on a `simple_queue`: it removes the oldest message, whether its
-- description was kept by `get` or not.
use qbus.Prelude.{
  ℕ, ◌+◌, ◌-◌, ◌%◌, ◌^◌, ◌≤◌, ◌<◌, ◌≡◌, ◌∙◌, inl, inr, refl, ap, arith, Bool, true, false, List, [],
  ◌∷◌, length, Run, done, ==_true, ==_false, sub64,
}
use qbus.Message
use qbus.Message.{Env, Pmessage}
use qbus.Message.Fields.{dec_counter-Apart}
use qbus.Message.Make.{Desc, is_null}
use qbus.Queue
use qbus.Queue.{Queue, mem, with_mem, data_start, capacity, head, tail, count}
use qbus.Queue.Layout.{Item, after, first_block, span}
use qbus.Queue.Layout.Frame.{SameSpan}
use qbus.Queue.Header.{
  SameHeader, SameHeader-Agree, set_head-Apart, set_count-Apart, capacity-set_head, tail-set_head,
  timeout-set_head, timeout-set_count, capacity-desc, timeout-desc, head-desc, count-set_head,
  head-set_head, capacity-set_count, tail-set_count, head-set_count, count-set_count,
}
use qbus.Queue.Class
use qbus.Queue.Class.{Class}
use qbus.Queue.Simple
use qbus.Queue.Base.{pop, pulled}
use qbus.Queue.Fifo.{Holds, IsFirst}
use qbus.Queue.Fifo.Moves.{HoldsAt-fields, Holds-desc, HoldsAt-tail}
use qbus.Queue.Fifo.Get.{get_first}
use qbus.Queue.Fifo.Bounds.{chain_starts, first_block-ge, first_block-Apart, length-span}

pub popped : Queue → ℕ → Desc → Queue
popped q p d =
    let q' = Queue.set_head (with_mem q (Message.dec_counter (mem q) p).1) d.next in
    Queue.set_count q' (sub64 (count q') 1)

pop_message_lem :
    (q : Queue) (d : Desc) (p : ℕ) (rest : Pmessage)
    → d.chain ≡ p ∷ rest
    → Simple.pop_message q d ≡ done (popped q p d)
unfolding Simple.pop_message popped
pop_message_lem q d p rest e = rw e

module _ (q : Queue) (x : Item) (xs : List Item) (holds : Holds q (x ∷ xs)) (desc : Desc)
    (first : IsFirst (data_start q) (capacity q) (head q) desc (x ∷ xs)) where
  abbrev d : ℕ
  d = data_start q

  abbrev c : ℕ
  c = capacity q

  abbrev n : ℕ
  n = length x.body

  abbrev p : ℕ
  p = first_block d c (head q)

  abbrev q2 : Queue
  q2 = with_mem q (Message.dec_counter (mem q) p).1

  abbrev q' : Queue
  q' = popped q p desc

  above : d ≤ p
  above = first_block-ge d c (head q) n holds.ring.head_in (omega (arith, holds.ring.fits))

  same : SameHeader q q2
  same =
      SameHeader-Agree q q2 refl
        (λ b l h. dec_counter-Apart (mem q) p b (inl (omega (arith, above))))

  base-popped : q'.base ≡ q.base
  unfolding popped Queue.set_head Queue.set_count
  base-popped = refl

  capacity-popped : capacity q' ≡ c
  unfolding popped
  capacity-popped =
      capacity-set_count (Queue.set_head q2 desc.next) _
      ∙ capacity-set_head q2 desc.next
      ∙ same.capacity_same

  tail-popped : tail q' ≡ tail q
  unfolding popped
  tail-popped =
      tail-set_count (Queue.set_head q2 desc.next) _ ∙ tail-set_head q2 desc.next ∙ same.tail_same

  head-popped : head q' ≡ after c (head q) n
  unfolding popped
  head-popped =
      head-set_count (Queue.set_head q2 desc.next) _
      ∙ head-set_head q2 desc.next
          (rw same.capacity_same (omega (arith, holds.ring.head_in, holds.ring.small)))
      ∙ ap (λ k. desc.next % k) same.capacity_same
      ∙ first.1

  timeout-popped : Queue.keepalive_timeout q' ≡ Queue.keepalive_timeout q
  unfolding popped
  timeout-popped =
      timeout-set_count (Queue.set_head q2 desc.next) _
      ∙ timeout-set_head q2 desc.next
      ∙ same.timeout_same

  count-popped : count q' ≡ count q - 1
  unfolding popped
  count-popped =
      let e = count-set_head q2 desc.next ∙ same.count_same in
      let small : count q < 2 ^ 32 = omega (
        arith,
        holds.counted,
        length-span c (head q) (x ∷ xs),
        holds.ring.fits,
        holds.ring.small,
      ) in
      let s : sub64 (count q) 1 ≡ count q - 1 = omega (arith, holds.counted) in
      count-set_count (Queue.set_head q2 desc.next) _ (rw (e, s) (omega arith))
      ∙ ap (λ k. sub64 k 1) e
      ∙ s

  data-popped : SameSpan (mem q) (mem q') d c (after c (head q) n) (span c (after c (head q) n) xs)
  unfolding popped Queue.set_head
  data-popped y h i =
      set_count-Apart (Queue.set_head q2 desc.next) _ (d + y) (inr (omega arith))
      ∙ set_head-Apart q2 desc.next (d + y) (inr (omega arith))
      ∙ dec_counter-Apart (mem q) p (d + y) (
          let o =
            first_block-Apart d c (head q) n holds.ring.head_in (omega (arith, holds.ring.fits))
              (span c (after c (head q) n) xs) y holds.ring.fits h i in
          ground arith)

  -- What is held after the first message has been popped.
  pub Holds-popped : Holds (record q' { message_desc = record desc { chain = [] } }) xs
  Holds-popped = Holds-desc q' (
      HoldsAt-fields q' (ap (λ b. b + 24) base-popped) capacity-popped head-popped tail-popped
        count-popped
        (HoldsAt-tail (mem q) (mem q') d c (head q) (tail q) (count q) q.message_desc
          (record desc { chain = [] }) x xs holds data-popped refl))

-- What `pop` leaves and returns.
abbrev pub rest_of : List Item → List Item
rest_of [] = []
rest_of (x ∷ xs) = xs

abbrev pub next_head : ℕ → ℕ → List Item → ℕ
next_head c hd [] = hd
next_head c hd (x ∷ xs) = after c hd (length x.body)

abbrev pub is_some : List Item → Bool
is_some [] = false
is_some (x ∷ xs) = true

pub record Pops (q : Queue) (xs : List Item) (out : Run (Queue × Bool)) : Type 0 where
  pub queue : Queue
  pub popped_at : out ≡ done (queue, is_some xs)
  pub holds_rest : Holds queue (rest_of xs)
  pub capacity_same : capacity queue ≡ capacity q
  pub timeout_same : Queue.keepalive_timeout queue ≡ Queue.keepalive_timeout q
  pub head_at : head queue ≡ next_head (capacity q) (head q) xs

-- The description that `pop` works on.
record Pulls (env : Env) (q : Queue) (x : Item) (xs : List Item) : Type 0 where
  desc : Desc
  pulled_at : pulled Class.simple env q ≡ done (q, desc)
  is_first : IsFirst (data_start q) (capacity q) (head q) desc (x ∷ xs)

pulls : (env : Env) (q : Queue) (x : Item) (xs : List Item) → Holds q (x ∷ xs) → Pulls env q x xs
unfolding pulled Class.get_message
pulls env q x xs holds = elim holds.pulled [
  | inl null ↦
      let f = get_first q x xs holds in
      record { desc = f.desc; pulled_at = rw (ap is_null null, f.first_at); is_first = f.is_first }
  | inr first ↦
      let s = chain_starts (data_start q) (capacity q) (head q) (length x.body) in
      record {
        desc = q.message_desc;
        pulled_at =
            let e : is_null q.message_desc.chain ≡ false = ap is_null (first.0 ∙ s.at) in rw e;
        is_first = first;
      }
]

-- `pop` removes the oldest message, and succeeds exactly if there is one.
pub pop-Pops :
    (env : Env) (q : Queue) (xs : List Item) → Holds q xs → Pops q xs (pop Class.simple env q)
unfolding pop Class.count Class.pop_message
pop-Pops env q [] holds = record {
  queue = q;
  popped_at = rw (==_true (count q) 0 holds.counted);
  holds_rest = holds;
  capacity_same = refl;
  timeout_same = refl;
  head_at = refl;
}
pop-Pops env q (x ∷ xs) holds =
    let g = pulls env q x xs holds in
    let s = chain_starts (data_start q) (capacity q) (head q) (length x.body) in
    record {
      queue = record (q' q x xs holds g.desc g.is_first) {
        message_desc = record g.desc { chain = [] };
      };
      popped_at = rw (
        ==_false (count q) 0 (λ e. omega (arith, holds.counted)),
        g.pulled_at,
        pop_message_lem q g.desc _ s.others (g.is_first.0 ∙ s.at),
      );
      holds_rest = Holds-popped q x xs holds g.desc g.is_first;
      capacity_same = capacity-desc _ _ ∙ capacity-popped q x xs holds g.desc g.is_first;
      timeout_same = timeout-desc _ _ ∙ timeout-popped q x xs holds g.desc g.is_first;
      head_at = head-desc _ _ ∙ head-popped q x xs holds g.desc g.is_first;
    }
