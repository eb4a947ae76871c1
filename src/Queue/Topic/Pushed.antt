-- ===== src/Queue/Topic/Pushed.antt =====
-- The queue behind a message that `do_push` of a `shared_queue` (qbus/queue.cpp) has put behind the
-- others.
use qbus.Prelude.{
  ℕ, ◌+◌, ◌-◌, ◌^◌, ◌<◌, ◌≤◌, ◌≡◌, ◌∙◌, inl, inr, refl, ap, subst, arith, true, List, [], ◌∷◌, ◌++◌,
  length, u32,
}
use qbus.Bytes.Words.{Apart, read32-Agree, write32-Apart}
use qbus.Message
use qbus.Message.{Env, World, Pmessage}
use qbus.Message.Fields.{set_tag-Apart, tag-set_tag, set_counter-Apart, counter-Agree}
use qbus.Message.Chain.Blocks.{chain_of, Stored}
use qbus.Message.Make.{Desc, no_message}
use qbus.Queue
use qbus.Queue.{Queue, mem, with_mem, data_start, capacity, head, tail, count, keepalive_timeout}
use qbus.Queue.Layout.{Item, first_block, blocks, used, span, IsLaid}
use qbus.Queue.Layout.Frame.{SameSpan, IsLaid-SameSpan}
use qbus.Queue.Write.{AreDisjoint-blocks}
use qbus.Queue.Write.Made.{Made}
use qbus.Queue.Shared
use qbus.Queue.Fifo.Moves.{HoldsAt-append, count-small}
use qbus.Queue.Fifo.Bounds.{first_block-ge, first_block-le}
use qbus.Queue.Fifo.Push.{
  pushed, tag-Apart, set_tag-Stored, capacity-pushed, head-pushed, tail-pushed, timeout-pushed,
  count-pushed, data-pushed,
}
use qbus.Queue.Reader.Pop.{HoldsAt-eq}
use qbus.Queue.Topic.{Local, own, Log, AllStand}
use qbus.Queue.Topic.Counted.{AreCounted-eq, AreCounted-SameSpan, AreCounted-append}
use qbus.Queue.Topic.Advance.{IsLaid-counter}
use qbus.Queue.Topic.Place.{Stands-eq, Stands-append}
use qbus.Queue.Topic.Told.{
  told, counted_queue, others_same, header_same, total_counted, subscribed_counted, counter_counted,
}

-- A message that was made lies behind the others, and comes before every subscriber.
module _ (env : Env) (q : Queue) (n : ℕ) (xs : List Item) (seen : ℕ → ℕ) (readers : ℕ → Local)
    (log : Log q n xs seen) (stand : AllStand q n xs seen readers) (x : Item)
    (some_data : 0 < length x.body) (tag_small : x.tag < 2 ^ 32)
    (fits : used (capacity q) (tail q) (length x.body) ≤ capacity q - span (capacity q) (head q) xs)
    (made : Made env
      (data_start q)
      (capacity q)
      (head q)
      (tail q)
      (count q)
      (span (capacity q) (head q) xs)
      q.world
      x.body
      log.held.ring
      some_data) where
  abbrev d : ℕ
  d = data_start q

  abbrev c : ℕ
  c = capacity q

  abbrev p : ℕ
  p = first_block d c (tail q)

  abbrev pub w1 : World
  w1 = (counted_queue q made.world p).world

  abbrev pub desc : Desc
  desc = record { chain = chain_of (blocks d c (tail q) (length x.body)); next = made.next }

  abbrev pub q' : Queue
  q' = pushed q w1 p desc x.tag

  abbrev room : ℕ
  room = span c (head q) xs

  tail_in : tail q < c
  tail_in = omega (arith, log.held.ring.tail_at, log.held.ring.head_in)

  above : d ≤ p
  above = first_block-ge d c (tail q) (length x.body) tail_in (omega arith)

  below : p + 24 ≤ d + c
  below = first_block-le d c (tail q) (length x.body) tail_in (omega arith)

  kept : (b : ℕ) → b < q.base + 24 → made.world.mem b ≡ mem q b
  kept b h = made.kept.outside b (inl h)

  header_kept : (b : ℕ) → q.base ≤ b → b < q.base + 24 → w1.mem b ≡ mem q b
  header_kept = header_same q made.world p n above log.before kept log.subscribed

  base_at : q'.base ≡ q.base
  unfolding pushed Queue.set_tail Queue.set_count
  base_at = refl

  pub shared_at : (q'.shared ≡ q.shared) × (own q' ≡ own q)
  unfolding pushed Queue.set_tail Queue.set_count
  shared_at = (refl, refl)

  -- Outside the header and the tag, the memory is as it was when the message had been counted.
  data_at : (b : ℕ) → Apart q.base 24 b → Apart (p + 12) 4 b → mem q' b ≡ w1.mem b
  data_at b h k =
      data-pushed q w1 p x.tag desc header_kept above b h ∙ set_tag-Apart w1.mem p x.tag b k

  total_at : Shared.counter q' ≡ u32 (Shared.counter q + 1)
  unfolding Shared.counter pushed Queue.set_tail Queue.set_count
  total_at =
      read32-Agree w1.mem (mem q') (q.shared + 4) (λ b l h.
        data_at b (inl (omega (arith, log.before))) (inl (omega (arith, log.before, above))))
      ∙ total_counted q made.world p n above log.before kept log.subscribed

  subscribed_at : Shared.subscriptions_count q' ≡ n
  unfolding Shared.subscriptions_count pushed Queue.set_tail Queue.set_count
  subscribed_at =
      read32-Agree w1.mem (mem q') (q.shared + 0) (λ b l h.
        data_at b (inl (omega (arith, log.before))) (inl (omega (arith, log.before, above))))
      ∙ subscribed_counted q made.world p n above log.before kept log.subscribed

  span_same : SameSpan (mem q) (mem q') d c (head q) room
  span_same y h i =
      let o =
        tag-Apart d c (head q) (tail q) (count q) room (length x.body) log.held.ring fits y h i in
      data_at (d + y) (inr (omega arith)) (ground arith)
      ∙ others_same q made.world p n above log.before kept log.subscribed (d + y) (ground arith)
          (inr (omega (arith, log.before)))
      ∙ made.kept.span y h i

  counter_at : Message.counter (mem q') p ≡ n
  counter_at =
      counter-Agree w1.mem (mem q') p
        (λ b l h. data_at b (inr (omega (arith, above))) (inr (omega arith)))
      ∙ counter_counted q made.world p n above log.before kept log.subscribed log.few

  stored : Stored true w1.mem (blocks d c (tail q) (length x.body)) x.body
  unfolding Shared.set_counter
  stored =
      let told_mem = mem (told q made.world p) in
      let y : Item = record { tag = Message.tag made.world.mem p; body = x.body } in
      let counted =
        IsLaid-counter made.world.mem told_mem d c (tail q) y
          (λ b h. set_counter-Apart made.world.mem p _ b h)
          (AreDisjoint-blocks d c (head q) (tail q) (count q) room (length x.body) log.held.ring
            fits)
          (made.stored, refl, some_data) in
      (IsLaid-SameSpan told_mem w1.mem d c (tail q) y tail_in (omega arith)
        (λ a h i. write32-Apart told_mem (q.shared + 4) _ (d + a) (inr (omega (arith, log.before))))
        counted).0

  laid : IsLaid (mem q') d c (tail q) x
  laid =
      IsLaid-SameSpan (Message.set_tag w1.mem p x.tag) (mem q') d c (tail q) x tail_in (omega arith)
        (λ y h i. data-pushed q w1 p x.tag desc header_kept above (d + y) (inr (omega arith)))
        (
          set_tag-Stored w1.mem d c (tail q) x.tag x.body
              (AreDisjoint-blocks d c (head q) (tail q) (count q) room (length x.body) log.held.ring
                fits)
              stored,
          tag-set_tag w1.mem p x.tag tag_small,
          some_data,
        )

  few_items : length xs + 1 < 2 ^ 32
  few_items = omega (
    arith,
    log.held.counted,
    count-small (mem q) (mem q) d c (head q) (tail q) (count q) no_message xs log.held,
  )

  pub cap_at : capacity q' ≡ c
  cap_at = capacity-pushed q w1 p x.tag desc header_kept above

  pub start_at : head q' ≡ head q
  start_at = head-pushed q w1 p x.tag desc header_kept above

  pub Log-pushed : Log q' n (xs ++ x ∷ []) seen
  Log-pushed = record {
    held =
        HoldsAt-eq (mem q') (ap (λ b. b + 24) base_at) cap_at start_at
          (tail-pushed q w1 p x.tag desc header_kept above (omega arith) log.held.ring.small
            ∙ made.next_at)
          (count-pushed q w1 p x.tag desc header_kept above
            (omega (arith, few_items, log.held.counted)))
          (HoldsAt-append (mem q) (mem q') d c (head q) (tail q) (count q) no_message xs x log.held
            fits span_same laid);
    counted =
        AreCounted-eq (mem q') (xs ++ x ∷ []) n seen (ap (λ b. b + 24) base_at) cap_at start_at (
          AreCounted-append (mem q') d c (head q) xs x n seen log.held.ring.head_in
            (λ i l. (stand i l).seen_le)
            (subst (λ t. Message.counter (mem q') (first_block d c t) ≡ n) log.held.ring.tail_at
              counter_at)
            (AreCounted-SameSpan (mem q) (mem q') d c (head q) xs n seen log.held.ring.head_in
              log.held.ring.fits span_same log.counted));
    subscribed = subscribed_at;
    few = log.few;
    before = omega (arith, log.before, base_at, shared_at.0);
    counter_small = omega (arith, total_at);
    no_timeout = timeout-pushed q w1 p x.tag desc header_kept above ∙ log.no_timeout;
  }

  pub AllStand-pushed : AllStand q' n (xs ++ x ∷ []) seen readers
  AllStand-pushed i h = Stands-eq (ap (λ b. b + 24) base_at) cap_at start_at total_at refl (
      Stands-append d c (head q) (Shared.counter q) xs x (seen i) (readers i) log.counter_small
        few_items (stand i h))
