-- ===== src/Queue/Topic/Round.antt =====
-- A round of the loop of `clean_messages` of a `shared_queue` (qbus/queue.cpp).
use qbus.Prelude.{
  ℕ, suc, ◌+◌, ◌≡◌, ◌≢◌, ◌∙◌, refl, sym, ap, ap₂, subst, List, ◌∷◌, length, Run, done, ==_true,
  ==_false,
}
use qbus.Message
use qbus.Message.{Pmessage}
use qbus.Message.Chain.{total_size}
use qbus.Message.Make.{Desc, no_message}
use qbus.Queue
use qbus.Queue.{
  Queue, Garbage, no_garbage, mem, data_start, capacity, head, tail, count, keepalive_timeout,
}
use qbus.Queue.Layout.{Item, first_block, span}
use qbus.Queue.Read.{Found}
use qbus.Queue.Shared
use qbus.Queue.Shared.{no_head}
use qbus.Queue.Fifo.First.{ring_reads, ring_first}
use qbus.Queue.Fifo.Bounds.{chain_starts}
use qbus.Queue.Topic.{Local, Log, AllStand}
use qbus.Spec.Topic.{Topic, zeros, preds, cleaned}
use qbus.Queue.Topic.Rest.{after_first, base_at, capacity_at, head_at, total_at}

pub record Cleans (q : Queue) (n : ℕ) (t : Topic) (readers : ℕ → Local)
    (out : Run (Queue × Garbage)) : Type 0 where
  pub queue : Queue
  pub info : Garbage
  pub cleaned_at : out ≡ done (queue, info)
  pub log : Log queue n t.items t.seen
  pub cap_at : capacity queue ≡ t.cap
  pub start_at : head queue ≡ t.start
  pub stand : AllStand queue n t.items t.seen readers
  pub same_base : queue.base ≡ q.base
  pub same_desc : queue.message_desc ≡ q.message_desc
  pub same_counter : Shared.counter queue ≡ Shared.counter q

-- A round of the loop that finds a message nobody is counted on.
round_gone :
    (q : Queue) (cnt : ℕ) (info : Garbage) (next p : ℕ) (rest : Pmessage)
    → Shared.get_message q ≡ done (record { chain = p ∷ rest; next = next })
    → Message.counter (mem q) p ≡ 0
    → Shared.clean_loop (suc cnt) q info
      ≡ Shared.clean_loop cnt
          (Queue.set_count (Queue.set_head q next) cnt)
          (record { number = info.number + 1; total = info.total + total_size (mem q) (p ∷ rest) })
unfolding Shared.clean_loop Shared.get_message
round_gone q cnt info next p rest e h =
    rw (e, Shared.clean_loop, ==_true (Message.counter (mem q) p) 0 h)

-- One round of the loop, in an object that reads from the shared head.
module _ (q : Queue) (n : ℕ) (x : Item) (xs : List Item) (seen : ℕ → ℕ) (own : q.m_head ≡ no_head)
    (some_left : Shared.count q ≢ 0) (log : Log q n (x ∷ xs) seen) where
  abbrev p : ℕ
  p = first_block (data_start q) (capacity q) (head q)

  abbrev pub found :
      Found
        (mem q)
        (data_start q)
        (capacity q)
        (head q)
        (tail q)
        (span (capacity q) (head q) (x ∷ xs))
        x
        (ring_reads
          (mem q)
          (data_start q)
          (capacity q)
          (head q)
          (tail q)
          (count q)
          no_message
          x
          xs
          log.held)
        log.held.laid.0.0
  found =
      ring_first (mem q) (data_start q) (capacity q) (head q) (tail q) (count q) no_message x xs
        log.held

  abbrev others : Pmessage
  others = (chain_starts (data_start q) (capacity q) (head q) (length x.body)).others

  abbrev first : Desc
  first = record { chain = p ∷ others; next = found.next }

  first_at : Shared.get_message q ≡ done first
  unfolding Shared.get_message Shared.get_busy_region Shared.head capacity head tail count
  first_at =
      rw (==_false (Shared.count q) 0 some_left, own)
        (found.found_at
          ∙ ap (λ l. done (record { chain = l; next = found.next }))
              (chain_starts (data_start q) (capacity q) (head q) (length x.body)).at)

  stops :
      (info : Garbage)
      → Message.counter (mem q) p ≢ 0
      → Shared.clean_loop (suc (length xs)) q info ≡ done (q, info)
  unfolding Shared.clean_loop Shared.get_message
  stops info h = rw (first_at, Shared.clean_loop, ==_false (Message.counter (mem q) p) 0 h)

  goes_on :
      (info : Garbage)
      → Message.counter (mem q) p ≡ 0
      → Shared.clean_loop (suc (length xs)) q info
        ≡ Shared.clean_loop (length xs) (after_first q xs found.next) (record {
          number = info.number + 1;
          total = info.total + total_size (mem q) first.chain;
        })
  goes_on info h = round_gone q (length xs) info found.next p others first_at h

  -- The loop goes on if all have seen the message, and ends otherwise.
  module _ (readers : ℕ → Local) (stand : AllStand q n (x ∷ xs) seen readers) (info : Garbage) where
    abbrev q' : Queue
    q' = after_first q xs found.next

    abbrev info' : Garbage
    info' = record { number = info.number + 1; total = info.total + total_size (mem q) first.chain }

    abbrev pub loop : Run (Queue × Garbage)
    loop = Shared.clean_loop (suc (length xs)) q info

    pub round-gone :
        zeros n seen ≡ 0
        → Cleans q' n
            (cleaned n (capacity q') (head q') xs (preds seen))
            readers
            (Shared.clean_loop (length xs) q' info')
        → Cleans q n (cleaned n (capacity q) (head q) (x ∷ xs) seen) readers loop
    unfolding cleaned
    round-gone all rest =
        let b = base_at q n x xs seen readers log stand found.next found.next_at in
        let ec = capacity_at q n x xs seen readers log stand found.next found.next_at in
        let eh = head_at q n x xs seen readers log stand found.next found.next_at in
        rw (==_true (zeros n seen) 0 all) (
          subst (λ t. Cleans q n t readers loop) (ap₂ (λ a h. cleaned n a h xs (preds seen)) ec eh)
            (record {
              queue = rest.queue;
              info = rest.info;
              cleaned_at = goes_on info (log.counted.0 ∙ all) ∙ rest.cleaned_at;
              log = rest.log;
              cap_at = rest.cap_at;
              start_at = rest.start_at;
              stand = rest.stand;
              same_base = rest.same_base ∙ b.0;
              same_desc = rest.same_desc ∙ b.2;
              same_counter =
                  rest.same_counter
                  ∙ total_at q n x xs seen readers log stand found.next found.next_at;
            }))

    pub round-kept :
        zeros n seen ≢ 0 → Cleans q n (cleaned n (capacity q) (head q) (x ∷ xs) seen) readers loop
    unfolding cleaned
    round-kept some_behind = rw (==_false (zeros n seen) 0 some_behind) (record {
      queue = q;
      info = info;
      cleaned_at = stops info (λ e. some_behind (sym log.counted.0 ∙ e));
      log = log;
      cap_at = refl;
      start_at = refl;
      stand = stand;
      same_base = refl;
      same_desc = refl;
      same_counter = refl;
    })
