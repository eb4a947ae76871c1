-- ===== src/Queue/Topic/Clean.antt =====
-- `clean_messages` of a `shared_queue` (qbus/queue.cpp): the messages that every subscriber has seen
-- leave the ring.
use qbus.Prelude.{
  ℕ, ◌+◌, ◌^◌, ◌<◌, ◌≤◌, ◌≡◌, ◌≢◌, ◌∙◌, refl, sym, ap, arith, List, [], ◌∷◌, length, Run, ==_true,
  ==_false, sub32, ℕ_discrete,
}
use qbus.Queue.{Queue, Garbage, no_garbage, capacity, head, count}
use qbus.Queue.Layout.{Item}
use qbus.Queue.Shared
use qbus.Queue.Shared.{no_head}
use qbus.Queue.Fifo.Bounds.{length-span}
use qbus.Queue.Topic.{Local, wear, Log, AllStand}
use qbus.Queue.Topic.Place.{Log-wear}
use qbus.Spec.Topic.{Topic, zeros, preds, cleaned}
use qbus.Queue.Topic.Rest.{after_first, base_at, count-first, Log-rest, AllStand-rest}
use qbus.Queue.Topic.Round.{Cleans, found, round-gone, round-kept}

-- The loop, in an object that reads from the shared head.
pub clean_loop-Cleans :
    (q : Queue) (n : ℕ) (xs : List Item) (seen : ℕ → ℕ) (readers : ℕ → Local) (info : Garbage)
    → q.m_head ≡ no_head
    → Shared.count q ≢ 0
    → Log q n xs seen
    → AllStand q n xs seen readers
    → Cleans q n
        (cleaned n (capacity q) (head q) xs seen)
        readers
        (Shared.clean_loop (length xs) q info)
unfolding Shared.clean_loop cleaned
clean_loop-Cleans q n [] seen readers info own some_left log stand = record {
  queue = q;
  info = info;
  cleaned_at = refl;
  log = log;
  cap_at = refl;
  start_at = refl;
  stand = stand;
  same_base = refl;
  same_desc = refl;
  same_counter = refl;
}
clean_loop-Cleans q n (x ∷ xs) seen readers info own some_left log stand =
    let next = (found q n x xs seen own some_left log).next in
    let next_at = (found q n x xs seen own some_left log).next_at in
    let b = base_at q n x xs seen readers log stand next next_at in
    let still = count-first q n x xs seen readers log stand next next_at in
    elim (ℕ_discrete (zeros n seen) 0) [
      | yes all ↦ round-gone q n x xs seen own some_left log readers stand info all (
          clean_loop-Cleans (after_first q xs next) n xs (preds seen) readers _ (b.3 ∙ own)
            (λ e. some_left (sym still ∙ e)) (Log-rest q n x xs seen readers log stand next next_at)
            (AllStand-rest q n x xs seen readers log stand next next_at all))
      | no some_behind ↦ round-kept q n x xs seen own some_left log readers stand info some_behind
    ]

-- What `clean_messages` leaves: the object's own fields are as they were.
pub record CleansAll (q : Queue) (n : ℕ) (t : Topic) (readers : ℕ → Local)
    (out : Run (Queue × Garbage)) : Type 0 where
  pub cleans : Cleans q n t readers out
  pub same_head : cleans.queue.m_head ≡ q.m_head
  pub same_own : cleans.queue.m_counter ≡ q.m_counter

still_left :
    (total m_counter left : ℕ)
    → total < 2 ^ 32
    → m_counter < 2 ^ 32
    → left + 1 < 2 ^ 32
    → sub32 total m_counter ≡ left
    → sub32 total (sub32 m_counter 1) ≢ 0
still_left total m_counter left h l k e z = omega arith

-- `clean_messages` does what the topic says, whichever subscriber calls it.
pub clean_messages-Cleans :
    (q : Queue) (n : ℕ) (xs : List Item) (seen : ℕ → ℕ) (readers : ℕ → Local)
    → Log q n xs seen
    → AllStand q n xs seen readers
    → Shared.count q ≤ length xs
    → q.m_counter < 2 ^ 32
    → CleansAll q n (cleaned n (capacity q) (head q) xs seen) readers (Shared.clean_messages q)
unfolding Shared.clean_messages cleaned capacity head Shared.counter Shared.count
clean_messages-Cleans q n [] seen readers log stand le small = record {
  cleans = record {
    queue = q;
    info = no_garbage;
    cleaned_at = rw (==_true (count q) 0 log.held.counted);
    log = log;
    cap_at = refl;
    start_at = refl;
    stand = stand;
    same_base = refl;
    same_desc = refl;
    same_counter = refl;
  };
  same_head = refl;
  same_own = refl;
}
clean_messages-Cleans q n (x ∷ xs) seen readers log stand le small =
    let loc : Local = record {
      m_head = no_head;
      m_counter = sub32 q.m_counter 1;
      message_desc = q.message_desc;
    } in
    let q1 = wear q loc in
    let room = length-span (capacity q) (head q) (x ∷ xs) in
    let all =
      clean_loop-Cleans q1 n (x ∷ xs) seen readers no_garbage refl
        (still_left (Shared.counter q) q.m_counter (Shared.count q) log.counter_small small
          (omega (arith, le, room, log.held.ring.fits, log.held.ring.small)) refl)
        (Log-wear q loc log) stand in
    let back : Local = record {
      m_head = q.m_head;
      m_counter = q.m_counter;
      message_desc = all.queue.message_desc;
    } in
    record {
      cleans = record {
        queue = wear all.queue back;
        info = all.info;
        cleaned_at = rw (
          ==_false (count q) 0 (λ z. omega (arith, log.held.counted)),
          ap (λ k. Shared.clean_loop k q1 no_garbage) log.held.counted ∙ all.cleaned_at,
        );
        log = Log-wear all.queue back all.log;
        cap_at = all.cap_at;
        start_at = all.start_at;
        stand = all.stand;
        same_base = all.same_base;
        same_desc = all.same_desc;
        same_counter = all.same_counter;
      };
      same_head = refl;
      same_own = refl;
    }
