-- ===== src/Queue/Topic/Pop.antt =====
-- `pop` of a subscriber of a `shared_queue` (qbus/queue.cpp).
use qbus.Prelude.{
  ℕ, suc, ◌+◌, ◌-◌, ◌^◌, ◌<◌, ◌≡◌, ◌≢◌, ◌∙◌, inl, inr, refl, sym, ap, subst, arith, List, ◌∷◌,
  length, ltb-true, ltb-false, dec_lt, ==_true,
}
use qbus.Bytes.Words.{Apart}
use qbus.Message
use qbus.Message.{Env}
use qbus.Message.Fields.{dec_counter-Apart}
use qbus.Queue.{Queue, mem, data_start, capacity, head}
use qbus.Queue.Header.{SameHeader}
use qbus.Queue.Layout.{Item, first_block, after}
use qbus.Queue.Class
use qbus.Queue.Class.{Class}
use qbus.Queue.Base
use qbus.Queue.Shared
use qbus.Queue.Reader.{Views}
use qbus.Queue.Reader.Pop.{
  Pops, pop-Pops, popped, next_at, same, counter-popped, subscribed-popped, count-popped,
  dec_counter-owed, HoldsAt-eq,
}
use qbus.Queue.Topic.{System, object, own, keep, call, Log, StandsIn, Serves, Answers}
use qbus.Queue.Topic.Walk.{walk, Next, next}
use qbus.Spec.Topic.Zeros.{zeros-some, zeros-le, at-same, at-other}
use qbus.Queue.Topic.Counted.{AreCounted-eq, AreCounted-at}
use qbus.Queue.Topic.Advance.{AreCounted-advance, AreLaid-counter}
use qbus.Queue.Topic.Place.{Log-wear, Views-wear, head-wear, count-wear, keep-readers, Stands-eq}
use qbus.Spec.{Op}
use qbus.Spec.Topic.{Topic, zeros, ◌at◌is◌, advance, answer}

module _ (env : Env) (s : System) (n : ℕ) (t : Topic) (serves : Serves s n t) (i : ℕ)
    (i_in : i < n) where
  abbrev xs : List Item
  xs = t.items

  abbrev k : ℕ
  k = t.seen i

  abbrev q : Queue
  q = object s i

  abbrev d : ℕ
  d = data_start q

  abbrev c : ℕ
  c = capacity q

  abbrev p : ℕ
  p = first_block d c (walk c (head q) xs k)

  log : Log q n xs t.seen
  log = Log-wear s.queue (s.readers i) serves.log

  at_walk : Shared.head q ≡ walk c (head q) xs k
  unfolding capacity head
  at_walk = head-wear s.queue (s.readers i) xs k serves.log (serves.readers i i_in)

  module _ (more : k < length xs) where
    abbrev nx : Next c (head q) xs k
    nx = next c (head q) xs k more

    views : Views q (nx.item ∷ nx.rest)
    views =
        subst (λ l. Views q l) nx.drop_at
          (Views-wear s.queue (s.readers i) xs k serves.log (serves.readers i i_in))

    counter_at : Message.counter (mem q) p ≡ zeros n (λ j. t.seen j - k)
    counter_at = AreCounted-at (mem q) d c (head q) xs n k t.seen more log.counted

    at_p : next_at q ≡ p
    at_p = ap (first_block d c) at_walk

    some_left : 0 < Message.counter (mem q) p
    some_left = omega (arith, counter_at, zeros-some n (λ j. t.seen j - k) i i_in (omega arith))

    small : Message.counter (mem q) p < 2 ^ 32
    small = omega (arith, counter_at, zeros-le n (λ j. t.seen j - k), log.few)

    pops : Pops env q nx.item nx.rest
    pops =
        pop-Pops env q nx.item nx.rest views
          (subst (λ a. 0 < Message.counter (mem q) a) (sym at_p) some_left)
          (subst (λ a. Message.counter (mem q) a < 2 ^ 32) (sym at_p) small)

    abbrev q' : Queue
    q' = popped q (next_at q) pops.desc

    header : SameHeader q q'
    header = same q nx.item nx.rest views pops.desc pops.is_first

    mem_at : mem q' ≡ (Message.dec_counter (mem q) p).1
    unfolding popped
    mem_at = ap (λ a. (Message.dec_counter (mem q) a).1) at_p

    only : (b : ℕ) → Apart (p + 16) 4 b → mem q' b ≡ mem q b
    only b h = ap (λ m. m b) mem_at ∙ dec_counter-Apart (mem q) p b h

    less : Message.counter (mem q') p + 1 ≡ Message.counter (mem q) p
    less = ap (λ m. Message.counter m p + 1) mem_at ∙ dec_counter-owed (mem q) p some_left small

    log_after : Log q' n xs (t.seen at i is k + 1)
    unfolding popped
    log_after = record {
      held =
          HoldsAt-eq (mem q') (ap (λ b. b + 24) header.base) header.capacity_same header.head_same
            header.tail_same header.count_same
            (record {
              ring = log.held.ring;
              laid =
                  AreLaid-counter (mem q) (mem q') d c (head q) xs k log.held.ring.small
                    log.held.ring.head_in log.held.ring.fits more only log.held.laid;
              counted = log.held.counted;
              pulled = inl refl;
            });
      counted =
          AreCounted-eq (mem q') xs n (t.seen at i is k + 1) (ap (λ b. b + 24) header.base)
            header.capacity_same header.head_same
            (AreCounted-advance (mem q) (mem q') d c (head q) xs n i k t.seen log.held.ring.head_in
              log.held.ring.fits more i_in refl only less log.counted);
      subscribed =
          subscribed-popped q nx.item nx.rest views pops.desc pops.is_first ∙ log.subscribed;
      few = log.few;
      before = log.before;
      counter_small = omega (
        arith,
        log.counter_small,
        counter-popped q nx.item nx.rest views pops.desc pops.is_first,
      );
      no_timeout = header.timeout_same ∙ log.no_timeout;
    }

    moved : StandsIn q' xs (k + 1) (own q')
    unfolding popped Shared.count
    moved =
        let r = serves.readers i i_in in
        let before : Shared.count q ≡ length xs - k =
          count-wear s.queue (s.readers i) xs k serves.log r in
        Stands-eq {k = suc k} (ap (λ b. b + 24) header.base) header.capacity_same header.head_same
          refl (omega arith)
          (record {
            seen_le = omega (arith, more);
            place = inr (
                pops.is_first.1
                ∙ ap (λ w. after c w (length nx.item.body)) at_walk
                ∙ sym nx.walk_at);
            left =
                count-popped q nx.item nx.rest views pops.desc pops.is_first
                ∙ ap (λ a. a - 1) before
                ∙ (omega arith);
            own_small = omega arith;
            pulled = inl refl;
          })

    others : (j : ℕ) → j < n → j ≢ i → StandsIn q' xs ((t.seen at i is k + 1) j) (s.readers j)
    unfolding popped capacity head Shared.counter
    others j h ne =
        Stands-eq (ap (λ b. b + 24) header.base) header.capacity_same header.head_same
          (counter-popped q nx.item nx.rest views pops.desc pops.is_first)
          (at-other t.seen i (k + 1) j ne) (serves.readers j h)

    serves_after : Serves (keep s i q') n (record t { seen = t.seen at i is k + 1 })
    unfolding capacity head
    serves_after = record {
      log = log_after;
      cap_at = header.capacity_same ∙ serves.cap_at;
      start_at = header.head_same ∙ serves.start_at;
      readers =
          keep-readers s i n q' (λ j r. StandsIn q' xs ((t.seen at i is k + 1) j) r)
            (Stands-eq refl refl refl refl (at-same t.seen i (k + 1)) moved) others;
    }

  -- A subscriber that has seen everything cannot pop.
  kept : Serves (keep s i q) n t
  unfolding capacity head Shared.counter
  kept = record {
    log = log;
    cap_at = serves.cap_at;
    start_at = serves.start_at;
    readers =
        keep-readers s i n q (λ j r. StandsIn s.queue xs (t.seen j) r) (serves.readers i i_in)
          (λ j h ne. serves.readers j h);
  }

  -- `pop` succeeds exactly if the subscriber has not seen everything, and then it goes on.
  pub pop-Answers : Answers n (answer n t i Op.pop) (call env s i Op.pop)
  unfolding call answer advance Base.pop Class.count
  pop-Answers = elim (dec_lt k (length xs)) [
    | yes more ↦ record {
      system = keep s i (q' more);
      answered_at = rw ((pops more).popped_at, ltb-true k (length xs) more);
      serves = rw (ltb-true k (length xs) more) (serves_after more);
    }
    | no all ↦
        let none_left : Shared.count q ≡ 0 =
          count-wear s.queue (s.readers i) xs k serves.log (serves.readers i i_in)
          ∙ (omega arith) in
        record {
          system = keep s i q;
          answered_at =
              rw (==_true (Shared.count q) 0 none_left, ltb-false k (length xs) (omega arith));
          serves = rw (ltb-false k (length xs) (omega arith)) kept;
        }
  ]
