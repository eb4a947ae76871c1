-- ===== src/Queue/Topic/Push.antt =====
-- `push_message` and the end of `do_push` of a `shared_queue` (qbus/queue.cpp): a message that fits is
-- put behind the others, counts all subscribers, and comes before each of them.
use qbus.Prelude.{
  ℕ, ◌+◌, ◌-◌, ◌^◌, ◌<◌, ◌≤◌, ◌≡◌, ◌∙◌, inl, refl, ap, arith, Bool, true, false, List, [], ◌∷◌,
  ◌++◌, length, Run, done, ◌>>=◌,
}
use qbus.Bytes.Words.{read32-Agree}
use qbus.Message.{Env}
use qbus.Message.Make.{no_message}
use qbus.Queue
use qbus.Queue.{Queue, mem, with_mem, data_start, capacity, head, tail, count, keepalive_timeout}
use qbus.Queue.Header.{SameHeader-Agree}
use qbus.Queue.Layout.{Item, first_block, used, span}
use qbus.Queue.Write.Made.{make_fit, make_full}
use qbus.Queue.Shared
use qbus.Queue.Base.{commit}
use qbus.Queue.Fifo.Moves.{HoldsAt-same}
use qbus.Queue.Fifo.Bounds.{chain_starts}
use qbus.Queue.Fifo.Push.{commit_lem}
use qbus.Queue.Reader.Pop.{HoldsAt-eq}
use qbus.Queue.Topic.{Local, own, Log, AllStand}
use qbus.Queue.Topic.Counted.{AreCounted-eq, AreCounted-SameSpan}
use qbus.Queue.Topic.Place.{Stands-eq}
use qbus.Queue.Topic.Told.{count_message_lem}
use qbus.Queue.Topic.Pushed.{w1, desc, q', shared_at, cap_at, start_at, Log-pushed, AllStand-pushed}

-- What a push that succeeds leaves.
pub record Appends (q : Queue) (n : ℕ) (xs : List Item) (seen : ℕ → ℕ) (readers : ℕ → Local)
    (out : Run (Queue × Bool)) (b : Bool) : Type 0 where
  pub queue : Queue
  pub appended_at : out ≡ done (queue, b)
  pub log : Log queue n xs seen
  pub cap_same : capacity queue ≡ capacity q
  pub start_same : head queue ≡ head q
  pub stand : AllStand queue n xs seen readers
  pub same_own : own queue ≡ own q

-- What follows the cleaning in `do_push`.
abbrev pub push_rest : Env → Queue → Item → Run (Queue × Bool)
push_rest env q x = do
  made ← Shared.push_message env (Queue.get_free_region q) q x.body
  done (commit x.tag made)

module _ (env : Env) (q : Queue) (n : ℕ) (xs : List Item) (seen : ℕ → ℕ) (readers : ℕ → Local)
    (log : Log q n xs seen) (stand : AllStand q n xs seen readers) (x : Item)
    (some_data : 0 < length x.body) (tag_small : x.tag < 2 ^ 32) where
  pub push_rest-fit :
      used (capacity q) (tail q) (length x.body) ≤ capacity q - span (capacity q) (head q) xs
      → Appends q n (xs ++ x ∷ []) seen readers (push_rest env q x) true
  unfolding Shared.push_message Queue.get_free_region
  push_rest-fit fits =
      let c = capacity q in
      let made =
        make_fit env (data_start q) c (head q) (tail q) (count q) (span c (head q) xs) q.world
          x.body log.held.ring some_data fits in
      let ch = chain_starts (data_start q) c (tail q) (length x.body) in
      let w = w1 env q n xs seen readers log stand x some_data tag_small fits made in
      let de = desc env q n xs seen readers log stand x some_data tag_small fits made in
      let p0 = first_block (data_start q) c (tail q) in
      record {
        queue = q' env q n xs seen readers log stand x some_data tag_small fits made;
        appended_at = rw made.made_at (
            ap done (
              ap (λ a. commit x.tag (a, de))
                (ap (Shared.count_message (record q { world = made.world })) ch.at
                  ∙ count_message_lem q made.world p0 ch.others)
              ∙ commit_lem q w p0 ch.others de x.tag ch.at));
        log = Log-pushed env q n xs seen readers log stand x some_data tag_small fits made;
        cap_same = cap_at env q n xs seen readers log stand x some_data tag_small fits made;
        start_same = start_at env q n xs seen readers log stand x some_data tag_small fits made;
        stand = AllStand-pushed env q n xs seen readers log stand x some_data tag_small fits made;
        same_own = (shared_at env q n xs seen readers log stand x some_data tag_small fits made).1;
      }

  pub push_rest-full :
      capacity q - span (capacity q) (head q) xs < used (capacity q) (tail q) (length x.body)
      → Appends q n xs seen readers (push_rest env q x) false
  unfolding Shared.push_message Queue.get_free_region commit Shared.count_message Shared.counter
      Shared.subscriptions_count
  push_rest-full full =
      let r =
        make_full env (data_start q) (capacity q) (head q) (tail q) (count q)
          (span (capacity q) (head q) xs) q.world x.body log.held.ring some_data full in
      let q' = record q { world = r.world } in
      let same = SameHeader-Agree q q' refl (λ b l h. r.kept.outside b (inl h)) in
      let d = data_start q in
      let same_span = r.kept.span in
      let total =
        read32-Agree (mem q) (mem q') (q.shared + 4)
          (λ b l h. r.kept.outside b (inl (omega (arith, log.before)))) in
      record {
        queue = q';
        appended_at = rw r.not_made;
        log = record {
          held =
              HoldsAt-eq (mem q') refl same.capacity_same same.head_same same.tail_same
                same.count_same
                (HoldsAt-same (mem q) (mem q') d (capacity q) (head q) (tail q) (count q) no_message
                  xs log.held same_span);
          counted = AreCounted-eq (mem q') xs n seen refl same.capacity_same same.head_same (
              AreCounted-SameSpan (mem q) (mem q') d (capacity q) (head q) xs n seen
                log.held.ring.head_in log.held.ring.fits same_span log.counted);
          subscribed =
              read32-Agree (mem q) (mem q') (q.shared + 0)
                (λ b l h. r.kept.outside b (inl (omega (arith, log.before))))
              ∙ log.subscribed;
          few = log.few;
          before = log.before;
          counter_small = omega (arith, total, log.counter_small);
          no_timeout = same.timeout_same ∙ log.no_timeout;
        };
        cap_same = same.capacity_same;
        start_same = same.head_same;
        stand = λ i h. Stands-eq refl same.capacity_same same.head_same total refl (stand i h);
        same_own = refl;
      }
