-- ===== src/Queue/Topic/Get.antt =====
-- `get` of a subscriber of a `shared_queue` (qbus/queue.cpp).
use qbus.Prelude.{ℕ, ◌<◌, ◌≡◌, ◌⊎◌, subst, List, [], drop}
use qbus.Message.{Env}
use qbus.Queue.{Queue, data_start, capacity, head}
use qbus.Queue.Layout.{Item}
use qbus.Queue.Class.{Class}
use qbus.Queue.Base
use qbus.Queue.Shared
use qbus.Queue.Fifo.{IsFirst}
use qbus.Queue.Fifo.Session.{read_item, read_item-Carries}
use qbus.Queue.Reader.Pop.{Gets, get-Gets_shared}
use qbus.Queue.Topic.{Local, System, object, keep, call, StandsIn, Serves, Answers}
use qbus.Queue.Topic.Place.{Log-wear, Views-wear, head-wear, keep-readers}
use qbus.Spec.{Op}
use qbus.Spec.Topic.{Topic, answer}

module _ (env : Env) (s : System) (n : ℕ) (t : Topic) (serves : Serves s n t) (i : ℕ)
    (i_in : i < n) where
  abbrev xs : List Item
  xs = t.items

  abbrev k : ℕ
  k = t.seen i

  abbrev q : Queue
  q = object s i

  got : Gets q (drop k xs) (Base.get Class.shared env q)
  got =
      get-Gets_shared env q (drop k xs)
        (Views-wear s.queue (s.readers i) xs k serves.log (serves.readers i i_in))

  abbrev mine : Local
  mine = record (s.readers i) { message_desc = got.desc }

  abbrev q' : Queue
  q' = record q { message_desc = got.desc }

  stands_still : StandsIn s.queue xs k mine
  unfolding capacity head Shared.head
  stands_still =
      let r = serves.readers i i_in in
      record {
        seen_le = r.seen_le;
        place = r.place;
        left = r.left;
        own_small = r.own_small;
        pulled =
            subst
              (λ h.
                (got.desc.chain ≡ []) ⊎ IsFirst (data_start q) (capacity q) h got.desc (drop k xs))
              (head-wear s.queue (s.readers i) xs k serves.log r) got.views_still.held.pulled;
      }

  serves_still : Serves (keep s i q') n t
  unfolding capacity head Shared.counter
  serves_still = record {
    log = Log-wear s.queue mine serves.log;
    cap_at = serves.cap_at;
    start_at = serves.start_at;
    readers =
        keep-readers s i n q' (λ j r. StandsIn s.queue xs (t.seen j) r) stands_still
          (λ j h ne. serves.readers j h);
  }

  -- The subscriber sees the oldest message that it has not seen.
  pub get-Answers : Answers n (answer n t i Op.get) (call env s i Op.get)
  unfolding call answer read_item
  get-Answers = record {
    system = keep s i q';
    answered_at = rw (got.got_at, read_item-Carries q got.chain (drop k xs) got.carries);
    serves = serves_still;
  }
