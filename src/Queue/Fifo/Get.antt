-- ===== src/Queue/Fifo/Get.antt =====
-- `get` of qbus/queue.cpp on a `simple_queue`: it returns the oldest message, tag and data, and
-- keeps its description for `pop`.
use qbus.Prelude.{
  ℕ, ◌≡◌, ◌≢◌, ◌∙◌, inr, refl, ap, arith, true, List, [], ◌∷◌, length, Run, done, ==_true, ==_false,
}
use qbus.Message
use qbus.Message.{Env, Pmessage}
use qbus.Message.Chain.{unpack}
use qbus.Message.Chain.Blocks.{chain_of, unpack-Stored}
use qbus.Message.Make.{Desc}
use qbus.Queue.{Queue, mem, data_start, capacity, head, tail, count}
use qbus.Queue.Layout.{Item, blocks, first_block}
use qbus.Queue.Class
use qbus.Queue.Class.{Class}
use qbus.Queue.Simple
use qbus.Queue.Base.{get}
use qbus.Queue.Fifo.{Holds, IsFirst}
use qbus.Queue.Fifo.First.{ring_first}
use qbus.Queue.Fifo.Moves.{Holds-desc}
use qbus.Queue.Fifo.Bounds.{chain_starts}

-- The chain is null exactly if there is no message, and otherwise it carries the oldest one.
abbrev pub Carries : Queue → Pmessage → List Item → Type 0
Carries q chain [] = chain ≡ []
Carries q chain (x ∷ xs) =
    (unpack (mem q) chain ≡ x.body)
    × (p : ℕ) × (rest : Pmessage) × (chain ≡ p ∷ rest)
    × (Message.tag (mem q) p ≡ x.tag)

module _ (q : Queue) (x : Item) (xs : List Item) (holds : Holds q (x ∷ xs)) where
  count-ne : count q ≢ 0
  count-ne e = omega (arith, holds.counted)

  -- The description that `get_message` makes.
  pub record First : Type 0 where
    pub desc : Desc
    pub first_at : Simple.get_message q ≡ done desc
    pub is_first : IsFirst (data_start q) (capacity q) (head q) desc (x ∷ xs)

  pub get_first : First
  unfolding Simple.get_message
  get_first =
      let f =
        ring_first (mem q) (data_start q) (capacity q) (head q) (tail q) (count q) q.message_desc x
          xs holds in
      record {
        desc = record {
          chain = chain_of (blocks (data_start q) (capacity q) (head q) (length x.body));
          next = f.next;
        };
        first_at = rw (==_false (count q) 0 count-ne) f.found_at;
        is_first = (refl, f.next_at);
      }

  pub first-Carries :
      (desc : Desc)
      → IsFirst (data_start q) (capacity q) (head q) desc (x ∷ xs)
      → Carries q desc.chain (x ∷ xs)
  first-Carries desc f =
      let s = chain_starts (data_start q) (capacity q) (head q) (length x.body) in
      (
        ap (unpack (mem q)) f.0 ∙ unpack-Stored true (mem q) _ x.body holds.laid.0.0,
        first_block (data_start q) (capacity q) (head q),
        s.others,
        f.0 ∙ s.at,
        holds.laid.0.1,
      )

-- What `get` leaves and returns.
pub record Gets (q : Queue) (xs : List Item) (out : Run (Queue × Pmessage)) : Type 0 where
  pub desc : Desc
  pub chain : Pmessage
  pub got_at : out ≡ done (record q { message_desc = desc }, chain)
  pub carries : Carries q chain xs
  pub holds_still : Holds (record q { message_desc = desc }) xs

-- `get` changes nothing but the kept description, and returns the oldest message.
pub get-Gets :
    (env : Env) (q : Queue) (xs : List Item) → Holds q xs → Gets q xs (get Class.simple env q)
unfolding get Class.count Class.get_message
get-Gets env q [] holds = record {
  desc = q.message_desc;
  chain = [];
  got_at = rw (==_true (count q) 0 holds.counted);
  carries = refl;
  holds_still = holds;
}
get-Gets env q (x ∷ xs) holds =
    let f = get_first q x xs holds in
    record {
      desc = f.desc;
      chain = f.desc.chain;
      got_at = rw (==_false (count q) 0 (count-ne q x xs holds), f.first_at);
      carries = first-Carries q x xs holds f.desc f.is_first;
      holds_still = Holds-desc q (record {
        ring = holds.ring;
        laid = holds.laid;
        counted = holds.counted;
        pulled = inr f.is_first;
      });
    }
