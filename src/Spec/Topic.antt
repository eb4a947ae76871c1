-- ===== src/Spec/Topic.antt =====
-- What a shared queue promises its subscribers: a list of messages in a ring, and for each of `n`
-- subscribers how many of the messages it has seen. A message leaves the ring when a new one is
-- published after all subscribers have seen it. This is written independently of qbus/queue.cpp.
pub mod Zeros
use qbus.Prelude.{
  ℕ, zero, suc, ◌+◌, ◌-◌, ◌%◌, Bool, true, false, List, [], ◌∷◌, ◌++◌, length, drop, if◌then◌else◌,
  leb, ltb, ◌==◌,
}
use qbus.Queue.Layout.{Item, used, span, after}
use qbus.Spec.{Op, Reply, oldest}

pub record Topic : Type 0 where
  pub cap : ℕ
  pub start : ℕ
  pub items : List Item
  pub seen : ℕ → ℕ

-- How many of the first `n` subscribers have seen nothing of what is left.
abbrev pub zeros : ℕ → (ℕ → ℕ) → ℕ
zeros zero f = 0
zeros (suc n) f = (if f n == 0 then 1 else 0) + zeros n f

-- After the oldest message has left the ring.
abbrev pub preds : (ℕ → ℕ) → ℕ → ℕ
preds f i = f i - 1

infix 50 ◌at◌is◌
abbrev pub ◌at◌is◌ {ℓ} : {A : Type ℓ} → (ℕ → A) → ℕ → A → ℕ → A
(f at i is v) j = if j == i then v else f j

-- The messages that every subscriber has seen leave the ring.
unfoldable pub cleaned : ℕ → ℕ → ℕ → List Item → (ℕ → ℕ) → Topic
cleaned n cap start [] seen = record { cap = cap; start = start; items = []; seen = seen }
cleaned n cap start (x ∷ xs) seen =
    if zeros n seen == 0
    then cleaned n cap (after cap start (length x.body)) xs (preds seen)
    else record { cap = cap; start = start; items = x ∷ xs; seen = seen }

abbrev pub behind : Topic → ℕ
behind t = (t.start + span t.cap t.start t.items) % t.cap

-- A message is taken exactly if the bytes in use and its own fit into the ring.
unfoldable pub placed : Topic → Item → Topic × Bool
placed t x =
    if leb (span t.cap t.start t.items + used t.cap (behind t) (length x.body)) t.cap
    then (record t { items = t.items ++ x ∷ [] }, true)
    else (t, false)

unfoldable pub publish : ℕ → Topic → Item → Topic × Bool
publish n t x = placed (cleaned n t.cap t.start t.items t.seen) x

-- The subscriber `i` goes on to its next message, if there is one.
unfoldable pub advance : Topic → ℕ → Topic × Bool
advance t i =
    if ltb (t.seen i) (length t.items)
    then (record t { seen = t.seen at i is t.seen i + 1 }, true)
    else (t, false)

-- What the subscriber `i` does, and what it sees.
unfoldable pub answer : ℕ → Topic → ℕ → Op → Topic × Reply
answer n t i (Op.push x) = let (t', b) = publish n t x in (t', Reply.pushed b)
answer n t i Op.get = (t, Reply.got (oldest (drop (t.seen i) t.items)))
answer n t i Op.pop = let (t', b) = advance t i in (t', Reply.popped b)

unfoldable pub answers : ℕ → Topic → List (ℕ × Op) → Topic × List Reply
answers n t [] = (t, [])
answers n t ((i, op) ∷ calls) =
    let (t1, r) = answer n t i op in let (t2, rs) = answers n t1 calls in (t2, r ∷ rs)

-- The topic of `cap` bytes that nothing has been published to.
abbrev pub empty : ℕ → Topic
empty cap = record { cap = cap; start = 0; items = []; seen = λ i. 0 }
