-- ===== src/Spec.antt =====
-- What a simple queue promises its client: a list of messages, oldest first, in a ring whose space
-- is accounted for. This is written independently of the code of qbus/queue.cpp.
pub mod Topic
pub mod Feed
use qbus.Prelude.{
  ℕ, ◌+◌, ◌%◌, Bool, true, false, List, [], ◌∷◌, ◌++◌, length, Option, none, some, if◌then◌else◌,
  leb,
}
use qbus.Queue.Layout.{Item, used, span, after}

-- The messages held, and where the first one begins in a ring of `cap` bytes.
pub record Fifo : Type 0 where
  pub cap : ℕ
  pub start : ℕ
  pub items : List Item

abbrev pub behind : Fifo → ℕ
behind s = (s.start + span s.cap s.start s.items) % s.cap

-- A message is taken exactly if the bytes in use and its own fit into the ring.
unfoldable pub put : Fifo → Item → Fifo × Bool
put s x =
    if leb (span s.cap s.start s.items + used s.cap (behind s) (length x.body)) s.cap
    then (record s { items = s.items ++ x ∷ [] }, true)
    else (s, false)

abbrev pub oldest : List Item → Option Item
oldest [] = none
oldest (x ∷ xs) = some x

unfoldable pub drop_first : Fifo → List Item → Fifo × Bool
drop_first s [] = (s, false)
drop_first s (x ∷ xs) = (record s { start = after s.cap s.start (length x.body); items = xs }, true)

-- What a client does, and what it sees.
pub data Op : Type 0 where
  push : Item → Op
  get : Op
  pop : Op

pub data Reply : Type 0 where
  pushed : Bool → Reply
  got : Option Item → Reply
  popped : Bool → Reply

unfoldable pub run : Fifo → List Op → List Reply
run s [] = []
run s (push x ∷ ops) = let (s', b) = put s x in pushed b ∷ run s' ops
run s (get ∷ ops) = got (oldest s.items) ∷ run s ops
run s (pop ∷ ops) = let (s', b) = drop_first s s.items in popped b ∷ run s' ops
