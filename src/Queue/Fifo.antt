-- ===== src/Queue/Fifo.antt =====
-- A queue as the list of its messages, oldest first: `Holds` says that the header, the data and the
-- pulled message of a queue object of qbus/queue.cpp stand for a list. The children prove what the
-- operations of `simple_queue` do to the list.
pub mod Bounds
pub mod Moves
pub mod Push
pub mod First
pub mod Get
pub mod Pop
pub mod Session
use qbus.Prelude.{ℕ, ◌%◌, ◌≡◌, ◌⊎◌, List, [], ◌∷◌, length}
use qbus.Bytes.{Mem}
use qbus.Message.Chain.Blocks.{chain_of}
use qbus.Message.Make.{Desc}
use qbus.Queue.{Queue, mem, data_start, capacity, head, tail, count}
use qbus.Queue.Layout.{Item, AreLaid, span, blocks, after}
use qbus.Queue.Regions.{IsRing}

-- The description is that of the first message.
abbrev pub IsFirst : ℕ → ℕ → ℕ → Desc → List Item → Type 0
IsFirst d c hd desc [] = ⊥
IsFirst d c hd desc (x ∷ xs) =
    (desc.chain ≡ chain_of (blocks d c hd (length x.body)))
    × (desc.next % c ≡ after c hd (length x.body))

-- The fields of a header, and the memory behind it, for the messages `xs`.
pub record HoldsAt (m : Mem) (d c hd tl cnt : ℕ) (desc : Desc) (xs : List Item) : Type 0 where
  pub ring : IsRing c hd tl cnt (span c hd xs)
  pub laid : AreLaid m d c hd xs
  pub counted : cnt ≡ length xs
  pub pulled : (desc.chain ≡ []) ⊎ IsFirst d c hd desc xs

abbrev pub Holds : Queue → List Item → Type 0
Holds q xs =
    HoldsAt (mem q) (data_start q) (capacity q) (head q) (tail q) (count q) q.message_desc xs
