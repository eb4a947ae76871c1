-- ===== src/Tests/Queues.antt =====
-- Runs of the queues and the messages at concrete inputs.
use qbus.Prelude.{
  ℕ, ◌+◌, ◌^◌, zero, suc, ◌-◌, ◌≡◌, refl, arith, inl, inr, true, false, List, [], ◌∷◌, Run, done,
  ◌>>=◌,
}
use qbus.Message.{Env, World}
use qbus.Message
use qbus.Message.Fields
use qbus.Message.Chain.{pack, unpack}
use qbus.Message.Chain.Blocks.{Block, HasCaps, AreDisjoint}
use qbus.Message.Chain.Laws
use qbus.Bytes.{Mem, read32, write32}
use qbus.Queue.{Queue, mem}
use qbus.Queue.Layout.{Item}
use qbus.Queue.Fifo.Session
use qbus.Queue.Fifo.Session.{Refines, AreItems}
use qbus.Queue.Open.Fresh
use qbus.Queue.Open.Fresh.{create_simple-Refines}
use qbus.Spec
use qbus.Spec.{Op}
use qbus.Queue.Class.{Class}
use qbus.Queue.Base
use qbus.Queue.Open

abbrev pub env : Env
env = record { sid = 7; clock = λ k. 100 + k }

abbrev pub blank : World
blank = record { mem = λ _. 0; ticks = 0 }

-- Two messages in a queue of 70 bytes; after the first is popped, a third one goes round the end.
session : Run (List ℕ × List ℕ)
session = do
  q ← Open.create_simple blank 1 1000 70
  (q, a) ← Base.push Class.simple env q 5 (1 ∷ 2 ∷ 3 ∷ [])
  (q, b) ← Base.push Class.simple env q 6 (4 ∷ 5 ∷ [])
  (q, c) ← Base.get Class.simple env q
  (q, d) ← Base.pop Class.simple env q
  let first = unpack (mem q) c
  (q, e) ← Base.push Class.simple env q 8 (9 ∷ [])
  (q, f) ← Base.pop Class.simple env q
  (q, g) ← Base.get Class.simple env q
  done (first, unpack (mem q) g)

-- The same calls, as operations of a client.
abbrev pub calls : List Op
calls =
    Op.push (record { tag = 5; body = 1 ∷ 2 ∷ 3 ∷ [] })
    ∷ Op.push (record { tag = 6; body = 4 ∷ 5 ∷ [] })
    ∷ Op.get
    ∷ Op.pop
    ∷ Op.push (record { tag = 8; body = 9 ∷ [] })
    ∷ Op.pop
    ∷ Op.get
    ∷ []

pub calls-AreItems : AreItems calls
calls-AreItems =
    ((omega arith, omega arith), ((omega arith, omega arith), ((omega arith, omega arith), tt)))

create-run_example :
    (Open.create_simple blank 1 1000 70 >>= λ q. Session.run env q calls)
    ≡ done (Spec.run (record { cap = 70; start = 0; items = [] }) calls)
create-run_example =
    Fresh.create-run env blank 1 1000 70 calls (omega arith) (omega arith) calls-AreItems

abbrev pub made : Queue
made = (create_simple-Refines blank 1 1000 70 (omega arith) (omega arith)).0

pub made-Refines : Refines made (record { cap = 70; start = 0; items = [] })
made-Refines = (create_simple-Refines blank 1 1000 70 (omega arith) (omega arith)).2

run-Refines_example :
    Session.run env made calls ≡ done (Spec.run (record { cap = 70; start = 0; items = [] }) calls)
run-Refines_example = Session.run-Refines env made _ calls made-Refines calls-AreItems

abbrev item : ℕ → Item
item n = record { tag = 5; body = n ∷ 2 ∷ 3 ∷ [] }

push_room_example :
    (q' : Queue) × (Base.push Class.simple env made 5 (1 ∷ 2 ∷ 3 ∷ []) ≡ done (q', true))
push_room_example =
    Session.push_room env made _ (item 1) made-Refines (omega arith, omega arith) (omega arith)

abbrev zeros : ℕ → List ℕ
zeros zero = []
zeros (suc n) = 0 ∷ zeros n

push_without_room_example :
    (q' : Queue) × (Base.push Class.simple env made 5 (zeros 47) ≡ done (q', false))
    × Refines q' (record { cap = 70; start = 0; items = [] })
push_without_room_example =
    Session.push_without_room env made _ (record { tag = 5; body = zeros 47 }) made-Refines
      (omega arith, omega arith) (omega arith)

-- A memory with two free blocks, of 3 and of 2 bytes.
abbrev two_blocks : Mem
two_blocks = write32 (write32 (λ _. 0) 104 3) 154 2

abbrev first : Block
first = record { start = 100; cap = 3 }

abbrev second : Block
second = record { start = 150; cap = 2 }

abbrev five : List ℕ
five = 1 ∷ 2 ∷ 3 ∷ 4 ∷ 5 ∷ []

two_blocks-HasCaps : HasCaps two_blocks (first ∷ second ∷ [])
unfolding Message.capacity read32 write32
two_blocks-HasCaps = (refl, (refl, tt))

two_blocks-AreDisjoint : AreDisjoint (first ∷ second ∷ [])
two_blocks-AreDisjoint = ((inl (omega arith), tt), (tt, tt))

unpack-pack_example :
    ((pack two_blocks (100 ∷ 150 ∷ []) five).0 ≡ 5)
    × (unpack (pack two_blocks (100 ∷ 150 ∷ []) five).1 (100 ∷ 150 ∷ []) ≡ five)
unpack-pack_example =
    Laws.unpack-pack two_blocks first (second ∷ []) five two_blocks-HasCaps two_blocks-AreDisjoint
      (omega arith, tt) refl

pack_apart_example : (pack two_blocks (100 ∷ 150 ∷ []) five).1 127 ≡ two_blocks 127
pack_apart_example =
    Laws.pack_apart two_blocks first (second ∷ []) five 127 two_blocks-HasCaps
      two_blocks-AreDisjoint (omega arith, tt) refl
      ((inr (omega arith), inr (omega arith)), ((inl (omega arith), inl (omega arith)), tt))

-- A memory in which the counter of the message at 100 is the greatest one.
abbrev full : Mem
full = Message.set_counter (λ _. 0) 100 (2 ^ 32 - 1)

dec_counter-inc_counter_example :
    let (up, m') = Message.inc_counter full 100 in
    let (down, m'') = Message.dec_counter m' 100 in
    (down ≡ Message.counter full 100) × (Message.counter m'' 100 ≡ Message.counter full 100)
unfolding Message.counter read32 Message.set_counter write32
dec_counter-inc_counter_example = Fields.dec_counter-inc_counter full 100 (omega arith)
