-- ===== src/Queue/Reader.antt =====
-- A reader of a `shared_queue` (qbus/queue.cpp): an object with a head and a counter of its own over
-- the header and the ring that all processes share. `Views` says which messages it has before it.
pub mod Pop
pub mod Session
use qbus.Prelude.{
  ℕ, ◌+◌, ◌^◌, ◌≤◌, ◌<◌, ◌≡◌, ◌≢◌, ◌∙◌, inl, inr, refl, ap, arith, true, List, [], ◌∷◌, length,
  done, ==_false,
}
use qbus.Bytes.{Mem}
use qbus.Bytes.Words.{Agree, read32-Agree}
use qbus.Message
use qbus.Message.Chain.{unpack}
use qbus.Message.Chain.Blocks.{chain_of, unpack-Stored}
use qbus.Message.Make.{Desc}
use qbus.Queue.{Queue, mem, data_start, capacity, tail}
use qbus.Queue.Layout.{Item, blocks, first_block, span, used, after, InSpan-mono, InSpan-after}
use qbus.Queue.Layout.Frame.{SameSpan, Agree-first}
use qbus.Queue.Shared
use qbus.Queue.Fifo.{HoldsAt, IsFirst}
use qbus.Queue.Fifo.First.{ring_first}
use qbus.Queue.Fifo.Get.{Carries}
use qbus.Queue.Fifo.Bounds.{chain_starts}

-- The messages that the object has not read, oldest first.
pub record Views (q : Queue) (xs : List Item) : Type 0 where
  pub held :
      HoldsAt
        (mem q)
        (data_start q)
        (capacity q)
        (Shared.head q)
        (tail q)
        (Shared.count q)
        q.message_desc
        xs
  pub before : q.shared + 8 ≤ q.base
  pub counter_small : Shared.counter q < 2 ^ 32
  pub own_small : q.m_counter < 2 ^ 32

-- Readers are still counted on each of the messages that lie from `t` on.
abbrev pub AreOwed : Mem → ℕ → ℕ → ℕ → List Item → Type 0
AreOwed m d c t [] = Unit
AreOwed m d c t (x ∷ xs) =
    ((0 < Message.counter m (first_block d c t)) × (Message.counter m (first_block d c t) < 2 ^ 32))
    × AreOwed m d c (after c t (length x.body)) xs

abbrev pub Owes : Queue → List Item → Type 0
Owes q xs = AreOwed (mem q) (data_start q) (capacity q) (Shared.head q) xs

pub counter-Agree :
    (m m' : Mem) (p : ℕ) → Agree m m' p 24 → Message.counter m' p ≡ Message.counter m p
unfolding Message.counter
counter-Agree m m' p h = read32-Agree m m' (p + 16) (λ b l k. h b (omega arith) (omega arith))

pub AreOwed-SameSpan :
    (m m' : Mem) (d c t : ℕ) (xs : List Item)
    → t < c
    → span c t xs ≤ c
    → SameSpan m m' d c t (span c t xs)
    → AreOwed m d c t xs
    → AreOwed m' d c t xs
AreOwed-SameSpan m m' d c t [] h k same owed = tt
AreOwed-SameSpan m m' d c t (x ∷ xs) h k same owed =
    let u = used c t (length x.body) in
    let v = span c (after c t (length x.body)) xs in
    let e = counter-Agree m m' (first_block d c t) (
      Agree-first m m' d c t (length x.body) h (omega arith)
        (λ y l i. same y l (InSpan-mono c t u (u + v) y (omega arith) i))) in
    (
      (omega (arith, e, owed.0.0), omega (arith, e, owed.0.1)),
      AreOwed-SameSpan m m' d c (after c t (length x.body)) xs (omega arith) (omega arith)
          (λ y l i. same y l (InSpan-after c t u v y h k l i)) owed.1,
    )

module _ (q : Queue) (x : Item) (xs : List Item) (v : Views q (x ∷ xs)) where
  abbrev hd : ℕ
  hd = Shared.head q

  abbrev d : ℕ
  d = data_start q

  abbrev c : ℕ
  c = capacity q

  abbrev n : ℕ
  n = length x.body

  abbrev p : ℕ
  p = first_block d c hd

  pub count-ne : Shared.count q ≢ 0
  count-ne e = omega (arith, v.held.counted)

  pub record First : Type 0 where
    pub desc : Desc
    pub first_at : Shared.get_message q ≡ done desc
    pub is_first : IsFirst d c hd desc (x ∷ xs)

  pub get_first : First
  unfolding Shared.get_message Shared.get_busy_region
  get_first =
      let f = ring_first (mem q) d c hd (tail q) (Shared.count q) q.message_desc x xs v.held in
      record {
        desc = record { chain = chain_of (blocks d c hd n); next = f.next };
        first_at = rw (==_false (Shared.count q) 0 count-ne) f.found_at;
        is_first = (refl, f.next_at);
      }

  pub first-Carries : (desc : Desc) → IsFirst d c hd desc (x ∷ xs) → Carries q desc.chain (x ∷ xs)
  first-Carries desc f =
      let s = chain_starts d c hd n in
      (
        ap (unpack (mem q)) f.0 ∙ unpack-Stored true (mem q) _ x.body v.held.laid.0.0,
        p,
        s.others,
        f.0 ∙ s.at,
        v.held.laid.0.1,
      )
