-- ===== src/Queue/Write.antt =====
-- `static_make_message` over the free regions of a ring (qbus/message.h, qbus/queue.cpp): a message
-- is written exactly if it fits behind the messages that are there, and these stay as they are.
pub mod Chunks
pub mod Full
pub mod Made
use qbus.Prelude.{
  ℕ, ◌+◌, ◌-◌, ◌%◌, ◌^◌, ◌≤◌, ◌<◌, ◌≡◌, ◌≢◌, ◌∙◌, ap, arith, inl, inr, true, List, [], ◌∷◌, length,
  none, some, Run, done, mod-eq_of_lt,
}
use qbus.Bytes.{Mem}
use qbus.Bytes.Words.{Apart}
use qbus.Message.{Env, World}
use qbus.Message.Chain.Blocks.{Block, chain_of, AreDisjoint, ArePositive, room, Stored}
use qbus.Message.Chain.Headers.{OutOf, with_headers}
use qbus.Message.Make.{Desc, static_make_message, no_message}
use qbus.Queue.{free_region}
use qbus.Queue.Layout.{blocks, used, after, shape, skipped, whole, split, InSpan, wrap_cases}
use qbus.Queue.Layout.Frame.{SameSpan}
use qbus.Queue.Regions.{IsRing, turn, straight, turned}

-- The busy bytes, and all bytes outside the data, are as they were.
pub record Kept (d c hd u : ℕ) (m m' : Mem) : Type 0 where
  pub span : SameSpan m m' d c hd u
  pub outside : (b : ℕ) → Apart d c b → m' b ≡ m b

-- The blocks of a message that fits lie in the free part of the ring.
module _ (d c hd tl cnt u n : ℕ) (ring : IsRing c hd tl cnt u) (fits : used c tl n ≤ c - u) where
  pub OutOf-busy : (x : ℕ) → x < c → InSpan c hd u x → OutOf (blocks d c tl n) (d + x)
  OutOf-busy x h i = elim (turn c hd tl cnt u ring) [
    | straight at_tail below or_empty ↦ elim (shape d c tl n) [
      | skipped p b v f ↦ rw b (ground (arith, ring.fits), tt)
      | whole p q b v f ↦ rw b (ground (arith, ring.fits), tt)
      | split p q b v f ↦ rw b (ground (arith, ring.fits), (ground (arith, ring.fits), tt))
    ]
    | turned at_tail above nonempty ↦ elim (shape d c tl n) [
      | skipped p b v f ↦ rw b (ground (arith, ring.fits), tt)
      | whole p q b v f ↦ rw b (ground (arith, ring.fits), tt)
      | split p q b v f ↦ rw b (ground (arith, ring.fits), (ground (arith, ring.fits), tt))
    ]
  ]

  OutOf-outside : (b : ℕ) → Apart d c b → OutOf (blocks d c tl n) b
  OutOf-outside b h = elim (shape d c tl n) [
    | skipped p e v f ↦ rw e (ground (arith, ring.fits), tt)
    | whole p q e v f ↦ rw e (ground (arith, ring.fits), tt)
    | split p q e v f ↦ rw e (ground (arith, ring.fits), (ground (arith, ring.fits), tt))
  ]

  pub Kept-OutOf :
      (m m' : Mem) → ((x : ℕ) → OutOf (blocks d c tl n) x → m' x ≡ m x) → Kept d c hd u m m'
  Kept-OutOf m m' h = record {
    span = λ x k i. h (d + x) (OutOf-busy x k i);
    outside = λ b k. h b (OutOf-outside b k);
  }

  -- The blocks do not overlap.
  pub AreDisjoint-blocks : AreDisjoint (blocks d c tl n)
  AreDisjoint-blocks = elim (shape d c tl n) [
    | skipped p e v f ↦ rw e (tt, tt)
    | whole p q e v f ↦ rw e (tt, tt)
    | split p q e v f ↦ rw e ((ground (arith, ring.fits), tt), (tt, tt))
  ]
