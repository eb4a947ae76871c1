-- ===== src/Queue/Fifo/First.antt =====
-- The first message of a ring that is not empty is found (`static_get_message` of qbus/message.h over
-- the busy regions of qbus/queue.cpp).
use qbus.Prelude.{ℕ, inl, inr, List, ◌∷◌, length, arith}
use qbus.Bytes.{Mem}
use qbus.Message.Make.{Desc}
use qbus.Queue.Layout.{Item, span}
use qbus.Queue.Regions.{turn, straight, turned}
use qbus.Queue.Read.{Reads, Found, read_first}
use qbus.Queue.Fifo.{HoldsAt}

module _ (m : Mem) (d c hd tl cnt : ℕ) (desc : Desc) (x : Item) (xs : List Item)
    (h : HoldsAt m d c hd tl cnt desc (x ∷ xs)) where
  pub ring_reads : Reads c hd tl (span c hd (x ∷ xs)) (length x.body)
  ring_reads = record {
    small = h.ring.small;
    head_in = h.ring.head_in;
    fits = h.ring.fits;
    tail_at = elim (turn c hd tl cnt _ h.ring) [
      | straight at_tail below or_empty ↦ inl (at_tail, below)
      | turned at_tail above nonempty ↦ inr (at_tail, above)
    ];
    holds = omega arith;
    some_data = h.laid.0.2;
  }

  pub ring_first : Found m d c hd tl (span c hd (x ∷ xs)) x ring_reads h.laid.0.0
  ring_first = read_first m d c hd tl (span c hd (x ∷ xs)) x ring_reads h.laid.0.0
