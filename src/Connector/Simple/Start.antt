-- ===== src/Connector/Simple/Start.antt =====
-- Creating and opening a connector over a `simple_queue` (qbus/connector.h, qbus/connector.cpp).
use qbus.Prelude.{ℕ, ◌<◌, ◌≡◌, ◌^◌, inl, refl, true, false, [], Option, none, some, Run, done}
use qbus.Timespec.{Timespec}
use qbus.Message.{Env, World}
use qbus.Queue
use qbus.Queue.{Queue, capacity, head, tail, count, keepalive_timeout}
use qbus.Queue.Open.{open_simple}
use qbus.Queue.Open.Fresh.{create_simple-Refines}
use qbus.Queue.Fifo.Session.{Refines}
use qbus.Spec.{Fifo}
use qbus.Connector
use qbus.Connector.{Connector, Direction, con_in, con_out, con_bidir}
use qbus.Connector.Simple.{
  Cell, closed, Mapping, do_create, do_open, create_queue, open_queue, make_queue, attach_queue,
  with_timeout, memory_size,
}
use qbus.Connector.Simple.Session.{virtuals, over}

-- A connector before it has been created or opened.
abbrev pub fresh : World → Direction → ℕ → Connector (Run Cell)
fresh w d ticks = record { state = done (closed w); direction = d; opened = false; ticks = ticks }

-- A queue object that is opened over the header of another one stands for the same list.
open_simple-Refines : (q : Queue) (s : Fifo) → Refines q s → Refines (open_simple q.world q.base) s
unfolding open_simple capacity head tail count keepalive_timeout
open_simple-Refines q s r = record {
  holds = record {
    ring = r.holds.ring;
    laid = r.holds.laid;
    counted = r.holds.counted;
    pulled = inl refl;
  };
  cap_at = r.cap_at;
  start_at = r.start_at;
  no_timeout = r.no_timeout;
}

module _ {P : Type 0} (mapping : Mapping) (env : Env) (clock : ℕ → Timespec) (w w' : World)
    (ptr ticks : ℕ) (parent : Option P) where
  -- `create` of a connector without keep-alive returns true, and the connector has an empty queue,
  -- if the memory can be created and the size is a `uint32_t` other than 0.
  pub create-Refines :
      (d : Direction) (cid size : ℕ)
      → mapping.create w (Queue.static_size size) ≡ (w', some ptr)
      → 0 < size
      → size < 2 ^ 32
      → (q : Queue) × (Connector.create
            (virtuals mapping env d)
            clock
            (fresh w d ticks)
            cid
            size
            none
            parent
          ≡ (over q d ticks, true))
        × Refines q (record { cap = size; start = 0; items = [] })
  unfolding Connector.create do_create create_queue make_queue memory_size with_timeout
  create-Refines con_in cid size mapped positive small =
      let c = create_simple-Refines w' cid ptr size positive small in (c.0, rw (mapped, c.1), c.2)
  create-Refines con_out cid size mapped positive small =
      let c = create_simple-Refines w' cid ptr size positive small in (c.0, rw (mapped, c.1), c.2)
  create-Refines con_bidir cid size mapped positive small =
      let c = create_simple-Refines w' cid ptr size positive small in (c.0, rw (mapped, c.1), c.2)

  -- `open` of a connector returns true, and the connector stands for the list that the queue in the
  -- memory holds, if that memory can be opened and the queue has no keep-alive timeout.
  pub open_at-Refines :
      (d : Direction) (q : Queue) (s : Fifo)
      → mapping.open_at w ≡ (q.world, some q.base)
      → Refines q s
      → (q' : Queue) × (Connector.open_at (virtuals mapping env d) clock (fresh w d ticks) parent
          ≡ (over q' d ticks, true))
        × Refines q' s
  unfolding Connector.open_at do_open open_queue attach_queue
  open_at-Refines con_in q s mapped r =
      (open_simple q.world q.base, rw mapped, open_simple-Refines q s r)
  open_at-Refines con_out q s mapped r =
      (open_simple q.world q.base, rw mapped, open_simple-Refines q s r)
  open_at-Refines con_bidir q s mapped r =
      (open_simple q.world q.base, rw mapped, open_simple-Refines q s r)
