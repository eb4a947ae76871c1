-- ===== src/Queue/Open/Fresh.antt =====
-- A queue that has just been created (the constructor of `base_queue`, qbus/queue.cpp) is empty.
use qbus.Prelude.{
  ℕ, ◌+◌, ◌%◌, ◌^◌, ◌<◌, ◌≡◌, ◌∙◌, inl, refl, ap, arith, List, [], done, ==_false, u32, ◌>>=◌,
}
use qbus.Bytes.Words.{read32-write32_self, read32-write32_apart}
use qbus.Message.{Env, World}
use qbus.Message.Make.{Desc}
use qbus.Queue
use qbus.Queue.{Queue, capacity, head, tail, count, keepalive_timeout}
use qbus.Queue.Header.{
  capacity-set_tail, head-set_tail, tail-set_tail, timeout-set_tail, capacity-set_head,
  head-set_head, timeout-set_head, capacity-set_count, tail-set_count, head-set_count,
  count-set_count, timeout-set_count,
}
use qbus.Queue.Open.{create_simple, object}
use qbus.Queue.Fifo.Session.{Refines, AreItems, run, run-Refines}
use qbus.Queue.Fifo.Moves.{HoldsAt-fields}
use qbus.Spec
use qbus.Spec.{Op}

module _ (q : Queue) (qid cpct : ℕ) (small : cpct < 2 ^ 32) (positive : 0 < cpct) where
  abbrev q1 : Queue
  q1 = Queue.set_keepalive_timeout (Queue.set_capacity (Queue.set_id q qid) cpct) 0

  cap1 : capacity q1 ≡ cpct
  unfolding capacity Queue.set_keepalive_timeout Queue.set_capacity Queue.set_id
  cap1 =
      read32-write32_apart _ (q.base + 8) 0 (q.base + 4) (inl (omega arith))
      ∙ read32-write32_self _ (q.base + 4) cpct small

  timeout1 : keepalive_timeout q1 ≡ 0
  unfolding keepalive_timeout Queue.set_keepalive_timeout Queue.set_capacity Queue.set_id
  timeout1 = read32-write32_self _ (q.base + 8) 0 (omega arith)

  abbrev pub fresh : Queue
  fresh = Queue.clear q1

  pub fresh_desc : fresh.message_desc ≡ q.message_desc
  unfolding Queue.clear Queue.set_count Queue.set_tail Queue.set_head Queue.set_keepalive_timeout
      Queue.set_capacity Queue.set_id
  fresh_desc = refl

  -- The header of the new queue.
  pub fresh_header :
      (capacity fresh ≡ cpct)
      × (head fresh ≡ 0)
      × (tail fresh ≡ 0)
      × (count fresh ≡ 0)
      × (keepalive_timeout fresh ≡ 0)
  unfolding Queue.clear
  fresh_header =
      let h = Queue.set_head q1 0 in
      let t = Queue.set_tail h 0 in
      let c1 = capacity-set_head q1 0 ∙ cap1 in
      let z1 : 0 % capacity q1 ≡ 0 = omega arith in
      let z2 : 0 % capacity h ≡ 0 = omega arith in
      (
        capacity-set_count t 0 ∙ capacity-set_tail h 0 ∙ c1,
        head-set_count t 0 ∙ head-set_tail h 0 ∙ head-set_head q1 0 (omega arith) ∙ z1,
        tail-set_count t 0 ∙ tail-set_tail h 0 (omega arith) ∙ z2,
        count-set_count t 0 (omega arith),
        timeout-set_count t 0 ∙ timeout-set_tail h 0 ∙ timeout-set_head q1 0 ∙ timeout1,
      )

-- A simple queue that has just been created stands for the empty list.
pub create_simple-Refines :
    (w : World) (qid ptr cpct : ℕ)
    → 0 < cpct
    → cpct < 2 ^ 32
    → (q : Queue) × (create_simple w qid ptr cpct ≡ done q)
      × Refines q (record { cap = cpct; start = 0; items = [] })
unfolding create_simple
create_simple-Refines w qid ptr cpct positive small =
    let e : u32 cpct ≡ cpct = omega arith in
    let h = fresh_header (object w ptr 0 0) qid cpct small positive in
    (
      fresh (object w ptr 0 0) qid cpct small positive,
      rw (e, ==_false cpct 0 (omega arith)),
      record {
        holds =
            HoldsAt-fields (fresh (object w ptr 0 0) qid cpct small positive) refl h.0 h.1 h.2 h.3
              (record {
                ring = record {
                  small = small;
                  head_in = positive;
                  fits = omega arith;
                  tail_at = omega arith;
                  empty = λ z. refl;
                  filled = λ z. absurd (z refl);
                };
                laid = tt;
                counted = refl;
                pulled = inl (
                    ap (λ (d : Desc). d.chain)
                      (fresh_desc (object w ptr 0 0) qid cpct small positive));
              });
        cap_at = h.0;
        start_at = h.1;
        no_timeout = h.4;
      },
    )

-- From its creation on, over any memory, a simple queue of `cpct` bytes answers every sequence of
-- pushes (of messages with data and a 32-bit tag), gets and pops as the specification does, and
-- each call returns.
pub create-run :
    (env : Env) (w : World) (qid ptr cpct : ℕ) (ops : List Op)
    → 0 < cpct
    → cpct < 2 ^ 32
    → AreItems ops
    → (create_simple w qid ptr cpct >>= λ q. run env q ops)
      ≡ done (Spec.run (record { cap = cpct; start = 0; items = [] }) ops)
create-run env w qid ptr cpct ops positive small items =
    let c = create_simple-Refines w qid ptr cpct positive small in
    rw (c.1, run-Refines env c.0 _ ops c.2 items)
