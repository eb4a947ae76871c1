-- ===== src/Queue/Fifo/Push.antt =====
-- `do_push` of qbus/queue.cpp on a `simple_queue`: a message that fits is put behind the others, one
-- that does not fit changes nothing.
use qbus.Prelude.{
  ℕ, ◌+◌, ◌-◌, ◌%◌, ◌^◌, ◌≤◌, ◌<◌, ◌≡◌, ◌∙◌, inl, inr, refl, sym, ap, subst, arith, Bool, true,
  false, List, [], ◌∷◌, ◌++◌, length, Run, done,
}
use qbus.Bytes.{Mem}
use qbus.Bytes.Words.{Apart}
use qbus.Message
use qbus.Message.{Env, World, Pmessage}
use qbus.Message.Fields.{set_tag-Apart, tag-set_tag}
use qbus.Message.Chain.Blocks.{chain_of, Stored, Stored-fields, AreDisjoint}
use qbus.Message.Chain.Headers.{OutOf}
use qbus.Message.Make.{Desc}
use qbus.Queue
use qbus.Queue.{Queue, mem, with_mem, data_start, capacity, head, tail, count}
use qbus.Queue.Layout.{Item, block, blocks, used, first_block, IsLaid, span, InSpan}
use qbus.Queue.Layout.Frame.{SameSpan, IsLaid-SameSpan}
use qbus.Queue.Regions.{IsRing}
use qbus.Queue.Write.{OutOf-busy, AreDisjoint-blocks}
use qbus.Queue.Write.Made.{Made, make_fit, make_full}
use qbus.Queue.Header.{
  SameHeader, SameHeader-Agree, set_tail-Apart, set_count-Apart, capacity-set_tail,
  timeout-set_tail, timeout-set_count, head-set_tail, count-set_tail, tail-set_tail,
  capacity-set_count, tail-set_count, head-set_count, count-set_count,
}
use qbus.Queue.Class
use qbus.Queue.Class.{Class}
use qbus.Queue.Simple
use qbus.Queue.Base.{commit, do_push}
use qbus.Queue.Fifo.{Holds, HoldsAt}
use qbus.Queue.Fifo.Moves.{HoldsAt-fields, HoldsAt-same, HoldsAt-append, count-small}
use qbus.Queue.Fifo.Bounds.{starts, chain_starts, first_block-ge}

-- The first header of the message at the tail is apart from the busy bytes.
module _ (d c hd tl cnt u n : ℕ) (ring : IsRing c hd tl cnt u) (fits : used c tl n ≤ c - u) where
  pub tag-Apart : (x : ℕ) → x < c → InSpan c hd u x → Apart (first_block d c tl) 24 (d + x)
  tag-Apart x h i =
      let s = starts d c tl n in
      let o = subst (λ bs. OutOf bs (d + x)) s.at (OutOf-busy d c hd tl cnt u n ring fits x h i) in
      ground (arith, o.0)

-- A stored message that is tagged lies there with its tag.
module _ (m : Mem) (d c t v : ℕ) (source : List ℕ) where
  pub set_tag-Stored :
      AreDisjoint (blocks d c t (length source))
      → Stored true m (blocks d c t (length source)) source
      → Stored true (Message.set_tag m (first_block d c t) v) (blocks d c t (length source)) source
  set_tag-Stored disjoint s =
      let b = starts d c t (length source) in
      subst (λ bs. Stored true (Message.set_tag m (first_block d c t) v) bs source) (sym b.at)
        (Stored-fields true m _ (block (first_block d c t) b.cap) b.others source
          (subst AreDisjoint b.at disjoint).0
          (λ x h. set_tag-Apart m (first_block d c t) v x (ground arith))
          (subst (λ bs. Stored true m bs source) b.at s))

-- `do_push` after a message has been made: the message is tagged, and the header moves on.
unfoldable pub pushed : Queue → World → ℕ → Desc → ℕ → Queue
pushed q w p d tag =
    let q' =
      Queue.set_tail (with_mem (record q { world = w }) (Message.set_tag w.mem p tag)) d.next in
    Queue.set_count q' (count q' + 1)

pub commit_lem :
    (q : Queue) (w : World) (p : ℕ) (rest : Pmessage) (d : Desc) (tag : ℕ)
    → d.chain ≡ p ∷ rest
    → commit tag (record q { world = w }, d) ≡ (pushed q w p d tag, true)
unfolding commit pushed
commit_lem q w p rest d tag e = rw (e, commit)

module _ (q : Queue) (w : World) (p tag : ℕ) (d : Desc)
    (kept : (b : ℕ) → q.base ≤ b → b < q.base + 24 → w.mem b ≡ mem q b)
    (above : q.base + 24 ≤ p) where
  abbrev q2 : Queue
  q2 = with_mem (record q { world = w }) (Message.set_tag w.mem p tag)

  same : SameHeader q q2
  same =
      SameHeader-Agree q q2 refl
        (λ b l h. set_tag-Apart w.mem p tag b (inl (omega arith)) ∙ kept b l (omega arith))

  pub capacity-pushed : capacity (pushed q w p d tag) ≡ capacity q
  unfolding pushed
  capacity-pushed =
      capacity-set_count (Queue.set_tail q2 d.next) _
      ∙ capacity-set_tail q2 d.next
      ∙ same.capacity_same

  pub head-pushed : head (pushed q w p d tag) ≡ head q
  unfolding pushed
  head-pushed =
      head-set_count (Queue.set_tail q2 d.next) _ ∙ head-set_tail q2 d.next ∙ same.head_same

  pub tail-pushed :
      0 < capacity q → capacity q < 2 ^ 32 → tail (pushed q w p d tag) ≡ d.next % capacity q
  unfolding pushed
  tail-pushed pos small =
      tail-set_count (Queue.set_tail q2 d.next) _
      ∙ tail-set_tail q2 d.next (rw same.capacity_same (omega arith))
      ∙ ap (λ c. d.next % c) same.capacity_same

  pub timeout-pushed : Queue.keepalive_timeout (pushed q w p d tag) ≡ Queue.keepalive_timeout q
  unfolding pushed
  timeout-pushed =
      timeout-set_count (Queue.set_tail q2 d.next) _
      ∙ timeout-set_tail q2 d.next
      ∙ same.timeout_same

  pub count-pushed : count q + 1 < 2 ^ 32 → count (pushed q w p d tag) ≡ count q + 1
  unfolding pushed
  count-pushed small =
      let e = count-set_tail q2 d.next ∙ same.count_same in
      count-set_count (Queue.set_tail q2 d.next) _ (omega (arith, e)) ∙ ap (λ n. n + 1) e

  pub data-pushed :
      (b : ℕ) → Apart q.base 24 b → mem (pushed q w p d tag) b ≡ Message.set_tag w.mem p tag b
  unfolding pushed Queue.set_tail
  data-pushed b h = set_count-Apart (Queue.set_tail q2 d.next) _ b h ∙ set_tail-Apart q2 d.next b h

-- A message that is made lies at the tail, with its tag, behind the messages that were there.
module _ (env : Env) (q : Queue) (xs : List Item) (x : Item) (holds : Holds q xs)
    (some_data : 0 < length x.body) (tag_small : x.tag < 2 ^ 32) where
  abbrev d : ℕ
  d = data_start q

  abbrev c : ℕ
  c = capacity q

  abbrev p : ℕ
  p = first_block d c (tail q)

  -- What a successful push leaves.
  pub record Appended (out : Run (Queue × Bool)) : Type 0 where
    pub queue : Queue
    pub pushed_at : out ≡ done (queue, true)
    pub holds_more : Holds queue (xs ++ x ∷ [])
    pub capacity_same : capacity queue ≡ c
    pub timeout_same : Queue.keepalive_timeout queue ≡ Queue.keepalive_timeout q
    pub head_same : head queue ≡ head q
    pub object_same : (queue.base ≡ q.base) × (queue.message_desc ≡ q.message_desc)

  -- What a refused push leaves.
  pub record Rejected (out : Run (Queue × Bool)) : Type 0 where
    pub queue : Queue
    pub rejected_at : out ≡ done (queue, false)
    pub holds_same : Holds queue xs
    pub header_same : SameHeader q queue
    pub object_same : queue.message_desc ≡ q.message_desc

  module _ (fits : used c (tail q) (length x.body) ≤ c - span c (head q) xs)
      (made : Made env d c
        (head q)
        (tail q)
        (count q)
        (span c (head q) xs)
        q.world
        x.body
        holds.ring
        some_data) where
    abbrev desc : Desc
    desc = record { chain = chain_of (blocks d c (tail q) (length x.body)); next = made.next }

    abbrev q' : Queue
    q' = pushed q made.world p desc x.tag

    tail_in : tail q < c
    tail_in = omega (arith, holds.ring.tail_at, holds.ring.head_in)

    above : d ≤ p
    above = first_block-ge d c (tail q) (length x.body) tail_in (omega arith)

    header_kept : (b : ℕ) → q.base ≤ b → b < q.base + 24 → made.world.mem b ≡ mem q b
    header_kept b l h = made.kept.outside b (inl h)

    base-pushed : q'.base ≡ q.base
    unfolding pushed Queue.set_tail Queue.set_count
    base-pushed = refl

    desc-pushed : q'.message_desc ≡ q.message_desc
    unfolding pushed Queue.set_tail Queue.set_count
    desc-pushed = refl

    same_span : SameSpan (mem q) (mem q') d c (head q) (span c (head q) xs)
    same_span y h i =
        data-pushed q made.world p x.tag desc header_kept above (d + y) (inr (omega arith))
        ∙ set_tag-Apart made.world.mem p x.tag (d + y) (
            let o =
              tag-Apart d c (head q) (tail q) (count q) (span c (head q) xs) (length x.body)
                holds.ring fits y h i in
            ground arith)
        ∙ made.kept.span y h i

    laid : IsLaid (mem q') d c (tail q) x
    laid =
        IsLaid-SameSpan (Message.set_tag made.world.mem p x.tag) (mem q') d c (tail q) x tail_in
          (omega arith)
          (λ y h i.
            data-pushed q made.world p x.tag desc header_kept above (d + y) (inr (omega arith)))
          (
            set_tag-Stored made.world.mem d c (tail q) x.tag x.body
                (AreDisjoint-blocks d c (head q) (tail q) (count q) (span c (head q) xs)
                  (length x.body) holds.ring fits)
                made.stored,
            tag-set_tag made.world.mem p x.tag tag_small,
            some_data,
          )

    Holds-pushed : Holds q' (xs ++ x ∷ [])
    Holds-pushed =
        let more =
          HoldsAt-append (mem q) (mem q') d c (head q) (tail q) (count q) q.message_desc xs x holds
            fits same_span laid in
        let ec = capacity-pushed q made.world p x.tag desc header_kept above in
        let eh = head-pushed q made.world p x.tag desc header_kept above in
        let et =
          tail-pushed q made.world p x.tag desc header_kept above (omega arith) holds.ring.small
          ∙ made.next_at in
        let en =
          count-pushed q made.world p x.tag desc header_kept above
            (count-small (mem q) (mem q) d c (head q) (tail q) (count q) q.message_desc xs holds) in
        subst
          (λ desc.
            HoldsAt (mem q') (data_start q') (capacity q') (head q') (tail q') (count q') desc
              (xs ++ x ∷ []))
          (sym desc-pushed) (HoldsAt-fields q' (ap (λ b. b + 24) base-pushed) ec eh et en more)

  -- `do_push` of a message that fits.
  pub do_push-fit :
      used c (tail q) (length x.body) ≤ c - span c (head q) xs
      → Appended (do_push Class.simple env q x.tag x.body)
  unfolding do_push Class.clean_messages Class.push_message Simple.push_message
      Queue.get_free_region
  do_push-fit fits =
      let made =
        make_fit env d c (head q) (tail q) (count q) (span c (head q) xs) q.world x.body holds.ring
          some_data fits in
      let ch = chain_starts d c (tail q) (length x.body) in
      record {
        queue = q' fits made;
        pushed_at =
            rw made.made_at
              (ap done (commit_lem q made.world p ch.others (desc fits made) x.tag ch.at));
        holds_more = Holds-pushed fits made;
        capacity_same =
            capacity-pushed q made.world p x.tag (desc fits made) (header_kept fits made)
              (above fits made);
        timeout_same =
            timeout-pushed q made.world p x.tag (desc fits made) (header_kept fits made)
              (above fits made);
        head_same =
            head-pushed q made.world p x.tag (desc fits made) (header_kept fits made)
              (above fits made);
        object_same = (base-pushed fits made, desc-pushed fits made);
      }

  -- `do_push` of a message that does not fit.
  pub do_push-full :
      c - span c (head q) xs < used c (tail q) (length x.body)
      → Rejected (do_push Class.simple env q x.tag x.body)
  unfolding do_push Class.clean_messages Class.push_message Simple.push_message
      Queue.get_free_region commit
  do_push-full full =
      let r =
        make_full env d c (head q) (tail q) (count q) (span c (head q) xs) q.world x.body holds.ring
          some_data full in
      let q' = record q { world = r.world } in
      let same = SameHeader-Agree q q' refl (λ b l h. r.kept.outside b (inl h)) in
      record {
        queue = q';
        rejected_at = rw r.not_made;
        holds_same =
            HoldsAt-fields q' refl same.capacity_same same.head_same same.tail_same same.count_same
              (HoldsAt-same (mem q) r.world.mem d c (head q) (tail q) (count q) q.message_desc xs
                holds r.kept.span);
        header_same = same;
        object_same = refl;
      }
