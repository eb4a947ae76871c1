-- ===== src/Queue/Write/Made.antt =====
-- The whole of `static_make_message` (qbus/message.h) over a ring: a message that fits is stored in
-- its blocks and described; for one that does not fit the description is null.
use qbus.Prelude.{
  ℕ, ◌+◌, ◌-◌, ◌%◌, ◌^◌, ◌≤◌, ◌<◌, ◌≡◌, arith, Bool, true, false, drop, List, [], ◌∷◌, length, Run,
  done, ==_true, ==_false, subst, sym,
}
use qbus.Bytes.{Mem}
use qbus.Message
use qbus.Message.{Env, World}
use qbus.Message.Chain.{pack}
use qbus.Message.Chain.Blocks.{Block, chain_of, room, AreDisjoint, ArePositive, Stored}
use qbus.Message.Chain.Headers.{with_headers, Written, pack-with_headers}
use qbus.Message.Make.{Desc, no_message, last, end_of, pack_chunks, static_make_message}
use qbus.Queue.{free_region}
use qbus.Queue.Layout.{blocks, used, after, shape, skipped, whole, split, used-ge}
use qbus.Queue.Regions.{IsRing}
use qbus.Queue.Write.{Kept, Kept-OutOf, AreDisjoint-blocks}
use qbus.Queue.Write.Chunks.{last_cap, chunks_fit}
use qbus.Queue.Write.Full.{chunks_full}

-- The capacity of the last block, read from the memory.
capacity-last :
    (first : Bool) (m : Mem) (b : Block) (bs : List Block) (source : List ℕ)
    → Stored first m (b ∷ bs) source
    → Message.capacity m (last (chain_of (b ∷ bs))) ≡ last_cap (b ∷ bs)
capacity-last first m b [] source s = s.0
capacity-last first m b (c ∷ bs) source s = capacity-last false m c bs (drop b.cap source) s.3

-- The blocks of a message are at least one, hold its bytes, and none behind the first is empty.
pub record AreBlocks (bs : List Block) (n : ℕ) : Type 0 where
  pub first : Block
  pub others : List Block
  pub split : bs ≡ first ∷ others
  pub holds : n ≡ room (first ∷ others)
  pub positive : ArePositive others

pub AreBlocks-blocks : (d c t n : ℕ) → AreBlocks (blocks d c t n) n
AreBlocks-blocks d c t n = elim (shape d c t n) [
  | skipped p b v f ↦ record {
    first = _;
    others = [];
    split = b;
    holds = omega arith;
    positive = tt;
  }
  | whole p q b v f ↦ record {
    first = _;
    others = [];
    split = b;
    holds = omega arith;
    positive = tt;
  }
  | split p q b v f ↦ record {
    first = _;
    others = _;
    split = b;
    holds = omega arith;
    positive = (omega arith, tt);
  }
]

-- Packing the data into the headers that were laid out.
written :
    (env : Env) (w : World) (bs : List Block) (source : List ℕ)
    → AreBlocks bs (length source)
    → AreDisjoint bs
    → length source < 2 ^ 32
    → Written w.mem bs source (pack (with_headers env w bs).mem (chain_of bs) source)
written env w bs source a d small =
    let W = λ (l : List Block).
      Written w.mem l source (pack (with_headers env w l).mem (chain_of l) source) in
    subst W (sym a.split) (
      pack-with_headers env w a.first a.others source (subst AreDisjoint a.split d) a.positive
        a.holds small)

capacity-blocks :
    (m : Mem) (bs : List Block) (source : List ℕ)
    → AreBlocks bs (length source)
    → Stored true m bs source
    → Message.capacity m (last (chain_of bs)) ≡ last_cap bs
capacity-blocks m bs source a s =
    subst (λ l. Message.capacity m (last (chain_of l)) ≡ last_cap l) (sym a.split)
      (capacity-last true m a.first a.others source (subst (λ l. Stored true m l source) a.split s))

module _ (env : Env) (d c hd tl cnt u : ℕ) (w : World) (source : List ℕ)
    (ring : IsRing c hd tl cnt u) (some_data : 0 < length source) where
  abbrev n : ℕ
  n = length source

  abbrev result : Run (World × Desc)
  result = static_make_message env (free_region c hd tl cnt) d w source

  pub record Made : Type 0 where
    pub world : World
    pub next : ℕ
    pub made_at : result ≡ done (world, record { chain = chain_of (blocks d c tl n); next = next })
    pub stored : Stored true world.mem (blocks d c tl n) source
    pub next_at : next % c ≡ after c tl n
    pub kept : Kept d c hd u w.mem world.mem

  pub record NotMade : Type 0 where
    pub world : World
    pub not_made : result ≡ done (world, no_message)
    pub kept : Kept d c hd u w.mem world.mem

  -- A message that fits behind the others is made.
  pub make_fit : used c tl n ≤ c - u → Made
  unfolding static_make_message pack_chunks end_of Message.size
  make_fit fits =
      let bs = blocks d c tl n in
      let chunks = chunks_fit env d c hd tl cnt u n w ring some_data fits in
      let out = pack (with_headers env w bs).mem (chain_of bs) source in
      let wr =
        written env w bs source (AreBlocks-blocks d c tl n)
          (AreDisjoint-blocks d c hd tl cnt u n ring fits)
          (omega (arith, ring.small, used-ge c tl n)) in
      let cap = capacity-blocks out.1 bs source (AreBlocks-blocks d c tl n) wr.stored in
      let next = (chunks.last_region.pos + (24 + last_cap bs)) % 2 ^ 32 in
      let e : next ≡ chunks.last_region.pos + (24 + last_cap bs) =
        omega (arith, chunks.in_range, ring.small) in
      record {
        world = record (with_headers env w bs) { mem = out.1 };
        next = next;
        made_at = rw (chunks.made_at, static_make_message, ==_true out.0 n wr.size, cap);
        stored = wr.stored;
        next_at = rw e chunks.end_at;
        kept = Kept-OutOf d c hd tl cnt u n ring fits w.mem out.1 wr.kept;
      }

  -- A message that does not fit is not made.
  pub make_full : c - u < used c tl n → NotMade
  unfolding static_make_message pack_chunks
  make_full full =
      let r = chunks_full env d c hd tl cnt u n ring some_data w full in
      record {
        world = r.world;
        not_made = rw (r.refused_at, static_make_message, ==_false n 0 (omega arith));
        kept = r.kept;
      }
