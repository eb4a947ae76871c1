-- ===== src/Message/Chain/Headers.antt =====
-- The headers of a chain as `static_make_message` (qbus/message.h) lays them out before it packs
-- the data: each block gets its capacity, and no other byte changes.
use qbus.Prelude.{ℕ, ◌+◌, ◌^◌, ◌≤◌, ◌<◌, ◌≡◌, ◌∙◌, refl, arith, true, List, [], ◌∷◌, length}
use qbus.Bytes.{Mem}
use qbus.Bytes.Words.{Apart}
use qbus.Message.{Env, World, header_size, make_message}
use qbus.Message.Fields.{make_message-Apart, capacity-make_message, capacity-Agree}
use qbus.Message.Chain.{pack}
use qbus.Message.Chain.Blocks.{
  Block, chain_of, room, HasCaps, Clear, AreDisjoint, ArePositive, Untouched, Stored,
}
use qbus.Message.Chain.Laws.{pack-Packed}

abbrev pub with_headers : Env → World → List Block → World
with_headers env w [] = w
with_headers env w (b ∷ bs) = with_headers env (make_message env w b.start b.cap) bs

-- The address is no byte of the blocks.
abbrev pub OutOf : List Block → ℕ → Type 0
OutOf [] x = Unit
OutOf (b ∷ bs) x = Apart b.start (header_size + b.cap) x × OutOf bs x

abbrev AreSmall : List Block → Type 0
AreSmall [] = Unit
AreSmall (b ∷ bs) = (b.cap < 2 ^ 32) × AreSmall bs

OutOf-Untouched : (bs : List Block) (x : ℕ) → OutOf bs x → Untouched bs x
OutOf-Untouched [] x h = tt
OutOf-Untouched (b ∷ bs) x h = ((ground arith, ground arith), OutOf-Untouched bs x h.1)

OutOf-Clear :
    (b : Block) (bs : List Block) (x : ℕ)
    → Clear b bs
    → b.start ≤ x
    → x < b.start + header_size + b.cap
    → OutOf bs x
OutOf-Clear b [] x d l h = tt
OutOf-Clear b (c ∷ bs) x d l h = (ground arith, OutOf-Clear b bs x d.1 l h)

with_headers_out :
    (env : Env) (w : World) (bs : List Block) (x : ℕ)
    → OutOf bs x
    → (with_headers env w bs).mem x ≡ w.mem x
with_headers_out env w [] x h = refl
with_headers_out env w (b ∷ bs) x h =
    with_headers_out env (make_message env w b.start b.cap) bs x h.1
    ∙ make_message-Apart env w b.start b.cap x (ground arith)

HasCaps-with_headers :
    (env : Env) (w : World) (bs : List Block)
    → AreDisjoint bs
    → AreSmall bs
    → HasCaps (with_headers env w bs).mem bs
HasCaps-with_headers env w [] d s = tt
HasCaps-with_headers env w (b ∷ bs) d s =
    let w1 = make_message env w b.start b.cap in
    (
      capacity-Agree w1.mem (with_headers env w1 bs).mem b.start (λ x l h.
            with_headers_out env w1 bs x (OutOf-Clear b bs x d.0 (omega arith) (omega arith)))
          ∙ capacity-make_message env w b.start b.cap s.0,
      HasCaps-with_headers env w1 bs d.1 s.1,
    )

small_of_room : (bs : List Block) → room bs < 2 ^ 32 → AreSmall bs
small_of_room [] h = tt
small_of_room (b ∷ bs) h = (omega arith, small_of_room bs (omega arith))

-- The headers of a chain of blocks, and then the data packed into it.
pub record Written (m : Mem) (bs : List Block) (source : List ℕ) (out : ℕ × Mem) : Type 0 where
  pub size : out.0 ≡ length source
  pub stored : Stored true out.1 bs source
  pub kept : (x : ℕ) → OutOf bs x → out.1 x ≡ m x

pub pack-with_headers :
    (env : Env) (w : World) (b : Block) (bs : List Block) (source : List ℕ)
    → AreDisjoint (b ∷ bs)
    → ArePositive bs
    → length source ≡ room (b ∷ bs)
    → length source < 2 ^ 32
    → Written w.mem
        (b ∷ bs)
        source
        (pack (with_headers env w (b ∷ bs)).mem (chain_of (b ∷ bs)) source)
pack-with_headers env w b bs source d pos fits small =
    let caps =
      HasCaps-with_headers env w (b ∷ bs) d (small_of_room (b ∷ bs) (omega (arith, fits, small))) in
    let packed = pack-Packed (with_headers env w (b ∷ bs)).mem b bs source caps d pos fits in
    record {
      size = packed.size;
      stored = packed.stored;
      kept =
          λ x h. packed.kept x (OutOf-Untouched (b ∷ bs) x h) ∙ with_headers_out env w (b ∷ bs) x h;
    }
