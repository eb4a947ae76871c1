-- ===== src/Message/Chain/Blocks.antt =====
-- Where the parts of a chained message lie, and what they hold: the vocabulary of the laws of
-- `base_message::pack` and `unpack` (qbus/message.cpp).
use qbus.Prelude.{
  ℕ, ◌+◌, ◌≤◌, ◌<◌, ◌≡◌, ◌∙◌, ◌⊎◌, inl, inr, sym, arith, Bool, true, false, List, [], ◌∷◌, take,
  drop, take-append-drop,
}
use qbus.Bytes.{Mem, read_bytes}
use qbus.Bytes.Words.{Apart, Agree}
use qbus.Bytes.Blocks.{read_bytes-Agree}
use qbus.Message.{Pmessage, header_size, flags, capacity}
use qbus.Message.Fields.{capacity-Agree, flags-Agree}
use qbus.Message.Chain.{unpack}

-- A message of a chain: where it stands, and its capacity.
pub record Block : Type 0 where
  pub start : ℕ
  pub cap : ℕ

abbrev pub chain_of : List Block → Pmessage
chain_of [] = []
chain_of (b ∷ bs) = b.start ∷ chain_of bs

abbrev pub room : List Block → ℕ
room [] = 0
room (b ∷ bs) = b.cap + room bs

abbrev pub HasCaps : Mem → List Block → Type 0
HasCaps m [] = Unit
HasCaps m (b ∷ bs) = (capacity m b.start ≡ b.cap) × HasCaps m bs

-- No byte of `b` is one of a block of the list.
abbrev pub Clear : Block → List Block → Type 0
Clear b [] = Unit
Clear b (c ∷ bs) =
    ((b.start + header_size + b.cap ≤ c.start) ⊎ (c.start + header_size + c.cap ≤ b.start))
    × Clear b bs

abbrev pub AreDisjoint : List Block → Type 0
AreDisjoint [] = Unit
AreDisjoint (b ∷ bs) = Clear b bs × AreDisjoint bs

-- `x` is no byte of the flags or the data of a block.
abbrev pub Untouched : List Block → ℕ → Type 0
Untouched [] x = Unit
Untouched (b ∷ bs) x = (Apart b.start 4 x × Apart (b.start + header_size) b.cap x) × Untouched bs x

abbrev pub first_flag : Bool → ℕ
first_flag true = 1
first_flag false = 0

-- The flags of a block: head on the first block of a message, tail on the last one.
abbrev pub flags_of : Bool → List Block → ℕ
flags_of first [] = first_flag first + 2
flags_of first (c ∷ bs) = first_flag first

-- The blocks hold the data, part by part, with their capacities and flags.
abbrev pub Stored : Bool → Mem → List Block → List ℕ → Type 0
Stored first m [] source = source ≡ []
Stored first m (b ∷ bs) source =
    (capacity m b.start ≡ b.cap)
    × (flags m b.start ≡ flags_of first bs)
    × (read_bytes m (b.start + header_size) b.cap ≡ take b.cap source)
    × Stored false m bs (drop b.cap source)

-- The memories agree on every byte of the blocks.
abbrev pub SameOn : Mem → Mem → List Block → Type 0
SameOn m m' [] = Unit
SameOn m m' (b ∷ bs) = Agree m m' b.start (header_size + b.cap) × SameOn m m' bs

abbrev pub ArePositive : List Block → Type 0
ArePositive [] = Unit
ArePositive (b ∷ bs) = (0 < b.cap) × ArePositive bs

pub Untouched-Clear :
    (b : Block) (bs : List Block) (x : ℕ)
    → Clear b bs
    → b.start ≤ x
    → x < b.start + header_size + b.cap
    → Untouched bs x
Untouched-Clear b [] x d l h = tt
Untouched-Clear b (c ∷ bs) x d l h = (ground arith, Untouched-Clear b bs x d.1 l h)

-- What is stored stays stored while its blocks are not written.
pub Stored-SameOn :
    (first : Bool) (m m' : Mem) (bs : List Block) (source : List ℕ)
    → SameOn m m' bs
    → Stored first m bs source
    → Stored first m' bs source
Stored-SameOn first m m' [] source same s = s
Stored-SameOn first m m' (b ∷ bs) source same s = (
  capacity-Agree m m' b.start (λ x l h. same.0 x (omega arith) (omega arith)) ∙ s.0,
  flags-Agree m m' b.start (λ x l h. same.0 x (omega arith) (omega arith)) ∙ s.1,
  read_bytes-Agree m m' (b.start + 24) b.cap (λ x l h. same.0 x (omega arith) (omega arith)) ∙ s.2,
  Stored-SameOn false m m' bs (drop b.cap source) same.1 s.3,
)

-- A change within one block leaves the blocks clear of it alone.
pub SameOn-Clear :
    (m m' : Mem) (b : Block) (bs : List Block)
    → Clear b bs
    → ((x : ℕ) → Apart b.start (header_size + b.cap) x → m' x ≡ m x)
    → SameOn m m' bs
SameOn-Clear m m' b [] d h = tt
SameOn-Clear m m' b (c ∷ bs) d h = (λ x l k. h x (ground arith), SameOn-Clear m m' b bs d.1 h)

pub HasCaps-SameOn : (m m' : Mem) (bs : List Block) → SameOn m m' bs → HasCaps m bs → HasCaps m' bs
HasCaps-SameOn m m' [] same h = tt
HasCaps-SameOn m m' (b ∷ bs) same h = (
  capacity-Agree m m' b.start (λ x l k. same.0 x (omega arith) (omega arith)) ∙ h.0,
  HasCaps-SameOn m m' bs same.1 h.1,
)

-- What is stored does not depend on the source, tag, counter and time of its first block.
pub Stored-fields :
    (first : Bool) (m m' : Mem) (b : Block) (bs : List Block) (source : List ℕ)
    → Clear b bs
    → ((x : ℕ) → Apart (b.start + 8) 16 x → m' x ≡ m x)
    → Stored first m (b ∷ bs) source
    → Stored first m' (b ∷ bs) source
Stored-fields first m m' b bs source d same s = (
  capacity-Agree m m' b.start (λ x l h. same x (inl (omega arith))) ∙ s.0,
  flags-Agree m m' b.start (λ x l h. same x (inl (omega arith))) ∙ s.1,
  read_bytes-Agree m m' (b.start + 24) b.cap (λ x l h. same x (inr (omega arith))) ∙ s.2,
  Stored-SameOn false m m' bs (drop b.cap source)
      (SameOn-Clear m m' b bs d (λ x h. same x (ground arith))) s.3,
)

-- `unpack` reads back what is stored.
pub unpack-Stored :
    (first : Bool) (m : Mem) (bs : List Block) (source : List ℕ)
    → Stored first m bs source
    → unpack m (chain_of bs) ≡ source
unfolding unpack
unpack-Stored first m [] source s = sym s
unpack-Stored first m (b ∷ bs) source s =
    rw (s.0, s.2, unpack-Stored false m bs (drop b.cap source) s.3) (take-append-drop b.cap source)
