-- ===== src/Message/Make.antt =====
-- `message<Queue>` of qbus/message.h: how a message is laid out over the free regions of a queue
-- (`static_make_message`) and found again in its busy regions (`static_get_message`). The regions
-- come from the queue, as a function of the region before; `base` is the address of the queue's
-- data, so that `queue.data(pos)` is `base + pos`.
pub mod Steps
pub mod Search
use qbus.Prelude.{
  ℕ, zero, suc, ◌+◌, ◌-◌, ◌%◌, ◌^◌, min, Bool, true, false, ◌&&◌, List, [], ◌∷◌, Option, none, some,
  Run, done, spent, fault, if◌then◌else◌, leb, ◌==◌, bit_and, length,
}
use qbus.Bytes.{Mem}
use qbus.Message.{
  Pmessage, Env, World, flg_head, flg_tail, header_size, flags, size, static_capacity, make_message,
}
use qbus.Message.Chain.{pack, attach}

-- `region_type`
pub record Region : Type 0 where
  pub pos : ℕ
  pub size : ℕ

-- `message_desc_type`: a chain, which may be null, and the position behind it.
pub record Desc : Type 0 where
  pub chain : Pmessage
  pub next : ℕ

abbrev pub no_message : Desc
no_message = record { chain = []; next = 0 }

abbrev pub Regions : Type 0
Regions = Option Region → Region

-- A queue has at most three regions, the last one empty.
abbrev pub region_fuel : ℕ
region_fuel = 4

-- The inner `do … while`: the next region that has room behind a header; `none` at an empty one.
unfoldable pub next_region : ℕ → Regions → Option Region → Run (Option Region)
next_region zero regions prev = spent
next_region (suc fuel) regions prev =
    let again = next_region fuel regions (some (regions prev)) in
    if (regions prev).size == 0
    then done none
    else if leb (regions prev).size header_size
    then again
    else done (some (regions prev))

-- `!pmessage`
abbrev pub is_null : Pmessage → Bool
is_null [] = true
is_null (p ∷ rest) = false

-- `plast_message`
abbrev pub last : Pmessage → ℕ
last [] = 0
last (p ∷ []) = p
last (p ∷ q ∷ rest) = last (q ∷ rest)

-- Where the message ends: `region.first + plast_message->size()`, as a `pos_type`.
unfoldable pub end_of : Mem → Region → Pmessage → ℕ
end_of m region chain = (region.pos + size m (last chain)) % 2 ^ 32

-- The outer loop, `while (rest > 0)`: the headers of the chain, and its last region.
unfoldable pub make_chunks :
    ℕ
    → Env
    → Regions
    → ℕ
    → World
    → ℕ
    → Option Region
    → Pmessage
    → Run (World × Option Region × Pmessage)
make_chunks zero env regions base w rest prev chain = spent
make_chunks (suc fuel) env regions base w rest prev chain =
    if rest == 0 then done (w, prev, chain) else elim (next_region region_fuel regions prev) [
      | done (some region) ↦
          let part = min rest (static_capacity region.size) in
          make_chunks fuel env regions base (make_message env w (base + region.pos) part)
            (rest - part) (some region) (attach chain (base + region.pos))
      | done none ↦ done (w, none, [])
      | spent ↦ spent
      | fault ↦ fault
    ]

-- The end of `static_make_message`. With no data the chain is null, and `pack` is called on it.
unfoldable pub pack_chunks : List ℕ → World × Option Region × Pmessage → Run (World × Desc)
pack_chunks source (w, none, []) = if length source == 0 then fault else done (w, no_message)
pack_chunks source (w, none, p ∷ rest) = fault
pack_chunks source (w, some region, chain) =
    let (packed_size, m) = pack w.mem chain source in
    if packed_size == length source
    then done (record w { mem = m }, record { chain = chain; next = end_of m region chain })
    else fault

unfoldable pub static_make_message : Env → Regions → ℕ → World → List ℕ → Run (World × Desc)
static_make_message env regions base w source =
    elim (make_chunks region_fuel env regions base w (length source) none []) [
      | done made ↦ pack_chunks source made
      | spent ↦ spent
      | fault ↦ fault
    ]

-- The loops of `static_get_message`.
unfoldable pub get_chunks : ℕ → Regions → ℕ → Mem → Option Region → Pmessage → Run Desc
get_chunks zero regions base m prev chain = spent
get_chunks (suc fuel) regions base m prev chain = elim (next_region region_fuel regions prev) [
  | done (some region) ↦
      let p = base + region.pos in
      let chain' = attach chain p in
      let rest = get_chunks fuel regions base m (some region) chain' in
      if is_null chain && bit_and (flags m p) flg_head == 0
      then fault
      else if bit_and (flags m p) flg_tail == 0
      then rest
      else done (record { chain = chain'; next = end_of m region chain' })
  | done none ↦ done no_message
  | spent ↦ spent
  | fault ↦ fault
]

unfoldable pub static_get_message : Regions → ℕ → Mem → Run Desc
static_get_message regions base m = get_chunks region_fuel regions base m none []
