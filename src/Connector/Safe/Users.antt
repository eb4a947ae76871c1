-- ===== src/Connector/Safe/Users.antt =====
-- The users of a `base_safe_connector` (qbus/connector.h).
use qbus.Prelude.{
  ℕ, suc, ◌-◌, if◌then◌else◌, ◌+◌, ◌≤◌, ◌<◌, ◌≡◌, ◌⊎◌, arith, true, false, List, [], ◌∷◌, none,
  some, done, ltb,
}
use qbus.Locker.Guard.{Guard, returned}
use qbus.Locker.Scoped
use qbus.Locker.Spin
use qbus.Locker.Spin.{Swaps}
use qbus.Connector.Safe.Life.{
  Sizes, barrier_at, get_memory, memory_size, Block, Parts, destroy, Event, opens, ends,
}

-- A locker that has just been constructed is locked and unlocked again by a guard that is alone, and
-- the spinlock runs at least two rounds of a compare-and-swap as documented.
pub record Works {L B T W : Type 0} (parts : Parts L B T W) : Type 0 where
  pub guard : Guard L
  pub made : Scoped.make parts.lockable parts.new_locker ≡ done (returned guard)
  pub destroyed : Scoped.destroy parts.lockable guard ≡ done parts.new_locker
  pub swaps : Swaps parts.cas
  pub fuel : ℕ
  pub rounds_at : parts.rounds ≡ suc (suc fuel)

-- `k` processes have the connector open: they are counted, and the locker and the barrier are there,
-- the locker free, exactly if there is one.
pub record Counts {L B T W : Type 0} (parts : Parts L B T W) (block : Block L B W) (k : ℕ)
    : Type 0 where
  pub spin_le : block.spin ≤ 1
  pub users_at : block.users ≡ k
  pub alive :
      ((k ≡ 0) × (block.locker ≡ none) × (block.barrier ≡ none))
      ⊎ ((0 < k)
          × (block.locker ≡ some parts.new_locker)
          × (block.barrier ≡ some parts.new_barrier))

-- How many processes have the connector open after some events: one that maps the memory opens it
-- exactly if another one has it open.
abbrev pub present : List Event → ℕ → ℕ
present [] k = k
present (opens false ∷ events) k = present events k
present (opens true ∷ events) k = present events (if ltb 0 k then k + 1 else k)
present (ends ∷ events) k = present events (k - 1)

-- The members of the block lie one behind the other, and fill the memory with the one below.
pub members_fill :
    (sizes : Sizes) (ptr below : ℕ)
    → (barrier_at sizes ptr + sizes.barrier ≡ get_memory sizes ptr)
      × (get_memory sizes ptr + below ≡ ptr + memory_size sizes below)
unfolding get_memory memory_size
members_fill sizes ptr below = (omega arith, omega arith)
