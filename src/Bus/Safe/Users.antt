-- ===== src/Bus/Safe/Users.antt =====
-- The users of a `base_safe_bus` (qbus/bus.h).
use qbus.Prelude.{
  ℕ, zero, suc, ◌+◌, ◌≤◌, ◌<◌, ◌≡◌, ◌⊎◌, arith, Bool, true, List, [], ◌∷◌, some, Run, done, ◌>>=◌,
  if◌then◌else◌,
}
use qbus.Locker.Guard.{Guard, returned}
use qbus.Locker.Scoped
use qbus.Locker.Spin
use qbus.Locker.Spin.{Swaps}
use qbus.Connector.Safe.Life.{Event, opens, ends}
use qbus.Bus.Safe.{Sizes, locker_at, get_memory, Block, Parts, do_open, destroy}

-- A locker that has just been constructed is locked and unlocked again by a guard that is alone, and
-- the spinlock runs at least two rounds of a compare-and-swap as documented.
pub record Works {L T W : Type 0} (parts : Parts L T W) : Type 0 where
  pub guard : Guard L
  pub made : Scoped.make parts.lockable parts.new_locker ≡ done (returned guard)
  pub destroyed : Scoped.destroy parts.lockable guard ≡ done parts.new_locker
  pub swaps : Swaps parts.cas
  pub fuel : ℕ
  pub rounds_at : parts.rounds ≡ suc (suc fuel)

-- `k` processes have the bus open: they are counted, and there is a locker, which is free, if there is
-- one.
pub record Counts {L T W : Type 0} (parts : Parts L T W) (block : Block L W) (k : ℕ) : Type 0 where
  pub spin_le : block.spin ≤ 1
  pub users_at : block.users ≡ k
  pub alive : (k ≡ 0) ⊎ ((0 < k) × (block.locker ≡ some parts.new_locker))

-- Calls taken one after the other, and how many processes have the bus open: those whose `do_open`
-- returned true and that have not ended.
unfoldable pub life :
    {L T W : Type 0} → Parts L T W → List Event → Block L W × ℕ → Run (Block L W × ℕ)
life parts [] s = done s
life parts (opens mapped ∷ events) (block, k) = do
  (block', b) ← do_open parts mapped block
  life parts events (block', if b then k + 1 else k)
life parts (ends ∷ events) (block, zero) = life parts events (block, zero)
life parts (ends ∷ events) (block, suc k) = do
  block' ← destroy parts true block
  life parts events (block', k)

module _ {L T W : Type 0} (parts : Parts L T W) (works : Works parts) where
  -- What `do_open` leaves, and how many have the bus open then.
  record Opens (k : ℕ) (out : Run (Block L W × Bool)) : Type 0 where
    block : Block L W
    result : Bool
    opened_at : out ≡ done (block, result)
    counts : Counts parts block (if result then k + 1 else k)

-- The body of the bus begins before the locker ends, by the size of the spinlock.
pub body_overlaps :
    (sizes : Sizes) (ptr : ℕ)
    → get_memory sizes ptr + sizes.spinlock ≡ locker_at sizes ptr + sizes.locker
unfolding get_memory
body_overlaps sizes ptr = omega arith
