-- ===== src/Bus/Safe.antt =====
-- `base_safe_bus` of qbus/bus.h: a bus whose block of shared memory has a spinlock, the number of its
-- users and a locker before the body, and that adds and removes connectors under the locker. Each
-- call runs while no other process moves.
pub mod Users
use qbus.Prelude.{
  ℕ, zero, suc, ◌+◌, ◌^◌, ◌≤◌, ◌<◌, ◌≡◌, ◌∙◌, ◌⊎◌, inl, inr, refl, sym, ap, arith, Bool, true,
  false, ltb, ltb-true, ltb-false, ◌==◌, ==_true, ==_false, Option, none, some, Run, done, fault,
  ◌>>=◌, if◌then◌else◌, u32, sub32,
}
use qbus.Locker.Guard.{Lockable, Guard, Outcome, returned}
use qbus.Locker.Scoped
use qbus.Locker.Spin
use qbus.Locker.Spin.{Cas, Swaps, lock_never_waits}

-- `sizeof` of the members of the block.
pub record Sizes : Type 0 where
  pub spinlock : ℕ
  pub locker : ℕ

abbrev pub locker_at : Sizes → ℕ → ℕ
locker_at sizes ptr = ptr + sizes.spinlock + 4

unfoldable pub get_memory : Sizes → ℕ → ℕ
get_memory sizes ptr = ptr + sizes.locker + 4

unfoldable pub memory_size : Sizes → ℕ → ℕ
memory_size sizes below = below + sizes.locker + 4

-- The block; a locker that is not constructed, or destroyed, is `none`. `W` is the bus below, with
-- its body.
pub record Block (L W : Type 0) : Type 0 where
  pub spin : ℕ
  pub users : ℕ
  pub locker : Option L
  pub bus : W

-- What the class uses: its spinlock, its locker, and the calls of the bus below.
pub record Parts (L T W : Type 0) : Type 0 where
  pub cas : Cas
  pub rounds : ℕ
  pub lockable : Lockable L T
  pub new_locker : L
  pub create_body : W → W × Bool
  pub attach_body : W → W × Bool
  pub close : W → W × Bool
  pub add_connector : W → W × Bool
  pub remove_connector : W → W × Bool

module _ {L T W : Type 0} (parts : Parts L T W) where
  -- A call of the bus below under a `scoped_lock`, in a block of its own.
  unfoldable pub under_lock : L → (W → W × Bool) → W → Run (L × W × Bool)
  under_lock l work bus = do
    out ← Scoped.make parts.lockable l
    elim out [
      | Outcome.returned g ↦ do
        l' ← Scoped.destroy parts.lockable g
        done (l', (work bus).0, (work bus).1)
      | Outcome.lock_exception ↦ fault
    ]

  abbrev pub blank : W → Block L W
  blank bus = record { spin = 0; users = 0; locker = none; bus = bus }

  -- `mapped` is the result of `create_memory`. A body that is not created leaves the spinlock locked,
  -- and no user.
  unfoldable pub do_create : Bool → W → Run (Block L W × Bool)
  unfolding under_lock
  do_create false bus = done (blank bus, false)
  do_create true bus = do
    (l, bus', made) ← under_lock parts.new_locker parts.create_body bus
    let block : Block L W = record (blank bus) { locker = some l; bus = bus' }
    if made
        then done (record block { spin = Spin.unlock 0; users = u32 (0 + 1) }, true)
        else done (block, false)

  -- `*m_plocker`; what is not there is a fault.
  abbrev pub locker_of : Option L → Run L
  locker_of none = fault
  locker_of (some l) = done l

  abbrev pub free_spin : Block L W → Block L W
  free_spin block = record block { spin = Spin.unlock block.spin }

  -- `mapped` is the result of `open_memory`.
  unfoldable pub do_open : Bool → Block L W → Run (Block L W × Bool)
  unfolding under_lock
  do_open false block = done (block, false)
  do_open true block = do
    spin ← Spin.lock parts.cas parts.rounds block.spin
    let attached = do
      l ← locker_of block.locker
      (l', bus', made) ← under_lock l parts.attach_body block.bus
      let block' : Block L W = record block { locker = some l'; bus = bus' }
      if made
          then done (free_spin (record block' { users = u32 (block.users + 1) }), true)
          else done (free_spin block', false)
    if ltb 0 block.users then attached else done (free_spin block, false)

  -- The destructor; `enabled` tells whether this bus is open.
  unfoldable pub destroy : Bool → Block L W → Run (Block L W)
  unfolding under_lock
  destroy false block = done block
  destroy true block = do
    spin ← Spin.lock parts.cas parts.rounds block.spin
    l ← locker_of block.locker
    (l', bus', closed) ← under_lock l parts.close block.bus
    let users' = sub32 block.users 1
    done (
        free_spin (record block {
          users = users';
          locker = if users' == 0 then none else some l';
          bus = bus';
        }))

  -- `add_connector` and `remove_connector`, under the locker.
  unfoldable pub locked_call : (W → W × Bool) → Block L W → Run (Block L W × Bool)
  unfolding under_lock
  locked_call work block = do
    l ← locker_of block.locker
    (l', bus', result) ← under_lock l work block.bus
    done (record block { locker = some l'; bus = bus' }, result)

  abbrev pub add_connector : Block L W → Run (Block L W × Bool)
  add_connector block = locked_call parts.add_connector block

  abbrev pub remove_connector : Block L W → Run (Block L W × Bool)
  remove_connector block = locked_call parts.remove_connector block
