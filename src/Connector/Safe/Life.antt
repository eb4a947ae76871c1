-- ===== src/Connector/Safe/Life.antt =====
-- The block of shared memory of a `base_safe_connector` (qbus/connector.h): a spinlock, the number of
-- its users, the locker, the barrier, and the memory of the queue. `do_create` and `do_open` count a
-- user in, and the destructor counts it out; the last one destroys the locker and the barrier.
-- Each call runs while no other process moves, as the spinlock is meant to see to; it does not, since
-- its `lock` never waits, and calls that overlap are not modelled.
use qbus.Prelude.{
  ℕ, zero, suc, ◌+◌, Bool, true, false, ltb, ◌==◌, List, [], ◌∷◌, Option, none, some, Run, done,
  fault, ◌>>=◌, if◌then◌else◌, u32, sub32,
}
use qbus.Locker.Guard.{Lockable, Outcome}
use qbus.Locker.Scoped
use qbus.Locker.Spin
use qbus.Locker.Spin.{Cas}

-- `sizeof` of the members of the block.
pub record Sizes : Type 0 where
  pub spinlock : ℕ
  pub locker : ℕ
  pub barrier : ℕ

abbrev pub counter_at : Sizes → ℕ → ℕ
counter_at sizes ptr = ptr + sizes.spinlock

abbrev pub locker_at : Sizes → ℕ → ℕ
locker_at sizes ptr = counter_at sizes ptr + 4

abbrev pub barrier_at : Sizes → ℕ → ℕ
barrier_at sizes ptr = locker_at sizes ptr + sizes.locker

-- `get_memory` and `memory_size`, over those of the connector below.
unfoldable pub get_memory : Sizes → ℕ → ℕ
get_memory sizes ptr = ptr + sizes.locker + sizes.barrier + sizes.spinlock + 4

unfoldable pub memory_size : Sizes → ℕ → ℕ
memory_size sizes below = below + sizes.locker + sizes.barrier + sizes.spinlock + 4

-- The block; a locker or a barrier that is not constructed, or destroyed, is `none`. `W` is the
-- queue with its objects.
pub record Block (L B W : Type 0) : Type 0 where
  pub spin : ℕ
  pub users : ℕ
  pub locker : Option L
  pub barrier : Option B
  pub queue : W

-- What the class uses: the compare-and-swap and the rounds of its spinlock, its locker, and the
-- calls of the connector below.
pub record Parts (L B T W : Type 0) : Type 0 where
  pub cas : Cas
  pub rounds : ℕ
  pub lockable : Lockable L T
  pub new_locker : L
  pub new_barrier : B
  pub create_queue : W → W
  pub open_queue : W → W
  pub free_queue : W → W

module _ {L B T W : Type 0} (parts : Parts L B T W) where
  -- Work on the queue under a `scoped_lock`, in a block of its own.
  unfoldable pub under_lock : L → (W → W) → W → Run (L × W)
  under_lock l work queue = do
    out ← Scoped.make parts.lockable l
    elim out [
      | Outcome.returned g ↦ do l' ← Scoped.destroy parts.lockable g; done (l', work queue)
      | Outcome.lock_exception ↦ fault
    ]

  -- In memory that has just been created all bytes are 0, which is a locked spinlock; `mapped` is
  -- the result of `create_memory`.
  abbrev pub blank : W → Block L B W
  blank queue = record { spin = 0; users = 0; locker = none; barrier = none; queue = queue }

  unfoldable pub do_create : Bool → W → Run (Block L B W × Bool)
  unfolding under_lock
  do_create false queue = done (blank queue, false)
  do_create true queue = do
    (l, queue') ← under_lock parts.new_locker parts.create_queue queue
    done (
      record (blank queue) {
        spin = Spin.unlock 0;
        users = u32 (0 + 1);
        locker = some l;
        barrier = some parts.new_barrier;
        queue = queue';
      },
      true,
    )

  -- `*m_plocker`; what is not there is a fault.
  abbrev pub locker_of : Option L → Run L
  locker_of none = fault
  locker_of (some l) = done l

  abbrev pub free_spin : Block L B W → Block L B W
  free_spin block = record block { spin = Spin.unlock block.spin }

  -- `mapped` is the result of `open_memory`.
  unfoldable pub do_open : Bool → Block L B W → Run (Block L B W × Bool)
  unfolding under_lock
  do_open false block = done (block, false)
  do_open true block = do
    spin ← Spin.lock parts.cas parts.rounds block.spin
    let counted = do
      l ← locker_of block.locker
      (l', queue') ← under_lock l parts.open_queue block.queue
      done (
        free_spin
            (record block { users = u32 (block.users + 1); locker = some l'; queue = queue' }),
        true,
      )
    if ltb 0 block.users then counted else done (free_spin block, false)

  -- The destructor; `enabled` tells whether this connector is open.
  unfoldable pub destroy : Bool → Block L B W → Run (Block L B W)
  unfolding under_lock
  destroy false block = done block
  destroy true block = do
    spin ← Spin.lock parts.cas parts.rounds block.spin
    l ← locker_of block.locker
    (l', queue') ← under_lock l parts.free_queue block.queue
    let users' = sub32 block.users 1
    let last = users' == 0
    done (
        free_spin (record block {
          users = users';
          locker = if last then none else some l';
          barrier = if last then none else block.barrier;
          queue = queue';
        }))

-- What processes do to a block, one call after the other: one more opens the connector, and its
-- `open_memory` maps the memory or fails, as it does once the name is removed; or one that has the
-- connector open ends.
pub data Event : Type 0 where
  opens : (mapped : Bool) → Event
  ends : Event

-- The block, and how many processes have the connector open.
module _ {L B T W : Type 0} (parts : Parts L B T W) where
  abbrev pub counted_in : Bool → ℕ → ℕ
  counted_in b k = if b then k + 1 else k

  -- An event `ends` without a process that has it open does nothing.
  unfoldable pub life : List Event → Block L B W × ℕ → Run (Block L B W × ℕ)
  life [] s = done s
  life (opens mapped ∷ events) (block, k) = do
    (block', b) ← do_open parts mapped block
    life events (block', counted_in b k)
  life (ends ∷ events) (block, zero) = life events (block, zero)
  life (ends ∷ events) (block, suc k) = do
    block' ← destroy parts true block
    life events (block', k)
