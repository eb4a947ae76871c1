-- ===== src/Connector/Safe.antt =====
-- `base_safe_connector` and `safe_connector` of qbus/connector.h: a connector whose calls run under
-- the guards of a locker in shared memory; `safe_connector` opens a barrier after a push, at which
-- timed gets wait. `Life` has the construction and destruction, which lay these out in shared memory.
pub mod Push
pub mod Rounds
pub mod Get
pub mod Ready
pub mod Life
pub mod Users
use qbus.Prelude.{
  ℕ, zero, suc, ◌+◌, Bool, true, false, if◌then◌else◌, List, Option, none, Run, done, spent, fault,
  fault, ◌>>=◌,
}
use qbus.Timespec
use qbus.Timespec.{Timespec}
use qbus.Connector.{Virtuals, is_message}
use qbus.Locker.Guard.{Lockable, Guard, Outcome}
use qbus.Locker.Barrier
use qbus.Locker.Barrier.{Barrier}
use qbus.Locker.Scoped
use qbus.Locker.Sharable

-- The guards that a locker interface chooses for a pop: exclusive, or sharable if every process has
-- a head of its own.
pub data Mode : Type 0 where
  exclusive : Mode
  sharable : Mode

-- What `safe_connector` calls of its barrier.
pub record Barriers (B : Type 0) : Type 0 where
  pub open_barrier : B → B
  pub knock : B → Run B
  pub expect : B → Timespec → Run (B × Bool)

-- A `shared_barrier`, while no other thread moves.
abbrev pub shared_barriers : Barriers Barrier
shared_barriers = record {
  open_barrier = Barrier.open_barrier;
  knock = Barrier.knock;
  expect = λ b timeout. done (Barrier.timed_expect b);
}

pub record Safe (L W B : Type 0) : Type 0 where
  pub locker : L
  pub inner : W
  pub barrier : B
  pub ticks : ℕ

module _ {L : Type 0} (c : Lockable L Timespec) where
  -- Trying and leaving a guard of either kind.
  abbrev pub make_try : Mode → L → Run (Guard L)
  make_try exclusive l = Scoped.make_try c l
  make_try sharable l = Sharable.make_try c l

  abbrev pub make_timed : Mode → L → Timespec → Run (Guard L)
  make_timed exclusive l timeout = Scoped.make_timed c l timeout
  make_timed sharable l timeout = Sharable.make_timed c l timeout

  abbrev pub destroy : Mode → Guard L → Run L
  destroy exclusive g = Scoped.destroy c g
  destroy sharable g = Sharable.destroy c g

module _ {L W P M B : Type 0} (c : Lockable L Timespec) (v : Virtuals W P M) where
  -- The body of a call that tries its guard: `work` if the guard owns the locker, and else
  -- `failed`.
  unfoldable pub guarded : {A : Type 0} → Mode → (W → W × A) → A → Safe L W B → Run (Safe L W B × A)
  guarded mode work failed s = do
    g ← make_try c mode s.locker
    let (w, a) = if g.locked then work s.inner else (s.inner, failed)
    l ← destroy c mode g
    done (record s { locker = l; inner = w }, a)

  unfoldable pub base_push : Safe L W B → ℕ → List ℕ → Run (Safe L W B × Bool)
  base_push s tag source = guarded exclusive (λ w. v.do_push w tag source) false s

  unfoldable pub base_get : Safe L W B → Run (Safe L W B × Option M)
  base_get s = guarded sharable v.do_get none s

  unfoldable pub base_pop : Mode → Safe L W B → Run (Safe L W B × Bool)
  base_pop mode s = guarded mode v.do_pop false s

  module _ (b : Barriers B) (clock : ℕ → Timespec) where
    abbrev pub opened_if : Bool → B → B
    opened_if true barrier = b.open_barrier barrier
    opened_if false barrier = barrier

    -- `do_push` of `safe_connector`: under its own guard it calls `do_push` of
    -- `base_safe_connector`.
    unfoldable pub safe_push : Safe L W B → ℕ → List ℕ → Run (Safe L W B × Bool)
    safe_push s tag source = do
      g ← Scoped.make_try c s.locker
      (s', result) ←
          if g.locked
          then base_push (record s { locker = g.locker }) tag source
          else done (record s { locker = g.locker }, false)
      l ← Scoped.destroy c (record g { locker = s'.locker })
      done (record s' { locker = l; barrier = opened_if result s'.barrier }, result)

    abbrev pub is_early : Timespec → Safe L W B → Bool
    is_early ts s = Timespec.lt (clock s.ticks) ts

    -- `ts - get_monotonic_time()`, after `reads` reads of the clock.
    abbrev pub rest_of : Timespec → Safe L W B → ℕ → Timespec
    rest_of ts s reads = Timespec.sub ts (clock (s.ticks + reads))

    abbrev pub ticked : Safe L W B → ℕ → Safe L W B
    ticked s reads = record s { ticks = s.ticks + reads }

    -- A round of `do_timed_push` and of `do_timed_pop`.
    unfoldable pub timed_round :
        Mode → (W → W × Bool) → Timespec → Safe L W B → Run (Safe L W B × Bool)
    timed_round mode work ts s = do
      g ← make_timed c mode s.locker (rest_of ts s 1)
      let (w, result) = if g.locked then work s.inner else (s.inner, false)
      l ← destroy c mode g
      done (record (ticked s 2) { locker = l; inner = w }, result)

    unfoldable pub push_rounds : ℕ → ℕ → List ℕ → Timespec → Safe L W B → Run (Safe L W B × Bool)
    push_rounds zero tag source ts s = spent
    push_rounds (suc fuel) tag source ts s =
        let round = do
          (s', result) ← timed_round exclusive (λ w. v.do_push w tag source) ts s
          let rest = push_rounds fuel tag source ts s'
          if result then done (record s' { barrier = b.open_barrier s'.barrier }, true) else rest
        in if is_early ts s then round else done (ticked s 1, false)

    unfoldable pub pop_rounds : Mode → ℕ → Timespec → Safe L W B → Run (Safe L W B × Bool)
    pop_rounds mode zero ts s = spent
    pop_rounds mode (suc fuel) ts s =
        let round = do
          (s', result) ← timed_round mode v.do_pop ts s
          let rest = pop_rounds mode fuel ts s'
          if result then done (s', true) else rest
        in if is_early ts s then round else done (ticked s 1, false)

    -- Behind `do_get` in a round of `do_timed_get`: a message is returned; else the thread knocks
    -- at the barrier, unlocks, and expects the barrier to open. The Boolean tells to go on.
    unfoldable pub knock_round : Timespec → Guard L → Safe L W B → Run (Safe L W B × Bool)
    knock_round ts g s = do
      barrier ← b.knock s.barrier
      out ← Sharable.unlock c g
      (barrier', result) ← b.expect barrier (rest_of ts s 2)
      elim out [
        | Outcome.returned g' ↦ do
          l ← Sharable.destroy c g'
          done (record (ticked s 3) { locker = l; barrier = barrier' }, result)
        | Outcome.lock_exception ↦ fault
      ]

    unfoldable pub get_rounds : ℕ → Timespec → Safe L W B → Run (Safe L W B × Option M)
    get_rounds zero ts s = spent
    get_rounds (suc fuel) ts s =
        let round = do
          g ← Sharable.make_timed c s.locker (rest_of ts s 1)
          let (w, pmessage) = v.do_get s.inner
          let found = do
            l ← Sharable.destroy c g
            done (record (ticked s 2) { locker = l; inner = w }, pmessage)
          let missing = do
            (s', on) ← knock_round ts g (record s { inner = w })
            let rest = get_rounds fuel ts s'
            if on then rest else done (s', none)
          let refused = do
            l ← Sharable.destroy c g
            get_rounds fuel ts (record (ticked s 2) { locker = l })
          if g.locked then if is_message pmessage then found else missing else refused
        in if is_early ts s then round else done (ticked s 1, none)

    abbrev pub deadline : Safe L W B → Timespec → Timespec
    deadline s timeout = Timespec.add (clock s.ticks) timeout

    unfoldable pub timed_push : ℕ → Safe L W B → ℕ → List ℕ → Timespec → Run (Safe L W B × Bool)
    timed_push fuel s tag source timeout =
        push_rounds fuel tag source (deadline s timeout) (ticked s 1)

    unfoldable pub timed_pop : Mode → ℕ → Safe L W B → Timespec → Run (Safe L W B × Bool)
    timed_pop mode fuel s timeout = pop_rounds mode fuel (deadline s timeout) (ticked s 1)

    unfoldable pub timed_get : ℕ → Safe L W B → Timespec → Run (Safe L W B × Option M)
    timed_get fuel s timeout = get_rounds fuel (deadline s timeout) (ticked s 1)
