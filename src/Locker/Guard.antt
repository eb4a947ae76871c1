-- ===== src/Locker/Guard.antt =====
-- What the guards `scoped_lock` and `sharable_lock` of qbus/locker.h share.
use qbus.Prelude.{ℕ, ◌+◌, ◌<◌, ◌≡◌, ◌⊎◌, Bool, true, false, Run, done, spent}

-- The template parameter `Locker`: `L` is its state, and `T` a timeout.
pub record Lockable (L T : Type 0) : Type 0 where
  pub lock : L → Run L
  pub try_lock : L → Run (L × Bool)
  pub timed_lock : L → T → Run (L × Bool)
  pub unlock : L → Run L
  pub lock_sharable : L → Run L
  pub try_lock_sharable : L → Run (L × Bool)
  pub timed_lock_sharable : L → T → Run (L × Bool)
  pub unlock_sharable : L → Run L

pub record Guard (L : Type 0) : Type 0 where
  pub locker : L
  pub locked : Bool

-- What a method returns, or that it throws.
pub data Outcome (A : Type 0) : Type 0 where
  returned : A → Outcome A
  lock_exception : Outcome A

-- The methods a client calls.
pub data Call (T : Type 0) : Type 0 where
  lock : Call T
  try_lock : Call T
  timed_lock : T → Call T
  unlock : Call T

abbrev pub b2n : Bool → ℕ
b2n true = 1
b2n false = 0

module _ {L : Type 0} (held : L → ℕ) where
  -- A lock that waits, one that is tried, and an unlock, as a locker with `held` holders does them.
  abbrev Waits : (L → Run L) → Type 0
  Waits f = (l : L) → (f l ≡ spent) ⊎ ((l' : L) × (f l ≡ done l') × (held l' ≡ held l + 1))

  abbrev Tries : (L → Run (L × Bool)) → Type 0
  Tries f =
      (l : L) → (f l ≡ spent) ⊎ ((r : L × Bool) × (f l ≡ done r) × (held r.0 ≡ held l + b2n r.1))

  abbrev pub Releases : (L → Run L) → Type 0
  Releases f = (l : L) → 0 < held l → (l' : L) × (f l ≡ done l') × (held l' + 1 ≡ held l)

-- The exclusive operations of a locker count its holders.
abbrev pub Keeps : {L T : Type 0} → Lockable L T → (L → ℕ) → Type 0
Keeps {T = T} c held =
    Waits held c.lock
    × Tries held c.try_lock
    × ((t : T) → Tries held (λ l. c.timed_lock l t))
    × Releases held c.unlock

abbrev pub SharableKeeps : {L T : Type 0} → Lockable L T → (L → ℕ) → Type 0
SharableKeeps {T = T} c held =
    Waits held c.lock_sharable
    × Tries held c.try_lock_sharable
    × ((t : T) → Tries held (λ l. c.timed_lock_sharable l t))
    × Releases held c.unlock_sharable
