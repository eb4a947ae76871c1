-- ===== src/Locker/Sharable.antt =====
-- The guard `sharable_lock` of qbus/locker.h, over any locker: what the guard calls of it is an interface.
-- A call that throws `lock_exception` leaves the guard as it is.
use qbus.Prelude.{
  ℕ, ◌+◌, ◌≡◌, ◌⊎◌, inl, inr, refl, ap, ◌∙◌, arith, Bool, true, false, not, if◌then◌else◌, List, [],
  ◌∷◌, Run, done, spent, ◌>>=◌, Bool-cases,
}
use qbus.Locker.Guard.{Lockable, Guard, Outcome, returned, lock_exception, Call, b2n, SharableKeeps}

module _ {L T : Type 0} (c : Lockable L T) where
  -- The constructor with `defer_lock_type`.
  unfoldable pub defer : L → Guard L
  defer l = record { locker = l; locked = false }

  unfoldable pub lock : Guard L → Run (Outcome (Guard L))
  lock g =
      let locking =
        c.lock_sharable g.locker >>= λ l. done (returned (record { locker = l; locked = true })) in
      if g.locked then done lock_exception else locking

  unfoldable pub try_lock : Guard L → Run (Outcome (Guard L × Bool))
  try_lock g =
      let trying = c.try_lock_sharable g.locker >>= λ r.
      done (returned (record { locker = r.0; locked = r.1 }, r.1)) in
      if g.locked then done lock_exception else trying

  unfoldable pub timed_lock : Guard L → T → Run (Outcome (Guard L × Bool))
  timed_lock g timeout =
      let trying = c.timed_lock_sharable g.locker timeout >>= λ r.
      done (returned (record { locker = r.0; locked = r.1 }, r.1)) in
      if g.locked then done lock_exception else trying

  unfoldable pub unlock : Guard L → Run (Outcome (Guard L))
  unlock g =
      let unlocking = c.unlock_sharable g.locker >>= λ l.
      done (returned (record { locker = l; locked = false })) in
      if not g.locked then done lock_exception else unlocking

  unfoldable pub owns : Guard L → Bool
  owns g = g.locked

  -- The constructor that locks, and the one with `try_to_lock_type`, and the one with a timeout.
  unfoldable pub make : L → Run (Outcome (Guard L))
  make l = lock (defer l)

  unfoldable pub make_try : L → Run (Guard L)
  make_try l = c.try_lock_sharable l >>= λ r. done (record { locker = r.0; locked = r.1 })

  unfoldable pub make_timed : L → T → Run (Guard L)
  make_timed l timeout =
      c.timed_lock_sharable l timeout >>= λ r. done (record { locker = r.0; locked = r.1 })

  -- The destructor.
  unfoldable pub destroy : Guard L → Run L
  destroy g =
      let unlocking = c.unlock_sharable g.locker in if g.locked then unlocking else done g.locker

  abbrev after : {A : Type 0} → (A → Guard L) → Guard L → Outcome A → Guard L
  after f g (returned a) = f a
  after f g lock_exception = g

  -- One call of a client that catches the exception.
  unfoldable pub call : Guard L → Call T → Run (Guard L)
  call g Call.lock = lock g >>= λ o. done (after (λ g'. g') g o)
  call g Call.try_lock = try_lock g >>= λ o. done (after (λ r. r.0) g o)
  call g (Call.timed_lock t) = timed_lock g t >>= λ o. done (after (λ r. r.0) g o)
  call g Call.unlock = unlock g >>= λ o. done (after (λ g'. g') g o)

  -- Any calls, and the destructor.
  unfoldable pub live : Guard L → List (Call T) → Run L
  live g [] = destroy g
  live g (k ∷ ks) = call g k >>= λ g'. live g' ks

  module _ (held : L → ℕ) (keeps : SharableKeeps c held) where
    -- How a call ends: it waits for ever, or the guard holds its locker as often as it says.
    abbrev Held : ℕ → Run (Guard L) → Type 0
    Held n out =
        (out ≡ spent) ⊎ ((g : Guard L) × (out ≡ done g) × (held g.locker ≡ n + b2n g.locked))

    call-Held :
        (n : ℕ) (l : L) (b : Bool) (k : Call T)
        → held l ≡ n + b2n b
        → Held n (call (record { locker = l; locked = b }) k)
    unfolding call lock try_lock timed_lock unlock
    call-Held n l true Call.lock h = inr (_, refl, h)
    call-Held n l true Call.try_lock h = inr (_, refl, h)
    call-Held n l true (Call.timed_lock t) h = inr (_, refl, h)
    call-Held n l false Call.unlock h = inr (_, refl, h)
    call-Held n l false Call.lock h = elim (keeps.0 l) [
      | inl e ↦ inl (rw e)
      | inr r ↦ inr (record { locker = r.0; locked = true }, rw r.1, omega (arith, r.2))
    ]
    call-Held n l false Call.try_lock h = elim (keeps.1 l) [
      | inl e ↦ inl (rw e)
      | inr r ↦ inr (record { locker = r.0.0; locked = r.0.1 }, rw r.1, omega (arith, r.2))
    ]
    call-Held n l false (Call.timed_lock t) h = elim (keeps.2 t l) [
      | inl e ↦ inl (rw e)
      | inr r ↦ inr (record { locker = r.0.0; locked = r.0.1 }, rw r.1, omega (arith, r.2))
    ]
    call-Held n l true Call.unlock h =
        let r = keeps.3 l (omega arith) in
        inr (record { locker = r.0; locked = false }, rw r.1, omega (arith, r.2))

    live-Held :
        (n : ℕ) (g : Guard L) (ks : List (Call T))
        → held g.locker ≡ n + b2n g.locked
        → (live g ks ≡ spent) ⊎ ((l : L) × (live g ks ≡ done l) × (held l ≡ n))
    unfolding live destroy
    live-Held n g [] h = elim (Bool-cases g.locked) [
      | inl e ↦
          let one : held g.locker ≡ n + 1 = h ∙ ap (λ b. n + b2n b) e in
          let r = keeps.3 g.locker (omega arith) in
          inr (
            r.0,
            ap (λ b. if b then c.unlock_sharable g.locker else done g.locker) e ∙ r.1,
            omega (arith, r.2),
          )
      | inr e ↦
          let none : held g.locker ≡ n + 0 = h ∙ ap (λ b. n + b2n b) e in
          inr (
            g.locker,
            ap (λ b. if b then c.unlock_sharable g.locker else done g.locker) e,
            omega arith,
          )
    ]
    live-Held n g (k ∷ ks) h = elim (call-Held n g.locker g.locked k h) [
      | inl e ↦ inl (rw e)
      | inr r ↦ elim (live-Held n r.0 ks r.2) [
        | inl e ↦ inl (rw (r.1, e))
        | inr q ↦ inr (q.0, rw (r.1, q.1), q.2)
      ]
    ]

    -- Whatever a client does with a guard, and whichever calls throw: unless a call waits for ever,
    -- the locker is released, after the destructor, as often as the guard has locked it. The locker
    -- must count its holders.
    pub sharable_balanced :
        (l : L) (ks : List (Call T))
        → (live (defer l) ks ≡ spent)
          ⊎ ((l' : L) × (live (defer l) ks ≡ done l') × (held l' ≡ held l))
    unfolding defer
    sharable_balanced l ks = live-Held (held l) (defer l) ks (omega arith)
