-- ===== src/Connector/Safe/Rounds.antt =====
-- The timed calls of `safe_connector` (qbus/connector.h) return, give the locker back, and return
-- true only after a call of the connector below that returned true.
use qbus.Prelude.{
  ℕ, zero, suc, ◌+◌, ◌≤◌, ◌<◌, ◌≡◌, ◌⊎◌, ◌∙◌, inl, inr, refl, ap, subst, arith, Bool, true, false,
  List, Run, done, Bool-cases, dec_lt,
}
use qbus.Timespec
use qbus.Timespec.{Timespec}
use qbus.Connector.{Virtuals}
use qbus.Connector.Safe
use qbus.Connector.Safe.{
  Safe, Barriers, Mode, exclusive, sharable, make_timed, destroy, timed_round, push_rounds,
  pop_rounds, get_rounds, knock_round, deadline,
}
use qbus.Locker.Guard.{Lockable, Guard}
use qbus.Locker.Scoped
use qbus.Locker.Sharable

-- From its `n`-th read on, the clock shows `ts` or a later time.
abbrev pub IsLate : (ℕ → Timespec) → Timespec → ℕ → Type 0
IsLate clock ts n = (k : ℕ) → n ≤ k → Timespec.lt (clock k) ts ≡ false

-- The calls of the locker that the guards of a mode make.
abbrev pub unlock_of : {L : Type 0} → Lockable L Timespec → Mode → L → Run L
unlock_of c exclusive = c.unlock
unlock_of c sharable = c.unlock_sharable

abbrev timed_lock_of : {L : Type 0} → Lockable L Timespec → Mode → L → Timespec → Run (L × Bool)
timed_lock_of c exclusive = c.timed_lock
timed_lock_of c sharable = c.timed_lock_sharable

-- What is left of a locker with `n` holders by a timed lock that returned `b`: the locker as ready as
-- before, or with one holder more, who can give it back.
abbrev pub Leaves :
    {L : Type 0} → Lockable L Timespec → (L → ℕ) → (L → Type 0) → Mode → ℕ → L → Bool → Type 0
Leaves {L = L} c held Ready mode n l b =
    ((b ≡ false) × (held l ≡ n) × Ready l)
    ⊎ ((b ≡ true)
        × (held l ≡ n + 1)
        × ((l' : L) × (unlock_of c mode l ≡ done l') × (held l' + 1 ≡ held l) × Ready l'))

-- What the calls rely on of the locker, of which `held` counts the holders of the mode: from the
-- states that are `Ready` a timed lock returns, and they are left only while the caller holds it.
abbrev pub Locks : {L : Type 0} → Lockable L Timespec → (L → ℕ) → (L → Type 0) → Mode → Type 0
Locks {L = L} c held Ready mode =
    (l : L) (t : Timespec)
    → Ready l
    → (r : L × Bool) × (timed_lock_of c mode l t ≡ done r)
      × Leaves c held Ready mode (held l) r.0 r.1

module _ {L : Type 0} (c : Lockable L Timespec) (held : L → ℕ) (Ready : L → Type 0) where
  pub make_timed_lem :
      (mode : Mode) (l : L) (t : Timespec)
      → Locks c held Ready mode
      → Ready l
      → (g : Guard L) × (make_timed c mode l t ≡ done g)
        × Leaves c held Ready mode (held l) g.locker g.locked
  unfolding Scoped.make_timed Sharable.make_timed
  make_timed_lem exclusive l t laws ready =
      let r = laws l t ready in (record { locker = r.0.0; locked = r.0.1 }, rw r.1, r.2)
  make_timed_lem sharable l t laws ready =
      let r = laws l t ready in (record { locker = r.0.0; locked = r.0.1 }, rw r.1, r.2)

  -- The destructor gives the locker back.
  pub destroy_lem :
      (mode : Mode) (g : Guard L) (n : ℕ)
      → Leaves c held Ready mode n g.locker g.locked
      → (l : L) × (destroy c mode g ≡ done l) × (held l ≡ n) × Ready l
  unfolding Scoped.destroy Sharable.destroy
  destroy_lem exclusive g n (inl e) = (g.locker, rw (e.0), e.1, e.2)
  destroy_lem sharable g n (inl e) = (g.locker, rw (e.0), e.1, e.2)
  destroy_lem exclusive g n (inr e) = (e.2.0, rw (e.0, e.2.1), omega (arith, e.1, e.2.2), e.2.3)
  destroy_lem sharable g n (inr e) = (e.2.0, rw (e.0, e.2.1), omega (arith, e.1, e.2.2), e.2.3)

  module _ {W P M B : Type 0} (v : Virtuals W P M) (b : Barriers B) (clock : ℕ → Timespec) where
    -- A call of the connector below that returned true, and left it as it is.
    abbrev Works : (W → W × Bool) → W → Bool → Type 0
    Works work w result = (result ≡ false) ⊎ ((w0 : W) × (work w0 ≡ (w, true)))

    works : (work : W → W × Bool) (w0 : W) → Works work (work w0).0 (work w0).1
    works work w0 = elim (Bool-cases (work w0).1) [
      | inl e ↦ inr (w0, ap (λ r. ((work w0).0, r)) e)
      | inr e ↦ inl e
    ]

    -- A round returns, and leaves the locker as often held.
    Round : (W → W × Bool) → Safe L W B → Run (Safe L W B × Bool) → Type 0
    Round work s out =
        (s' : Safe L W B) × (result : Bool) × (out ≡ done (s', result))
        × (held s'.locker ≡ held s.locker)
        × (s'.ticks ≡ s.ticks + 2)
        × Ready s'.locker
        × Works work s'.inner result

    timed_round_lem :
        (mode : Mode) (work : W → W × Bool) (ts : Timespec) (s : Safe L W B)
        → Locks c held Ready mode
        → Ready s.locker
        → Round work s (timed_round c v b clock mode work ts s)
    unfolding timed_round Round
    timed_round_lem mode work ts s laws ready =
        let g = make_timed_lem mode s.locker (Timespec.sub ts (clock (s.ticks + 1))) laws ready in
        let d = destroy_lem mode g.0 (held s.locker) g.2 in
        elim (Bool-cases g.0.locked) [
          | inl e ↦ (
            record s { locker = d.0; inner = (work s.inner).0; ticks = s.ticks + 2 },
            (work s.inner).1,
            rw (g.1, e, d.1),
            d.2,
            refl,
            d.3,
            works work s.inner,
          )
          | inr e ↦ (
            record s { locker = d.0; ticks = s.ticks + 2 },
            false,
            rw (g.1, e, d.1),
            d.2,
            refl,
            d.3,
            inl refl,
          )
        ]

    -- How a timed push or pop ends: the locker is held as often as before, and a true result is
    -- that of the connector below.
    abbrev pub Ends : (W → W × Bool) → Safe L W B → Run (Safe L W B × Bool) → Type 0
    Ends work s out =
        (s' : Safe L W B) × (result : Bool) × (out ≡ done (s', result))
        × (held s'.locker ≡ held s.locker)
        × Works work s'.inner result

    -- While the clock shows an earlier time, its late reads lie ahead.
    pub ahead :
        (ts : Timespec) (n ticks : ℕ)
        → IsLate clock ts n
        → Timespec.lt (clock ticks) ts ≡ true
        → ticks < n
    ahead ts n ticks late early = elim (dec_lt ticks n) [
      | yes h ↦ h
      | no h ↦ absurd (cc (late ticks (omega arith), early))
    ]

    push_rounds_lem :
        (tag : ℕ) (source : List ℕ) (ts : Timespec) (n fuel : ℕ) (s : Safe L W B)
        → Locks c held Ready exclusive
        → Ready s.locker
        → IsLate clock ts n
        → n < s.ticks + fuel
        → 0 < fuel
        → Ends (λ w. v.do_push w tag source) s (push_rounds c v b clock fuel tag source ts s)
    unfolding push_rounds Round
    push_rounds_lem tag source ts n zero s laws ready late h pos = absurd (omega arith)
    push_rounds_lem tag source ts n (suc fuel) s laws ready late h pos =
        let r = timed_round_lem exclusive (λ w. v.do_push w tag source) ts s laws ready in
        elim (Bool-cases (Timespec.lt (clock s.ticks) ts)) [
          | inr e ↦ (record s { ticks = s.ticks + 1 }, false, rw e, refl, inl refl)
          | inl e ↦ elim (Bool-cases r.1) [
            | inl ok ↦ (
              record (r.0) { barrier = b.open_barrier r.0.barrier },
              true,
              rw (e, r.2, ok),
              r.3,
              subst (λ x. Works (λ w. v.do_push w tag source) r.0.inner x) ok r.6,
            )
            | inr bad ↦
                let a = ahead ts n s.ticks late e in
                let q =
                  push_rounds_lem tag source ts n fuel r.0 laws r.5 late (omega (arith, r.4, a, h))
                    (omega (arith, a, h)) in
                (q.0, q.1, rw (e, r.2, bad) q.2, q.3 ∙ r.3, q.4)
          ]
        ]

    pop_rounds_lem :
        (mode : Mode) (ts : Timespec) (n fuel : ℕ) (s : Safe L W B)
        → Locks c held Ready mode
        → Ready s.locker
        → IsLate clock ts n
        → n < s.ticks + fuel
        → 0 < fuel
        → Ends v.do_pop s (pop_rounds c v b clock mode fuel ts s)
    unfolding pop_rounds Round
    pop_rounds_lem mode ts n zero s laws ready late h pos = absurd (omega arith)
    pop_rounds_lem mode ts n (suc fuel) s laws ready late h pos =
        let r = timed_round_lem mode v.do_pop ts s laws ready in
        elim (Bool-cases (Timespec.lt (clock s.ticks) ts)) [
          | inr e ↦ (record s { ticks = s.ticks + 1 }, false, rw e, refl, inl refl)
          | inl e ↦ elim (Bool-cases r.1) [
            | inl ok ↦
                (r.0, true, rw (e, r.2, ok), r.3, subst (λ x. Works v.do_pop r.0.inner x) ok r.6)
            | inr bad ↦
                let a = ahead ts n s.ticks late e in
                let q =
                  pop_rounds_lem mode ts n fuel r.0 laws r.5 late (omega (arith, r.4, a, h))
                    (omega (arith, a, h)) in
                (q.0, q.1, rw (e, r.2, bad) q.2, q.3 ∙ r.3, q.4)
          ]
        ]

    -- A timed push and a timed pop return, with fuel for the reads of the clock up to the deadline.
    -- The locker is held as often as before, and true is returned only if the last call of the
    -- connector below returned true. The clock must come to the deadline for good by its `n`-th
    -- read. The locker counts its holders, and is in one of the states from which its timed calls
    -- return, which giving it back leads to again; those of a `shared_locker` that no other thread
    -- holds are such states.
    pub timed_push-pop :
        (n fuel : ℕ) (s : Safe L W B) (tag : ℕ) (source : List ℕ) (mode : Mode) (timeout : Timespec)
        → Locks c held Ready exclusive
        → Locks c held Ready mode
        → Ready s.locker
        → IsLate clock (deadline c v b clock s timeout) n
        → n < s.ticks + 1 + fuel
        → 0 < fuel
        → Ends
            (λ w. v.do_push w tag source)
            s
            (Safe.timed_push c v b clock fuel s tag source timeout)
          × Ends v.do_pop s (Safe.timed_pop c v b clock mode fuel s timeout)
    unfolding Safe.timed_push Safe.timed_pop
    timed_push-pop n fuel s tag source mode timeout locks laws ready late h pos = (
      push_rounds_lem tag source _ n fuel (record s { ticks = s.ticks + 1 }) locks ready late h pos,
      pop_rounds_lem mode _ n fuel (record s { ticks = s.ticks + 1 }) laws ready late h pos,
    )
