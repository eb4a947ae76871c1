-- ===== src/Connector/Safe/Get.antt =====
-- The timed get of `safe_connector` (qbus/connector.h), which waits at the barrier between its
-- attempts.
use qbus.Prelude.{
  ℕ, zero, suc, ◌+◌, ◌<◌, ◌≡◌, ◌⊎◌, ◌∙◌, inl, inr, refl, ap, arith, Bool, true, Option, none, some,
  Run, done, Bool-cases, Option-cases,
}
use qbus.Timespec
use qbus.Timespec.{Timespec}
use qbus.Connector.{Virtuals}
use qbus.Connector.Safe
use qbus.Connector.Safe.{Safe, Barriers, sharable, get_rounds, knock_round, deadline}
use qbus.Connector.Safe.Rounds.{IsLate, Locks, make_timed_lem, destroy_lem, ahead}
use qbus.Locker.Guard.{Lockable, Guard}
use qbus.Locker.Sharable

-- A barrier that is in one of the states `Calm`: a knock and the timed wait behind it return, and lead
-- to such a state again.
abbrev pub Answers : {B : Type 0} → Barriers B → (B → Type 0) → Type 0
Answers {B = B} b Calm =
    (barrier : B)
    → Calm barrier
    → (knocked : B) × (b.knock barrier ≡ done knocked)
      × ((t : Timespec) → (r : B × Bool) × (b.expect knocked t ≡ done r) × Calm r.0)

module _ {L : Type 0} (c : Lockable L Timespec) (held : L → ℕ) (Ready : L → Type 0)
    {W P M B : Type 0} (v : Virtuals W P M) (b : Barriers B) (Calm : B → Type 0)
    (clock : ℕ → Timespec) where
  -- What knocking leaves: the locker is held as often as before the guard.
  abbrev Knocks : Safe L W B → ℕ → Run (Safe L W B × Bool) → Type 0
  Knocks s n out =
      (s' : Safe L W B) × (on : Bool) × (out ≡ done (s', on))
      × (held s'.locker ≡ n)
      × (s'.ticks ≡ s.ticks + 3)
      × Ready s'.locker
      × Calm s'.barrier

  knock_lem :
      (ts : Timespec) (g : Guard L) (s : Safe L W B) (n : ℕ)
      → Answers b Calm
      → Calm s.barrier
      → g.locked ≡ true
      → (l : L) → c.unlock_sharable g.locker ≡ done l
      → held l ≡ n
      → Ready l
      → Knocks s n (knock_round c v b clock ts g s)
  unfolding knock_round Sharable.unlock Sharable.destroy
  knock_lem ts g s n answers calm own l unlocks back ready =
      let k = answers s.barrier calm in
      let x = k.2 (Timespec.sub ts (clock (s.ticks + 2))) in
      (
        record s { locker = l; barrier = x.0.0; ticks = s.ticks + 3 },
        x.0.1,
        rw (own, k.1, unlocks, x.1),
        back,
        refl,
        ready,
        x.2,
      )

  -- How a timed get ends: the locker is held as often as before, and a message is one that the
  -- connector below has returned.
  abbrev pub Gets : Safe L W B → Run (Safe L W B × Option M) → Type 0
  Gets s out =
      (s' : Safe L W B) × (pmessage : Option M) × (out ≡ done (s', pmessage))
      × (held s'.locker ≡ held s.locker)
      × ((pmessage ≡ none) ⊎ ((w : W) × (v.do_get w ≡ (s'.inner, pmessage))))

  get_rounds_lem :
      (ts : Timespec) (n fuel : ℕ) (s : Safe L W B)
      → Locks c held Ready sharable
      → Ready s.locker
      → Answers b Calm
      → Calm s.barrier
      → IsLate clock ts n
      → n < s.ticks + fuel
      → 0 < fuel
      → Gets s (get_rounds c v b clock fuel ts s)
  unfolding get_rounds
  get_rounds_lem ts n zero s laws ready answers calm late h pos = absurd (omega arith)
  get_rounds_lem ts n (suc fuel) s laws ready answers calm late h pos =
      elim (Bool-cases (Timespec.lt (clock s.ticks) ts)) [
        | inr e ↦ (record s { ticks = s.ticks + 1 }, none, rw e, refl, inl refl)
        | inl e ↦
            let a = ahead c held Ready v b clock ts n s.ticks late e in
            let g =
              make_timed_lem c held Ready sharable s.locker (Timespec.sub ts (clock (s.ticks + 1)))
                laws ready in
            let d = destroy_lem c held Ready sharable g.0 (held s.locker) g.2 in
            elim (g.2) [
              | inl out ↦
                  let q =
                    get_rounds_lem ts n fuel (record s { locker = d.0; ticks = s.ticks + 2 }) laws
                      d.3 answers calm late (omega (arith, a, h)) (omega (arith, a, h)) in
                  (q.0, q.1, rw (e, g.1, out.0, d.1) q.2, q.3 ∙ d.2, q.4)
              | inr own ↦ elim (Option-cases (v.do_get s.inner).1) [
                | inr m ↦ (
                  record s { locker = d.0; inner = (v.do_get s.inner).0; ticks = s.ticks + 2 },
                  some m.0,
                  rw (e, g.1, own.0, m.1, d.1),
                  d.2,
                  inr (s.inner, ap (λ x. ((v.do_get s.inner).0, x)) m.1),
                )
                | inl m ↦
                    let s1 : Safe L W B = record s { inner = (v.do_get s.inner).0 } in
                    let k =
                      knock_lem ts g.0 s1 (held s.locker) answers calm own.0 own.2.0 own.2.1
                        (omega (arith, own.1, own.2.2)) own.2.3 in
                    let q =
                      get_rounds_lem ts n fuel k.0 laws k.5 answers k.6 late
                        (omega (arith, k.4, a, h)) (omega (arith, a, h)) in
                    elim (Bool-cases k.1) [
                      | inl on ↦ (q.0, q.1, rw (e, g.1, own.0, m, k.2, on) q.2, q.3 ∙ k.3, q.4)
                      | inr off ↦ (k.0, none, rw (e, g.1, own.0, m, k.2, off), k.3, inl refl)
                    ]
              ]
            ]
      ]

  -- A timed get returns, with fuel for the reads of the clock up to the deadline. The locker is held
  -- as often as before, and a message is one that the connector below has returned. The clock must
  -- come to the deadline for good by its `n`-th read. The locker counts its readers and is in one of
  -- the states from which its timed calls return, and the barrier in one from which a knock and the
  -- timed wait behind it return, and each leads to such a state again: as a `shared_locker` that no
  -- other thread holds, and a `shared_barrier` without tokens that no other thread moves.
  pub timed_get-Gets :
      (n fuel : ℕ) (s : Safe L W B) (timeout : Timespec)
      → Locks c held Ready sharable
      → Ready s.locker
      → Answers b Calm
      → Calm s.barrier
      → IsLate clock (deadline c v b clock s timeout) n
      → n < s.ticks + 1 + fuel
      → 0 < fuel
      → Gets s (Safe.timed_get c v b clock fuel s timeout)
  unfolding Safe.timed_get
  timed_get-Gets n fuel s timeout laws ready answers calm late h pos =
      get_rounds_lem _ n fuel (record s { ticks = s.ticks + 1 }) laws ready answers calm late h pos
