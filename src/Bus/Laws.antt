-- ===== src/Bus/Laws.antt =====
-- The list of connectors of a `base_bus` (qbus/bus.cpp) and its control block agree.
use qbus.Prelude.{
  ℕ, suc, ap, sym, ◌∙◌, ℕ_discrete, ◌+◌, ◌^◌, ◌<◌, ◌≡◌, refl, arith, max, Bool, true, false, List,
  [], ◌∷◌, length, Option, none, some, done, ◌⊎◌, inl, inr, u32, sub32, ==_true, ==_false,
}
use qbus.Bus.{
  Bus, Connectors, front, back, pop_back, is_empty, make_connector, can_add_connector,
  add_connector, added, dropped, can_remove_connector, remove_connector, try_add, try_remove,
}
use qbus.Bus.Names.{
  span, ids, Named, length-ids, length-span, span_add, pop_back-span, ids-pop_back,
  make_connector-Named,
}

-- The connectors are those from `input_id` to `output_id`, whose identifiers wrap round: each of them
-- once, the one of `output_id` first and the one of `input_id` last.
abbrev pub IsBus : {W P M : Type 0} → Connectors W P M → Bus W P → Type 0
IsBus c s =
    (s.control.input_id < 2 ^ 32)
    × (s.control.output_id < 2 ^ 32)
    × (ids c s.connectors
        ≡ span s.control.input_id (suc (sub32 s.control.output_id s.control.input_id)))

-- So there are as many as identifiers.
pub length-IsBus :
    {W P M : Type 0} (c : Connectors W P M) (s : Bus W P)
    → IsBus c s
    → length s.connectors ≡ sub32 s.control.output_id s.control.input_id + 1
length-IsBus c s bus = omega (
  arith,
  length-ids c s.connectors,
  ap length bus.2,
  length-span s.control.input_id (suc (sub32 s.control.output_id s.control.input_id)),
)

-- How many connectors can still be added, and removed.
abbrev pub spare : {W P : Type 0} → Bus W P → ℕ
spare s = sub32 s.control.input_id (u32 (s.control.output_id + 1))

abbrev pub behind : {W P : Type 0} → Bus W P → ℕ
behind s = sub32 s.control.output_id s.control.input_id

length-pop_back : {P : Type 0} (ps : List P) → length (pop_back ps) + 1 ≡ max 1 (length ps)
unfolding pop_back
length-pop_back [] = omega arith
length-pop_back (p ∷ []) = omega arith
length-pop_back (p ∷ q ∷ ps) = omega (arith, length-pop_back (q ∷ ps))

-- A bus with a connector has a first and a last one.
pub front-some :
    {P : Type 0} (ps : List P) (n : ℕ) → length ps ≡ n + 1 → (p : P) × (front ps ≡ some p)
front-some [] n e = absurd (omega arith)
front-some (p ∷ ps) n e = (p, refl)

pub back-some :
    {P : Type 0} (ps : List P) (n : ℕ) → length ps ≡ n + 1 → (p : P) × (back ps ≡ some p)
unfolding back
back-some [] n e = absurd (omega arith)
back-some (p ∷ []) n e = (p, refl)
back-some (p ∷ q ∷ ps) n e = back-some (q ∷ ps) (length ps) (omega arith)

is_empty-false : {P : Type 0} (ps : List P) (n : ℕ) → length ps ≡ n + 1 → is_empty ps ≡ false
is_empty-false [] n e = absurd (omega arith)
is_empty-false (p ∷ ps) n e = refl

module _ {W P M : Type 0} (c : Connectors W P M) (s : Bus W P) (bus : IsBus c s) where
  -- What an attempt to add a connector leaves: a bus, with one connector more if it succeeds.
  abbrev pub Adds : Bus W P × Bool → Type 0
  Adds (s', true) =
      IsBus c s'
      × (spare s' + 1 ≡ spare s)
      × (s'.control.output_id ≡ u32 (s.control.output_id + 1))
      × (s'.control.input_id ≡ s.control.input_id)
  Adds (s', false) = IsBus c s' × (s'.control ≡ s.control)

  added-Adds :
      (made : W × Option P)
      → Named c (u32 (s.control.output_id + 1)) made.1
      → 0 < spare s
      → Adds (added s made)
  added-Adds (w, none) named h = (bus, refl)
  added-Adds (w, some p) named h =
      let i = s.control.input_id in
      let o = s.control.output_id in
      (
        (
          omega arith,
          omega arith,
          ap (λ xs. c.id_of p ∷ xs) bus.2
              ∙ ap (λ x. x ∷ span i (suc (sub32 o i))) named
              ∙ span_add i o bus.0 bus.1 h,
        ),
        omega arith,
        refl,
        refl,
      )

  -- An attempt to add a connector.
  pub try_add-Adds : Adds (try_add c s)
  unfolding try_add can_add_connector add_connector
  try_add-Adds = elim (ℕ_discrete (u32 (s.control.output_id + 1)) s.control.input_id) [
    | yes e ↦ rw (==_true _ _ e) (bus, refl)
    | no ne ↦ rw (==_false _ _ ne) (
        added-Adds (make_connector c s (u32 (s.control.output_id + 1)))
          (make_connector-Named c s (u32 (s.control.output_id + 1))) (omega arith))
  ]

  -- What an attempt to remove a connector leaves: a bus, with one connector less if it succeeds.
  abbrev pub Removes : Bus W P × Bool → Type 0
  Removes (s', true) =
      IsBus c s'
      × (behind s' + 1 ≡ behind s)
      × (s'.control.input_id ≡ u32 (s.control.input_id + 1))
      × (s'.control.output_id ≡ s.control.output_id)
  Removes (s', false) = IsBus c s' × (s'.control ≡ s.control) × (behind s ≡ 0)

  pub try_remove-Removes : (r : Bus W P × Bool) × (try_remove c s ≡ done r) × Removes r
  unfolding try_remove can_remove_connector remove_connector
  try_remove-Removes = elim (ℕ_discrete s.control.input_id s.control.output_id) [
    | yes e ↦ ((s, false), rw (==_true _ _ e), (bus, refl, omega arith))
    | no ne ↦
        let n = length-pop_back s.connectors in
        let l = length-IsBus c s bus in
        let i = s.control.input_id in
        let o = s.control.output_id in
        let fewer : suc (sub32 o (u32 (i + 1))) ≡ sub32 o i = omega (arith, bus.0, bus.1) in
        let e = is_empty-false s.connectors _ l in
        let e' =
          is_empty-false (pop_back s.connectors)
            (sub32 s.control.output_id (u32 (s.control.input_id + 1))) (omega (arith, n, l)) in
        (
          (
            record s {
              world = dropped c s.world (back s.connectors);
              connectors = pop_back s.connectors;
              control = record s.control {
                input_id = u32 (s.control.input_id + 1);
                epoch = u32 (s.control.epoch + 1);
              };
            },
            true,
          ),
          rw (==_false _ _ ne, e, e'),
          (
            (
              omega arith,
              omega arith,
              ids-pop_back c s.connectors
                  ∙ ap pop_back bus.2
                  ∙ pop_back-span i (sub32 o i)
                  ∙ sym (ap (span (u32 (i + 1))) fewer),
            ),
            omega arith,
            refl,
            refl,
          ),
        )
  ]

module _ {W P M : Type 0} (c : Connectors W P M) where
  pub Adds-cases :
      (s : Bus W P) (bus : IsBus c s) (out : Bus W P × Bool)
      → Adds c s bus out
      → ((out.1 ≡ true)
          × IsBus c out.0
          × (spare out.0 + 1 ≡ spare s)
          × (out.0.control.output_id ≡ u32 (s.control.output_id + 1))
          × (out.0.control.input_id ≡ s.control.input_id))
        ⊎ ((out.1 ≡ false) × IsBus c out.0 × (out.0.control ≡ s.control))
  Adds-cases s bus (s', true) a = inl (refl, a.0, a.1, a.2, a.3)
  Adds-cases s bus (s', false) a = inr (refl, a.0, a.1)

  pub Removes-cases :
      (s : Bus W P) (bus : IsBus c s) (out : Bus W P × Bool)
      → Removes c s bus out
      → ((out.1 ≡ true)
          × IsBus c out.0
          × (behind out.0 + 1 ≡ behind s)
          × (out.0.control.input_id ≡ u32 (s.control.input_id + 1))
          × (out.0.control.output_id ≡ s.control.output_id))
        ⊎ ((out.1 ≡ false) × IsBus c out.0 × (out.0.control ≡ s.control) × (behind s ≡ 0))
  Removes-cases s bus (s', true) a = inl (refl, a.0, a.1, a.2, a.3)
  Removes-cases s bus (s', false) a = inr (refl, a.0, a.1, a.2)
