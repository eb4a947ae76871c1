-- ===== src/Bus/Shared/Start.antt =====
-- The start of a `shared_bus` (qbus/bus.cpp): the body that the bus has in the shared memory is
-- written or read, and the connectors are made. `Open` has what becomes of the memory.
use qbus.Prelude.{
  ℕ, suc, sub32, sym, ◌∙◌, ◌∷◌, ◌^◌, ◌<◌, ◌≡◌, ◌⊎◌, inl, inr, refl, arith, Bool, true, false,
  length, ap, subst, Run, done, ◌>>=◌, Option, none, some,
}
use qbus.Bus
use qbus.Bus.{Bus, Connectors, Controlblock, Specification, first_made, make_connector}
use qbus.Bus.Laws.{IsBus}
use qbus.Bus.Names.{span, ids, Named, ids-empty, make_connector-Named}
use qbus.Bus.Loops.{do_open-Opens}
use qbus.Bus.Shared.{SharedBus, us_none, is_none, get_controlblock, store, view}
use qbus.Bus.Shared.Laws.{IsShared, lag, input_lag}

abbrev pub zero_block : Controlblock
zero_block = record { epoch = 0; input_id = 0; output_id = 0 }

module _ {W P M : Type 0} (c : Connectors W P M) where
  unfoldable pub create_body : SharedBus W P → Specification → SharedBus W P × Bool
  create_body s spec =
      let s0 : SharedBus W P = record s {
        bus = record s.bus { spec = spec; control = zero_block };
        local = zero_block;
      } in
      let (b, result) = Bus.do_create c (view s0) in (store s0 b, result)

  -- `m_controlblock = get_controlblock()`, if the connectors have been opened.
  unfoldable pub attached : SharedBus W P → Bool → SharedBus W P
  attached s false = s
  attached s true = record s { local = get_controlblock s }

  unfoldable pub attach_body : ℕ → SharedBus W P → Run (SharedBus W P × Bool)
  attach_body fuel s = do
    (b, result) ← Bus.do_open c fuel (view s)
    done (attached (store s b) result, result)

  -- A bus that has been started: it is up to date, or has no connectors.
  abbrev pub Starts : SharedBus W P → Bool → Type 0
  Starts s' true = IsShared c s' × (lag s' ≡ 0) × (input_lag s' ≡ 0)
  Starts s' false = length s'.bus.connectors ≡ 0

  -- What is left outside of an update.
  attached_idle :
      (s : SharedBus W P) (b : Bus W P)
      → s.status ≡ us_none
      → attached (store s b) true ≡ record s { bus = b; local = b.control }
  unfolding attached store get_controlblock is_none
  attached_idle s b st = rw st

  attached-Starts :
      (s : SharedBus W P) (b : Bus W P) (result : Bool)
      → s.status ≡ us_none
      → ((result ≡ true) × IsBus c b) ⊎ ((result ≡ false) × (length b.connectors ≡ 0))
      → Starts (attached (store s b) result) result
  unfolding attached store get_controlblock is_none
  attached-Starts s b true st (inl e) =
      subst (λ z. Starts z true) (sym (attached_idle s b st))
        ((st, e.1, e.1.0, e.1.1), omega (arith, e.1.1), omega (arith, e.1.0))
  attached-Starts s b true st (inr e) = absurd (cc (e.0))
  attached-Starts s b false st (inl e) = absurd (cc (e.0))
  attached-Starts s b false st (inr e) = rw st e.1

  -- `attach_body` of a bus without connectors returns, with fuel for every connector that the shared
  -- control block names. It returns true with all of these connectors, the bus up to date with the
  -- control block, or false with no connectors.
  pub attach_body-Starts :
      (fuel : ℕ) (s : SharedBus W P)
      → s.status ≡ us_none
      → s.bus.control.input_id < 2 ^ 32
      → s.bus.control.output_id < 2 ^ 32
      → length s.bus.connectors ≡ 0
      → Bus.Laws.behind s.bus < fuel
      → (s' : SharedBus W P) × (result : Bool) × (attach_body fuel s ≡ done (s', result))
        × Starts s' result
  unfolding attach_body get_controlblock is_none
  attach_body-Starts fuel s st i o no_connectors h =
      let r = do_open-Opens c fuel s.bus i o no_connectors h in
      (attached (store s r.0) r.1, r.1, rw (st, r.2), attached-Starts s r.0 r.1 st r.4)

  made_idle :
      (s : SharedBus W P) (w : W) (p : P)
      → s.status ≡ us_none
      → store s (first_made (view s) (w, some p)).0
        ≡ record s { bus = (first_made s.bus (w, some p)).0 }
  unfolding store get_controlblock is_none
  made_idle s w p st = rw st

  made-Starts :
      (s : SharedBus W P) (made : W × Option P)
      → s.status ≡ us_none
      → s.bus.control ≡ zero_block
      → s.local ≡ zero_block
      → length s.bus.connectors ≡ 0
      → Named c 0 made.1
      → Starts (store s (first_made (view s) made).0) (first_made (view s) made).1
  unfolding store get_controlblock is_none
  made-Starts s (w, none) st e l no_connectors named = rw st no_connectors
  made-Starts s (w, some p) st e l no_connectors named =
      let i = ap (λ k. k.input_id) l in
      let o = ap (λ k. k.output_id) l in
      let i' = ap (λ k. k.input_id) e in
      let o' = ap (λ k. k.output_id) e in
      subst (λ z. Starts z true) (sym (made_idle s w p st))
        (
          (
            st,
            (
              omega (arith, i),
              omega (arith, o),
              ap (λ x. x ∷ ids c s.bus.connectors) named
                  ∙ ap (λ xs. 0 ∷ xs) (ids-empty c s.bus.connectors no_connectors)
                  ∙ sym (ap (λ k. span k.input_id (suc (sub32 k.output_id k.input_id))) l),
            ),
            omega (arith, i'),
            omega (arith, o'),
          ),
          omega (arith, o, o'),
          omega (arith, i, i'),
        )

  -- `create_body` of a bus without connectors leaves exactly the connectors of the new control block,
  -- the bus up to date with it, if it returns true, and no connectors if it returns false.
  pub create_body-Starts :
      (s : SharedBus W P) (spec : Specification)
      → s.status ≡ us_none
      → length s.bus.connectors ≡ 0
      → Starts (create_body s spec).0 (create_body s spec).1
  unfolding create_body Bus.do_create
  create_body-Starts s spec st no_connectors =
      let s0 : SharedBus W P = record s {
        bus = record s.bus { spec = spec; control = zero_block };
        local = zero_block;
      } in
      made-Starts s0 (make_connector c (view s0) 0) st refl refl no_connectors
        (make_connector-Named c (view s0) 0)
