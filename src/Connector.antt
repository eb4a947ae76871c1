-- ===== src/Connector.antt =====
-- `base_connector` of qbus/connector.h and qbus/connector.cpp: the state of a connector, the
-- directions, and the timed calls, which try again until the time comes.
pub mod Timed
pub mod Safe
pub mod Simple
use qbus.Prelude.{
  ℕ, zero, suc, ◌+◌, Bool, true, false, ◌&&◌, if◌then◌else◌, List, Option, none, some, Run, done,
  spent, ◌>>=◌,
}
use qbus.Timespec
use qbus.Timespec.{Timespec}

-- `direction_type`
pub data Direction : Type 0 where
  con_in : Direction
  con_out : Direction
  con_bidir : Direction

-- The virtual methods: `W` is the state of a connector, `P` a pointer to its parent, `M` a message.
pub record Virtuals (W P M : Type 0) : Type 0 where
  pub do_create : W → (cid size : ℕ) → (timeout : Option ℕ) → Option P → W × Bool
  pub do_open : W → Option P → W × Bool
  pub do_push : W → (tag : ℕ) → List ℕ → W × Bool
  pub do_get : W → W × Option M
  pub do_pop : W → W × Bool
  pub get_capacity : W → ℕ

-- `ticks` counts the reads of the clock.
pub record Connector (W : Type 0) : Type 0 where
  pub state : W
  pub direction : Direction
  pub opened : Bool
  pub ticks : ℕ

abbrev pub is_output : Direction → Bool
is_output con_in = false
is_output con_out = true
is_output con_bidir = true

abbrev pub is_input : Direction → Bool
is_input con_in = true
is_input con_out = false
is_input con_bidir = true

abbrev pub is_message : {M : Type 0} → Option M → Bool
is_message none = false
is_message (some m) = true

module _ {W P M : Type 0} (v : Virtuals W P M) (clock : ℕ → Timespec) where
  unfoldable pub create :
      Connector W → (cid size : ℕ) → (timeout : Option ℕ) → Option P → Connector W × Bool
  create s cid size timeout parent =
      let (w, result) = v.do_create s.state cid size timeout parent in
      if s.opened then (s, false) else (record s { state = w; opened = result }, result)

  unfoldable pub open_at : Connector W → Option P → Connector W × Bool
  open_at s parent =
      let (w, result) = v.do_open s.state parent in
      if s.opened then (s, false) else (record s { state = w; opened = result }, result)

  -- Without a parent.
  unfoldable pub create_root :
      Connector W → (cid size : ℕ) → (timeout : Option ℕ) → Connector W × Bool
  create_root s cid size timeout = create s cid size timeout none

  unfoldable pub open_root : Connector W → Connector W × Bool
  open_root s = open_at s none

  unfoldable pub push : Connector W → ℕ → List ℕ → Connector W × Bool
  push s tag source =
      let (w, result) = v.do_push s.state tag source in
      if s.opened && is_output s.direction then (record s { state = w }, result) else (s, false)

  unfoldable pub get : Connector W → Connector W × Option M
  get s =
      let (w, pmessage) = v.do_get s.state in
      if s.opened && is_input s.direction then (record s { state = w }, pmessage) else (s, none)

  unfoldable pub pop : Connector W → Connector W × Bool
  pop s =
      let (w, result) = v.do_pop s.state in
      if s.opened && is_input s.direction then (record s { state = w }, result) else (s, false)

  unfoldable pub enabled : Connector W → Bool
  enabled s = s.opened

  unfoldable pub capacity : Connector W → ℕ
  capacity s = if s.opened then v.get_capacity s.state else 0

  -- The loop that the timed calls share: it reads the clock, and tries again while the time has not
  -- come and the last attempt has failed.
  unfoldable pub retry :
      {A : Type 0}
      → (W → W × A)
      → (A → Bool)
      → A
      → ℕ
      → Connector W
      → Timespec
      → Run (Connector W × A)
  retry attempt is_ok failed zero s ts = spent
  retry attempt is_ok failed (suc fuel) s ts =
      let (w, a) = attempt s.state in
      let s0 : Connector W = record s { ticks = s.ticks + 1 } in
      let s1 : Connector W = record s { state = w; ticks = s.ticks + 1 } in
      let rest = retry attempt is_ok failed fuel s1 ts in
      if Timespec.lt (clock s.ticks) ts
      then if is_ok a then done (s1, a) else rest
      else done (s0, failed)

  -- The time at which a timed call gives up, and the state after the clock has been read for it.
  abbrev pub deadline : Connector W → Timespec → Timespec
  deadline s timeout = Timespec.add (clock s.ticks) timeout

  abbrev pub tick : Connector W → Connector W
  tick s = record s { ticks = s.ticks + 1 }

  unfoldable pub do_timed_push : ℕ → Connector W → ℕ → List ℕ → Timespec → Run (Connector W × Bool)
  do_timed_push fuel s tag source timeout =
      retry (λ w. v.do_push w tag source) (λ b. b) false fuel (tick s) (deadline s timeout)

  unfoldable pub do_timed_get : ℕ → Connector W → Timespec → Run (Connector W × Option M)
  do_timed_get fuel s timeout = retry v.do_get is_message none fuel (tick s) (deadline s timeout)

  unfoldable pub do_timed_pop : ℕ → Connector W → Timespec → Run (Connector W × Bool)
  do_timed_pop fuel s timeout = retry v.do_pop (λ b. b) false fuel (tick s) (deadline s timeout)

  unfoldable pub timed_push : ℕ → Connector W → ℕ → List ℕ → Timespec → Run (Connector W × Bool)
  timed_push fuel s tag source timeout =
      let pushed = do_timed_push fuel s tag source timeout in
      if s.opened && is_output s.direction then pushed else done (s, false)

  unfoldable pub timed_get : ℕ → Connector W → Timespec → Run (Connector W × Option M)
  timed_get fuel s timeout =
      let got = do_timed_get fuel s timeout in
      if s.opened && is_input s.direction then got else done (s, none)

  unfoldable pub timed_pop : ℕ → Connector W → Timespec → Run (Connector W × Bool)
  timed_pop fuel s timeout =
      let popped = do_timed_pop fuel s timeout in
      if s.opened && is_input s.direction then popped else done (s, false)
