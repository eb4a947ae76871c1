-- ===== src/Tests/Buses.antt =====
-- Runs of a bus at concrete inputs.
use qbus.Prelude.{
  ℕ, ◌<◌, Option, some, none, ◌≤◌, ◌==◌, if◌then◌else◌, ◌+◌, refl, arith, true, false, [], ◌∷◌, Run,
  done, ◌>>=◌,
}
use qbus.Bus
use qbus.Bus.{Bus, Connectors}
use qbus.Bus.Calls
use qbus.Bus.Laws.{IsBus}
use qbus.Bus.Loops
use qbus.Bus.Loops.{Returns, Opens}
use qbus.Bus.Growth
use qbus.Bus.Directed
use qbus.Tests.Times.{half}

-- A bus of two connectors, of which the older one refuses everything and the other one is full.
abbrev pub toy : Connectors ℕ ℕ ℕ
toy = record {
  make = λ w id. (w, id);
  id_of = λ p. p;
  id_made = λ w id. refl;
  drop = λ w p. w;
  open_at = λ w p parent. (w, false);
  create_at = λ w p id cpct timeout parent. (w + 1, true);
  capacity = λ w p. 1000 + p;
  push = λ w p tag source. (w, p == 2);
  get = λ w p. (w, if p == 1 then some 42 else none);
  pop = λ w p. (w, p == 1);
  timed_push = λ w p tag source timeout. (w, p == 2);
  timed_get = λ w p timeout. (w, if p == 1 then some 42 else none);
  timed_pop = λ w p timeout. (w, p == 1);
}

abbrev pub toy_bus : Bus ℕ ℕ
toy_bus = record {
  world = 0;
  connectors = 1 ∷ 0 ∷ [];
  control = record { epoch = 1; input_id = 0; output_id = 1 };
  spec = record {
    id = 1;
    keepalive_timeout = 0;
    min_capacity = 100;
    max_capacity = 1000000;
    capacity_factor = 100;
  };
  opened = true;
}

toy_bus-IsBus : IsBus toy toy_bus
toy_bus-IsBus = (omega arith, omega arith, refl)

push-Returns_example :
    Returns toy (Calls.push toy 4294967295 toy_bus 5 (1 ∷ []))
    × Returns toy (Calls.timed_push toy 4294967295 toy_bus 5 (1 ∷ []) half)
push-Returns_example =
    Loops.push-Returns toy 4294967295 toy_bus 5 (1 ∷ []) half toy_bus-IsBus (omega arith)

get-Returns_example :
    Returns toy (Calls.get toy 2 toy_bus) × Returns toy (Calls.timed_get toy 2 toy_bus half)
get-Returns_example = Loops.get-Returns toy 2 toy_bus half toy_bus-IsBus (omega arith)

do_open-Opens_example :
    Opens toy
      (record toy_bus { connectors = [] })
      (Bus.do_open toy 2 (record toy_bus { connectors = [] }))
do_open-Opens_example =
    Loops.do_open-Opens toy 2 (record toy_bus { connectors = [] }) (omega arith) (omega arith) refl
      (omega arith)

receive-Empties_example :
    Directed.Empties toy toy_bus none (Directed.get toy 2 toy_bus)
    × Directed.Empties toy toy_bus false (Directed.pop toy 2 toy_bus)
receive-Empties_example = Directed.receive-Empties toy 2 toy_bus toy_bus-IsBus refl (omega arith)

new_capacity-grows_example :
    (1000 < Bus.new_capacity toy_bus.spec 1000) × (Bus.new_capacity toy_bus.spec 1000 ≤ 1000000)
new_capacity-grows_example =
    Growth.new_capacity-grows toy_bus.spec 1000 (omega arith) (omega arith) (omega arith)
      (omega arith) (omega arith)

-- A push adds a connector, and a get removes one.
abbrev outcome : Run (ℕ × Option ℕ × Bus.Controlblock)
outcome = do
  (s, b) ← Calls.push toy 3 toy_bus 5 (1 ∷ [])
  (s, m) ← Calls.get toy 3 s
  done (s.world, m, s.control)
