-- ===== src/Bus/Growth.antt =====
-- The capacity of the connectors that a `base_bus` adds (`make_connector`, qbus/bus.cpp).
use qbus.Prelude.{ℕ, ◌+◌, ◌*◌, ◌^◌, ◌≤◌, ◌<◌, ◌≡◌, arith, u32}
use qbus.Bus.{Specification, new_capacity}

-- The capacity that `make_connector` computes next to a connector of at least 100 bytes, and of less
-- than the greatest capacity, is larger than that of the connector and within the greatest capacity,
-- if the growth is at least one percent and the product of the capacity and the percentage is within
-- 32 bits.
pub new_capacity-grows :
    (sp : Specification) (old : ℕ)
    → 100 ≤ old
    → old < sp.max_capacity
    → 0 < sp.capacity_factor
    → sp.capacity_factor + 100 < 2 ^ 32
    → old * (sp.capacity_factor + 100) < 2 ^ 32
    → (old < new_capacity sp old) × (new_capacity sp old ≤ sp.max_capacity)
unfolding new_capacity
new_capacity-grows sp old a b p q r =
    let f = sp.capacity_factor + 100 in
    let e : u32 f ≡ f = omega arith in
    let e' : u32 (old * f) ≡ old * f = omega arith in
    let larger : old * 101 ≤ old * f = grind arith in rw (e, e') (omega arith)
