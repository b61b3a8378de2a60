-- ===== src/Router/Simulate/Shares.antt =====
-- pydefi/pathfinder/router.py: what `_simulate_actions` pays for a split.
use pydefi.Common.{
  ℕ, suc, ◌+◌, ◌-◌, ◌*◌, ◌/◌, ◌≤◌, ◌≡◌, arith, div-mul-le, lt-suc_div-mul, mul_mono,
}
use pydefi.Types.{max_bps}
use pydefi.Dag.Action.{RouteLegs, no_legs, leg}
use pydefi.Dag.Shape.{fractions}
use pydefi.Graph.{Edge}
use pydefi.Router.Simulate.{simulate_actions, simulate_legs}

-- The amounts that the legs get, added up.
abbrev leg_total : RouteLegs Edge → ℕ → ℕ
leg_total no_legs x = 0
leg_total (leg f as' ls) x = x * f / max_bps + leg_total ls x

abbrev pub leg_count : RouteLegs Edge → ℕ
leg_count no_legs = 0
leg_count (leg f as' ls) = suc (leg_count ls)

spread :
    (ls : RouteLegs Edge) (x : ℕ)
    → (leg_total ls x * max_bps ≤ x * fractions ls)
      × (x * fractions ls ≤ leg_total ls x * max_bps + leg_count ls * (max_bps - 1))
spread no_legs x = (omega arith, omega arith)
spread (leg f as' ls) x =
    let (h, k) = spread ls x in
    let u = div-mul-le (x * f) max_bps in
    let v = lt-suc_div-mul (x * f) max_bps (omega arith) in
    let d : x * (f + fractions ls) ≡ x * f + x * fractions ls = grind arith in
    (omega arith, omega arith)

leg_total_bounds :
    (ls : RouteLegs Edge) (x : ℕ)
    → fractions ls ≡ max_bps
    → (leg_total ls x ≤ x) × (x ≤ leg_total ls x + leg_count ls)
leg_total_bounds ls x h =
    let (a, b) = spread ls x in
    let a' : leg_total ls x * max_bps ≤ x * max_bps = rw h at a in
    let b' : x * max_bps ≤ leg_total ls x * max_bps + leg_count ls * (max_bps - 1) = rw h at b in
    (omega arith, omega arith)

-- The actions of each leg pay at most `n / d` of what they get, and at least `m / d` of it but for one
-- unit.
abbrev pub PayBetween : ℕ → ℕ → ℕ → RouteLegs Edge → Type 0
PayBetween m n d no_legs = Unit
PayBetween m n d (leg f as' ls) =
    ((y : ℕ) → (y * m ≤ simulate_actions as' y * d + d) × (simulate_actions as' y * d ≤ y * n))
    × PayBetween m n d ls

legs_pay :
    (ls : RouteLegs Edge) (x m n d : ℕ)
    → PayBetween m n d ls
    → (simulate_legs ls x * d ≤ leg_total ls x * n)
      × (leg_total ls x * m ≤ simulate_legs ls x * d + leg_count ls * d)
unfolding simulate_legs
legs_pay no_legs x m n d h = (omega arith, omega arith)
legs_pay (leg f as' ls) x m n d h =
    let (a, b) = legs_pay ls x m n d h.1 in
    let (u, v) = h.0 (x * f / max_bps) in (grind (arith, a, v), grind (arith, b, u))

-- A split whose fractions add up to 10 000, and whose legs pay at most `n / d` of what each gets, and at
-- least `m / d` of it but for one unit, pays at most `n / d` of the amount split; and it pays at least
-- `m / d` of it but for one unit of output and the worth of one unit of input for each leg.
pub simulate_legs_bounds :
    (ls : RouteLegs Edge) (x m n d : ℕ)
    → fractions ls ≡ max_bps
    → PayBetween m n d ls
    → (simulate_legs ls x * d ≤ x * n) × (x * m ≤ simulate_legs ls x * d + leg_count ls * (m + d))
simulate_legs_bounds ls x m n d e h =
    let (a, b) = leg_total_bounds ls x e in
    let (u, v) = legs_pay ls x m n d h in
    let p : leg_total ls x * n ≤ x * n = mul_mono (leg_total ls x) x n n a (omega arith) in
    let q : x * m ≤ (leg_total ls x + leg_count ls) * m =
      mul_mono x (leg_total ls x + leg_count ls) m m b (omega arith) in
    (omega arith, omega arith)
