-- ===== src/Tick/Ladder.antt =====
-- pydefi/pathfinder/v3_tick_math.py: `TickLadder` and the order in which a swap crosses ticks.
pub mod Order
use mathlib.Core.List.{reverse}
use pydefi.Common.{
  ℕ, zero, suc, Bool, Option, none, some, List, [], ◌∷◌, ◌++◌, map, ltb, leb, if◌then◌else◌, ℤ, pos,
  negsuc, take, drop, get_last?,
}

-- `(tick_index, sqrt_price_at_tick, liquidity_net)`
pub record Tick : Type 0 where
  pub index : ℤ
  pub sqrt_price : ℕ
  pub liquidity_net : ℤ

abbrev pub min_tick : ℤ
min_tick = negsuc 887271

abbrev pub max_tick : ℤ
max_tick = pos 887272

abbrev pub min_sqrt_ratio : ℕ
min_sqrt_ratio = 4295128739

abbrev pub max_sqrt_ratio : ℕ
max_sqrt_ratio = 1461446703485210103287273052203988822378723970342

abbrev pub min_sentinel : Tick
min_sentinel = record { index = min_tick; sqrt_price = min_sqrt_ratio; liquidity_net = pos 0 }

abbrev pub max_sentinel : Tick
max_sentinel = record { index = max_tick; sqrt_price = max_sqrt_ratio; liquidity_net = pos 0 }

pub record TickLadder : Type 0 where
  pub prices : List ℕ
  pub ticks : List Tick

-- Python's stable `sorted(ticks, key=lambda t: t[1])`.
unfoldable pub insert_tick : Tick → List Tick → List Tick
insert_tick t [] = t ∷ []
insert_tick t (u ∷ us) = if leb t.sqrt_price u.sqrt_price then t ∷ u ∷ us else u ∷ insert_tick t us

unfoldable pub sort_ticks : List Tick → List Tick
unfolding insert_tick
sort_ticks [] = []
sort_ticks (t ∷ ts) = insert_tick t (sort_ticks ts)

abbrev pub prices_of : List Tick → List ℕ
prices_of ts = map (λ t. t.sqrt_price) ts

-- `TickLadder.__init__`
unfoldable pub make_ladder : List Tick → TickLadder
unfolding sort_ticks
make_ladder ts = record { prices = prices_of (sort_ticks ts); ticks = sort_ticks ts }

-- `bisect_left` on a sorted list: how many entries lie below `x`.
unfoldable pub bisect_left : List ℕ → ℕ → ℕ
bisect_left [] x = 0
bisect_left (p ∷ ps) x = if ltb p x then suc (bisect_left ps x) else 0

-- `bisect_right`: how many entries do not lie above `x`.
unfoldable pub bisect_right : List ℕ → ℕ → ℕ
bisect_right [] x = 0
bisect_right (p ∷ ps) x = if leb p x then suc (bisect_right ps x) else 0

-- `(prices[0], prices[-1]) if prices else None`
abbrev pub ends : List ℕ → Option (ℕ × ℕ)
ends [] = none
ends (p ∷ ps) = elim (get_last? (p ∷ ps)) [ none ↦ none | some q ↦ some (p, q) ]

-- `TickLadder.price_range`
unfoldable pub price_range : TickLadder → Option (ℕ × ℕ)
price_range l = ends l.prices

-- `TickLadder.crossings`
unfoldable pub crossings : TickLadder → ℕ → Bool → List Tick
unfolding bisect_left bisect_right
crossings l sqrt_p zero_for_one =
    if zero_for_one
    then reverse (take (bisect_left l.prices sqrt_p) l.ticks) ++ (min_sentinel ∷ [])
    else drop (bisect_right l.prices sqrt_p) l.ticks ++ (max_sentinel ∷ [])
