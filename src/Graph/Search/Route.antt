-- ===== src/Graph/Search/Route.antt =====
-- pydefi/pathfinder/graph.py: the routes that the edges of a graph allow, whatever the search does.
use pydefi.Common.{ℕ, ◌≡◌, refl, ◌<◌, ◌⊎◌, false, List, [], ◌∷◌, ◌++◌, get_last?, some}
use pydefi.Types.{Token, Address}
use pydefi.Graph.{Edge, PoolGraph, departures}
use pydefi.Graph.Search.{mem, visited, last_token}

abbrev pub In : {A : Type 0} → A → List A → Type 0
In x [] = ⊥
In x (y ∷ ys) = (x ≡ y) ⊎ In x ys

-- A route with its end and its output: each edge departs where the last one arrived, goes to a
-- token that was not visited, and pays more than 0 for what the last one paid.
pub data Route (g : PoolGraph) (start : Token) (amount : ℕ) : Address → ℕ → List Edge → Type 0 where
  stay : Route g start amount start.address amount []
  hop :
      {a : Address} {x : ℕ} {p : List Edge} (e : Edge)
      → Route g start amount a x p
      → In e (departures g a)
      → mem e.token_out.address (visited a p) ≡ false
      → 0 < e.amount_out x
      → Route g start amount e.token_out.address (e.amount_out x) (p ++ e ∷ [])

get_last?-snoc : (p : List Edge) (e : Edge) → get_last? (p ++ e ∷ []) ≡ some e
get_last?-snoc [] e = refl
get_last?-snoc (x ∷ []) e = refl
get_last?-snoc (x ∷ y ∷ p) e = get_last?-snoc (y ∷ p) e

pub last_token-Route :
    {g : PoolGraph} {start : Token} {amount : ℕ} {a : Address} {x : ℕ} {p : List Edge}
    → Route g start amount a x p
    → (last_token start p).address ≡ a
last_token-Route stay = refl
last_token-Route {start = start} (hop {p = p} e r i m h) = rw (last_token, get_last?-snoc p e) refl
