-- ===== src/Router/AllRoutes.antt =====
-- pydefi/pathfinder/router.py: `find_all_routes`, the search in depth that prunes dominated states.
pub mod Sound
pub mod Quoted
use Prim.Native.String.{String}
use pydefi.Common.{
  ℕ, zero, suc, Bool, true, false, ◌&&◌, Option, none, some, List, [], ◌∷◌, ◌++◌, ltb, leb, ◌==◌,
  if◌then◌else◌, take, Result, ok, err, Exception, value_error, no_route_found_error, ◌>>=◌,
}
use pydefi.Types.{Token, Address, bytes_eq}
use pydefi.Graph.{Edge, PoolGraph, departures}
use pydefi.Graph.Search.{mem}
use pydefi.Router.Best.{SwapRoute, route_of}

-- A value of `best_at` under its key.
pub record Seen : Type 0 where
  pub token : Address
  pub depth : ℕ
  pub amount : ℕ

-- `best_at` and the routes found: the amount and the path of each.
pub record SearchState : Type 0 where
  pub best_at : List Seen
  pub routes : List (ℕ × List Edge)

unfoldable pub get_seen : Address → ℕ → List Seen → Option ℕ
get_seen a d [] = none
get_seen a d (s ∷ ss) =
    if bytes_eq s.token a && s.depth == d then some s.amount else get_seen a d ss

unfoldable pub put_seen : Seen → List Seen → List Seen
put_seen s [] = s ∷ []
put_seen s (t ∷ ts) =
    if bytes_eq t.token s.token && t.depth == s.depth then s ∷ ts else t ∷ put_seen s ts

-- `existing is not None and current_amount <= existing`
unfoldable pub is_dominated : Option ℕ → ℕ → Bool
is_dominated none amount = false
is_dominated (some x) amount = leb amount x

-- The loop of `dfs` over the edges; `visit` is the recursive call.
unfoldable pub visit_edges :
    (Token → ℕ → List Edge → List Address → SearchState → SearchState)
    → ℕ
    → List Edge
    → List Address
    → List Edge
    → SearchState
    → SearchState
visit_edges visit amount path visited [] s = s
visit_edges visit amount path visited (e ∷ es) s =
    let next = e.token_out.address in
    let next_amount = e.amount_out amount in
    let t =
      if mem next visited
      then s
      else if next_amount == 0
      then s
      else visit e.token_out next_amount (path ++ e ∷ []) (next ∷ visited) s in
    visit_edges visit amount path visited es t

-- `dfs` with `n` hops left to `max_hops`, at the given depth.
unfoldable pub dfs :
    PoolGraph → Address → ℕ → ℕ → Token → ℕ → List Edge → List Address → SearchState → SearchState
dfs g dst zero depth token amount path visited s =
    if is_dominated (get_seen token.address depth s.best_at) amount
    then s
    else let seen : Seen = record { token = token.address; depth = depth; amount = amount } in
      record {
        best_at = put_seen seen s.best_at;
        routes = if bytes_eq token.address dst then s.routes ++ (amount, path) ∷ [] else s.routes;
      }
dfs g dst (suc n) depth token amount path visited s =
    let seen : Seen = record { token = token.address; depth = depth; amount = amount } in
    let best_at = put_seen seen s.best_at in
    if is_dominated (get_seen token.address depth s.best_at) amount
    then s
    else if bytes_eq token.address dst
    then record { best_at = best_at; routes = s.routes ++ (amount, path) ∷ [] }
    else visit_edges (dfs g dst n (suc depth)) amount path visited (departures g token.address)
        (record { best_at = best_at; routes = s.routes })

-- `routes.sort(key=…, reverse=True)`, which keeps the order of equal amounts.
unfoldable pub insert_route : ℕ × List Edge → List (ℕ × List Edge) → List (ℕ × List Edge)
insert_route r [] = r ∷ []
insert_route r (s ∷ ss) = if ltb r.0 s.0 then s ∷ insert_route r ss else r ∷ s ∷ ss

unfoldable pub sort_routes : List (ℕ × List Edge) → List (ℕ × List Edge)
sort_routes [] = []
sort_routes (r ∷ rs) = insert_route r (sort_routes rs)

-- The amounts and the paths of the routes, before they are built.
unfoldable pub search_all :
    PoolGraph → Token → ℕ → Token → ℕ → ℕ → Result Exception (List (ℕ × List Edge))
search_all g src amount token_out max_hops top_k =
    let start : SearchState = record { best_at = []; routes = [] } in
    let s = dfs g token_out.address max_hops 0 src amount [] (src.address ∷ []) start in
    if bytes_eq src.address token_out.address then err value_error else elim s.routes [
      | [] ↦ err no_route_found_error
      | r ∷ rs ↦ ok (take top_k (sort_routes (r ∷ rs)))
    ]

unfoldable pub build_routes :
    (Edge → String) → Token → ℕ → Token → List (ℕ × List Edge) → Result Exception (List SwapRoute)
build_routes protocol src amount token_out [] = ok []
build_routes protocol src amount token_out ((x, p) ∷ rs) = do
  r ← route_of protocol src amount token_out x p
  routes ← build_routes protocol src amount token_out rs
  ok (r ∷ routes)

unfoldable pub find_all_routes :
    (Edge → String) → PoolGraph → Token → ℕ → Token → ℕ → ℕ → Result Exception (List SwapRoute)
find_all_routes protocol g src amount token_out max_hops top_k = do
  found ← search_all g src amount token_out max_hops top_k
  build_routes protocol src amount token_out found
