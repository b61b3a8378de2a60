-- ===== src/Router/Search.antt =====
-- pydefi/pathfinder/router.py: `_find_best_route_no_gas`, the search by the output amount.
-- The table `best` is the one of the search of the graph, without a weight.
pub mod Sound
pub mod Table
pub mod Optimal
use pydefi.Common.{
  ℕ, zero, suc, Option, none, some, List, [], ◌∷◌, ◌++◌, ltb, ◌==◌, if◌then◌else◌, Bool, true,
  false, Result, ok, err, Exception, value_error, no_route_found_error,
}
use pydefi.Types.{Token, Address, bytes_eq}
use pydefi.Graph.{Edge, PoolGraph, departures}
use pydefi.Graph.Search.{Entry, mem, visited, last_token, get_entry, put_entry, states_at}

-- The key `(token, hop)` and the value `(amount, path)` of `best`.
abbrev pub State : Type 0
State = Entry (Unit {0})

-- `existing is None or next_amount > existing[0]`
unfoldable pub beats : ℕ → Option State → Bool
beats amount none = true
beats amount (some v) = ltb v.amount amount

unfoldable pub relax_edge : State → List State → Edge → List State
relax_edge v best e =
    let next = e.token_out.address in
    let amount = e.amount_out v.amount in
    if mem next (visited v.token v.path)
    then best
    else if amount == 0
    then best
    else if beats amount (get_entry next (suc v.hop) best)
    then put_entry
        (record {
          token = next;
          hop = suc v.hop;
          weight = tt;
          amount = amount;
          path = v.path ++ e ∷ [];
        })
        best
    else best

unfoldable pub relax_edges : State → List Edge → List State → List State
relax_edges v [] best = best
relax_edges v (e ∷ es) best = relax_edges v es (relax_edge v best e)

-- The loop over `current_states`.
unfoldable pub relax_states : PoolGraph → Token → List State → List State → List State
relax_states g src [] best = best
relax_states g src (v ∷ vs) best =
    let es = departures g (last_token src v.path).address in
    relax_states g src vs (relax_edges v es best)

-- The rounds `hop, hop + 1, …`, `n` of them.
unfoldable pub rounds : PoolGraph → Token → ℕ → ℕ → List State → List State
rounds g src zero hop best = best
rounds g src (suc n) hop best =
    rounds g src n (suc hop) (relax_states g src (states_at hop best) best)

-- `for h in range(h, h + n)` of the choice
unfoldable pub choose : Address → ℕ → ℕ → List State → Option State → Option State
choose a zero h best r = r
choose a (suc n) h best r =
    choose a n (suc h) best
      (elim (get_entry a h best) [ none ↦ r | some v ↦ if beats v.amount r then some v else r ])

abbrev pub source_state : Token → ℕ → State
source_state src amount = record {
  token = src.address;
  hop = 0;
  weight = tt;
  amount = amount;
  path = [];
}

-- `final_amount, final_path`
unfoldable pub search : PoolGraph → Token → ℕ → Token → ℕ → Result Exception (ℕ × List Edge)
search g src amount token_out max_hops =
    let best = rounds g src max_hops 0 (source_state src amount ∷ []) in
    if bytes_eq src.address token_out.address
    then err value_error
    else elim (choose token_out.address max_hops 1 best none) [
      | none ↦ err no_route_found_error
      | some v ↦ ok (v.amount, v.path)
    ]
