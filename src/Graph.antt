-- ===== src/Graph.antt =====
-- pydefi/pathfinder/graph.py: `PoolGraph`, the adjacency lists of the pool edges.
pub mod Search
pub mod Adjacency
pub mod Pools
mod Tests
use pydefi.Common.{ℕ, zero, ◌+◌, Bool, List, [], ◌∷◌, ◌++◌, if◌then◌else◌, length, sum, map}
use pydefi.Types.{Token, Address, bytes_eq}
use pydefi.Pool.Overlay.{Dict, get_or, insert}

-- `(pool_address, fee_bps, tick_spacing, hooks)`
abbrev pub PoolUid : Type 0
PoolUid = Address × ℕ × ℕ × Address

-- An edge as its class shows it: the tokens, and the method `amount_out` without an overlay, and the property
-- `pool_uid`, which leaves out the direction.
pub record Edge : Type 0 where
  pub token_in : Token
  pub token_out : Token
  pub amount_out : ℕ → ℕ
  pub pool_uid : PoolUid

-- `_adj`, in the order in which the keys came, and `_tokens`.
pub record PoolGraph : Type 0 where
  pub adj : Dict (List Edge)
  pub tokens : Dict Token

-- `PoolGraph()`
abbrev pub empty : PoolGraph
empty = record { adj = []; tokens = [] }

unfoldable pub add_pool : PoolGraph → Edge → PoolGraph
add_pool g e =
    let k = e.token_in.address in
    record {
      adj = insert g.adj k (get_or g.adj k [] ++ e ∷ []);
      tokens = insert (insert g.tokens k e.token_in) e.token_out.address e.token_out;
    }

abbrev pub departures : PoolGraph → Address → List Edge
departures g a = get_or g.adj a []

-- The edges, and the graph after the call: `_adj` is a `defaultdict`, which keeps the empty list
-- that a missing key made.
unfoldable pub edges_from : PoolGraph → Token → PoolGraph × List Edge
edges_from g t =
    let es = departures g t.address in (record g { adj = insert g.adj t.address es }, es)

abbrev pub arriving : Address → List Edge → List Edge
arriving a [] = []
arriving a (e ∷ es) = if bytes_eq e.token_out.address a then e ∷ arriving a es else arriving a es

-- `for edges in self._adj.values()`
abbrev pub all_edges : Dict (List Edge) → List Edge
all_edges [] = []
all_edges ((k, es) ∷ d) = es ++ all_edges d

unfoldable pub edges_to : PoolGraph → Token → List Edge
edges_to g t = arriving t.address (all_edges g.adj)

-- `__len__`
unfoldable pub size : PoolGraph → ℕ
size g = sum (map (λ kv. length kv.1) g.adj)

-- `tokens`, in the order in which the addresses came
unfoldable pub all_tokens : PoolGraph → List Token
all_tokens g = map (λ kv. kv.1) g.tokens
