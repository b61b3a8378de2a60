-- ===== src/Router/Steps.antt =====
-- pydefi/pathfinder/router.py: the keys that identify a pool's edges, and the steps of a route.
pub mod Recover
use Prim.Native.String.{String}
use pydefi.Common.{
  ℕ, Bool, ◌&&◌, Option, none, some, List, [], ◌∷◌, map, ◌==◌, if◌then◌else◌, Result, ok, err,
  Exception, key_error, ◌>>=◌,
}
use pydefi.Types.{Address, bytes_eq}
use pydefi.Types.Route.{SwapStep}
use pydefi.Graph.{Edge}

-- `EdgeKey`; the pool of a step may be missing.
pub record EdgeKey : Type 0 where
  pub pool_address : Option Address
  pub token_in : Address
  pub token_out : Address
  pub fee : ℕ
  pub tick_spacing : ℕ
  pub hooks : Address

-- `_edge_key`; `pool_uid` holds the pool's address, fee, tick spacing and hooks.
unfoldable pub edge_key : Edge → EdgeKey
edge_key e = record {
  pool_address = some e.pool_uid.0;
  token_in = e.token_in.address;
  token_out = e.token_out.address;
  fee = e.pool_uid.1;
  tick_spacing = e.pool_uid.2;
  hooks = e.pool_uid.3;
}

-- `_step_key`
unfoldable pub step_key : SwapStep → EdgeKey
step_key s = record {
  pool_address = s.pool_address;
  token_in = s.token_in.address;
  token_out = s.token_out.address;
  fee = s.fee;
  tick_spacing = s.tick_spacing;
  hooks = s.hooks;
}

-- `_steps_from_edges`; the protocol's name is a field of the edge's class.
unfoldable pub steps_from_edges : (Edge → String) → List Edge → List SwapStep
steps_from_edges protocol [] = []
steps_from_edges protocol (e ∷ es) =
    record {
      token_in = e.token_in;
      token_out = e.token_out;
      pool_address = some e.pool_uid.0;
      protocol = protocol e;
      fee = e.pool_uid.1;
      tick_spacing = e.pool_uid.2;
      hooks = e.pool_uid.3;
    }
    ∷ steps_from_edges protocol es

abbrev pub pool_eq : Option Address → Option Address → Bool
pool_eq none none = Bool.true
pool_eq none (some b) = Bool.false
pool_eq (some a) none = Bool.false
pool_eq (some a) (some b) = bytes_eq a b

-- `==` of the tuples
unfoldable pub key_eq : EdgeKey → EdgeKey → Bool
key_eq a b =
    pool_eq a.pool_address b.pool_address
    && bytes_eq a.token_in b.token_in
    && bytes_eq a.token_out b.token_out
    && a.fee == b.fee
    && a.tick_spacing == b.tick_spacing
    && bytes_eq a.hooks b.hooks

-- `edge_index`, the values of the dict; the key of a value is its `_edge_key`.
unfoldable pub put_edge : List Edge → Edge → List Edge
put_edge [] e = e ∷ []
put_edge (f ∷ fs) e = if key_eq (edge_key f) (edge_key e) then e ∷ fs else f ∷ put_edge fs e

unfoldable pub index_edges : List Edge → List Edge → List Edge
index_edges index [] = index
index_edges index (e ∷ es) = index_edges (put_edge index e) es

unfoldable pub get_edge : List Edge → EdgeKey → Result Exception Edge
get_edge [] k = err key_error
get_edge (e ∷ es) k = if key_eq (edge_key e) k then ok e else get_edge es k

-- `[edge_index[_step_key(s)] for s in r.steps if s.pool_address is not None]`
unfoldable pub recover : List Edge → List SwapStep → Result Exception (List Edge)
recover index [] = ok []
recover index (s ∷ ss) = elim s.pool_address [
  | none ↦ recover index ss
  | some a ↦ do e ← get_edge index (step_key s); es ← recover index ss; ok (e ∷ es)
]
