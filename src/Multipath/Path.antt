-- ===== src/Multipath/Path.antt =====
-- pydefi/pathfinder/multipath.py: `MultiEdgePath`, its check and its output.
pub mod Checked
use pydefi.Common.{
  ℕ, zero, suc, ◌+◌, Bool, true, false, ◌&&◌, not, List, [], ◌∷◌, ◌==◌, if◌then◌else◌, length, ℤ,
  Result, ok, err, Exception, value_error, index_error, ◌>>=◌, ◌>>◌, raise_if,
}
use pydefi.Types.{Address, bytes_eq}
use pydefi.Graph.{Edge}
use pydefi.Multipath.Distribute.{distribute_int}

-- `hops`
abbrev pub Hops : Type 0
Hops = List (List Edge)

-- `for e in bundle[1:]`: the edges share the first one's tokens
abbrev pub share_ends : Edge → List Edge → Bool
share_ends f [] = true
share_ends f (e ∷ es) =
    bytes_eq e.token_in.address f.token_in.address
    && bytes_eq e.token_out.address f.token_out.address
    && share_ends f es

-- `self.hops[i + 1][0]`, for a hop with a successor
unfoldable pub check_next : Address → Hops → Result Exception (Unit {0})
check_next a [] = ok tt
check_next a ([] ∷ hs) = err index_error
check_next a ((e ∷ es) ∷ hs) = raise_if (not (bytes_eq a e.token_in.address)) value_error

unfoldable pub check_hops : Hops → Result Exception (Unit {0})
check_hops [] = ok tt
check_hops ([] ∷ hs) = err value_error
check_hops ((e ∷ es) ∷ hs) =
    raise_if (not (share_ends e es)) value_error
    >> check_next e.token_out.address hs
    >> check_hops hs

-- `any(not b for b in bundles)`
abbrev pub has_empty : Hops → Bool
has_empty [] = false
has_empty ([] ∷ bs) = true
has_empty ((e ∷ b) ∷ bs) = has_empty bs

-- `MultiEdgePath(hops)`, with `__post_init__`
unfoldable pub make_path : Hops → Result Exception Hops
make_path [] = err value_error
make_path (b ∷ hs) = check_hops (b ∷ hs) >> ok (b ∷ hs)

-- `sum(edge.amount_out(a) for edge, a in zip(bundle, allocs) if a > 0)`
unfoldable pub bundle_out : List Edge → List ℕ → ℕ
bundle_out [] xs = 0
bundle_out (e ∷ es) [] = 0
bundle_out (e ∷ es) (a ∷ xs) = (if a == 0 then 0 else e.amount_out a) + bundle_out es xs

pub record PathWeights (W : Type 0) : Type 0 where
  pub path_weight : W
  pub intra_hop_weights : List (List W)

module _ {W : Type 0} (scaled : W → ℤ) where
  -- The loop of `amount_out` over the hops and `intra_hop_weights`.
  unfoldable pub walk : ℕ → Hops → List (List W) → Result Exception ℕ
  walk cur [] wss = ok cur
  walk cur (b ∷ hs) [] = ok cur
  walk cur (b ∷ hs) (ws ∷ wss) =
      let hop_out = bundle_out b (distribute_int scaled cur ws) in
      let rest = walk hop_out hs wss in
      if length ws == length b then if hop_out == 0 then ok 0 else rest else err value_error

  unfoldable pub path_amount_out : ℕ → Hops → PathWeights W → Result Exception ℕ
  path_amount_out amount_in hops weights =
      let wss = weights.intra_hop_weights in
      if amount_in == 0
      then ok 0
      else if length wss == length hops
      then walk amount_in hops wss
      else err value_error
