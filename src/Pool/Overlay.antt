-- ===== src/Pool/Overlay.antt =====
-- pydefi/pathfinder/graph.py: `ReserveOverlay`, the diff that one routing call keeps over the pools.
use pydefi.Common.{ℕ, ◌≡◌, refl, List, [], ◌∷◌, arith, ℤ, if◌then◌else◌}
use pydefi.Types.{Address, bytes_eq, bytes_eq_iff}

-- A Python dict keyed by addresses.
abbrev pub Dict {ℓ} : Type ℓ → Type ℓ
Dict V = List (Address × V)

module _ {ℓ} {V : Type ℓ} where
  -- `d.get(k, default)`
  unfoldable pub get_or : Dict V → Address → V → V
  get_or [] k v = v
  get_or ((j, w) ∷ d) k v = if bytes_eq j k then w else get_or d k v

  -- `d[k] = v`
  unfoldable pub insert : Dict V → Address → V → Dict V
  insert [] k v = (k, v) ∷ []
  insert ((j, w) ∷ d) k v = if bytes_eq j k then (k, v) ∷ d else (j, w) ∷ insert d k v

  pub get_or-insert :
      (d : Dict V) (k j : Address) (v w : V)
      → get_or (insert d k v) j w ≡ (if bytes_eq k j then v else get_or d j w)
  unfolding get_or insert
  get_or-insert [] k j v w = refl
  get_or-insert ((i, x) ∷ d) k j v w =
      ground (arith, get_or-insert d k j v w, bytes_eq_iff i k, bytes_eq_iff i j, bytes_eq_iff k j)

  pub get_or-insert_self : (d : Dict V) (k : Address) (v w : V) → get_or (insert d k v) k w ≡ v
  get_or-insert_self d k v w = ground (arith, get_or-insert d k k v w, bytes_eq_iff k k)

-- Signed deltas of token0 and token1 for constant-product pools; running prices for V3 pools.
pub record ReserveOverlay : Type 0 where
  pub v2_deltas : Dict (ℤ × ℤ)
  pub v3_sqrt_price : Dict ℕ
