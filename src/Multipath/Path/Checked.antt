-- ===== src/Multipath/Path/Checked.antt =====
-- pydefi/pathfinder/multipath.py: what the check of `MultiEdgePath` accepts.
use pydefi.Common.{
  ◌≡◌, refl, ◌⊎◌, inl, inr, true, false, Bool-cases, List, [], ◌∷◌, arith, ok, err, value_error,
  All,
}
use pydefi.Types.{bytes_eq, bytes_eq_iff}
use pydefi.Graph.{Edge}
use pydefi.Multipath.Path.{Hops, share_ends, check_next, check_hops, has_empty}

-- All edges of a bundle have the ends of its first one.
abbrev IsBundle : Edge → List Edge → Type 0
IsBundle f es =
    All
      (λ e. (e.token_in.address ≡ f.token_in.address) × (e.token_out.address ≡ f.token_out.address))
      es

-- Each hop is a bundle, and departs where the one before arrives.
abbrev pub IsChain : Hops → Type 0
IsChain [] = Unit
IsChain ([] ∷ hs) = ⊥
IsChain ((e ∷ es) ∷ []) = IsBundle e es
IsChain ((e ∷ es) ∷ [] ∷ hs) = ⊥
IsChain ((e ∷ es) ∷ (f ∷ fs) ∷ hs) =
    IsBundle e es × (e.token_out.address ≡ f.token_in.address) × IsChain ((f ∷ fs) ∷ hs)

share_ends-IsBundle : (f : Edge) (es : List Edge) → share_ends f es ≡ true → IsBundle f es
share_ends-IsBundle f [] h = tt
share_ends-IsBundle f (e ∷ es) h =
    let a = bytes_eq_iff e.token_in.address f.token_in.address in
    let b = bytes_eq_iff e.token_out.address f.token_out.address in
    let ih = share_ends-IsBundle f es in ((ground arith, ground arith), ih (ground arith))

-- When no hop is empty, either the hops are accepted and form a chain of bundles, or the check
-- raises `ValueError`.
pub check_hops-cases :
    (hs : Hops)
    → has_empty hs ≡ false
    → ((check_hops hs ≡ ok tt) × IsChain hs) ⊎ (check_hops hs ≡ err value_error)
unfolding check_hops check_next
check_hops-cases [] h = inl (refl, tt)
check_hops-cases ([] ∷ hs) h = inr refl
check_hops-cases ((e ∷ es) ∷ []) h = elim (Bool-cases (share_ends e es)) [
  | inl s ↦ inl (rw s refl, share_ends-IsBundle e es s)
  | inr s ↦ inr (rw s refl)
]
check_hops-cases ((e ∷ es) ∷ [] ∷ hs) h = cc
check_hops-cases ((e ∷ es) ∷ (f ∷ fs) ∷ hs) h = elim (Bool-cases (share_ends e es)) [
  | inr s ↦ inr (rw s refl)
  | inl s ↦ elim (Bool-cases (bytes_eq e.token_out.address f.token_in.address)) [
    | inr b ↦ inr (rw (s, b) refl)
    | inl b ↦ elim (check_hops-cases ((f ∷ fs) ∷ hs) h) [
      | inl r ↦ inl (
        rw (s, b) r.0,
        (
          share_ends-IsBundle e es s,
          (bytes_eq_iff e.token_out.address f.token_in.address).0 b,
          r.1,
        ),
      )
      | inr r ↦ inr (rw (s, b) r)
    ]
  ]
]
