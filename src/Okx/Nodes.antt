-- ===== src/Okx/Nodes.antt =====
-- pydefi/aggregator/okx_router_encoder.py: the nodes that a route is turned into.
use Prim.{absurd}
use pydefi.Common.{
  ℕ, suc, ◌+◌, ◌≡◌, ◌≤◌, ◌<◌, refl, ◌∙◌, Bool, not, some, List, [], ◌∷◌, map, sum, All, length,
  Result, ok, err, Exception, arith,
}
use pydefi.Types.{Token, Address, max_bps}
use pydefi.Dag.Action.{RouteAction, RouteLegs, RouteActions, nil, cons, no_legs, leg}
use pydefi.Dag.Shape.{IsRoute, IsAction, fractions}
use pydefi.Graph.{Edge}
use pydefi.Okx.{
  encode_edge_raw_data, RouterPathDescriptor, mode_legacy, single_swap, check_legs, encode_edge,
  swap_to_node, encode_legs, split_to_node, action_to_node, walk_actions,
}
use pydefi.Okx.Word.{weight_field, input_field, output_field, IsWord, encode_edge_raw_data-IsWord}

abbrev pub count : RouteActions Edge → ℕ
count nil = 0
count (cons a as') = suc (count as')

-- All words of a node name it and the next one, and their weights add up to 10 000; the nodes are
-- numbered from `i`.
abbrev pub AreNodes : ℕ → List RouterPathDescriptor → Type 0
AreNodes i [] = Unit
AreNodes i (n ∷ ns) =
    All (λ w. (input_field w ≡ i) × (output_field w ≡ suc i)) n.raw_data
    × (sum (map weight_field n.raw_data) ≡ max_bps)
    × AreNodes (suc i) ns

-- What the format can express: swaps at known adapters in a known direction, and splits of legs of one such swap.
abbrev pub CanEncode :
    (Edge → Result Exception Address) → (Edge → Result Exception Bool) → Edge → Type 0
CanEncode adapter_of zero_for_one e =
    (a : Address) × (b : Bool) × (adapter_of e ≡ ok a)
    × (zero_for_one e ≡ ok b)
    × (length e.pool_uid.0 ≡ 20)

abbrev pub CanEncodeLegs :
    (Edge → Result Exception Address) → (Edge → Result Exception Bool) → RouteLegs Edge → Type 0
CanEncodeLegs adapter_of zero_for_one no_legs = Unit
CanEncodeLegs adapter_of zero_for_one (leg f as' ls) =
    (e : Edge) × (single_swap as' ≡ some e)
    × CanEncode adapter_of zero_for_one e
    × CanEncodeLegs adapter_of zero_for_one ls

abbrev pub CanEncodeAction :
    (Edge → Result Exception Address) → (Edge → Result Exception Bool) → RouteAction Edge → Type 0
CanEncodeAction adapter_of zero_for_one (RouteAction.swap t e) = CanEncode adapter_of zero_for_one e
CanEncodeAction adapter_of zero_for_one (RouteAction.split ls t) =
    CanEncodeLegs adapter_of zero_for_one ls
CanEncodeAction adapter_of zero_for_one (RouteAction.bridge b) = ⊥

abbrev pub CanEncodeAll :
    (Edge → Result Exception Address) → (Edge → Result Exception Bool) → RouteActions Edge → Type 0
CanEncodeAll adapter_of zero_for_one nil = Unit
CanEncodeAll adapter_of zero_for_one (cons a as') =
    CanEncodeAction adapter_of zero_for_one a × CanEncodeAll adapter_of zero_for_one as'

IsRoute-head : (a : RouteAction Edge) (xs : RouteActions Edge) → IsRoute (cons a xs) → IsAction a
IsRoute-head a nil h = h
IsRoute-head a (cons b bs) h = h.0

IsRoute-tail : (a : RouteAction Edge) (xs : RouteActions Edge) → IsRoute (cons a xs) → IsRoute xs
IsRoute-tail a nil h = tt
IsRoute-tail a (cons b bs) h = h.2

module _ (adapter_of : Edge → Result Exception Address)
    (zero_for_one : Edge → Result Exception Bool) where
  word_ok :
      (a : Address) (r : Bool) (w i : ℕ)
      → length a ≡ 20
      → w ≤ max_bps
      → i < 255
      → (raw : ℕ) × (encode_edge_raw_data a r w i (suc i) ≡ ok raw)
        × (weight_field raw ≡ w)
        × (input_field raw ≡ i)
        × (output_field raw ≡ suc i)
  word_ok a r w i h k l =
      go (encode_edge_raw_data a r w i (suc i)) (encode_edge_raw_data-IsWord a r w i (suc i))
    where
      go :
          (x : Result Exception ℕ)
          → IsWord a r w i (suc i) x
          → (raw : ℕ) × (x ≡ ok raw)
            × (weight_field raw ≡ w)
            × (input_field raw ≡ i)
            × (output_field raw ≡ suc i)
      go (ok raw) z = (raw, refl, z.1, z.2, z.3)
      go (err e) z = absurd (ground arith)

  edge_ok :
      (e : Edge) (w i : ℕ)
      → CanEncode adapter_of zero_for_one e
      → w ≤ max_bps
      → i < 255
      → (x : Address × Address × ℕ) × (encode_edge adapter_of zero_for_one e w i ≡ ok x)
        × (weight_field x.2 ≡ w)
        × (input_field x.2 ≡ i)
        × (output_field x.2 ≡ suc i)
  unfolding encode_edge
  edge_ok e w i (a, z, k, j, l) h b =
      let (raw, m, s, t, u) = word_ok e.pool_uid.0 (not z) w i l h b in
      ((a, e.pool_uid.0, raw), rw (k, j, m) refl, s, t, u)

  check_ok :
      (ls : RouteLegs Edge) → CanEncodeLegs adapter_of zero_for_one ls → check_legs ls ≡ ok tt
  check_ok no_legs c = refl
  check_ok (leg f xs ls) (e, k, c, cs) = rw (check_legs, k) (check_ok ls cs)

  legs_ok :
      (ls : RouteLegs Edge) (i : ℕ)
      → CanEncodeLegs adapter_of zero_for_one ls
      → fractions ls ≤ max_bps
      → i < 255
      → (y : List Address × List Address × List ℕ) × (encode_legs adapter_of zero_for_one ls i
          ≡ ok y)
        × All (λ w. (input_field w ≡ i) × (output_field w ≡ suc i)) y.2
        × (sum (map weight_field y.2) ≡ fractions ls)
  unfolding encode_legs
  legs_ok no_legs i c h b = (([], [], []), refl, tt, refl)
  legs_ok (leg f xs ls) i (e, k, c, cs) h b =
      let (x, m, w, s, t) = edge_ok e f i c (omega (arith, h)) b in
      let (y, n, p, q) = legs_ok ls i cs (omega (arith, h)) b in
      ((x.0 ∷ y.0, x.1 ∷ y.1, x.2 ∷ y.2), rw (encode_legs, k, m, n) refl, ((s, t), p), omega arith)

  abbrev node : Token → ℕ → List Address → List Address → List ℕ → RouterPathDescriptor
  node token mode as' bs ws = record {
    mix_adapters = as';
    asset_to = bs;
    raw_data = ws;
    from_token = token.address;
    mode = mode;
  }

  action_ok :
      (a : RouteAction Edge) (token : Token) (i mode : ℕ)
      → CanEncodeAction adapter_of zero_for_one a
      → IsAction a
      → i < 255
      → (x : RouterPathDescriptor × Token) × (action_to_node adapter_of zero_for_one a token i mode
          ≡ ok x)
        × All (λ w. (input_field w ≡ i) × (output_field w ≡ suc i)) x.0.raw_data
        × (sum (map weight_field x.0.raw_data) ≡ max_bps)
  unfolding action_to_node swap_to_node split_to_node
  action_ok (RouteAction.swap t e) token i mode c h b =
      let (x, m, w, s, u) = edge_ok e max_bps i c (omega arith) b in
      ((node token mode (x.0 ∷ []) (x.1 ∷ []) (x.2 ∷ []), t), rw m refl, ((s, u), tt), omega arith)
  action_ok (RouteAction.split ls t) token i mode c h b =
      let (y, n, p, q) = legs_ok ls i c (omega (arith, h.0)) b in
      ((node token mode y.0 y.1 y.2, t), rw (check_ok ls c, n) refl, p, q ∙ h.0)
  action_ok (RouteAction.bridge d) token i mode c h b = elim c [ ]

  -- A well-formed route of at most 255 actions that the format can express becomes one node for each action,
  -- in order; each word of a node has the node's index and the next one, and the weights of a node add up
  -- to 10 000.
  pub walk_actions-AreNodes :
      (xs : RouteActions Edge) (token : Token) (i mode : ℕ)
      → IsRoute xs
      → CanEncodeAll adapter_of zero_for_one xs
      → i + count xs ≤ 255
      → (ns : List RouterPathDescriptor) × (walk_actions adapter_of zero_for_one xs token i mode
          ≡ ok ns)
        × AreNodes i ns
        × (length ns ≡ count xs)
  unfolding walk_actions
  walk_actions-AreNodes nil token i mode r c h = ([], refl, tt, refl)
  walk_actions-AreNodes (cons a xs) token i mode r c h =
      let (x, m, p, q) = action_ok a token i mode c.0 (IsRoute-head a xs r) (omega (arith, h)) in
      let (ns, n, s, l) =
        walk_actions-AreNodes xs x.1 (suc i) mode_legacy (IsRoute-tail a xs r) c.1
          (omega (arith, h)) in
      (x.0 ∷ ns, rw (m, n) refl, (p, q, s), omega arith)
