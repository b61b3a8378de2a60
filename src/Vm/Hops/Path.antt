-- ===== src/Vm/Hops/Path.antt =====
-- pydefi/vm/swap.py: a packed V3 path can be read back.
use pydefi.Common.{
  ℕ, zero, suc, ◌^◌, ◌≡◌, ◌<◌, refl, sym, ap, ◌∙◌, List, [], ◌∷◌, ◌++◌, take, drop, length, map,
  All, ◌==◌, ok, from_bytes, big_endian, to_bytes, to_bytes-lt, from_bytes-big_endian,
  length-big_endian, true, arith,
}
use pydefi.Types.{Address}
use pydefi.Vm.Hops.{append_hops, encode_v3_path}

-- The first token of a packed path, and its hops by their number: a fee of 3 bytes and a token of 20.
abbrev pub decode_hops : ℕ → List ℕ → List (ℕ × Address)
decode_hops zero bs = []
decode_hops (suc n) bs =
    (from_bytes (take 3 bs), take 20 (drop 3 bs)) ∷ decode_hops n (drop 20 (drop 3 bs))

abbrev pub decode_v3_path : ℕ → List ℕ → Address × List (ℕ × Address)
decode_v3_path n bs = (take 20 bs, decode_hops n (drop 20 bs))

abbrev pub fees_of : List (ℕ × Address) → List ℕ
fees_of hops = map (λ h. h.0) hops

abbrev pub tokens_of : List (ℕ × Address) → List Address
tokens_of hops = map (λ h. h.1) hops

abbrev pub IsHop : ℕ × Address → Type 0
IsHop h = (h.0 < 2 ^ 24) × (length h.1 ≡ 20)

take-append : (xs ys : List ℕ) → take (length xs) (xs ++ ys) ≡ xs
take-append [] ys = refl
take-append (x ∷ xs) ys = ap (◌∷◌ x) (take-append xs ys)

drop-append : (xs ys : List ℕ) → drop (length xs) (xs ++ ys) ≡ ys
drop-append [] ys = refl
drop-append (x ∷ xs) ys = drop-append xs ys

front : (n : ℕ) (xs ys : List ℕ) → length xs ≡ n → take n (xs ++ ys) ≡ xs
front n xs ys h = rw (sym h) (take-append xs ys)

back : (n : ℕ) (xs ys : List ℕ) → length xs ≡ n → drop n (xs ++ ys) ≡ ys
back n xs ys h = rw (sym h) (drop-append xs ys)

-- The bytes of the hops.
abbrev packed : List (ℕ × Address) → List ℕ
packed [] = []
packed (h ∷ hs) = big_endian 3 h.0 ++ (h.1 ++ packed hs)

append_assoc : (xs ys zs : List ℕ) → (xs ++ ys) ++ zs ≡ xs ++ (ys ++ zs)
append_assoc [] ys zs = refl
append_assoc (x ∷ xs) ys zs = ap (◌∷◌ x) (append_assoc xs ys zs)

append_nil : (xs : List ℕ) → xs ++ [] ≡ xs
append_nil [] = refl
append_nil (x ∷ xs) = ap (◌∷◌ x) (append_nil xs)

append_hops-packed :
    (start : List ℕ) (hs : List (ℕ × Address))
    → All IsHop hs
    → append_hops start (fees_of hs) (tokens_of hs) ≡ ok (start ++ packed hs)
append_hops-packed start [] h = ap ok (sym (append_nil start))
append_hops-packed start ((f, t) ∷ hs) h =
    let b = big_endian 3 f in
    let e : to_bytes 3 f ≡ ok b = to_bytes-lt 3 f h.0.0 in
    rw (append_hops, e)
      (append_hops-packed (start ++ b ++ t) hs h.1
        ∙ ap ok (append_assoc (start ++ b) t (packed hs) ∙ append_assoc start b (t ++ packed hs)))

decode_hops-packed :
    (hs : List (ℕ × Address)) → All IsHop hs → decode_hops (length hs) (packed hs) ≡ hs
decode_hops-packed [] h = refl
decode_hops-packed ((f, t) ∷ hs) h =
    let b = length-big_endian 3 f in
    rw
      (
        front 3 (big_endian 3 f) (t ++ packed hs) b,
        back 3 (big_endian 3 f) (t ++ packed hs) b,
        front 20 t (packed hs) h.0.1,
        back 20 t (packed hs) h.0.1,
        from_bytes-big_endian 3 f h.0.0,
        decode_hops-packed hs h.1,
      )
      refl

-- A path of tokens of 20 bytes with a fee below 2 ^ 24 at each hop is packed without an error, and the
-- bytes give back the tokens and the fees.
pub decode-encode_v3_path :
    (token : Address) (hops : List (ℕ × Address))
    → length token ≡ 20
    → All IsHop hops
    → (bs : List ℕ) × (encode_v3_path (token ∷ tokens_of hops) (fees_of hops) ≡ ok bs)
      × (decode_v3_path (length hops) bs ≡ (token, hops))
unfolding encode_v3_path
decode-encode_v3_path token hops l h =
    let e : (length (fees_of hops) == length (tokens_of hops)) ≡ true =
      ground (arith, same_length hops) in
    (
      token ++ packed hops,
      rw e (append_hops-packed token hops h),
      rw (front 20 token (packed hops) l, back 20 token (packed hops) l, decode_hops-packed hops h)
          refl,
    )
  where
    same_length : (hs : List (ℕ × Address)) → length (fees_of hs) ≡ length (tokens_of hs)
    same_length [] = refl
    same_length (x ∷ hs) = omega (arith, same_length hs)
