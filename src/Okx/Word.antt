-- ===== src/Okx/Word.antt =====
-- pydefi/aggregator/okx_router_encoder.py: the fields of a packed word.
use pydefi.Common.{
  ℕ, ◌+◌, ◌*◌, ◌/◌, ◌%◌, ◌^◌, ◌≡◌, ◌≤◌, ◌<◌, ◌⊎◌, ◌≢◌, refl, inl, inr, Bool, true, false,
  Bool-cases, ltb, ◌==◌, if◌then◌else◌, length, Result, ok, err, Exception, value_error, arith,
  from_bytes,
}
use pydefi.Types.{Address, max_bps}
use pydefi.Okx.{encode_edge_raw_data}

-- The fields as the router reads them.
abbrev pub address_field : ℕ → ℕ
address_field raw = raw % 2 ^ 160

abbrev pub weight_field : ℕ → ℕ
weight_field raw = raw / 2 ^ 160 % 2 ^ 16

abbrev pub output_field : ℕ → ℕ
output_field raw = raw / 2 ^ 176 % 2 ^ 8

abbrev pub input_field : ℕ → ℕ
input_field raw = raw / 2 ^ 184 % 2 ^ 8

abbrev pub reverse_field : ℕ → ℕ
reverse_field raw = raw / 2 ^ 255

-- The word holds the arguments in its fields, or an argument is out of its range.
abbrev pub IsWord : Address → Bool → ℕ → ℕ → ℕ → Result Exception ℕ → Type 0
IsWord a reverse w i o (ok raw) =
    (address_field raw ≡ from_bytes a % 2 ^ 160)
    × (weight_field raw ≡ w)
    × (input_field raw ≡ i)
    × (output_field raw ≡ o)
    × (reverse_field raw ≡ (if reverse then 1 else 0))
    × (raw < 2 ^ 256)
IsWord a reverse w i o (err e) =
    (e ≡ value_error) × ((max_bps < w) ⊎ ((255 < i) ⊎ ((255 < o) ⊎ (length a ≢ 20))))

fields :
    (a r w i o : ℕ)
    → a < 2 ^ 160
    → w ≤ max_bps
    → i ≤ 255
    → o ≤ 255
    → r ≤ 1
    → (raw : ℕ) → raw ≡ a + w * 2 ^ 160 + o * 2 ^ 176 + i * 2 ^ 184 + r * 2 ^ 255
    → (address_field raw ≡ a)
      × (weight_field raw ≡ w)
      × (input_field raw ≡ i)
      × (output_field raw ≡ o)
      × (reverse_field raw ≡ r)
      × (raw < 2 ^ 256)
fields a r w i o h1 h2 h3 h4 h5 raw e =
    (omega arith, omega arith, omega arith, omega arith, omega arith, omega arith)

-- A packed word gives back the low 160 bits of the pool's address, the weight, the two node indices and
-- the direction; the only error is `ValueError`, for an argument that is out of its range.
pub encode_edge_raw_data-IsWord :
    (a : Address) (reverse : Bool) (w i o : ℕ)
    → IsWord a reverse w i o (encode_edge_raw_data a reverse w i o)
unfolding encode_edge_raw_data
encode_edge_raw_data-IsWord a reverse w i o = elim (Bool-cases (ltb max_bps w)) [
  | inl b ↦ rw b (refl, inl (ground arith))
  | inr b ↦ rw b (elim (Bool-cases (ltb 255 i)) [
    | inl c ↦ rw c (refl, inr (inl (ground arith)))
    | inr c ↦ rw c (elim (Bool-cases (ltb 255 o)) [
      | inl d ↦ rw d (refl, inr (inr (inl (ground arith))))
      | inr d ↦ rw d (elim (Bool-cases (length a == 20)) [
        | inr l ↦ rw l (refl, inr (inr (inr (ground arith))))
        | inl l ↦ rw l (packed reverse (ground arith) (ground arith) (ground arith))
      ])
    ])
  ])
]
  where
    packed :
        (r : Bool)
        → w ≤ max_bps
        → i ≤ 255
        → o ≤ 255
        → IsWord a r w i o (
            ok (
              from_bytes a % 2 ^ 160
              + w % 2 ^ 16 * 2 ^ 160
              + o % 2 ^ 8 * 2 ^ 176
              + i % 2 ^ 8 * 2 ^ 184
              + (if r then 2 ^ 255 else 0)))
    packed true h k l =
        fields (from_bytes a % 2 ^ 160) 1 w i o (omega arith) h k l (omega arith) _ (omega arith)
    packed false h k l =
        fields (from_bytes a % 2 ^ 160) 0 w i o (omega arith) h k l (omega arith) _ (omega arith)
