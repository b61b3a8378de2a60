-- ===== src/Tick/Ratio.antt =====
-- pydefi/pathfinder/v3_tick_math.py: `get_sqrt_ratio_at_tick`, the integer cascade of TickMath.
pub mod Range
use pydefi.Common.{
  ℕ, ◌+◌, ◌-◌, ◌*◌, ◌/◌, ◌%◌, ◌^◌, Bool, ◌&&◌, List, [], ◌∷◌, ltb, ◌==◌, if◌then◌else◌, ℤ, pos,
  pos_part, neg_part, div_or_raise, ◌>>=◌, ltb_ℤ, leb_ℤ, Result, ok, err, Exception, value_error,
}
use pydefi.Tick.Ladder.{min_tick, max_tick}

-- `_TICK_RATIOS`
abbrev pub tick_ratios : List ℕ
tick_ratios =
    0xFFFCB933BD6FAD37AA2D162D1A594001 ∷ 0xFFF97272373D413259A46990580E213A
    ∷ 0xFFF2E50F5F656932EF12357CF3C7FDCC ∷ 0xFFE5CACA7E10E4E61C3624EAA0941CD0
    ∷ 0xFFCB9843D60F6159C9DB58835C926644 ∷ 0xFF973B41FA98C081472E6896DFB254C0
    ∷ 0xFF2EA16466C96A3843EC78B326B52861 ∷ 0xFE5DEE046A99A2A811C461F1969C3053
    ∷ 0xFCBE86C7900A88AEDCFFC83B479AA3A4 ∷ 0xF987A7253AC413176F2B074CF7815E54
    ∷ 0xF3392B0822B70005940C7A398E4B70F3 ∷ 0xE7159475A2C29B7443B29C7FA6E889D9
    ∷ 0xD097F3BDFD2022B8845AD8F792AA5825 ∷ 0xA9F746462D870FDF8A65DC1F90E061E5
    ∷ 0x70D869A156D2A1B890BB3DF62BAF32F7 ∷ 0x31BE135F97D08FD981231505542FCFA6
    ∷ 0x9AA508B5B7A84E1C677DE54F3E99BC9 ∷ 0x5D6AF8DEDB81196699C329225EE604
    ∷ 0x2216E584F5FA1EA926041BEDFE98 ∷ 0x48A170391F7DC42444E8FA2 ∷ []

-- `abs_tick & (1 << k)`
abbrev pub bit_set : ℕ → ℕ → Bool
bit_set n k = (n / 2 ^ k) % 2 == 1

-- One round of the cascade: `ratio = (ratio * magic) >> 128` where bit `k` is set.
unfoldable pub round_ratio : ℕ → ℕ → ℕ → ℕ → ℕ
round_ratio magic k abs_tick ratio = if bit_set abs_tick k then ratio * magic / 2 ^ 128 else ratio

unfoldable pub cascade : List ℕ → ℕ → ℕ → ℕ → ℕ
unfolding round_ratio
cascade [] k abs_tick ratio = ratio
cascade (magic ∷ ms) k abs_tick ratio =
    cascade ms (k + 1) abs_tick (round_ratio magic k abs_tick ratio)

-- Q128 to Q96, rounded up: `(ratio >> 32) + (1 if ratio % (1 << 32) else 0)`
unfoldable pub to_q96 : ℕ → ℕ
to_q96 ratio = ratio / 2 ^ 32 + (if ratio % 2 ^ 32 == 0 then 0 else 1)

-- `abs_tick = -tick if tick < 0 else tick`
abbrev pub abs_tick : ℤ → ℕ
abs_tick tick = if ltb_ℤ tick (pos 0) then neg_part tick else pos_part tick

-- `((1 << 256) - 1) // ratio` above tick 0, with the failure of a division by zero
abbrev pub invert_above : ℤ → ℕ → Result Exception ℕ
invert_above tick ratio = if ltb_ℤ (pos 0) tick then div_or_raise (2 ^ 256 - 1) ratio else ok ratio

unfoldable pub get_sqrt_ratio_at_tick : ℤ → Result Exception ℕ
get_sqrt_ratio_at_tick tick =
    if leb_ℤ min_tick tick && leb_ℤ tick max_tick
    then (do
      ratio ← invert_above tick (cascade tick_ratios 0 (abs_tick tick) (2 ^ 128))
      ok (to_q96 ratio))
    else err value_error
