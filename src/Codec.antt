-- ===== src/Codec.antt =====
-- codec.py: two's-complement readings. The function is generic: Meritsun and Topband pass whole
-- numbers, and RenogyBatt passes a scaled reading with scaled bounds.
use solar_monitor.Prelude.{ℕ, ◌-◌, ◌^◌, ◌<◌, ◌≡◌, arith, if◌then◌else◌}
use solar_monitor.Prelude.Int.{ℤ, pos, negsuc, ◌+ℤ◌, ◌-ℤ◌, ◌*ℤ◌, ◌≤ℤ◌, abs_ℤ}
use solar_monitor.Numbers.{Num, int_num}

abbrev pub uint16_wrap : ℕ
uint16_wrap = 2 ^ 16

abbrev pub uint32_wrap : ℕ
uint32_wrap = 2 ^ 32

abbrev pub int16_max : ℕ
int16_max = 2 ^ 15 - 1

abbrev pub int32_max : ℕ
int32_max = 2 ^ 31 - 1

unfoldable pub to_signed {ℓ} : {N : Type ℓ} ⦃n : Num N⦄ → N → N → N → N
to_signed ⦃n⦄ value wrap threshold = if n.lt threshold value then n.sub value wrap else value

-- The bit pattern of an integer of 32 bits: an independent description.
abbrev pub pattern32 : ℤ → ℕ
pattern32 (pos k) = k
pattern32 (negsuc k) = 2 ^ 32 - 1 - k

-- Reading back the 32-bit pattern of any integer from -2^31 up to 2^31 - 1 gives that integer.
pub to_signed-pattern32 :
    (z : ℤ)
    → negsuc int32_max ≤ℤ z
    → z ≤ℤ pos int32_max
    → to_signed (pos (pattern32 z)) (pos uint32_wrap) (pos int32_max) ≡ z
unfolding to_signed ◌+ℤ◌ ◌-ℤ◌ ◌*ℤ◌ abs_ℤ
to_signed-pattern32 (pos k) lo hi = ground arith
to_signed-pattern32 (negsuc k) lo hi = ground arith

-- Every 32-bit word is read as an integer of the signed range, with that word for its pattern.
to_signed-range :
    (w : ℕ)
    → w < 2 ^ 32
    → let z = to_signed (pos w) (pos uint32_wrap) (pos int32_max) in
      (negsuc int32_max ≤ℤ z) × (z ≤ℤ pos int32_max) × (pattern32 z ≡ w)
unfolding to_signed ◌+ℤ◌ ◌-ℤ◌ ◌*ℤ◌ abs_ℤ
to_signed-range w h = ground arith
