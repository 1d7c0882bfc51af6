-- ===== src/AsciiHex/HexInt.antt =====
-- Python's `int(text, 16)`, on the code points of a text below 256, as asciihex.field_value calls
-- it: surrounding white space, a sign, a `0x` prefix and single underscores between the digits are
-- accepted, and `none` stands for the ValueError.
use mathlib.Core.Option
use solar_monitor.Prelude.{
  ℕ, ◌+◌, ◌-◌, ◌*◌, Bool, true, false, ◌&&◌, ◌||◌, Option, none, some, List, [], ◌∷◌, reverse, leb,
  ◌==◌, if◌then◌else◌,
}
use solar_monitor.Prelude.Int.{ℤ, pos, sub_ℕ}

unfoldable pub is_space : ℕ → Bool
is_space c = (leb 9 c && leb c 13) || c == 32 || c == 133 || c == 160

unfoldable pub left_strip : List ℕ → List ℕ
left_strip [] = []
left_strip (c ∷ cs) = if is_space c then left_strip cs else c ∷ cs

unfoldable pub strip : List ℕ → List ℕ
strip cs = reverse (left_strip (reverse (left_strip cs)))

unfoldable pub hex_digit : ℕ → Option ℕ
hex_digit c =
    if leb b'0' c && leb c b'9'
    then some (c - b'0')
    else if leb b'A' c && leb c b'F'
    then some (c - 55)
    else if leb b'a' c && leb c b'f'
    then some (c - 87)
    else none

-- An underscore stands only behind a digit, and not at the end.
unfoldable pub hex_digits : ℕ → Bool → List ℕ → Option ℕ
hex_digits acc after_digit [] = if after_digit then some acc else none
hex_digits acc after_digit (c ∷ cs) = elim (hex_digit c) [
  | some d ↦ hex_digits (acc * 16 + d) true cs
  | none ↦ if c == b'_' && after_digit then hex_digits acc false cs else none
]

unfoldable pub skip_underscore : List ℕ → List ℕ
skip_underscore [] = []
skip_underscore (c ∷ cs) = if c == b'_' then cs else c ∷ cs

unfoldable pub skip_prefix : List ℕ → List ℕ
unfolding skip_underscore
skip_prefix (z ∷ x ∷ cs) =
    if z == b'0' && (x == b'x' || x == b'X') then skip_underscore cs else z ∷ x ∷ cs
skip_prefix cs = cs

unfoldable pub magnitude : List ℕ → Option ℕ
unfolding skip_prefix
magnitude cs = hex_digits 0 false (skip_prefix cs)

unfoldable pub signed_hex : List ℕ → Option ℤ
signed_hex [] = none
signed_hex (c ∷ cs) =
    if c == b'+'
    then Option.map pos (magnitude cs)
    else if c == b'-'
    then Option.map (sub_ℕ 0) (magnitude cs)
    else Option.map pos (magnitude (c ∷ cs))

unfoldable pub parse_hex : List ℕ → Option ℤ
parse_hex text = signed_hex (strip text)
