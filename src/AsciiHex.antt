-- ===== src/AsciiHex.antt =====
-- asciihex.py: reading ASCII-hex fields, and the frame checksum.
pub mod HexInt
pub mod Encode
pub mod RoundTrip
pub mod Checksum
use mathlib.Core.List.{flatten}
use solar_monitor.Prelude.{
  ℕ, zero, suc, ◌+◌, ◌-◌, ◌*◌, Bool, ◌||◌, Option, none, some, List, [], ◌∷◌, reverse, length, take,
  drop, ltb, if◌then◌else◌,
}
use solar_monitor.Prelude.Int.{ℤ, pos, pos_part, ltb_ℤ, leb_ℤ, eqb_ℤ, ◌+ℤ◌, ◌*ℤ◌}
use HexInt.{parse_hex}

-- The rounds of `zip(characters[0::2], characters[1::2])`: an odd last character is dropped.
unfoldable pub pairs : List ℕ → List (List ℕ)
pairs (a ∷ b ∷ cs) = (a ∷ b ∷ []) ∷ pairs cs
pairs _ = []

-- frame[start:stop] for bounds that are not negative
unfoldable pub slice : List ℕ → ℕ → ℕ → List ℕ
slice frame start stop = take (stop - start) (drop start frame)

abbrev or_default : Option ℤ → ℤ → ℤ
or_default none default = default
or_default (some value) default = value

unfoldable pub field_value : List ℕ → ℤ → ℤ → ℤ → ℤ
field_value frame start end default =
    if ltb_ℤ start (pos 0) || ltb_ℤ end start || leb_ℤ (pos (length frame)) end
    then default
    else let characters = slice frame (pos_part start) (pos_part end + 1) in
      or_default (parse_hex (flatten (reverse (pairs characters)))) default

-- The two-character field at `position`, with the default 0.
unfoldable pub byte_field : List ℕ → ℕ → ℤ
byte_field frame position = field_value frame (pos position) (pos (position + 1)) (pos 0)

-- `while position < content_end - 5`: the total and the position that the loop ends with. Half of
-- `content_end` bounds the rounds, so the fuel is never used up.
unfoldable pub sum_fields : ℕ → List ℕ → ℕ → ℤ → ℕ → ℤ × ℕ
sum_fields zero frame content_end total position = (total, position)
sum_fields (suc fuel) frame content_end total position =
    let rest =
      sum_fields fuel frame content_end (total +ℤ byte_field frame position) (position + 2) in
    if ltb position (content_end - 5) then rest else (total, position)

unfoldable pub stated_checksum : List ℕ → ℕ → ℤ
stated_checksum frame position =
    byte_field frame position *ℤ pos 256 +ℤ byte_field frame (position + 2)

unfoldable pub checksum_matches : List ℕ → ℕ → Bool
checksum_matches frame content_end =
    let (total, position) = sum_fields content_end frame content_end (pos 0) 1 in
    eqb_ℤ total (stated_checksum frame position)
