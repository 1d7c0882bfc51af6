-- ===== src/Prelude/Words.antt =====
-- Python's `strip`, `replace`, `capitalize`, `title` and `lower` of texts, on the letters and the
-- white space of ASCII, and `int` of a text.
use Prim.Native.Char.{Char, code}
use Prim.Native.String.{char_at}
use mathlib.Core.Option
use solar_monitor.Prelude.{
  ℕ, ◌+◌, ◌-◌, ◌*◌, String, Bool, true, false, Option, none, some, List, [], ◌∷◌, ◌&&◌, ◌||◌, leb,
  ◌==◌, if◌then◌else◌, str_eq,
}
use solar_monitor.Prelude.Int.{ℤ, pos, sub_ℕ}
use solar_monitor.Prelude.Text.{codes}

unfoldable pub is_space : ℕ → Bool
is_space c = (leb 9 c && leb c 13) || (leb 28 c && leb c 32)

unfoldable pub is_upper : ℕ → Bool
is_upper c = leb 65 c && leb c 90

unfoldable pub is_lower : ℕ → Bool
is_lower c = leb 97 c && leb c 122

unfoldable pub upper : Char → Char
unfolding is_lower
upper c = if is_lower (code c) then char_at "ABCDEFGHIJKLMNOPQRSTUVWXYZ" (code c - 97) else c

unfoldable pub lower : Char → Char
unfolding is_upper
lower c = if is_upper (code c) then char_at "abcdefghijklmnopqrstuvwxyz" (code c - 65) else c

-- text.lower()
unfoldable pub lower_text : String → String
unfolding lower
lower_text String.[] = ""
lower_text (String.◌∷◌ c s) = String.◌∷◌ (lower c) (lower_text s)

-- text.upper()
unfoldable pub upper_text : String → String
unfolding upper
upper_text String.[] = ""
upper_text (String.◌∷◌ c s) = String.◌∷◌ (upper c) (upper_text s)

-- text.capitalize()
unfoldable pub capitalize : String → String
unfolding lower_text upper
capitalize String.[] = ""
capitalize (String.◌∷◌ c s) = String.◌∷◌ (upper c) (lower_text s)

-- text.title(), behind a letter or not
unfoldable pub title_from : Bool → String → String
unfolding lower upper
title_from inside String.[] = ""
title_from inside (String.◌∷◌ c s) =
    String.◌∷◌ (if inside then lower c else upper c)
      (title_from (is_upper (code c) || is_lower (code c)) s)

unfoldable pub title : String → String
unfolding title_from
title s = title_from false s

-- text.replace("_", " ")
unfoldable pub spaced : String → String
spaced String.[] = ""
spaced (String.◌∷◌ c s) = String.◌∷◌ (if code c == code "_" then " " else c) (spaced s)

unfoldable pub strip_left : String → String
unfolding is_space
strip_left String.[] = ""
strip_left (String.◌∷◌ c s) =
    let rest = strip_left s in if is_space (code c) then rest else String.◌∷◌ c s

unfoldable pub strip_right : String → String
unfolding is_space
strip_right String.[] = ""
strip_right (String.◌∷◌ c s) =
    let rest = strip_right s in
    if is_space (code c) && str_eq rest "" then "" else String.◌∷◌ c rest

-- text.strip()
unfoldable pub strip : String → String
unfolding strip_left strip_right
strip s = strip_left (strip_right s)

-- A text that is there and not empty.
unfoldable pub truthy : Option String → Option String
truthy none = none
truthy (some s) = if str_eq s "" then none else some s

-- int(text): the digits behind a sign, where an underscore stands only between digits. none is a
-- ValueError.
unfoldable pub dec_digits : ℕ → Bool → List ℕ → Option ℕ
dec_digits acc after_digit [] = if after_digit then some acc else none
dec_digits acc after_digit (c ∷ cs) = elim (leb 48 c && leb c 57) [
  | true ↦ dec_digits (acc * 10 + (c - 48)) true cs
  | false ↦ elim (c == b'_' && after_digit) [ true ↦ dec_digits acc false cs | false ↦ none ]
]

unfoldable pub signed_dec : List ℕ → Option ℤ
unfolding dec_digits
signed_dec [] = none
signed_dec (c ∷ cs) =
    if c == b'+'
    then Option.map pos (dec_digits 0 false cs)
    else if c == b'-'
    then Option.map (sub_ℕ 0) (dec_digits 0 false cs)
    else Option.map pos (dec_digits 0 false (c ∷ cs))

unfoldable pub int_text : String → Option ℤ
unfolding signed_dec strip
int_text s = signed_dec (codes (strip s))
