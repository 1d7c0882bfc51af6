-- ===== src/AsciiHex/RoundTrip.antt =====
-- asciihex.field_value on fields that the wire format writes.
use mathlib.Core.Option
use mathlib.Core.List.{flatten, reverse-cons, reverse-reverse}
use solar_monitor.Prelude.{
  ℕ, ◌+◌, ◌-◌, ◌*◌, ◌/◌, ◌%◌, ◌<◌, ◌≡◌, refl, ap, ◌∙◌, sym, subst, Bool, true, false, ◌&&◌, ◌||◌,
  some, List, [], ◌∷◌, ◌++◌, length, reverse, arith, leb, length-append, append_assoc,
  drop-append_length, take-append_length,
}
use solar_monitor.Prelude.Int.{ℤ, pos, ltb_ℤ, leb_ℤ}
use solar_monitor.Prelude.Bytes.{All, All-reverse, IsByte, le_value, be_from, be_from-reverse}
use solar_monitor.AsciiHex.{field_value, slice, pairs}
use solar_monitor.AsciiHex.HexInt.{
  is_space, left_strip, strip, hex_digit, hex_digits, skip_prefix, magnitude, signed_hex, parse_hex,
}
use solar_monitor.AsciiHex.Encode.{hex_char, encode, encode-append, length-encode}

abbrev IsUpperHex : ℕ → Type 0
IsUpperHex c = ((leb b'0' c && leb c b'9') || (leb b'A' c && leb c b'F')) ≡ true

hex_char-IsUpperHex : (d : ℕ) → d < 16 → IsUpperHex (hex_char d)
unfolding hex_char
hex_char-IsUpperHex d h = ground arith

hex_digit-hex_char : (d : ℕ) → d < 16 → hex_digit (hex_char d) ≡ some d
unfolding hex_char hex_digit
hex_digit-hex_char d h = ground arith

encode-IsUpperHex : (bs : List ℕ) → All IsByte bs → All IsUpperHex (encode bs)
unfolding encode
encode-IsUpperHex [] h = tt
encode-IsUpperHex (b ∷ bs) h = (
  hex_char-IsUpperHex (b / 16) (omega (arith, h.0)),
  (hex_char-IsUpperHex (b % 16) (omega arith), encode-IsUpperHex bs h.1),
)

left_strip_lem : (cs : List ℕ) → All IsUpperHex cs → left_strip cs ≡ cs
unfolding left_strip is_space
left_strip_lem [] h = refl
left_strip_lem (c ∷ cs) h = ground (arith, h.0)

strip_lem : (cs : List ℕ) → All IsUpperHex cs → strip cs ≡ cs
unfolding strip
strip_lem cs h =
    rw (left_strip_lem cs h, left_strip_lem (reverse cs) (All-reverse IsUpperHex cs h))
      (reverse-reverse cs)

hex_digits-hex_char :
    (acc d : ℕ) (t : Bool) (cs : List ℕ)
    → d < 16
    → hex_digits acc t (hex_char d ∷ cs) ≡ hex_digits (acc * 16 + d) true cs
unfolding hex_digits
hex_digits-hex_char acc d t cs h = rw (hex_digit-hex_char d h, hex_digits)

hex_digits-pair :
    (acc b : ℕ) (t : Bool) (cs : List ℕ)
    → IsByte b
    → hex_digits acc t (hex_char (b / 16) ∷ hex_char (b % 16) ∷ cs)
      ≡ hex_digits (acc * 256 + b) true cs
hex_digits-pair acc b t cs h =
    hex_digits-hex_char acc (b / 16) t (hex_char (b % 16) ∷ cs) (omega (arith, h))
    ∙ hex_digits-hex_char (acc * 16 + b / 16) (b % 16) true cs (omega arith)
    ∙ ap (λ (n : ℕ). hex_digits n true cs) (omega arith)

hex_digits-encode :
    (acc : ℕ) (bs : List ℕ)
    → All IsByte bs
    → hex_digits acc true (encode bs) ≡ some (be_from acc bs)
unfolding encode be_from
hex_digits-encode acc [] h = unfold hex_digits in refl
hex_digits-encode acc (b ∷ bs) h =
    hex_digits-pair acc b true (encode bs) h.0 ∙ hex_digits-encode (acc * 256 + b) bs h.1

signed_hex-unsigned :
    (c d : ℕ) (cs : List ℕ)
    → IsUpperHex c
    → IsUpperHex d
    → signed_hex (c ∷ d ∷ cs) ≡ Option.map pos (hex_digits 0 false (c ∷ d ∷ cs))
unfolding signed_hex magnitude skip_prefix
signed_hex-unsigned c d cs hc hd = ground arith

signed_hex-encode :
    (b : ℕ) (bs : List ℕ)
    → All IsByte (b ∷ bs)
    → signed_hex (encode (b ∷ bs)) ≡ some (pos (be_from 0 (b ∷ bs)))
unfolding encode be_from
signed_hex-encode b bs h =
    let high = hex_char-IsUpperHex (b / 16) (omega (arith, h.0)) in
    let low = hex_char-IsUpperHex (b % 16) (omega arith) in
    signed_hex-unsigned (hex_char (b / 16)) (hex_char (b % 16)) (encode bs) high low
    ∙ ap (Option.map pos)
        (hex_digits-pair 0 b false (encode bs) h.0 ∙ hex_digits-encode (0 * 256 + b) bs h.1)

flatten-append : (xs ys : List (List ℕ)) → flatten (xs ++ ys) ≡ flatten xs ++ flatten ys
unfolding flatten
flatten-append [] ys = refl
flatten-append (x ∷ xs) ys = rw (flatten-append xs ys) (sym (append_assoc x _ _))

flatten-reverse-pairs : (bs : List ℕ) → flatten (reverse (pairs (encode bs))) ≡ encode (reverse bs)
unfolding encode pairs
flatten-reverse-pairs [] = unfold flatten in refl
flatten-reverse-pairs (b ∷ bs) =
    rw
      (
        reverse-cons b bs,
        reverse-cons _ (pairs (encode bs)),
        flatten-append,
        encode-append,
        flatten-reverse-pairs bs,
      )
      (unfold flatten in refl)

pub slice-middle :
    (pre mid post : List ℕ) (stop : ℕ)
    → stop ≡ length pre + length mid
    → slice (pre ++ (mid ++ post)) (length pre) stop ≡ mid
unfolding slice
slice-middle pre mid post stop e =
    let count : stop - length pre ≡ length mid = omega arith in
    rw (drop-append_length pre (mid ++ post), count) (take-append_length mid post)

reverse-cons_form : (b : ℕ) (bs : List ℕ) → (c : ℕ) × (cs : List ℕ) × (reverse (b ∷ bs) ≡ c ∷ cs)
reverse-cons_form b bs = go (reverse bs) (reverse-cons b bs)
  where
    go :
        (r : List ℕ)
        → reverse (b ∷ bs) ≡ r ++ b ∷ []
        → (c : ℕ) × (cs : List ℕ) × (reverse (b ∷ bs) ≡ c ∷ cs)
    go [] e = (b, [], e)
    go (c ∷ cs) e = (c, cs ++ b ∷ [], e)

parse_hex-reverse :
    (b : ℕ) (bs : List ℕ)
    → All IsByte (b ∷ bs)
    → parse_hex (encode (reverse (b ∷ bs))) ≡ some (pos (le_value (b ∷ bs)))
unfolding parse_hex
parse_hex-reverse b bs h =
    let bytes = All-reverse IsByte (b ∷ bs) h in
    let (c, cs, e) = reverse-cons_form b bs in
    let bytes' : All IsByte (c ∷ cs) = subst (All IsByte) e bytes in
    ap signed_hex (strip_lem _ (encode-IsUpperHex _ bytes))
    ∙ ap (λ (l : List ℕ). signed_hex (encode l)) e
    ∙ signed_hex-encode c cs bytes'
    ∙ ap (λ (l : List ℕ). some (pos (be_from 0 l))) (sym e)
    ∙ ap (λ (n : ℕ). some (pos n)) (be_from-reverse (b ∷ bs))

within :
    (start width size : ℕ)
    → start + width < size
    → (ltb_ℤ (pos start) (pos 0)
        || ltb_ℤ (pos (start + width)) (pos start)
        || leb_ℤ (pos size) (pos (start + width)))
      ≡ false
within start width size h = ground arith

length-frame :
    (pre mid post : List ℕ)
    → length (pre ++ (mid ++ post)) ≡ length pre + (length mid + length post)
length-frame pre mid post = omega (arith, length-append pre (mid ++ post), length-append mid post)

-- A field that the wire format writes anywhere in a frame, one byte or more of it, is read back
-- as the number that its bytes stand for, least significant byte first, whatever the default.
pub field_value-encode :
    (pre : List ℕ) (b : ℕ) (bs post : List ℕ) (default : ℤ)
    → All IsByte (b ∷ bs)
    → field_value
        (pre ++ (encode (b ∷ bs) ++ post))
        (pos (length pre))
        (pos (length pre + (2 * length bs + 1)))
        default
      ≡ pos (le_value (b ∷ bs))
unfolding field_value
field_value-encode pre b bs post default h =
    let extent = length-frame pre (encode (b ∷ bs)) post in
    let digits : length (encode (b ∷ bs)) ≡ 2 * length bs + 2 =
      omega (arith, length-encode (b ∷ bs)) in
    rw (
      within (length pre) (2 * length bs + 1) (length (pre ++ (encode (b ∷ bs) ++ post)))
          (omega (arith, extent, digits)),
      slice-middle pre (encode (b ∷ bs)) post (length pre + (2 * length bs + 1) + 1)
          (omega (arith, digits)),
      flatten-reverse-pairs (b ∷ bs),
      parse_hex-reverse b bs h,
    )
