-- ===== src/AsciiHex/Encode.antt =====
-- An independent description of the wire format that asciihex.py reads: a byte is two upper-case
-- hex characters, and a number is its bytes from the least significant one on.
use solar_monitor.Prelude.{
  ℕ, ◌+◌, ◌*◌, ◌/◌, ◌%◌, ◌≤◌, ◌<◌, ◌≡◌, ◌≢◌, refl, List, [], ◌∷◌, ◌++◌, length, arith, ltb,
  if◌then◌else◌,
}
use solar_monitor.Prelude.Bytes.{All}

unfoldable pub hex_char : ℕ → ℕ
hex_char d = if ltb d 10 then b'0' + d else 55 + d

unfoldable pub encode : List ℕ → List ℕ
encode [] = []
encode (b ∷ bs) = hex_char (b / 16) ∷ hex_char (b % 16) ∷ encode bs

pub encode-append : (xs ys : List ℕ) → encode (xs ++ ys) ≡ encode xs ++ encode ys
unfolding encode
encode-append [] ys = refl
encode-append (x ∷ xs) ys = rw (encode-append xs ys)

pub length-encode : (bs : List ℕ) → length (encode bs) ≡ 2 * length bs
unfolding encode
length-encode [] = refl
length-encode (b ∷ bs) = omega (arith, length-encode bs)

hex_char-ge : (d : ℕ) → 48 ≤ hex_char d
unfolding hex_char
hex_char-ge d = ground arith

-- No control character stands in the wire format.
pub encode-avoids : (v : ℕ) → v < 48 → (bs : List ℕ) → All (λ c. c ≢ v) (encode bs)
unfolding encode
encode-avoids v h [] = tt
encode-avoids v h (b ∷ bs) = (
  λ e. omega (arith, hex_char-ge (b / 16), e),
  (λ e. omega (arith, hex_char-ge (b % 16), e), encode-avoids v h bs),
)
