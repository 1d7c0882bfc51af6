-- ===== src/Hacien/Crc.antt =====
-- plugins/Hacien: the checksum of a message, and what it tells apart.
use solar_monitor.Prelude.{
  ℕ, zero, suc, ◌+◌, ◌*◌, ◌/◌, ◌%◌, ◌^◌, ◌≤◌, ◌<◌, bit_xor, ◌≡◌, refl, sym, ap, ◌∙◌, ◌≢◌, Bool,
  true, false, ◌&&◌, ◌↔◌, List, [], ◌∷◌, ◌++◌, length, length-append, ltb, ◌==◌, if◌then◌else◌,
  arith, Bool-cases, inl, inr,
}
use solar_monitor.Prelude.Bytes.{All, IsByte}
use solar_monitor.Prelude.Bits.{
  bit_xor_self, bit_xor-lt, bit_xor-ge, bit_xor-cancel, bit_xor_comm, bit_xor-low, shifted,
}
use solar_monitor.Modbus.{high_byte, low_byte}

-- One round of the inner loop.
unfoldable pub shift_bit : ℕ → ℕ
shift_bit crc = if crc % 2 == 1 then bit_xor (crc / 2) 0xA001 else crc / 2

-- The inner loop, with the number of rounds left.
unfoldable pub shift_bits : ℕ → ℕ → ℕ
shift_bits zero crc = crc
shift_bits (suc rounds) crc = shift_bits rounds (shift_bit crc)

unfoldable pub add_byte : ℕ → ℕ → ℕ
add_byte crc n = shift_bits 8 (bit_xor crc n)

-- The outer loop, from a CRC on.
unfoldable pub crc_from : ℕ → List ℕ → ℕ
crc_from crc [] = crc
crc_from crc (n ∷ msg) = crc_from (add_byte crc n) msg

unfoldable pub modbus_crc : List ℕ → ℕ
modbus_crc msg = crc_from 0xFFFF msg

unfoldable pub validate : List ℕ → Bool
validate msg = ltb 0 (length msg) && (modbus_crc msg == 0)

-- A round keeps 16 bits.
shift_bit-lt : (crc : ℕ) → crc < 2 ^ 16 → shift_bit crc < 2 ^ 16
unfolding shift_bit
shift_bit-lt crc h = elim (Bool-cases (crc % 2 == 1)) [
  | inl p ↦ rw p (bit_xor-lt 16 (crc / 2) 0xA001 (omega arith) (omega arith))
  | inr p ↦ rw p (omega arith)
]

-- The top bit of the polynomial tells the two branches apart.
odd_top : (x : ℕ) → x < 2 ^ 15 → 2 ^ 15 ≤ bit_xor x 0xA001
odd_top x h = bit_xor-ge 15 x 0xA001 h (omega arith) (omega arith)

shift_bit-cancel : (a b : ℕ) → a < 2 ^ 16 → b < 2 ^ 16 → shift_bit a ≡ shift_bit b → a ≡ b
unfolding shift_bit
shift_bit-cancel a b p q h =
    let same : bit_xor (a / 2) 0xA001 ≡ bit_xor (b / 2) 0xA001 → a / 2 ≡ b / 2 =
      bit_xor-cancel (a / 2) (b / 2) 0xA001 in
    ground (arith, same, odd_top (a / 2) (omega arith), odd_top (b / 2) (omega arith))

shift_bits-lt : (rounds crc : ℕ) → crc < 2 ^ 16 → shift_bits rounds crc < 2 ^ 16
unfolding shift_bits
shift_bits-lt zero crc h = h
shift_bits-lt (suc rounds) crc h = shift_bits-lt rounds (shift_bit crc) (shift_bit-lt crc h)

shift_bits-cancel :
    (rounds a b : ℕ) → a < 2 ^ 16 → b < 2 ^ 16 → shift_bits rounds a ≡ shift_bits rounds b → a ≡ b
unfolding shift_bits
shift_bits-cancel zero a b p q h = h
shift_bits-cancel (suc rounds) a b p q h =
    shift_bit-cancel a b p q
      (shift_bits-cancel rounds (shift_bit a) (shift_bit b) (shift_bit-lt a p) (shift_bit-lt b q) h)

add_byte-lt : (crc n : ℕ) → crc < 2 ^ 16 → IsByte n → add_byte crc n < 2 ^ 16
unfolding add_byte
add_byte-lt crc n p q = shift_bits-lt 8 (bit_xor crc n) (bit_xor-lt 16 crc n p (omega arith))

-- Another CRC before the same byte leaves another CRC behind it.
add_byte-cancel :
    (a b n : ℕ) → a < 2 ^ 16 → b < 2 ^ 16 → IsByte n → add_byte a n ≡ add_byte b n → a ≡ b
unfolding add_byte
add_byte-cancel a b n p q r h = bit_xor-cancel a b n (
    shift_bits-cancel 8 (bit_xor a n) (bit_xor b n) (bit_xor-lt 16 a n p (omega arith))
      (bit_xor-lt 16 b n q (omega arith)) h)

-- Another byte behind the same CRC leaves another CRC.
add_byte-byte :
    (crc m n : ℕ) → crc < 2 ^ 16 → IsByte m → IsByte n → add_byte crc m ≡ add_byte crc n → m ≡ n
unfolding add_byte
add_byte-byte crc m n p q r h = bit_xor-cancel m n crc (
    bit_xor_comm m crc
    ∙ shift_bits-cancel 8 (bit_xor crc m) (bit_xor crc n) (bit_xor-lt 16 crc m p (omega arith))
        (bit_xor-lt 16 crc n p (omega arith)) h
    ∙ bit_xor_comm crc n)

crc_from-lt : (crc : ℕ) (msg : List ℕ) → crc < 2 ^ 16 → All IsByte msg → crc_from crc msg < 2 ^ 16
unfolding crc_from
crc_from-lt crc [] p h = p
crc_from-lt crc (n ∷ msg) p h = crc_from-lt (add_byte crc n) msg (add_byte-lt crc n p h.0) h.1

crc_from-cancel :
    (a b : ℕ) (msg : List ℕ)
    → a < 2 ^ 16
    → b < 2 ^ 16
    → All IsByte msg
    → crc_from a msg ≡ crc_from b msg
    → a ≡ b
unfolding crc_from
crc_from-cancel a b [] p q r h = h
crc_from-cancel a b (n ∷ msg) p q r h = add_byte-cancel a b n p q r.0 (
    crc_from-cancel (add_byte a n) (add_byte b n) msg (add_byte-lt a n p r.0)
      (add_byte-lt b n q r.0) r.1 h)

crc_from-append :
    (crc : ℕ) (xs ys : List ℕ) → crc_from crc (xs ++ ys) ≡ crc_from (crc_from crc xs) ys
unfolding crc_from
crc_from-append crc [] ys = refl
crc_from-append crc (x ∷ xs) ys = crc_from-append (add_byte crc x) xs ys

shift_bit-even : (a : ℕ) → shift_bit (2 * a) ≡ a
unfolding shift_bit
shift_bit-even a = ground arith

-- Rounds over zero digits only shift.
shift_bits-shifted : (rounds a : ℕ) → shift_bits rounds (shifted rounds a) ≡ a
unfolding shift_bits
shift_bits-shifted zero a = refl
shift_bits-shifted (suc rounds) a =
    rw (shift_bit-even (shifted rounds a)) (shift_bits-shifted rounds a)

add_byte-low : (crc : ℕ) → crc < 2 ^ 16 → add_byte crc (low_byte crc) ≡ high_byte crc
unfolding add_byte low_byte high_byte
add_byte-low crc h =
    let whole : crc ≡ shifted 8 (crc / 256) + crc % 256 = omega arith in
    let cleared : bit_xor crc (crc % 256) ≡ shifted 8 (crc / 256) =
      ap (λ (c : ℕ). bit_xor c (crc % 256)) whole
      ∙ bit_xor-low 8 (crc / 256) (crc % 256) (omega arith) in
    ap (shift_bits 8) cleared ∙ shift_bits-shifted 8 (crc / 256) ∙ omega arith

add_byte_self : (crc : ℕ) → add_byte crc crc ≡ 0
unfolding add_byte
add_byte_self crc = ap (shift_bits 8) (bit_xor_self crc) ∙ shift_bits-shifted 8 0

-- the CRC of a message with two more bytes
modbus_crc-two :
    (body : List ℕ) (low high : ℕ)
    → modbus_crc (body ++ (low ∷ high ∷ [])) ≡ add_byte (add_byte (modbus_crc body) low) high
unfolding modbus_crc crc_from
modbus_crc-two body low high = crc_from-append 0xFFFF body (low ∷ high ∷ [])

modbus_crc-lt : (msg : List ℕ) → All IsByte msg → modbus_crc msg < 2 ^ 16
unfolding modbus_crc
modbus_crc-lt msg h = crc_from-lt 0xFFFF msg (omega arith) h

-- The CRC before two bytes that leave 0.
crc_of_two :
    (crc low high : ℕ)
    → crc < 2 ^ 16
    → IsByte low
    → IsByte high
    → add_byte (add_byte crc low) high ≡ 0
    → crc ≡ shifted 8 high + low
crc_of_two crc low high h p q e =
    let is_high : add_byte crc low ≡ high =
      add_byte-cancel (add_byte crc low) high high (add_byte-lt crc low h p) (omega arith) q
        (e ∙ sym (add_byte_self high)) in
    let masked : bit_xor crc low ≡ shifted 8 high =
      shift_bits-cancel 8 (bit_xor crc low) (shifted 8 high) (bit_xor-lt 16 crc low h (omega arith))
        (omega arith) (unfolded crc low ∙ is_high ∙ sym (shift_bits-shifted 8 high)) in
    bit_xor-cancel crc (shifted 8 high + low) low
      (masked ∙ sym (bit_xor-low 8 high low (omega arith)))
  where
    unfolded : (crc low : ℕ) → shift_bits 8 (bit_xor crc low) ≡ add_byte crc low
    unfolded crc low = unfold add_byte in refl

-- The two bytes that leave the CRC 0 are the CRC, low byte first.
two_bytes_iff :
    (crc low high : ℕ)
    → crc < 2 ^ 16
    → IsByte low
    → IsByte high
    → (add_byte (add_byte crc low) high ≡ 0) ↔ ((low ≡ low_byte crc) × (high ≡ high_byte crc))
unfolding low_byte high_byte
two_bytes_iff crc low high h p q = (
  λ e. let whole = crc_of_two crc low high h p q e in (omega (arith, whole), omega (arith, whole)),
  λ (el, eh). rw (el, eh, add_byte-low crc h) (add_byte_self (high_byte crc)),
)

-- A message with two more bytes is valid exactly if these are its CRC, the low byte first.
pub validate-two :
    (body : List ℕ) (low high : ℕ)
    → All IsByte body
    → IsByte low
    → IsByte high
    → validate (body ++ (low ∷ high ∷ []))
      ≡ (low == low_byte (modbus_crc body)) && (high == high_byte (modbus_crc body))
unfolding validate
validate-two body low high h p q =
    let crc = modbus_crc body in
    let size : ltb 0 (length (body ++ (low ∷ high ∷ []))) ≡ true =
      ground (arith, length-append body (low ∷ high ∷ [])) in
    let (only, enough) = two_bytes_iff crc low high (modbus_crc-lt body h) p q in
    rw (size, modbus_crc-two body low high) (ground (arith, only, enough))

crc-differs :
    (crc : ℕ) (pre post : List ℕ) (m n : ℕ)
    → crc < 2 ^ 16
    → All IsByte pre
    → All IsByte post
    → IsByte m
    → IsByte n
    → crc_from crc (pre ++ m ∷ post) ≡ crc_from crc (pre ++ n ∷ post)
    → m ≡ n
unfolding crc_from
crc-differs crc [] post m n h hp hq p q e = add_byte-byte crc m n h p q (
    crc_from-cancel (add_byte crc m) (add_byte crc n) post (add_byte-lt crc m h p)
      (add_byte-lt crc n h q) hq e)
crc-differs crc (x ∷ pre) post m n h hp hq p q e =
    crc-differs (add_byte crc x) pre post m n (add_byte-lt crc x h hp.0) hp.1 hq p q e

-- A valid message of which any one byte is damaged, wherever it stands, is not valid.
pub validate-damaged :
    (pre post : List ℕ) (m n : ℕ)
    → All IsByte pre
    → All IsByte post
    → IsByte m
    → IsByte n
    → m ≢ n
    → validate (pre ++ m ∷ post) ≡ true
    → validate (pre ++ n ∷ post) ≡ false
unfolding validate modbus_crc
validate-damaged pre post m n hp hq p q ne valid =
    let differs = crc-differs 0xFFFF pre post m n (omega arith) hp hq p q in
    ground (arith, differs, ne)
