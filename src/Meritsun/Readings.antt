-- ===== src/Meritsun/Readings.antt =====
-- plugins/Meritsun: the readings that a message of the wire format brings.
use solar_monitor.Prelude.{
  ℕ, ◌+◌, ◌-◌, ◌*◌, ◌/◌, ◌%◌, ◌≤◌, ◌<◌, ◌≡◌, refl, Bool, true, false, not, ◌&&◌, ◌||◌, some, List,
  [], ◌∷◌, ◌++◌, length, arith, ltb, leb, if◌then◌else◌, append_assoc, length-append,
  take-append_length, drop-append_length,
}
use solar_monitor.Prelude.Int.{pos, ltb_ℤ, eqb_ℤ}
use solar_monitor.Prelude.Bytes.{All, IsByte, le_value}
use solar_monitor.Numbers.{Real, real_num, int_num}
use solar_monitor.Codec.{to_signed, uint32_wrap, int32_max}
use solar_monitor.AsciiHex.Encode.{hex_char, encode, encode-append, length-encode}
use solar_monitor.AsciiHex.RoundTrip.{field_value-encode}
use solar_monitor.Device.Entities.{Entities}
use solar_monitor.Device.Setters.{mvoltage, mcurrent, mcapacity, charge_cycles, soc, temperature}
use solar_monitor.Meritsun.Layout.{
  Layout, voltage, current, capacity, cycles, charge, kelvin, status_byte, payload, AllBytes,
  others,
}
use solar_monitor.Meritsun.Message.{
  is_upper_hex, all_upper_hex, read_field, put_int, put_full, any_set, store_message,
  handle_message,
}

hex_char-is_upper_hex : (d : ℕ) → d < 16 → is_upper_hex (hex_char d) ≡ true
unfolding hex_char is_upper_hex
hex_char-is_upper_hex d h = ground arith

all_upper_hex-encode : (bs : List ℕ) → All IsByte bs → all_upper_hex (encode bs) ≡ true
unfolding all_upper_hex encode
all_upper_hex-encode [] h = refl
all_upper_hex-encode (b ∷ bs) h =
    rw
      (
        hex_char-is_upper_hex (b / 16) (omega (arith, h.0)),
        hex_char-is_upper_hex (b % 16) (omega arith),
      )
      (all_upper_hex-encode bs h.1)

-- A field of a message of the wire format is read as the number that its bytes stand for.
read_field-encode :
    (pre : List ℕ) (b : ℕ) (bs post : List ℕ)
    → All IsByte (b ∷ bs)
    → read_field
        (encode pre ++ (encode (b ∷ bs) ++ post))
        (2 * length pre)
        (2 * length pre + (2 * length bs + 1))
      ≡ some (pos (le_value (b ∷ bs)))
unfolding read_field
read_field-encode pre b bs post h =
    let field = encode (b ∷ bs) in
    let before = length-encode pre in
    let size = length-encode (b ∷ bs) in
    let whole = length-append (encode pre) (field ++ post) in
    let part = length-append field post in
    let inside : leb (length (encode pre ++ (field ++ post)))
          (length (encode pre) + (2 * length bs + 1))
        ≡ false =
      ground (arith, size, whole, part) in
    let count : length (encode pre) + (2 * length bs + 1) + 1 - length (encode pre) ≡ length field =
      omega (arith, size) in
    rw (
      ← before,
      inside,
      count,
      drop-append_length (encode pre) (field ++ post),
      take-append_length field post,
      all_upper_hex-encode (b ∷ bs) h,
      field_value-encode (encode pre) b bs post (pos 0) h,
    )

-- the same where the field stands in a payload
read_field-payload :
    (pre : List ℕ) (b : ℕ) (bs rest post : List ℕ)
    → All IsByte (b ∷ bs)
    → read_field
        (encode (pre ++ ((b ∷ bs) ++ rest)) ++ post)
        (2 * length pre)
        (2 * length pre + (2 * length bs + 1))
      ≡ some (pos (le_value (b ∷ bs)))
read_field-payload pre b bs rest post h =
    rw
      (
        encode-append pre ((b ∷ bs) ++ rest),
        encode-append (b ∷ bs) rest,
        append_assoc (encode pre) (encode (b ∷ bs) ++ encode rest) post,
        append_assoc (encode (b ∷ bs)) (encode rest) post,
      )
      (read_field-encode pre b bs (encode rest ++ post) h)

module _ (l : Layout) (post : List ℕ) (h : AllBytes l) where
  open l use {v0, v1, v2, v3, c0, c1, c2, c3, q0, q1, q2, q3, y0, y1, s0, s1, t0, t1, u0, rest}

  abbrev message : List ℕ
  message = encode (payload l) ++ post

  reads_voltage : read_field message 0 7 ≡ some (pos (le_value (voltage l)))
  reads_voltage = read_field-payload [] v0 (v1 ∷ v2 ∷ v3 ∷ []) _ post h.0

  reads_current : read_field message 8 15 ≡ some (pos (le_value (current l)))
  reads_current = read_field-payload (voltage l) c0 (c1 ∷ c2 ∷ c3 ∷ []) _ post h.1

  reads_capacity : read_field message 16 23 ≡ some (pos (le_value (capacity l)))
  reads_capacity = read_field-payload (voltage l ++ current l) q0 (q1 ∷ q2 ∷ q3 ∷ []) _ post h.2

  reads_cycles : read_field message 24 27 ≡ some (pos (le_value (cycles l)))
  reads_cycles = read_field-payload (voltage l ++ (current l ++ capacity l)) y0 (y1 ∷ []) _ post h.3

  reads_charge : read_field message 28 31 ≡ some (pos (le_value (charge l)))
  reads_charge =
      read_field-payload (voltage l ++ (current l ++ (capacity l ++ cycles l))) s0 (s1 ∷ []) _ post
        h.4

  reads_kelvin : read_field message 32 35 ≡ some (pos (le_value (kelvin l)))
  reads_kelvin =
      read_field-payload (voltage l ++ (current l ++ (capacity l ++ (cycles l ++ charge l)))) t0
        (t1 ∷ []) _ post h.5

  reads_status : read_field message 36 37 ≡ some (pos (le_value (status_byte l)))
  reads_status =
      read_field-payload
        (voltage l ++ (current l ++ (capacity l ++ (cycles l ++ (charge l ++ kelvin l))))) u0 [] _
        post h.6

  message_long : 38 ≤ length message
  message_long = omega (arith, length-append (encode (payload l)) post, length-encode (payload l))

-- a message is refused where the voltage is low or no other reading is set
refused-others :
    (v c q y s t u : ℕ)
    → (ltb_ℤ (pos v) (pos 1000)
        || not (
            not (eqb_ℤ (pos c) (pos 0))
            || not (eqb_ℤ (pos q) (pos 0))
            || not (eqb_ℤ (pos y) (pos 0))
            || not (eqb_ℤ (pos s) (pos 0))
            || not (eqb_ℤ (pos t) (pos 0))
            || not (eqb_ℤ (pos u) (pos 0))))
      ≡ not (leb 1000 v && leb 1 (c + q + y + s + t + u))
refused-others v c q y s t u = ground arith

if-not {ℓ} : {A : Type ℓ} (b : Bool) (x y : A) → (if not b then x else y) ≡ (if b then y else x)
if-not true x y = refl
if-not false x y = refl

module _ {ℓ} {N : Type ℓ} ⦃r : Real N⦄ where
  -- the assignments that the readings of a layout stand for, in their order
  abbrev pub assigned : Layout → List ℕ → Bool → Entities N → Entities N
  assigned l text full e =
      let e1 = put_int mvoltage (pos (le_value (voltage l))) (record e { msg = some text }) in
      let e2 =
        put_int mcurrent (to_signed (pos (le_value (current l))) (pos uint32_wrap) (pos int32_max))
          e1 in
      let e3 = put_int mcapacity (pos (le_value (capacity l))) e2 in
      let e4 = put_int charge_cycles (pos (le_value (cycles l))) e3 in
      let e5 = put_int soc (pos (le_value (charge l))) e4 in
      let e6 = put_int temperature (pos (le_value (kelvin l))) e5 in
      put_full full text (record e6 { status = some (pos (le_value (status_byte l))) })

  -- A message of the wire format stores the readings of its payload, the current as a signed word,
  -- if the voltage is 1000 mV or more and some other reading is not zero, and nothing otherwise.
  pub handle_message-payload :
      (l : Layout) (post : List ℕ) (full : Bool) (e : Entities N)
      → AllBytes l
      → let text = encode (payload l) ++ post in
        handle_message text full e ≡ (
          if leb 1000 (le_value (voltage l)) && leb 1 (others l)
          then (assigned l text full e, true)
          else (e, false))
  unfolding handle_message any_set store_message
  handle_message-payload l post full e h =
      let text = encode (payload l) ++ post in
      let is_short : ltb (length text) 38 ≡ false = ground (arith, message_long l post h) in
      let is_refused =
        refused-others (le_value (voltage l)) (le_value (current l)) (le_value (capacity l))
          (le_value (cycles l)) (le_value (charge l)) (le_value (kelvin l))
          (le_value (status_byte l)) in
      rw (
        reads_voltage l post h,
        reads_current l post h,
        reads_capacity l post h,
        reads_cycles l post h,
        reads_charge l post h,
        reads_kelvin l post h,
        reads_status l post h,
        is_short,
        is_refused,
        if-not {A = Entities N × Bool} (leb 1000 (le_value (voltage l)) && leb 1 (others l)),
      )
