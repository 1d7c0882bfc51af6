-- ===== src/Topband/Readings.antt =====
-- plugins/Topband: the readings that a message of the wire format brings. Its fields stand where
-- those of plugins/Meritsun do.
use solar_monitor.Prelude.{
  ℕ, ◌+◌, ◌*◌, ◌≡◌, true, false, some, List, [], ◌∷◌, ◌++◌, length, arith, ltb, append_assoc,
  length-append,
}
use solar_monitor.Prelude.Int.{pos}
use solar_monitor.Prelude.Bytes.{All, IsByte, le_value}
use solar_monitor.Numbers.{Real, real_num, int_num}
use solar_monitor.Codec.{to_signed, uint32_wrap, int32_max}
use solar_monitor.AsciiHex.Encode.{encode, encode-append, length-encode}
use solar_monitor.AsciiHex.RoundTrip.{field_value-encode}
use solar_monitor.Device.Entities.{Entities}
use solar_monitor.Device.Setters.{mvoltage, mcurrent, mcapacity, charge_cycles, soc, temperature}
use solar_monitor.Meritsun.Layout.{
  Layout, voltage, current, capacity, cycles, charge, kelvin, status_byte, payload, AllBytes,
}
use solar_monitor.Topband.Message.{field, put_int, put_cells, store_message, handle_message}

-- A field behind some bytes of a payload is the number that its own bytes stand for.
field-payload :
    (pre : List ℕ) (b : ℕ) (bs rest post : List ℕ)
    → All IsByte (b ∷ bs)
    → field
        (encode (pre ++ ((b ∷ bs) ++ rest)) ++ post)
        (2 * length pre)
        (2 * length pre + (2 * length bs + 1))
      ≡ pos (le_value (b ∷ bs))
field-payload pre b bs rest post h =
    rw
      (
        encode-append pre ((b ∷ bs) ++ rest),
        encode-append (b ∷ bs) rest,
        append_assoc (encode pre) (encode (b ∷ bs) ++ encode rest) post,
        append_assoc (encode (b ∷ bs)) (encode rest) post,
        ← length-encode pre,
      )
      (field_value-encode (encode pre) b bs (encode rest ++ post) (pos 0) h)

module _ {ℓ} {N : Type ℓ} ⦃r : Real N⦄ where
  -- the assignments that the readings of a layout stand for, in their order
  abbrev pub assigned : Layout → List ℕ → Entities N → Entities N
  assigned l text e =
      let e1 = put_int mvoltage (pos (le_value (voltage l))) (record e { msg = some text }) in
      let e2 =
        put_int mcurrent (to_signed (pos (le_value (current l))) (pos uint32_wrap) (pos int32_max))
          e1 in
      let e3 = put_int mcapacity (pos (le_value (capacity l))) e2 in
      let e4 = put_int charge_cycles (pos (le_value (cycles l))) e3 in
      let e5 = put_int soc (pos (le_value (charge l))) e4 in
      let e6 = put_int temperature (pos (le_value (kelvin l))) e5 in
      let e7 = record e6 { status = some (pos (le_value (status_byte l))) } in
      put_cells 16 0 text (record e7 { afestatus = some (field text 40 41) })

  -- A message of the wire format stores the readings of its payload, the current as a signed word,
  -- whatever they are, and is new data.
  pub handle_message-fields :
      (l : Layout) (post : List ℕ) (e : Entities N)
      → AllBytes l
      → let text = encode (payload l) ++ post in handle_message text e ≡ (assigned l text e, true)
  unfolding handle_message store_message
  handle_message-fields l post e h =
      let text = encode (payload l) ++ post in
      let is_short : ltb (length text) 38 ≡ false =
        ground (arith, length-append (encode (payload l)) post, length-encode (payload l)) in
      rw (
        is_short,
        field-payload [] l.v0 (l.v1 ∷ l.v2 ∷ l.v3 ∷ []) _ post h.0,
        field-payload (voltage l) l.c0 (l.c1 ∷ l.c2 ∷ l.c3 ∷ []) _ post h.1,
        field-payload (voltage l ++ current l) l.q0 (l.q1 ∷ l.q2 ∷ l.q3 ∷ []) _ post h.2,
        field-payload (voltage l ++ (current l ++ capacity l)) l.y0 (l.y1 ∷ []) _ post h.3,
        field-payload (voltage l ++ (current l ++ (capacity l ++ cycles l))) l.s0 (l.s1 ∷ []) _ post
            h.4,
        field-payload (voltage l ++ (current l ++ (capacity l ++ (cycles l ++ charge l)))) l.t0
            (l.t1 ∷ []) _ post h.5,
        field-payload
            (voltage l ++ (current l ++ (capacity l ++ (cycles l ++ (charge l ++ kelvin l))))) l.u0
            [] _ post h.6,
      )
