-- ===== src/AsciiHex/Checksum.antt =====
-- asciihex.checksum_matches on frames of the wire format.
use solar_monitor.Prelude.{
  ℕ, zero, suc, ◌+◌, ◌-◌, ◌*◌, ◌≤◌, max, ◌≡◌, refl, ap, ◌∙◌, sym, List, [], ◌∷◌, ◌++◌, length,
  arith, lt→ltb, ◌==◌, length-append, append_assoc,
}
use solar_monitor.Prelude.Int.{ℤ, pos, ◌+ℤ◌, +ℤ-pos, *ℤ-pos}
use solar_monitor.Prelude.Bytes.{All, IsByte, le_value}
use solar_monitor.AsciiHex.{byte_field, sum_fields, stated_checksum, checksum_matches}
use solar_monitor.AsciiHex.Encode.{encode, length-encode}
use solar_monitor.AsciiHex.RoundTrip.{field_value-encode}

-- the sum of the bytes of a payload
unfoldable pub total : List ℕ → ℕ
total [] = 0
total (b ∷ bs) = b + total bs

pub byte_field-encode :
    (pre : List ℕ) (b : ℕ) (post : List ℕ)
    → IsByte b
    → byte_field (pre ++ (encode (b ∷ []) ++ post)) (length pre) ≡ pos b
unfolding byte_field
byte_field-encode pre b post h =
    field_value-encode pre b [] post (pos 0) (h, tt) ∙ unfold le_value in ap pos (omega arith)

sum_fields-encode :
    (fuel : ℕ) (bs pre tail frame : List ℕ) (content_end p t : ℕ)
    → frame ≡ pre ++ (encode bs ++ tail)
    → p ≡ length pre
    → content_end ≡ p + 2 * length bs + 5
    → length bs ≤ fuel
    → All IsByte bs
    → sum_fields fuel frame content_end (pos t) p ≡ (pos (t + total bs), p + 2 * length bs)
unfolding sum_fields total encode
sum_fields-encode zero [] pre tail frame content_end p t e ep ec f h = ground arith
sum_fields-encode zero (b ∷ bs) pre tail frame content_end p t e ep ec f h = absurd (omega arith)
sum_fields-encode (suc fuel) [] pre tail frame content_end p t e ep ec f h = ground arith
sum_fields-encode (suc fuel) (b ∷ bs) pre tail frame content_end p t e ep ec f h =
    let field : byte_field frame p ≡ pos b =
      rw (e, ep) (byte_field-encode pre b (encode bs ++ tail) h.0) in
    let rest =
      sum_fields-encode fuel bs (pre ++ encode (b ∷ [])) tail frame content_end (p + 2) (t + b)
        (e ∙ sym (append_assoc pre (encode (b ∷ [])) (encode bs ++ tail)))
        (omega (arith, length-append pre (encode (b ∷ [])))) (omega arith) (omega arith) h.1 in
    rw (lt→ltb p (content_end - 5) (omega arith), field, +ℤ-pos t b) (rest ∙ ground arith)

-- The loop ends by its own test: on any frame, when it returns, its position is past the content,
-- and it has not read beyond the two fields behind that.
sum_fields_ends :
    (fuel : ℕ) (frame : List ℕ) (content_end : ℕ) (t : ℤ) (p : ℕ)
    → content_end ≤ fuel + p
    → (content_end - 5 ≤ (sum_fields fuel frame content_end t p).1)
      × ((sum_fields fuel frame content_end t p).1 ≤ max p (content_end - 4))
unfolding sum_fields
sum_fields_ends zero frame content_end t p h = omega arith
sum_fields_ends (suc fuel) frame content_end t p h =
    ground (arith, sum_fields_ends fuel frame content_end (t +ℤ byte_field frame p) (p + 2))

-- A frame of the wire format: a marker, the payload, the two checksum bytes, and what follows.
abbrev pub framed : ℕ → List ℕ → ℕ → ℕ → List ℕ → List ℕ
framed marker payload high low post =
    marker ∷ (encode payload ++ (encode (high ∷ low ∷ []) ++ post))

stated_checksum-encode :
    (pre : List ℕ) (high low : ℕ) (post : List ℕ)
    → IsByte high
    → IsByte low
    → stated_checksum (pre ++ (encode (high ∷ low ∷ []) ++ post)) (length pre)
      ≡ pos (high * 256 + low)
unfolding stated_checksum encode
stated_checksum-encode pre high low post hh hl =
    let first = byte_field-encode pre high (encode (low ∷ []) ++ post) hh in
    let second = byte_field-encode (pre ++ encode (high ∷ [])) low post hl in
    let place : length (pre ++ encode (high ∷ [])) ≡ length pre + 2 =
      omega (arith, length-append pre (encode (high ∷ []))) in
    let second' =
      rw (place, append_assoc pre (encode (high ∷ [])) (encode (low ∷ []) ++ post)) at second in
    rw (first, second', *ℤ-pos high 256) (+ℤ-pos (high * 256) low)

-- On a frame of the wire format, the check accepts exactly the frames whose two checksum bytes
-- state the sum of the payload's bytes, if `content_end` is where the frame's padding begins, and
-- one more.
pub checksum_matches-framed :
    (marker : ℕ) (payload : List ℕ) (high low : ℕ) (post : List ℕ)
    → All IsByte payload
    → IsByte high
    → IsByte low
    → checksum_matches (framed marker payload high low post) (2 * length payload + 6)
      ≡ (total payload == high * 256 + low)
unfolding checksum_matches
checksum_matches-framed marker payload high low post hp hh hl =
    let frame = framed marker payload high low post in
    let pre = marker ∷ encode payload in
    let loop =
      sum_fields-encode (2 * length payload + 6) payload (marker ∷ [])
        (encode (high ∷ low ∷ []) ++ post) frame (2 * length payload + 6) 1 0 refl refl
        (omega arith) (omega arith) hp in
    let place : 1 + 2 * length payload ≡ length pre = omega (arith, length-encode payload) in
    rw (loop, place, stated_checksum-encode pre high low post hh hl) (ground arith)
