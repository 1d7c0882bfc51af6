-- ===== src/Modbus/Frames.antt =====
-- modbus.py on assembled frames.
use solar_monitor.Prelude.{
  ℕ, suc, ◌+◌, ◌-◌, ◌*◌, ◌^◌, ◌<◌, min, ◌≡◌, ◌≢◌, refl, ap, ◌∙◌, true, false, lt→ltb, ◌↔◌, ◌&&◌,
  some, List, [], ◌∷◌, ◌++◌, length, arith, ◌==◌, length-append, take-append_length,
}
use solar_monitor.Prelude.Int.{pos, negsuc, ltb_ℤ, ◌+ℤ◌, +ℤ-pos}
use solar_monitor.Prelude.Bytes.{IsByte, slice, slice-middle, le_value, be_from}
use solar_monitor.Modbus.{bytes_to_int, high_byte, low_byte, validate_frame}

-- A register read forwards is the big-endian value of its bytes, wherever it stands in the frame.
pub bytes_to_int-forward :
    (pre : List ℕ) (b : ℕ) (bs post : List ℕ)
    → bytes_to_int (pre ++ ((b ∷ bs) ++ post)) (pos (length pre)) (pos (length (b ∷ bs)))
      ≡ be_from 0 (b ∷ bs)
unfolding bytes_to_int
bytes_to_int-forward pre b bs post =
    let size : length (pre ++ ((b ∷ bs) ++ post)) ≡ length pre + (length (b ∷ bs) + length post) =
      omega (arith, length-append pre ((b ∷ bs) ++ post), length-append (b ∷ bs) post) in
    let fits : ltb_ℤ (pos (length (pre ++ ((b ∷ bs) ++ post)))) (pos (length pre + length (b ∷ bs)))
        ≡ false =
      ground (arith, size) in
    rw (+ℤ-pos (length pre) (length (b ∷ bs)), fits, lt→ltb 0 (suc (length bs) + 0) (omega arith))
      (ap (be_from 0)
        (slice-middle pre (b ∷ bs) post (length pre) (length pre + length (b ∷ bs)) refl refl size))

-- A response: address, function, length byte, payload, and the two bytes of the CRC.
abbrev pub response : ℕ → ℕ → ℕ → List ℕ → ℕ → ℕ → List ℕ
response address function len payload low high =
    (address ∷ function ∷ len ∷ payload) ++ (low ∷ high ∷ [])

length-response :
    (body : List ℕ) (low high : ℕ) → length (body ++ (low ∷ high ∷ [])) ≡ length body + 2
length-response body low high = length-append body (low ∷ high ∷ [])

-- the bounds of the two bytes that end at the last index of a frame of n + 2 bytes
tail_start : (n : ℕ) → pos (n + 2 - 1) +ℤ negsuc 1 +ℤ pos 1 ≡ pos n
unfolding ◌+ℤ◌
tail_start n = ground arith

tail_fits : (n : ℕ) → ltb_ℤ (pos (n + 2)) (pos (n + 2 - 1) +ℤ negsuc 1) ≡ false
unfolding ◌+ℤ◌
tail_fits n = ground arith

le_value_two : (low high : ℕ) → le_value (low ∷ high ∷ []) ≡ low + 256 * high
unfolding le_value
le_value_two low high = omega arith

pub crc-tail :
    (body : List ℕ) (low high : ℕ)
    → let frame = body ++ (low ∷ high ∷ []) in
      bytes_to_int frame (pos (length frame - 1)) (negsuc 1) ≡ low + 256 * high
unfolding bytes_to_int
crc-tail body low high =
    let n = length body in
    let size = length-response body low high in
    rw (size, tail_fits n, tail_start n, +ℤ-pos (n + 2 - 1) 1)
      (ap le_value (
          slice-middle body (low ∷ high ∷ []) [] n (n + 2 - 1 + 1) refl (omega arith)
            (omega (arith, size)))
        ∙ le_value_two low high)

slice-body :
    (body : List ℕ) (low high : ℕ) → slice (body ++ (low ∷ high ∷ [])) (pos 0) (negsuc 1) ≡ body
unfolding slice
slice-body body low high =
    let count : length body + 2 - 2 - min 0 (length body + 2) ≡ length body = omega arith in
    let from : min 0 (length body + 2) ≡ 0 = omega arith in
    rw (length-response body low high, count, from) (take-append_length body (low ∷ high ∷ []))

module _ (crc16 : List ℕ → ℕ) where
  -- A response that is no reply to a write is accepted exactly if its length byte states the length
  -- of its payload and its last two bytes, low byte first, are the CRC of all that stands before.
  pub validate_frame-response :
      (address function len : ℕ) (payload : List ℕ) (low high : ℕ)
      → function ≢ 6
      → let body = address ∷ function ∷ len ∷ payload in
        validate_frame crc16 (some (response address function len payload low high))
        ≡ (length payload == len && crc16 body == low + 256 * high)
  unfolding validate_frame
  validate_frame-response address function len payload low high other =
      let body = address ∷ function ∷ len ∷ payload in
      rw (slice-body body low high, crc-tail body low high, length-response body low high)
        (ground arith)

  -- Assembling a response the way the devices do, with the low byte of the CRC first, gives a frame
  -- that is accepted, and changing either byte of the CRC gives one that is refused.
  validate_frame-assembled :
      (address function : ℕ) (payload : List ℕ) (low high : ℕ)
      → function ≢ 6
      → crc16 (address ∷ function ∷ length payload ∷ payload) < 2 ^ 16
      → IsByte low
      → IsByte high
      → let crc = crc16 (address ∷ function ∷ length payload ∷ payload) in
        (validate_frame crc16 (some (response address function (length payload) payload low high))
          ≡ true)
        ↔ ((low ≡ low_byte crc) × (high ≡ high_byte crc))
  unfolding low_byte high_byte
  validate_frame-assembled address function payload low high other bound hl hh =
      rw (validate_frame-response address function (length payload) payload low high other)
        (ground arith)
