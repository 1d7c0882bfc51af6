-- ===== src/Meritsun/Frames.antt =====
-- plugins/Meritsun on whole frames of the wire format.
use solar_monitor.Prelude.{
  ℕ, zero, suc, ◌+◌, ◌-◌, ◌*◌, ◌≤◌, ◌<◌, min, ◌≡◌, ◌≢◌, refl, ap, ◌∙◌, sym, false, List, [], ◌∷◌,
  ◌++◌, length, take, replicate, arith, leb, ◌==◌, if◌then◌else◌, append_assoc, length-append,
}
use solar_monitor.Prelude.Bytes.{All, All-append, IsByte}
use solar_monitor.Numbers.{Real}
use solar_monitor.AsciiHex.Encode.{encode, length-encode, encode-avoids}
use solar_monitor.AsciiHex.Checksum.{total, framed, checksum_matches-framed}
use solar_monitor.Meritsun.Message.{end_val, frame_end_from, frame_end, handle_message}
use solar_monitor.Meritsun.{Decoder, handle_data_packet}

frame_end_from-plain :
    (i end : ℕ) (body rest : List ℕ)
    → All (λ c. c ≢ end_val) body
    → frame_end_from i end (body ++ rest) ≡ frame_end_from (length body + i) end rest
unfolding frame_end_from
frame_end_from-plain i end [] rest h = ap (λ (k : ℕ). frame_end_from k end rest) (omega arith)
frame_end_from-plain i end (c ∷ body) rest h =
    let place : length body + (i + 1) ≡ suc (length body) + i = omega arith in
    let next = frame_end_from-plain (i + 1) end body rest h.1 in ground (arith, next, place, h.0)

frame_end_from-late : (i end : ℕ) (rest : List ℕ) → 110 ≤ end → frame_end_from i end rest ≡ end
unfolding frame_end_from
frame_end_from-late i end [] h = refl
frame_end_from-late i end (c ∷ rest) h = ground (arith, frame_end_from-late (i + 1) end rest h)

take-within :
    (n : ℕ) (xs ys : List ℕ) → length xs ≤ n → take n (xs ++ ys) ≡ xs ++ take (n - length xs) ys
take-within n [] ys h = ap (λ (k : ℕ). take k ys) (omega arith)
take-within zero (x ∷ xs) ys h = elim h [ ]
take-within (suc n) (x ∷ xs) ys h =
    let left : suc n - suc (length xs) ≡ n - length xs = omega arith in
    rw (take-within n xs ys (omega arith), left)

-- On a frame whose content reaches offset 109 or beyond, the end is one past the first padding byte.
pub frame_end-padded :
    (marker : ℕ) (body pads : List ℕ)
    → All (λ c. c ≢ end_val) body
    → 108 ≤ length body
    → length body ≤ 120
    → frame_end (marker ∷ (body ++ (end_val ∷ pads))) ≡ length body + 2
unfolding frame_end
frame_end-padded marker body pads plain long short =
    ap (frame_end_from 1 0) (take-within 121 body (end_val ∷ pads) (omega arith))
    ∙ frame_end_from-plain 1 0 body (take (121 - length body) (end_val ∷ pads)) plain
    ∙ padded (121 - length body) (omega arith)
  where
    padded :
        (n : ℕ)
        → 0 < n
        → frame_end_from (length body + 1) 0 (take n (end_val ∷ pads)) ≡ length body + 2
    padded zero h = elim h [ ]
    padded (suc n) h = frame_end_from-late _ _ (take n pads) (omega arith) ∙ omega arith

frame_end-framed :
    (marker : ℕ) (payload : List ℕ) (high low : ℕ) (pads : List ℕ)
    → 52 ≤ length payload
    → length payload ≤ 58
    → frame_end (framed marker payload high low (end_val ∷ pads)) ≡ 2 * length payload + 6
frame_end-framed marker payload high low pads long short =
    let body = encode payload ++ encode (high ∷ low ∷ []) in
    let size : length body ≡ 2 * length payload + 4 = omega (
      arith,
      length-append (encode payload) (encode (high ∷ low ∷ [])),
      length-encode payload,
      length-encode (high ∷ low ∷ []),
    ) in
    let plain =
      All-append (λ c. c ≢ end_val) (encode payload) (encode (high ∷ low ∷ []))
        (encode-avoids end_val (omega arith) payload)
        (encode-avoids end_val (omega arith) (high ∷ low ∷ [])) in
    ap (λ (l : List ℕ). frame_end (marker ∷ l))
      (sym (append_assoc (encode payload) (encode (high ∷ low ∷ [])) (end_val ∷ pads)))
    ∙ frame_end-padded marker body pads plain (omega (arith, size)) (omega (arith, size))
    ∙ omega (arith, size)

take-two :
    (n : ℕ) (xs ys post zs : List ℕ)
    → length xs + length ys ≤ n
    → take n ((xs ++ (ys ++ post)) ++ zs)
      ≡ xs ++ (ys ++ take (n - (length xs + length ys)) (post ++ zs))
take-two n xs ys post zs h =
    let left : n - length xs - length ys ≡ n - (length xs + length ys) = omega arith in
    rw (
      append_assoc xs (ys ++ post) zs,
      append_assoc ys post zs,
      take-within n xs (ys ++ (post ++ zs)) (omega arith),
      take-within (n - length xs) ys (post ++ zs) (omega arith),
      left,
    )

-- The buffer of 122 bytes holds the frame, cut or filled up behind its checksum.
buffer-framed :
    (marker : ℕ) (payload : List ℕ) (high low : ℕ) (post : List ℕ)
    → length payload ≤ 58
    → take 122 (framed marker payload high low post ++ replicate 122 0)
      ≡ framed marker payload high low
          (take (122 - (2 * length payload + 5)) (post ++ replicate 122 0))
buffer-framed marker payload high low post short =
    let content = length-encode payload in
    let check = length-encode (high ∷ low ∷ []) in
    let left : 121 - (length (encode payload) + length (encode (high ∷ low ∷ [])))
        ≡ 122 - (2 * length payload + 5) =
      omega (arith, content, check) in
    ap (λ (l : List ℕ). marker ∷ l)
      (take-two 121 (encode payload) (encode (high ∷ low ∷ [])) post (replicate 122 0)
          (omega (arith, content, check))
        ∙ ap
            (λ (k : ℕ).
              encode payload ++ (encode (high ∷ low ∷ []) ++ take k (post ++ replicate 122 0)))
            left)

-- the rest of the message behind the payload, as the buffer and its index leave it
abbrev pub behind : List ℕ → ℕ → ℕ → List ℕ → List ℕ
behind payload high low pads =
    take (min (length pads + (2 * length payload + 6)) 121 - 1 - 2 * length payload) (
      encode (high ∷ low ∷ [])
      ++ take (122 - (2 * length payload + 5)) ((end_val ∷ pads) ++ replicate 122 0))

message-framed :
    (marker : ℕ) (payload : List ℕ) (high low : ℕ) (pads : List ℕ)
    → length payload ≤ 58
    → let post = take (122 - (2 * length payload + 5)) ((end_val ∷ pads) ++ replicate 122 0) in
      take
        (min (length (framed marker payload high low (end_val ∷ pads))) 121 - 1)
        (encode payload ++ (encode (high ∷ low ∷ []) ++ post))
      ≡ encode payload ++ behind payload high low pads
message-framed marker payload high low pads short =
    let content = length-encode payload in
    let size : length (framed marker payload high low (end_val ∷ pads))
        ≡ length pads + (2 * length payload + 6) =
      omega (
        arith,
        content,
        length-append (encode payload) (encode (high ∷ low ∷ []) ++ (end_val ∷ pads)),
        length-append (encode (high ∷ low ∷ [])) (end_val ∷ pads),
        length-encode (high ∷ low ∷ []),
      ) in
    rw size (
      take-within (min (length pads + (2 * length payload + 6)) 121 - 1) (encode payload) _
        (omega (arith, content))
      ∙ rw content refl)

module _ {ℓ} {N : Type ℓ} ⦃r : Real N⦄ where
  -- A whole frame, a payload of 52 to 58 bytes with its two checksum bytes and padding, is accepted
  -- exactly if the checksum bytes state the sum of the payload. A refused frame is counted as bad and
  -- changes no reading; an accepted one is counted as good, and its message begins with the payload.
  pub handle_data_packet-framed :
      (marker : ℕ) (payload : List ℕ) (high low : ℕ) (pads : List ℕ) (d : Decoder N)
      → All IsByte payload
      → IsByte high
      → IsByte low
      → 52 ≤ length payload
      → length payload ≤ 58
      → let packet = framed marker payload high low (end_val ∷ pads) in
        let message = encode payload ++ behind payload high low pads in
        let accepted = handle_message message (leb (length packet) 130) d.entities in
        handle_data_packet packet d ≡ (
          if total payload == high * 256 + low
          then (record d { frames_ok = d.frames_ok + 1; entities = accepted.0 }, accepted.1)
          else (record d { frames_bad = d.frames_bad + 1 }, false))
  unfolding handle_data_packet
  handle_data_packet-framed marker payload high low pads d hp hh hl long short =
      let post = take (122 - (2 * length payload + 5)) ((end_val ∷ pads) ++ replicate 122 0) in
      rw
        (
          frame_end-framed marker payload high low pads long short,
          buffer-framed marker payload high low (end_val ∷ pads) short,
          checksum_matches-framed marker payload high low post hp hh hl,
          message-framed marker payload high low pads short,
        )
        (ground arith)
