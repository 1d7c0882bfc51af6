-- ===== src/Topband/Frames.antt =====
-- plugins/Topband on whole frames of the wire format.
use solar_monitor.Prelude.{
  ℕ, suc, ◌+◌, ◌-◌, ◌*◌, ◌≤◌, ◌≡◌, ◌≢◌, refl, ap, ◌∙◌, sym, Option, none, some, List, [], ◌∷◌, ◌++◌,
  length, length-append, take, replicate, take-append_length, length-replicate, arith, ltb, ◌==◌,
  if◌then◌else◌, append_assoc, drop, Bool-cases, inl, inr,
}
use solar_monitor.Prelude.Bytes.{All, All-append, IsByte}
use solar_monitor.AsciiHex.Encode.{encode, length-encode, encode-avoids}
use solar_monitor.AsciiHex.Checksum.{total, framed, checksum_matches-framed}
use solar_monitor.Topband.{
  soi, eoi, Parser, reset, append, step_in, wrapped, step, cmd_data, feed, protocol_head,
  notification_update, handle_frame,
}
use solar_monitor.Topband.Message.{handle_message}
use solar_monitor.Numbers.{Real}
use solar_monitor.Device.Entities.{Entities}
use solar_monitor.Topband.Inside.{
  step-last, feed-next, feed-done, feed-inside, end_from, end_from-plain, end-zeros, drop-cons,
  feed-nil, inside,
}
use solar_monitor.Topband.Reader.{at, feed-append}

-- the content of a frame, with the checksum, and the zeros behind it up to 114 bytes
abbrev pub content : List ℕ → ℕ → ℕ → List ℕ
content payload high low = encode payload ++ encode (high ∷ low ∷ [])

abbrev pub zeros : List ℕ → List ℕ
zeros payload = replicate (108 - 2 * length payload) 0

length-content :
    (payload : List ℕ) (high low : ℕ) → length (content payload high low) ≡ 2 * length payload + 4
length-content payload high low = omega (
  arith,
  length-append (encode payload) (encode (high ∷ low ∷ [])),
  length-encode payload,
  length-encode (high ∷ low ∷ []),
)

step-head :
    (y : ℕ) (free : List ℕ)
    → step protocol_head (at soi (y ∷ free) 0 0) ≡ (inside (protocol_head ∷ []) free 0, none)
unfolding step wrapped step_in append
step-head y free = refl

-- the buffer behind a frame: its last place is never written
abbrev pub filled : List ℕ → ℕ → ℕ → List ℕ → List ℕ
filled payload high low buf =
    framed protocol_head payload high low (zeros payload ++ 0 ∷ drop 114 buf)

-- a frame by its first byte, what lies between, and the rest
framed-parts :
    (payload : List ℕ) (high low : ℕ) (rest : List ℕ)
    → framed protocol_head payload high low (zeros payload ++ rest)
      ≡ (protocol_head ∷ (content payload high low ++ zeros payload)) ++ rest
framed-parts payload high low rest =
    let check = encode (high ∷ low ∷ []) in
    ap (λ (l : List ℕ). protocol_head ∷ l)
      (ap (λ (l : List ℕ). encode payload ++ l) (sym (append_assoc check (zeros payload) rest))
        ∙ sym (append_assoc (encode payload) (check ++ zeros payload) rest)
        ∙ ap (λ (l : List ℕ). l ++ rest)
            (sym (append_assoc (encode payload) check (zeros payload))))

end_from-frame :
    (payload : List ℕ) (high low : ℕ)
    → 52 ≤ length payload
    → length payload ≤ 54
    → (let end = end_from 1 0 (content payload high low ++ zeros payload) in
        if ltb end 110 then 114 else end)
      ≡ 2 * length payload + 6
end_from-frame payload high low long short =
    let body = content payload high low in
    let n_body = length-content payload high low in
    let plain =
      All-append (λ c. c ≢ 0) (encode payload) (encode (high ∷ low ∷ []))
        (encode-avoids 0 (omega arith) payload) (encode-avoids 0 (omega arith) (high ∷ low ∷ [])) in
    rw (end_from-plain 1 0 body (zeros payload) plain) (
      end-zeros (length body + 1) (108 - 2 * length payload) (omega (arith, n_body))
        (omega (arith, n_body))
      ∙ omega (arith, n_body))

-- the parser that tests a checksum
abbrev test_of : List ℕ → ℕ → Parser × Option (List ℕ)
test_of buf end = (at eoi buf 114 end, none)

-- the message in a frame
abbrev pub message : List ℕ → ℕ → ℕ → List ℕ
message payload high low = encode payload ++ (encode (high ∷ low ∷ []) ++ (zeros payload ++ 0 ∷ []))

-- From the search for a head, a frame of 114 bytes leads to the test of its checksum.
feed-frame :
    (payload : List ℕ) (high low : ℕ) (buf : List ℕ)
    → 52 ≤ length payload
    → length payload ≤ 54
    → length buf ≡ 115
    → feed (framed protocol_head payload high low (zeros payload ++ 0 ∷ [])) (at soi buf 0 0)
      ≡ (at eoi (filled payload high low buf) 114 (2 * length payload + 6), none)
feed-frame payload high low [] long short size = absurd (omega arith)
feed-frame payload high low (y ∷ free) long short size =
    let body = content payload high low in
    let bs = body ++ zeros payload in
    let got = protocol_head ∷ bs in
    let n_body = length-content payload high low in
    let n_zeros = length-replicate {A = ℕ} (108 - 2 * length payload) 0 in
    let n_bs : length bs ≡ 112 =
      omega (arith, length-append body (zeros payload), n_body, n_zeros) in
    let (z, tail) = drop-cons (length bs) free (omega (arith, n_bs, size)) in
    let start = inside (protocol_head ∷ []) free 0 in
    let end = end_from 1 0 bs in
    let run =
      feed-inside bs (protocol_head ∷ []) free 0 (omega (arith, n_bs))
        (omega (arith, n_bs, size)) in
    let left : drop (suc (length bs)) free ≡ drop 113 free =
      ap (λ (k : ℕ). drop (suc k) free) n_bs in
    rw (framed-parts payload high low (0 ∷ [])) (
      feed-next protocol_head (bs ++ 0 ∷ []) (at soi (y ∷ free) 0 0) start (step-head y free)
      ∙ feed-append bs (0 ∷ []) start (ap (λ (s : Parser × Option (List ℕ)). s.1) run)
      ∙ ap (λ (s : Parser × Option (List ℕ)). feed (0 ∷ []) s.0) run
      ∙ ap (λ (l : List ℕ). feed (0 ∷ []) (inside got l end)) tail
      ∙ feed-next 0 [] (inside got (z ∷ drop (suc (length bs)) free) end) _
          (step-last got z (drop (suc (length bs)) free) end (omega (arith, n_bs)))
      ∙ feed-nil _
      ∙ ap (λ (l : List ℕ). (test_of (got ++ 0 ∷ l) (if ltb end 110 then 114 else end))) left
      ∙ ap (test_of (got ++ 0 ∷ drop 113 free)) (end_from-frame payload high low long short)
      ∙ ap (λ (l : List ℕ). (test_of l (2 * length payload + 6)))
          (sym (framed-parts payload high low (0 ∷ drop 113 free))))

-- what stands behind the message in the buffer
message-append :
    (payload : List ℕ) (high low : ℕ) (rest : List ℕ)
    → encode payload ++ (encode (high ∷ low ∷ []) ++ (zeros payload ++ 0 ∷ rest))
      ≡ message payload high low ++ rest
message-append payload high low rest =
    let check = encode (high ∷ low ∷ []) in
    sym (
      append_assoc (encode payload) (check ++ (zeros payload ++ 0 ∷ [])) rest
      ∙ ap (λ (l : List ℕ). encode payload ++ l)
          (append_assoc check (zeros payload ++ 0 ∷ []) rest
            ∙ ap (λ (l : List ℕ). check ++ l) (append_assoc (zeros payload) (0 ∷ []) rest)))

length-message :
    (payload : List ℕ) (high low : ℕ)
    → length payload ≤ 54
    → length (message payload high low) ≡ 113
length-message payload high low short = omega (
  arith,
  length-append (encode payload) (encode (high ∷ low ∷ []) ++ (zeros payload ++ 0 ∷ [])),
  length-append (encode (high ∷ low ∷ [])) (zeros payload ++ 0 ∷ []),
  length-append (zeros payload) (0 ∷ []),
  length-encode payload,
  length-encode (high ∷ low ∷ []),
  length-replicate {A = ℕ} (108 - 2 * length payload) 0,
)

take-message :
    (payload : List ℕ) (high low : ℕ) (rest : List ℕ)
    → length payload ≤ 54
    → take 113 (encode payload ++ (encode (high ∷ low ∷ []) ++ (zeros payload ++ 0 ∷ rest)))
      ≡ message payload high low
take-message payload high low rest short =
    ap (take 113) (message-append payload high low rest)
    ∙ ap (λ (n : ℕ). take n (message payload high low ++ rest))
        (sym (length-message payload high low short))
    ∙ take-append_length (message payload high low) rest

-- The byte behind a frame: the checksum is tested, and the byte itself is dropped.
step-test :
    (payload : List ℕ) (high low next : ℕ) (buf : List ℕ)
    → All IsByte payload
    → IsByte high
    → IsByte low
    → length payload ≤ 54
    → step next (at eoi (filled payload high low buf) 114 (2 * length payload + 6)) ≡ (
      at soi (filled payload high low buf) 0 0,
      if total payload == high * 256 + low then some (message payload high low) else none,
    )
unfolding step wrapped step_in reset cmd_data
step-test payload high low next buf hp hh hl short =
    let check =
      checksum_matches-framed protocol_head payload high low (zeros payload ++ 0 ∷ drop 114 buf) hp
        hh hl in
    rw (check, take-message payload high low (drop 114 buf) short)

module _ {ℓ} {N : Type ℓ} ⦃r : Real N⦄ where
  -- A frame of 114 bytes, a payload of 52 to 54 bytes with its two checksum bytes and zeros behind,
  -- is accepted exactly if the checksum bytes state the sum of the payload. It takes one more byte,
  -- which is dropped, to find that out. An accepted frame is handled, and all that follows in the
  -- notification is dropped too; behind a refused one the search for a head goes on.
  pub notification_update-framed :
      (payload : List ℕ) (high low next : ℕ) (rest buf : List ℕ) (e : Entities N)
      → All IsByte payload
      → IsByte high
      → IsByte low
      → 52 ≤ length payload
      → length payload ≤ 54
      → length buf ≡ 115
      → let frame = framed protocol_head payload high low (zeros payload ++ 0 ∷ []) in
        let after = at soi (filled payload high low buf) 0 0 in
        let handled = handle_message (message payload high low) e in
        notification_update
          (frame ++ next ∷ rest)
          (record { parser = at soi buf 0 0; entities = e })
        ≡ (if total payload == high * 256 + low
            then (record { parser = after; entities = handled.0 }, handled.1)
            else notification_update rest (record { parser = after; entities = e }))
  unfolding notification_update
  notification_update-framed payload high low next rest buf e hp hh hl long short size =
      let frame = framed protocol_head payload high low (zeros payload ++ 0 ∷ []) in
      let start = at soi buf 0 0 in
      let full = at eoi (filled payload high low buf) 114 (2 * length payload + 6) in
      let after = at soi (filled payload high low buf) 0 0 in
      let whole = feed-frame payload high low buf long short size in
      let fed : feed (frame ++ next ∷ rest) start ≡ feed (next ∷ rest) full =
        feed-append frame (next ∷ rest) start (ap (λ (s : Parser × Option (List ℕ)). s.1) whole)
        ∙ ap (λ (s : Parser × Option (List ℕ)). feed (next ∷ rest) s.0) whole in
      let test = step-test payload high low next buf hp hh hl short in
      elim (Bool-cases (total payload == high * 256 + low)) [
        | inl right ↦
            let accepted =
              fed
              ∙ feed-done next rest full after (message payload high low) (test ∙ rw right refl) in
            rw (right, accepted) (unfold handle_frame in refl)
        | inr wrong ↦
            let refused = fed ∙ feed-next next rest full after (test ∙ rw wrong refl) in
            rw (wrong, refused) refl
      ]
