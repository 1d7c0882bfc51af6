-- ===== src/Meritsun/Chunks.antt =====
-- Notifications to plugins/Meritsun, and how the bytes of the device are split into them.
use solar_monitor.Prelude.{
  ℕ, suc, ◌+◌, ◌≤◌, ◌≡◌, refl, ◌∙◌, inl, inr, Bool, true, false, ◌||◌, List, [], ◌∷◌, ◌++◌, length,
  arith, if◌then◌else◌, Bool-cases, length-append,
}
use solar_monitor.Numbers.{Real}
use solar_monitor.Meritsun.{cut, Util, handle_data_packet, notification_update}
use solar_monitor.Meritsun.Stream.{is_marker, emit, grow, read_bytes, handle_all, drain-read_bytes}

emit-append : (f : List ℕ) (ps qs : List (List ℕ)) → emit f (ps ++ qs) ≡ emit f ps ++ qs
emit-append [] ps qs = refl
emit-append (c ∷ cs) ps qs = refl

pub read_bytes-append :
    (f xs ys : List ℕ)
    → read_bytes f (xs ++ ys) ≡ (
      (read_bytes f xs).0 ++ (read_bytes (read_bytes f xs).1 ys).0,
      (read_bytes (read_bytes f xs).1 ys).1,
    )
unfolding read_bytes
read_bytes-append f [] ys = refl
read_bytes-append f (b ∷ xs) ys = ground (
  arith,
  read_bytes-append (b ∷ []) xs ys,
  read_bytes-append (grow f b) xs ys,
  emit-append f (read_bytes (b ∷ []) xs).0 (read_bytes (read_bytes (b ∷ []) xs).1 ys).0,
)

-- What the stream holds between two notifications: nothing, or one frame that is being read.
abbrev pub IsPending : List ℕ → Type 0
IsPending frame = read_bytes [] frame ≡ ([], frame)

IsPending-grow : (f : List ℕ) (b : ℕ) → is_marker b ≡ false → IsPending f → IsPending (grow f b)
unfolding read_bytes
IsPending-grow [] b h p = p
IsPending-grow (c ∷ cs) b h p = read_bytes-append [] (c ∷ cs) (b ∷ []) ∙ rw p (rw (h, read_bytes))

IsPending-read_bytes : (f bs : List ℕ) → IsPending f → IsPending (read_bytes f bs).1
unfolding read_bytes
IsPending-read_bytes f [] p = p
IsPending-read_bytes f (b ∷ bs) p = elim (Bool-cases (is_marker b)) [
  | inl marker ↦
      rw (marker, read_bytes) (IsPending-read_bytes (b ∷ []) bs (rw (marker, read_bytes)))
  | inr plain ↦
      rw (plain, read_bytes) (IsPending-read_bytes (grow f b) bs (IsPending-grow f b plain p))
]

length-grow : (f : List ℕ) (b : ℕ) → length (grow f b) ≤ length f + 1
length-grow [] b = omega arith
length-grow (c ∷ cs) b = omega (arith, length-append cs (b ∷ []))

pub length-read_bytes : (f bs : List ℕ) → length (read_bytes f bs).1 ≤ length f + length bs
unfolding read_bytes
length-read_bytes f [] = omega arith
length-read_bytes f (b ∷ bs) =
    ground (arith, length-read_bytes (b ∷ []) bs, length-read_bytes (grow f b) bs, length-grow f b)

module _ {ℓ} {S : Type ℓ} (handle : List ℕ → S → S × Bool) where
  handle_all-append :
      (ps qs : List (List ℕ)) (u : Bool) (s : S)
      → handle_all handle (ps ++ qs) u s
        ≡ handle_all handle qs (handle_all handle ps u s).0 (handle_all handle ps u s).1
  unfolding handle_all
  handle_all-append [] qs u s = refl
  handle_all-append (p ∷ ps) qs u s =
      let (s', done) = handle p s in handle_all-append ps qs (if done then true else u) s'

  handle_all-updated :
      (ps : List (List ℕ)) (u : Bool) (s : S)
      → handle_all handle ps u s
        ≡ (u || (handle_all handle ps false s).0, (handle_all handle ps false s).1)
  unfolding handle_all
  handle_all-updated [] u s = ground arith
  handle_all-updated (p ∷ ps) u s =
      let (s', done) = handle p s in
      ground (
        arith,
        handle_all-updated ps (if done then true else u) s',
        handle_all-updated ps (if done then true else false) s',
      )

pub fits : (stream : List ℕ) → length stream ≤ 512 → cut stream ≡ stream
unfolding cut
fits stream h = ground arith

module _ {ℓ} {N : Type ℓ} ⦃r : Real N⦄ where
  -- What a notification does to a stream that does not overflow, by the reader of single bytes.
  abbrev pub result : Util N → List ℕ → Util N × Bool
  result u bytes =
      let (packets, last) = read_bytes u.stream bytes in
      let (updated, decoder) = handle_all handle_data_packet packets false u.decoder in
      (record { stream = last; decoder = decoder }, updated)

  -- Where the stream holds no whole packet and has at most 512 bytes with the notification, empty or
  -- not, the notification hands the packets that the reader completes to the handler.
  pub notification_update-read_bytes :
      (bytes : List ℕ) (u : Util N)
      → IsPending u.stream
      → length (u.stream ++ bytes) ≤ 512
      → notification_update bytes u ≡ result u bytes
  unfolding notification_update
  notification_update-read_bytes [] u p h = unfold read_bytes handle_all in refl
  notification_update-read_bytes (b ∷ bs) u p h =
      let stream = u.stream ++ (b ∷ bs) in
      let loop =
        drain-read_bytes handle_data_packet (suc (length stream)) stream false u.decoder
          (omega arith) in
      let reader = read_bytes-append [] u.stream (b ∷ bs) in rw (fits stream h, loop, reader, p)

  -- Splitting a notification in two, or joining two, changes neither the decoded values and the
  -- counters nor the bytes that are kept; and the joint notification reports new values exactly if
  -- one of the parts does. The stream holds what a run of the parser leaves, and 512 bytes suffice.
  pub notification_update-append :
      (d e : List ℕ) (u : Util N)
      → IsPending u.stream
      → length (u.stream ++ (d ++ e)) ≤ 512
      → let (u1, first) = notification_update d u in
        let (u2, second) = notification_update e u1 in
        notification_update (d ++ e) u ≡ (u2, first || second)
  notification_update-append d e u p h =
      let (packets, last) = read_bytes u.stream d in
      let (updated, decoder) = handle_all handle_data_packet packets false u.decoder in
      let u1 : Util N = record { stream = last; decoder = decoder } in
      let first =
        notification_update-read_bytes d u p (omega (arith, sizes, length-append u.stream d)) in
      let second =
        notification_update-read_bytes e u1 (IsPending-read_bytes u.stream d p)
          (omega (arith, sizes, length-append last e, length-read_bytes u.stream d)) in
      let joint = notification_update-read_bytes (d ++ e) u p h in
      rw (
        first,
        second,
        joint,
        read_bytes-append u.stream d e,
        handle_all-append handle_data_packet packets (read_bytes last e).0 false u.decoder,
        handle_all-updated handle_data_packet (read_bytes last e).0 updated decoder,
      )
    where
      sizes : length u.stream + (length d + length e) ≤ 512
      sizes = omega (arith, length-append u.stream (d ++ e), length-append d e)

  -- Every notification leaves at most one frame that is being read.
  notification_update-IsPending :
      (bytes : List ℕ) (u : Util N)
      → IsPending u.stream
      → IsPending (notification_update bytes u).0.stream
  unfolding notification_update
  notification_update-IsPending [] u p = p
  notification_update-IsPending (b ∷ bs) u p =
      let stream = cut (u.stream ++ (b ∷ bs)) in
      rw
        (drain-read_bytes handle_data_packet (suc (length stream)) stream false u.decoder
          (omega arith))
        (IsPending-read_bytes [] stream (unfold read_bytes in refl))
