-- ===== src/Meritsun/Buffer.antt =====
-- plugins/Meritsun: how long the stream can grow.
use mathlib.Core.Option
use solar_monitor.Prelude.{
  ℕ, zero, suc, ◌+◌, ◌-◌, ◌≤◌, ◌<◌, max, ◌≡◌, refl, ap, ◌∙◌, Bool, true, false, ◌||◌, Option, none,
  some, List, [], ◌∷◌, ◌++◌, length, arith, ltb, ltb→lt, ◌==◌, Bool-cases, Option-cases, inl, inr,
  length-append, length-drop,
}
use solar_monitor.Prelude.Bytes.{All}
use solar_monitor.Numbers.{Real}
use solar_monitor.Meritsun.{
  start_val, second_val, rfind, later, last_marker, cut, Util, handle_data_packet,
  notification_update,
}
use solar_monitor.Meritsun.Stream.{is_marker, read_bytes, drain-read_bytes}
use solar_monitor.Meritsun.Chunks.{IsPending, length-read_bytes, fits}

-- no marker
abbrev IsPlain : ℕ → Type 0
IsPlain b = is_marker b ≡ false

abbrev extend : Bool → Option ℕ → Option ℕ
extend marker (some i) = some (suc i)
extend true none = some 0
extend false none = none

rfind-cons : (mark b : ℕ) (bs : List ℕ) → rfind mark (b ∷ bs) ≡ extend (b == mark) (rfind mark bs)
unfolding rfind
rfind-cons mark b bs = ground arith

later-extend :
    (p q : Bool) (i j : Option ℕ) → later (extend p i) (extend q j) ≡ extend (p || q) (later i j)
unfolding later
later-extend p q (some i) (some j) =
    let e : max (suc i) (suc j) ≡ suc (max i j) = omega arith in rw e
later-extend p true (some i) none = let e : max (suc i) 0 ≡ suc i = omega arith in rw e
later-extend p false (some i) none = refl
later-extend true q none (some j) = let e : max 0 (suc j) ≡ suc j = omega arith in rw e
later-extend false q none (some j) = refl
later-extend true true none none = refl
later-extend true false none none = refl
later-extend false true none none = refl
later-extend false false none none = refl

last_marker-cons :
    (b : ℕ) (bs : List ℕ) → last_marker (b ∷ bs) ≡ extend (is_marker b) (last_marker bs)
unfolding last_marker is_marker
last_marker-cons b bs =
    rw (rfind-cons start_val b bs, rfind-cons second_val b bs)
      (later-extend (b == start_val) (b == second_val) (rfind start_val bs) (rfind second_val bs))

map-shift : (o : Option ℕ) → o ≡ Option.map (λ i. 0 + i) o
map-shift none = refl
map-shift (some i) = let e : 0 + i ≡ i = omega arith in rw e

extend-map :
    (n : ℕ) (o : Option ℕ)
    → extend false (Option.map (λ i. n + i) o) ≡ Option.map (λ i. suc n + i) o
extend-map n none = refl
extend-map n (some i) = let e : suc n + i ≡ suc (n + i) = omega arith in rw e

last_marker-plain :
    (ps ys : List ℕ)
    → All IsPlain ps
    → last_marker (ps ++ ys) ≡ Option.map (λ i. length ps + i) (last_marker ys)
last_marker-plain [] ys h = map-shift (last_marker ys)
last_marker-plain (p ∷ ps) ys h =
    rw (last_marker-cons p (ps ++ ys), h.0, last_marker-plain ps ys h.1)
      (extend-map (length ps) (last_marker ys))

cons≢nil {ℓ} : {A : Type ℓ} {x : A} {xs : List A} → x ∷ xs ≡ [] → ⊥
cons≢nil h = cc

-- What follows the marker of a frame that is being read.
IsPlain-read_bytes : (c : ℕ) (cs ps : List ℕ) → (read_bytes (c ∷ cs) ps).0 ≡ [] → All IsPlain ps
unfolding read_bytes
IsPlain-read_bytes c cs [] h = tt
IsPlain-read_bytes c cs (b ∷ ps) h = elim (Bool-cases (is_marker b)) [
  | inl marker ↦ let h' = rw (marker, read_bytes) at h in absurd (cons≢nil h')
  | inr plain ↦ (plain, IsPlain-read_bytes c (cs ++ (b ∷ [])) ps (rw (plain, read_bytes) at h))
]

IsPlain-pending : (m : ℕ) (ps : List ℕ) → IsPending (m ∷ ps) → All IsPlain ps
unfolding read_bytes
IsPlain-pending m ps p = elim (Bool-cases (is_marker m)) [
  | inl marker ↦ IsPlain-read_bytes m [] ps (ap (λ r. r.0) (rw (marker, read_bytes) at p))
  | inr plain ↦
      let last : (read_bytes [] ps).1 ≡ m ∷ ps = ap (λ r. r.1) (rw (plain, read_bytes) at p) in
      absurd (omega (arith, length-read_bytes [] ps, ap length last))
]

-- the cut of a long stream, by its last marker
cut-marker :
    (s : List ℕ) (k : ℕ)
    → 512 < length s
    → last_marker s ≡ some (suc k)
    → length (cut s) ≡ length s - suc k
unfolding cut last_marker
cut-marker s k long h =
    let test : ltb 512 (length s) ≡ true = ground (arith, long) in
    let some_keep : ltb 0 (suc k) ≡ true = ground arith in
    rw (test, h, some_keep) (length-drop (suc k) s)

cut-tail :
    (marker : Bool) (s : List ℕ)
    → 512 < length s
    → last_marker s ≡ extend marker none
    → length (cut s) ≡ 256
unfolding cut last_marker
cut-tail true s long h =
    let test : ltb 512 (length s) ≡ true = ground (arith, long) in
    rw (test, h) (omega (arith, length-drop (length s - 256) s, long))
cut-tail false s long h =
    let test : ltb 512 (length s) ≡ true = ground (arith, long) in
    rw (test, h) (omega (arith, length-drop (length s - 256) s, long))

length-cut_le : (s : List ℕ) → length (cut s) ≤ length s
length-cut_le s = elim (Bool-cases (ltb 512 (length s))) [
  | inl p ↦
      let long = ltb→lt 512 (length s) p in
      elim (Option-cases (last_marker s)) [
        | inl q ↦ omega (arith, long, cut-tail false s long q)
        | inr (zero, q) ↦ omega (arith, long, cut-tail true s long q)
        | inr (suc k, q) ↦ omega (arith, cut-marker s k long q)
      ]
  | inr p ↦ let short : length s ≤ 512 = ground arith in omega (arith, ap length (fits s short))
]

-- The stream after the cut, where it held one frame before.
length-cut :
    (pending bytes : List ℕ)
    → IsPending pending
    → length (cut (pending ++ bytes)) ≤ max 512 (length bytes)
length-cut [] bytes p = omega (arith, length-cut_le bytes)
length-cut (m ∷ ps) bytes p =
    let s = m ∷ (ps ++ bytes) in
    let place : last_marker s
        ≡ extend (is_marker m) (Option.map (λ i. length ps + i) (last_marker bytes)) =
      last_marker-cons m (ps ++ bytes)
      ∙ ap (extend (is_marker m)) (last_marker-plain ps bytes (IsPlain-pending m ps p)) in
    elim (Bool-cases (ltb 512 (length s))) [
      | inl q ↦
          let long = ltb→lt 512 (length s) q in
          elim (Option-cases (last_marker bytes)) [
            | inl none_left ↦
                omega (arith, cut-tail (is_marker m) s long (place ∙ rw none_left refl))
            | inr (i, found) ↦ omega (
              arith,
              length-append ps bytes,
              cut-marker s (length ps + i) long (place ∙ rw found refl),
            )
          ]
      | inr q ↦
          let short : length s ≤ 512 = ground arith in
          omega (arith, short, ap length (fits s short))
    ]

module _ {ℓ} {N : Type ℓ} ⦃r : Real N⦄ where
  -- The stream never holds more than 512 bytes, or the bytes of the last notification if these are
  -- more, whatever the notifications bring.
  pub length-notification_update :
      (bytes : List ℕ) (u : Util N)
      → IsPending u.stream
      → length u.stream ≤ 512
      → length (notification_update bytes u).0.stream ≤ max 512 (length bytes)
  unfolding notification_update
  length-notification_update [] u p h = omega arith
  length-notification_update (b ∷ bs) u p h =
      let stream = cut (u.stream ++ (b ∷ bs)) in
      rw
        (drain-read_bytes handle_data_packet (suc (length stream)) stream false u.decoder
          (omega arith))
        (omega (arith, length-read_bytes [] stream, length-cut u.stream (b ∷ bs) p))
