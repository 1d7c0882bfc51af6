-- ===== src/Meritsun/Stream.antt =====
-- The stream parser of plugins/Meritsun against a reader of single bytes.
use mathlib.Core.Option
use solar_monitor.Prelude.{
  ℕ, zero, suc, ◌+◌, ◌-◌, ◌<◌, ◌≡◌, refl, ap, ◌∙◌, inl, inr, Bool, true, false, ◌||◌, none, some,
  List, [], ◌∷◌, ◌++◌, length, take, drop, arith, ◌==◌, if◌then◌else◌, Option-cases, append_assoc,
  append-nil, length-drop, drop-add,
}
use solar_monitor.Meritsun.{
  start_val, second_val, find, find_from, first_marker, next_marker, drain,
}

unfoldable pub is_marker : ℕ → Bool
is_marker b = b == start_val || b == second_val

-- The reader: `frame` is the frame that is being read, empty before the first marker.
abbrev pub emit : List ℕ → List (List ℕ) → List (List ℕ)
emit [] packets = packets
emit (c ∷ cs) packets = (c ∷ cs) ∷ packets

abbrev pub grow : List ℕ → ℕ → List ℕ
grow [] b = []
grow (c ∷ cs) b = (c ∷ cs) ++ b ∷ []

-- The packets that are complete after the bytes, and the frame that is then being read.
unfoldable pub read_bytes : List ℕ → List ℕ → List (List ℕ) × List ℕ
read_bytes frame [] = ([], frame)
read_bytes frame (b ∷ bs) = elim (is_marker b) [
  | true ↦ let (packets, last) = read_bytes (b ∷ []) bs in (emit frame packets, last)
  | false ↦ read_bytes (grow frame b) bs
]

-- the handler on packets in turn, and whether any of them brought new values
unfoldable pub handle_all {ℓ} :
    {S : Type ℓ} → (List ℕ → S → S × Bool) → List (List ℕ) → Bool → S → Bool × S
handle_all handle [] updated s = (updated, s)
handle_all handle (p ∷ ps) updated s =
    let (s', done) = handle p s in handle_all handle ps (if done then true else updated) s'

first_marker-cons :
    (b : ℕ) (bs : List ℕ)
    → first_marker (b ∷ bs) ≡ (if is_marker b then some 0 else Option.map suc (first_marker bs))
unfolding first_marker find is_marker
first_marker-cons b bs = ground arith

next_marker-lem :
    (stream : List ℕ) (start : ℕ)
    → next_marker stream start
      ≡ Option.map (λ i. i + (start + 1)) (first_marker (drop (start + 1) stream))
unfolding next_marker first_marker find_from
next_marker-lem stream start = ground arith

read_bytes-no_frame : (s : List ℕ) → first_marker s ≡ none → read_bytes [] s ≡ ([], [])
unfolding read_bytes
read_bytes-no_frame [] h = refl
read_bytes-no_frame (b ∷ bs) h = ground (arith, first_marker-cons b bs, read_bytes-no_frame bs)

read_bytes-open :
    (c : ℕ) (cs s : List ℕ) → first_marker s ≡ none → read_bytes (c ∷ cs) s ≡ ([], (c ∷ cs) ++ s)
unfolding read_bytes
read_bytes-open c cs [] h = rw append-nil
read_bytes-open c cs (b ∷ bs) h = ground (
  arith,
  first_marker-cons b bs,
  read_bytes-open c (cs ++ b ∷ []) bs,
  append_assoc cs (b ∷ []) bs,
)

first_marker-nil : (k : ℕ) → ¬ (first_marker [] ≡ some k)
unfolding first_marker find
first_marker-nil k h = cc

first_marker-zero : (b : ℕ) (bs : List ℕ) → first_marker (b ∷ bs) ≡ some zero → is_marker b ≡ true
first_marker-zero b bs h = ground (arith, first_marker-cons b bs)

first_marker-suc :
    (b : ℕ) (bs : List ℕ) (k : ℕ)
    → first_marker (b ∷ bs) ≡ some (suc k)
    → (is_marker b ≡ false) × (first_marker bs ≡ some k)
first_marker-suc b bs k h = ground (arith, first_marker-cons b bs)

read_bytes-skip :
    (s : List ℕ) (k : ℕ) → first_marker s ≡ some k → read_bytes [] s ≡ read_bytes [] (drop k s)
unfolding read_bytes
read_bytes-skip [] k h = absurd (first_marker-nil k h)
read_bytes-skip (b ∷ bs) zero h = refl
read_bytes-skip (b ∷ bs) (suc k) h =
    let (plain, found) = first_marker-suc b bs k h in
    rw (plain, read_bytes) (read_bytes-skip bs k found)

read_bytes-close :
    (c : ℕ) (cs s : List ℕ) (k : ℕ)
    → first_marker s ≡ some k
    → read_bytes (c ∷ cs) s
      ≡ (((c ∷ cs) ++ take k s) ∷ (read_bytes [] (drop k s)).0, (read_bytes [] (drop k s)).1)
unfolding read_bytes
read_bytes-close c cs [] k h = absurd (first_marker-nil k h)
read_bytes-close c cs (b ∷ bs) zero h = ground (arith, first_marker-zero b bs h, append-nil cs)
read_bytes-close c cs (b ∷ bs) (suc k) h =
    let (plain, found) = first_marker-suc b bs k h in
    ground
      (arith, read_bytes-close c (cs ++ b ∷ []) bs k found, append_assoc cs (b ∷ []) (take k bs))

drop-marker :
    (s : List ℕ) (k : ℕ)
    → first_marker s ≡ some k
    → (m : ℕ) × (drop k s ≡ m ∷ drop (k + 1) s) × (is_marker m ≡ true)
drop-marker [] k h = absurd (first_marker-nil k h)
drop-marker (b ∷ bs) zero h = (b, refl, first_marker-zero b bs h)
drop-marker (b ∷ bs) (suc k) h =
    let (m, e, marker) = drop-marker bs k (first_marker-suc b bs k h).1 in
    let place : suc (k + 1) ≡ suc k + 1 = omega arith in
    (m, e ∙ ap (λ (i : ℕ). m ∷ drop i (b ∷ bs)) place, marker)

read_bytes-marker :
    (m : ℕ) (bs : List ℕ) → is_marker m ≡ true → read_bytes [] (m ∷ bs) ≡ read_bytes (m ∷ []) bs
unfolding read_bytes
read_bytes-marker m bs h = rw (h, read_bytes)

-- The loop hands over the packets of the reader, in order, and keeps the frame being read.
abbrev pub run {ℓ} :
    {S : Type ℓ} → (List ℕ → S → S × Bool) → List (List ℕ) × List ℕ → Bool → S → List ℕ × Bool × S
run handle (packets, last) updated s =
    let (updated', s') = handle_all handle packets updated s in (last, updated', s')

-- where the bytes of the first frame in the stream lie
first_frame :
    (stream : List ℕ) (start : ℕ)
    → first_marker stream ≡ some start
    → (m : ℕ) × (drop start stream ≡ m ∷ drop (start + 1) stream)
      × (read_bytes [] stream ≡ read_bytes (m ∷ []) (drop (start + 1) stream))
first_frame stream start found =
    let (m, e, marker) = drop-marker stream start found in
    (
      m,
      e,
      read_bytes-skip stream start found
          ∙ ap (read_bytes []) e
          ∙ read_bytes-marker m (drop (start + 1) stream) marker,
    )

module _ {ℓ} {S : Type ℓ} (handle : List ℕ → S → S × Bool) where
  -- The loop over the stream calls the handler on exactly the packets that the reader of single bytes
  -- completes, in order, and keeps the frame that is then being read, if there are more rounds than
  -- bytes.
  pub drain-read_bytes :
      (fuel : ℕ) (stream : List ℕ) (updated : Bool) (s : S)
      → length stream < fuel
      → drain handle fuel stream updated s ≡ run handle (read_bytes [] stream) updated s
  unfolding drain handle_all
  drain-read_bytes zero stream updated s h = elim h [ ]
  drain-read_bytes (suc fuel) stream updated s h = elim (Option-cases (first_marker stream)) [
    | inl nothing ↦ rw (nothing, drain, read_bytes-no_frame stream nothing)
    | inr (start, found) ↦
        let (m, e, whole) = first_frame stream start found in
        let rest = drop (start + 1) stream in
        elim (Option-cases (first_marker rest)) [
          | inl nothing ↦
              let last : next_marker stream start ≡ none =
                next_marker-lem stream start
                ∙ ap (Option.map (λ (i : ℕ). i + (start + 1))) nothing in
              rw (found, drain, last, whole, read_bytes-open m [] rest nothing, e)
          | inr (k, more) ↦
              let nxt : next_marker stream start ≡ some (k + (start + 1)) =
                next_marker-lem stream start ∙ ap (Option.map (λ (i : ℕ). i + (start + 1))) more in
              let count : k + (start + 1) - start ≡ suc k = omega arith in
              let shorter : length (drop k rest) < fuel = omega (
                arith,
                ap length e,
                length-drop start stream,
                length-drop (start + 1) stream,
                length-drop k rest,
              ) in
              let (s', done) = handle (m ∷ take k rest) s in
              rw
                (
                  found,
                  drain,
                  nxt,
                  whole,
                  read_bytes-close m [] rest k more,
                  count,
                  e,
                  drop-add k (start + 1) stream,
                )
                (drain-read_bytes fuel (drop k rest) (if done then true else updated) s' shorter)
        ]
  ]
