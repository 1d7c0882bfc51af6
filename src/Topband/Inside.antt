-- ===== src/Topband/Inside.antt =====
-- plugins/Topband: the bytes inside a frame.
use solar_monitor.Prelude.{
  ℕ, zero, suc, ◌+◌, ◌≤◌, ◌<◌, ◌≡◌, ◌≢◌, refl, ap, ◌∙◌, true, false, ◌&&◌, none, some, List, [],
  ◌∷◌, ◌++◌, length, length-append, set, replicate, arith, ltb, ◌==◌, if◌then◌else◌, append_assoc,
  append-nil, drop, Bool-cases, inl, inr,
}
use solar_monitor.Prelude.Bytes.{All}
use solar_monitor.Topband.{info, eoi, Parser, append, note_end, step_in, wrapped, step, feed}
use solar_monitor.Topband.Reader.{at}

pub set-append {ℓ} :
    {A : Type ℓ} (xs : List A) (y : A) (ys : List A) (v : A)
    → set (xs ++ y ∷ ys) (length xs) v ≡ xs ++ v ∷ ys
set-append [] y ys v = refl
set-append (x ∷ xs) y ys v = rw (set-append xs y ys v)

-- The end of the content behind the bytes, from an index and an end on.
unfoldable pub end_from : ℕ → ℕ → List ℕ → ℕ
end_from i end [] = end
end_from i end (b ∷ bs) = end_from (i + 1) (if b == 0 && ltb end 110 then i + 1 else end) bs

-- the parser inside a frame, with the bytes that it has read
abbrev pub inside : List ℕ → List ℕ → ℕ → Parser
inside got free end = at info (got ++ free) (length got) end

pub step-inside :
    (got : List ℕ) (y : ℕ) (free : List ℕ) (end byte : ℕ)
    → length got ≤ 112
    → step byte (inside got (y ∷ free) end) ≡ (
      inside (got ++ byte ∷ []) free (if byte == 0 && ltb end 110 then length got + 1 else end),
      none,
    )
unfolding step wrapped step_in append note_end
step-inside got y free end byte room =
    let full : ltb 114 (length got) ≡ false = ground arith in
    let last : (length got + 1 == 114) ≡ false = ground arith in
    let size : length (got ++ byte ∷ []) ≡ length got + 1 =
      omega (arith, length-append got (byte ∷ [])) in
    rw (full, last, set-append got y free byte, size, append_assoc got (byte ∷ []) free)
      (elim (Bool-cases (byte == 0)) [ inl z ↦ rw z | inr nz ↦ rw nz ])

-- The last byte of a frame, a zero, at place 113 of the buffer.
pub step-last :
    (got : List ℕ) (y : ℕ) (free : List ℕ) (end : ℕ)
    → length got ≡ 113
    → step 0 (inside got (y ∷ free) end)
      ≡ (at eoi (got ++ 0 ∷ free) 114 (if ltb end 110 then 114 else end), none)
unfolding step wrapped step_in append note_end
step-last got y free end room =
    let full : ltb 114 (length got) ≡ false = ground arith in
    let last : (length got + 1 == 114) ≡ true = ground arith in
    let count : length got + 1 ≡ 114 = omega arith in
    rw (full, last, set-append got y free 0, count) refl

pub feed-next :
    (b : ℕ) (bs : List ℕ) (p q : Parser) → step b p ≡ (q, none) → feed (b ∷ bs) p ≡ feed bs q
unfolding feed
feed-next b bs p q h = rw (feed, h, h) refl

pub feed-done :
    (b : ℕ) (bs : List ℕ) (p q : Parser) (frame : List ℕ)
    → step b p ≡ (q, some frame)
    → feed (b ∷ bs) p ≡ (q, some frame)
unfolding feed
feed-done b bs p q frame h = rw (feed, h, h) refl

pub feed-inside :
    (bs got free : List ℕ) (end : ℕ)
    → length got + length bs ≤ 113
    → length bs ≤ length free
    → feed bs (inside got free end)
      ≡ (inside (got ++ bs) (drop (length bs) free) (end_from (length got) end bs), none)
unfolding feed end_from
feed-inside [] got free end h room = rw append-nil
feed-inside (b ∷ bs) got [] end h room = absurd (omega arith)
feed-inside (b ∷ bs) got (y ∷ free) end h room =
    let size : length (got ++ b ∷ []) ≡ length got + 1 =
      omega (arith, length-append got (b ∷ [])) in
    let e = if b == 0 && ltb end 110 then length got + 1 else end in
    feed-next b bs (inside got (y ∷ free) end) (inside (got ++ b ∷ []) free e)
      (step-inside got y free end b (omega arith))
    ∙ feed-inside bs (got ++ b ∷ []) free e (omega (arith, size)) (omega arith)
    ∙ rw (size, append_assoc got (b ∷ []) bs)

pub end_from-plain :
    (i end : ℕ) (body rest : List ℕ)
    → All (λ c. c ≢ 0) body
    → end_from i end (body ++ rest) ≡ end_from (length body + i) end rest
unfolding end_from
end_from-plain i end [] rest h = ap (λ (k : ℕ). end_from k end rest) (omega arith)
end_from-plain i end (c ∷ body) rest h =
    let place : length body + (i + 1) ≡ suc (length body) + i = omega arith in
    let next = end_from-plain (i + 1) end body rest h.1 in ground (arith, next, place, h.0)

end_from-late : (i end : ℕ) (rest : List ℕ) → 110 ≤ end → end_from i end rest ≡ end
unfolding end_from
end_from-late i end [] h = refl
end_from-late i end (c ∷ rest) h = ground (arith, end_from-late (i + 1) end rest h)

pub drop-cons : (n : ℕ) (xs : List ℕ) → n < length xs → (y : ℕ) × (drop n xs ≡ y ∷ drop (suc n) xs)
drop-cons n [] h = absurd (omega arith)
drop-cons zero (x ∷ xs) h = (x, refl)
drop-cons (suc n) (x ∷ xs) h = drop-cons n xs (omega arith)

-- the end of a frame's content, behind all its bytes
pub end-zeros :
    (k m : ℕ)
    → 109 ≤ k
    → k + m ≡ 113
    → (let end = end_from k 0 (replicate m 0) in if ltb end 110 then 114 else end) ≡ k + 1
unfolding end_from
end-zeros k zero h e = omega arith
end-zeros k (suc m) h e =
    let late = end_from-late (k + 1) (k + 1) (replicate m 0) (omega arith) in rw late (ground arith)

pub feed-nil : (p : Parser) → feed [] p ≡ (p, none)
unfolding feed
feed-nil p = refl
