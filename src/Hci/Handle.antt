-- ===== src/Hci/Handle.antt =====
-- hci.py: which handle connection_handle finds in what hcitool lists.
use solar_monitor.Prelude.{
  ℕ, ◌≡◌, ◌≢◌, refl, ap, sym, subst, ◌∙◌, Bool, Option, none, some, List, [], ◌∷◌, ◌++◌, map, ◌==◌,
  ==_iff, arith, if◌then◌else◌, Bool-cases, inl, inr, ◌⊎◌,
}
use solar_monitor.Prelude.Bytes.{All}
use solar_monitor.Hci.{
  is_digit, span, fold, strip_front, handle_word, some_digits, digits_behind, handle_at, or_later,
  find_handle, handle_behind, device_at, search_device,
}
use solar_monitor.Hci.Interval.{Holds, Stops}

-- Two texts that differ in case only.
abbrev pub SameLetters : List ℕ → List ℕ → Type 0
SameLetters xs ys = map fold xs ≡ map fold ys

span_sound :
    (test : ℕ → Bool) (cs : List ℕ)
    → (cs ≡ (span test cs).0 ++ (span test cs).1)
      × Holds test (span test cs).0
      × Stops test (span test cs).1
unfolding span
span_sound test [] = (refl, tt, tt)
span_sound test (c ∷ cs) =
    let (e, h, s) = span_sound test cs in
    elim (Bool-cases (test c)) [
      | inl p ↦ rw p (ap (λ xs. c ∷ xs) e, (p, h), s)
      | inr p ↦ rw p (refl, tt, p)
    ]

strip_front_sound :
    (ps cs : List ℕ) {rest : List ℕ}
    → strip_front ps cs ≡ some rest
    → (front : List ℕ) × (cs ≡ front ++ rest) × SameLetters front ps
unfolding strip_front
strip_front_sound [] cs h = ([], cc, refl)
strip_front_sound (p ∷ ps) [] h = cc
strip_front_sound (p ∷ ps) (c ∷ cs) {rest} h = elim (Bool-cases (fold p == fold c)) [
  | inl e ↦
      let again : strip_front ps cs ≡ some rest = sym (rw e refl) ∙ h in
      let (front, at, same) = strip_front_sound ps cs again in
      (
        c ∷ front,
        ap (λ xs. c ∷ xs) at,
        ap (λ xs. fold c ∷ xs) same
            ∙ ap (λ (x : ℕ). x ∷ map fold ps) (sym ((==_iff (fold p) (fold c)).0 e)),
      )
  | inr e ↦ let bad : none ≡ some rest = sym (rw e refl) ∙ h in absurd (cc)
]

-- What stands before a handle on its line, the word, and what follows on the handle.
pub record OnLine (cs digits : List ℕ) : Type 0 where
  pub between : List ℕ
  pub word : List ℕ
  pub rest : List ℕ
  pub whole : cs ≡ between ++ (word ++ (digits ++ rest))
  pub one_line : All (λ c. c ≢ b'\n') between
  pub is_word : SameLetters word handle_word
  pub are_digits : Holds is_digit digits
  pub some_digit : digits ≢ []
  pub all_digits : Stops is_digit rest

some_digits_sound :
    (p : List ℕ × List ℕ) {digits : List ℕ}
    → some_digits p ≡ some digits
    → (p.0 ≡ digits) × (digits ≢ [])
some_digits_sound ([], rest) h = absurd (cc)
some_digits_sound (d ∷ run, rest) h = (cc, λ e. cc)

-- Where a chain of searches has found something.
or_later-some :
    (first later : Option (List ℕ)) {digits : List ℕ}
    → or_later first later ≡ some digits
    → (first ≡ some digits) ⊎ (later ≡ some digits)
or_later-some none later h = inr h
or_later-some (some d) later h = inl h

digits_behind-some :
    (front : Option (List ℕ)) {digits : List ℕ}
    → digits_behind front ≡ some digits
    → (rest : List ℕ) × (front ≡ some rest) × (some_digits (span is_digit rest) ≡ some digits)
digits_behind-some none h = absurd (cc)
digits_behind-some (some rest) h = (rest, refl, h)

handle_behind-some :
    (front : Option (List ℕ)) {digits : List ℕ}
    → handle_behind front ≡ some digits
    → (rest : List ℕ) × (front ≡ some rest) × (find_handle rest ≡ some digits)
handle_behind-some none h = absurd (cc)
handle_behind-some (some rest) h = (rest, refl, h)

handle_at_sound : (cs : List ℕ) {digits : List ℕ} → handle_at cs ≡ some digits → OnLine cs digits
unfolding handle_at
handle_at_sound cs h =
    let (behind, e, found) = digits_behind-some (strip_front handle_word cs) h in
    let (word, at, same) = strip_front_sound handle_word cs e in
    let (run_eq, ne) = some_digits_sound (span is_digit behind) found in
    let (cut, run, stops) = span_sound is_digit behind in
    record {
      between = [];
      word = word;
      rest = (span is_digit behind).1;
      whole = at ∙ ap (λ xs. word ++ xs) (cut ∙ ap (λ xs. xs ++ (span is_digit behind).1) run_eq);
      one_line = tt;
      is_word = same;
      are_digits = subst (Holds is_digit) run_eq run;
      some_digit = ne;
      all_digits = stops;
    }

-- the rest of a line
goes_on :
    (c : ℕ) (later : Option (List ℕ)) {digits : List ℕ}
    → (if c == b'\n' then none else later) ≡ some digits
    → (c ≢ b'\n') × (later ≡ some digits)
goes_on c later h = elim (Bool-cases (c == b'\n')) [
  | inl p ↦ absurd (ground arith)
  | inr p ↦ ((λ e. ground arith), ground arith)
]

find_handle_sound :
    (cs : List ℕ) {digits : List ℕ} → find_handle cs ≡ some digits → OnLine cs digits
unfolding find_handle
find_handle_sound [] h = absurd (cc)
find_handle_sound (c ∷ cs) h =
    elim (or_later-some (handle_at (c ∷ cs)) (if c == b'\n' then none else find_handle cs) h) [
      | inl here ↦ handle_at_sound (c ∷ cs) here
      | inr there ↦
          let (inside, later) = goes_on c (find_handle cs) there in
          let on = find_handle_sound cs later in
          record {
            between = c ∷ on.between;
            word = on.word;
            rest = on.rest;
            whole = ap (λ xs. c ∷ xs) on.whole;
            one_line = (inside, on.one_line);
            is_word = on.is_word;
            are_digits = on.are_digits;
            some_digit = on.some_digit;
            all_digits = on.all_digits;
          }
    ]

-- The address stands in the text, and behind it on its line the word with these digits.
abbrev pub IsListed : List ℕ → List ℕ → List ℕ → Type 0
IsListed mac cs digits =
    (before : List ℕ) × (address : List ℕ) × (behind : List ℕ) × (cs
      ≡ before ++ (address ++ behind))
    × SameLetters address mac
    × OnLine behind digits

device_at_sound :
    (mac cs : List ℕ) {digits : List ℕ} → device_at mac cs ≡ some digits → IsListed mac cs digits
unfolding device_at
device_at_sound mac cs h =
    let (behind, e, found) = handle_behind-some (strip_front mac cs) h in
    let (address, at, same) = strip_front_sound mac cs e in
    ([], address, behind, at, same, find_handle_sound behind found)

pub search_device_sound :
    (mac cs : List ℕ) {digits : List ℕ}
    → search_device mac cs ≡ some digits
    → IsListed mac cs digits
unfolding search_device
search_device_sound mac [] h = device_at_sound mac [] h
search_device_sound mac (c ∷ cs) h =
    elim (or_later-some (device_at mac (c ∷ cs)) (search_device mac cs) h) [
      | inl here ↦ device_at_sound mac (c ∷ cs) here
      | inr there ↦
          let (before, address, behind, at, same, on) = search_device_sound mac cs there in
          (c ∷ before, address, behind, ap (λ xs. c ∷ xs) at, same, on)
    ]
