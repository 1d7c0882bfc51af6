-- ===== src/Hci/Interval.antt =====
-- hci.py: what parse_interval makes of a text.
use solar_monitor.Prelude.{
  ℕ, ◌+◌, ◌*◌, ◌-◌, ◌≡◌, ◌≢◌, refl, ap, sym, ◌∙◌, Bool, true, false, Option, none, some, List, [],
  ◌∷◌, ◌++◌, append-nil, length, arith, if◌then◌else◌,
}
use solar_monitor.Prelude.Bytes.{All}
use solar_monitor.Prelude.Int.{pos}
use solar_monitor.Prelude.Words.{is_space}
use solar_monitor.Numbers.{Real}
use solar_monitor.Hci.{
  is_digit, is_number, span, skip_spaces, match_high, match_dash, match_low, match_range,
  float_from, decimal_of, parse_float, is_unusable, range_of, groups, parse_interval,
}

abbrev pub Holds : (ℕ → Bool) → List ℕ → Type 0
Holds test cs = All (λ c. test c ≡ true) cs

-- The rest does not go on with such a character.
abbrev pub Stops : (ℕ → Bool) → List ℕ → Type 0
Stops test [] = Unit
Stops test (c ∷ cs) = test c ≡ false

pub span-append :
    (test : ℕ → Bool) (run rest : List ℕ)
    → Holds test run
    → Stops test rest
    → span test (run ++ rest) ≡ (run, rest)
unfolding span
span-append test [] [] h s = refl
span-append test [] (c ∷ rest) h s = rw s refl
span-append test (c ∷ run) rest h s = rw (h.0, span-append test run rest h.1 s) refl

Stops-spaces :
    (b : ℕ → Bool) (spaces rest : List ℕ)
    → ((c : ℕ) → is_space c ≡ true → b c ≡ false)
    → Holds is_space spaces
    → Stops b rest
    → Stops b (spaces ++ rest)
Stops-spaces b [] rest apart h s = s
Stops-spaces b (c ∷ spaces) rest apart h s = apart c h.0

Stops-none :
    (b : ℕ → Bool) (spaces : List ℕ)
    → ((c : ℕ) → is_space c ≡ true → b c ≡ false)
    → Holds is_space spaces
    → Stops b spaces
Stops-none b [] apart h = tt
Stops-none b (c ∷ spaces) apart h = apart c h.0

number-space : (c : ℕ) → is_number c ≡ true → is_space c ≡ false
unfolding is_space is_number
number-space c h = ground arith

space-number : (c : ℕ) → is_space c ≡ true → is_number c ≡ false
unfolding is_space is_number
space-number c h = ground arith

-- The text of a range: white space `a` to `d` round two numbers and a dash.
abbrev pub range_text : List ℕ → List ℕ → List ℕ → List ℕ → List ℕ → List ℕ → List ℕ
range_text a low b c high d = a ++ (low ++ (b ++ b'-' ∷ (c ++ (high ++ d))))

skip_spaces-append :
    (a rest : List ℕ) → Holds is_space a → Stops is_space rest → skip_spaces (a ++ rest) ≡ rest
unfolding skip_spaces
skip_spaces-append a rest h s = ap (λ p. p.1) (span-append is_space a rest h s)

skip_spaces-all : (d : List ℕ) → Holds is_space d → skip_spaces d ≡ []
skip_spaces-all d h = ap skip_spaces (sym (append-nil d)) ∙ skip_spaces-append d [] h tt

match_high-text :
    (low c high d : List ℕ)
    → Holds is_space c
    → Holds is_space d
    → Holds is_number high
    → high ≢ []
    → match_dash low (b'-' ∷ (c ++ (high ++ d))) ≡ some (low, high)
unfolding match_dash match_high
match_high-text low c [] d hc hd hh nh = absurd (nh refl)
match_high-text low c (h ∷ high) d hc hd hh nh =
    let ends = Stops-none is_number d space-number hd in
    rw (skip_spaces-append c (h ∷ (high ++ d)) hc (number-space h hh.0))
      (rw (span-append is_number (h ∷ high) d hh ends) (rw (skip_spaces-all d hd, match_high) refl))

range_text-ne-nil : (a low b c high d : List ℕ) → low ≢ [] → range_text a low b c high d ≢ []
range_text-ne-nil [] [] b c high d ne e = absurd (ne refl)
range_text-ne-nil [] (l ∷ low) b c high d ne e = cc
range_text-ne-nil (x ∷ a) low b c high d ne e = cc

match_range-text :
    (a low b c high d : List ℕ)
    → Holds is_space a
    → Holds is_space b
    → Holds is_space c
    → Holds is_space d
    → Holds is_number low
    → Holds is_number high
    → low ≢ []
    → high ≢ []
    → match_range (range_text a low b c high d) ≡ some (low, high)
unfolding match_range match_low
match_range-text a [] b c high d ha hb hc hd hl hh nl nh = absurd (nl refl)
match_range-text a (l ∷ low) b c high d ha hb hc hd hl hh nl nh =
    let behind = b'-' ∷ (c ++ (high ++ d)) in
    let dash : Stops is_space behind = unfold is_space in refl in
    let ends = Stops-spaces is_number b behind space-number hb (unfold is_number in refl) in
    rw (skip_spaces-append a (l ∷ (low ++ (b ++ behind))) ha (number-space l hl.0)) (
      rw (span-append is_number (l ∷ low) (b ++ behind) hl ends)
        (rw (skip_spaces-append b behind hb dash) (match_high-text (l ∷ low) c high d hc hd hh nh)))

-- The number that digits spell behind `acc`.
abbrev pub spelled : ℕ → List ℕ → ℕ
spelled acc [] = acc
spelled acc (c ∷ cs) = spelled (acc * 10 + (c - b'0')) cs

-- a number with a point and digits behind it, or without, and what float() is to make of it
abbrev pub decimal_text : List ℕ → Option (List ℕ) → List ℕ
decimal_text whole none = whole
decimal_text whole (some fraction) = whole ++ b'.' ∷ fraction

abbrev pub decimal_value {ℓ} : (N : Type ℓ) ⦃r : Real N⦄ → List ℕ → Option (List ℕ) → N
decimal_value N ⦃r⦄ whole none = r.decimal (pos (spelled 0 whole)) 0
decimal_value N ⦃r⦄ whole (some fraction) =
    r.decimal (pos (spelled (spelled 0 whole) fraction)) (length fraction)

-- The digits behind the point are digits, where there is one.
abbrev pub HasDigits : Option (List ℕ) → Type 0
HasDigits none = Unit
HasDigits (some fraction) = Holds is_digit fraction

float_from-fraction :
    (acc k : ℕ) (any_digit : Bool) (fraction : List ℕ)
    → Holds is_digit fraction
    → any_digit ≡ true
    → float_from acc (some k) any_digit fraction ≡ some (spelled acc fraction, k + length fraction)
unfolding float_from
float_from-fraction acc k any_digit [] h p = rw p (ground arith)
float_from-fraction acc k any_digit (c ∷ cs) h p =
    ground (arith, h.0, float_from-fraction (acc * 10 + (c - b'0')) (k + 1) true cs h.1 refl)

float_from-whole :
    (acc : ℕ) (any_digit : Bool) (whole rest : List ℕ)
    → Holds is_digit whole
    → whole ≢ []
    → float_from acc none any_digit (whole ++ rest) ≡ float_from (spelled acc whole) none true rest
unfolding float_from
float_from-whole acc any_digit [] rest h ne = absurd (ne refl)
float_from-whole acc any_digit (c ∷ []) rest h ne = ground (arith, h.0)
float_from-whole acc any_digit (c ∷ d ∷ cs) rest h ne =
    ground (arith, h.0, float_from-whole (acc * 10 + (c - b'0')) true (d ∷ cs) rest h.1 (cc))

float_from-points :
    (acc k : ℕ) (any_digit : Bool) (x y : List ℕ)
    → float_from acc (some k) any_digit (x ++ b'.' ∷ y) ≡ none
unfolding float_from
float_from-points acc k any_digit [] y = refl
float_from-points acc k any_digit (c ∷ x) y =
    ground (arith, float_from-points (acc * 10 + (c - b'0')) (k + 1) true x y)

float_from-two_points :
    (acc : ℕ) (any_digit : Bool) (w x y : List ℕ)
    → float_from acc none any_digit (w ++ b'.' ∷ (x ++ b'.' ∷ y)) ≡ none
unfolding float_from
float_from-two_points acc any_digit [] x y = float_from-points acc 0 any_digit x y
float_from-two_points acc any_digit (c ∷ w) x y = ground (
  arith,
  float_from-two_points (acc * 10 + (c - b'0')) true w x y,
  float_from-points acc 0 any_digit w (x ++ b'.' ∷ y),
)

float_from-decimal :
    (whole fraction : List ℕ)
    → Holds is_digit whole
    → Holds is_digit fraction
    → whole ≢ []
    → float_from 0 none false (whole ++ b'.' ∷ fraction)
      ≡ some (spelled (spelled 0 whole) fraction, 0 + length fraction)
float_from-decimal whole fraction hw hf ne =
    float_from-whole 0 false whole (b'.' ∷ fraction) hw ne
    ∙ (unfold float_from in float_from-fraction (spelled 0 whole) 0 true fraction hf refl)

float_from-digits :
    (whole : List ℕ)
    → Holds is_digit whole
    → whole ≢ []
    → float_from 0 none false whole ≡ some (spelled 0 whole, 0)
float_from-digits whole hw ne =
    ap (float_from 0 none false) (sym (append-nil whole))
    ∙ float_from-whole 0 false whole [] hw ne
    ∙ (unfold float_from in refl)

digits-number : (cs : List ℕ) → Holds is_digit cs → Holds is_number cs
unfolding is_number
digits-number [] h = tt
digits-number (c ∷ cs) h = (rw h.0 refl, digits-number cs h.1)

with_point-number :
    (whole fraction : List ℕ)
    → Holds is_digit whole
    → Holds is_digit fraction
    → Holds is_number (whole ++ b'.' ∷ fraction)
unfolding is_number
with_point-number [] fraction hw hf = (refl, digits-number fraction hf)
with_point-number (c ∷ whole) fraction hw hf =
    (rw hw.0 refl, with_point-number whole fraction hw.1 hf)

decimal_text-number :
    (whole : List ℕ) (fraction : Option (List ℕ))
    → Holds is_digit whole
    → HasDigits fraction
    → Holds is_number (decimal_text whole fraction)
decimal_text-number whole none hw hf = digits-number whole hw
decimal_text-number whole (some fraction) hw hf = with_point-number whole fraction hw hf

with_point-ne-nil : (whole fraction : List ℕ) → whole ++ b'.' ∷ fraction ≢ []
with_point-ne-nil [] fraction h = cc
with_point-ne-nil (c ∷ whole) fraction h = cc

decimal_text-ne-nil :
    (whole : List ℕ) (fraction : Option (List ℕ)) → whole ≢ [] → decimal_text whole fraction ≢ []
decimal_text-ne-nil whole none ne = ne
decimal_text-ne-nil whole (some fraction) ne = with_point-ne-nil whole fraction

module _ {ℓ} {N : Type ℓ} ⦃r : Real N⦄ where
  parse_float-decimal :
      (whole : List ℕ) (fraction : Option (List ℕ))
      → Holds is_digit whole
      → HasDigits fraction
      → whole ≢ []
      → parse_float (decimal_text whole fraction) ≡ some (decimal_value N whole fraction)
  unfolding parse_float decimal_of
  parse_float-decimal whole none hw hf ne = ap decimal_of (float_from-digits whole hw ne)
  parse_float-decimal whole (some fraction) hw hf ne =
      ap decimal_of (float_from-decimal whole fraction hw hf ne)
      ∙ (let e : 0 + length fraction ≡ length fraction = omega arith in rw e)

  parse_float-two_points :
      (w x y : List ℕ) → parse_float {N = N} (w ++ b'.' ∷ (x ++ b'.' ∷ y)) ≡ none
  unfolding parse_float decimal_of
  parse_float-two_points w x y = ap decimal_of (float_from-two_points 0 false w x y)

  parse_interval-some :
      (cs : List ℕ) → cs ≢ [] → parse_interval {N = N} (some cs) ≡ groups (match_range cs)
  unfolding parse_interval
  parse_interval-some [] h = absurd (h refl)
  parse_interval-some (c ∷ cs) h = refl

  -- A text of the form of a range is read by its two numbers.
  module _ (a b c d : List ℕ) (ha : Holds is_space a) (hb : Holds is_space b)
      (hc : Holds is_space c) (hd : Holds is_space d) where
    parse_interval-text :
        (low high : List ℕ)
        → Holds is_number low
        → Holds is_number high
        → low ≢ []
        → high ≢ []
        → parse_interval {N = N} (some (range_text a low b c high d))
          ≡ range_of (parse_float low) (parse_float high)
    unfolding groups
    parse_interval-text low high hl hh nl nh =
        parse_interval-some (range_text a low b c high d) (range_text-ne-nil a low b c high d nl)
        ∙ ap groups (match_range-text a low b c high d ha hb hc hd hl hh nl nh)

    -- A range of two numbers, each of them digits with a point among or behind them or without one,
    -- is read as these two numbers if the lower one is above 0 and the other is no less, and as None otherwise, whatever white
    -- space there is.
    pub parse_interval-decimals :
        (whole whole' : List ℕ) (fraction fraction' : Option (List ℕ))
        → Holds is_digit whole
        → HasDigits fraction
        → Holds is_digit whole'
        → HasDigits fraction'
        → whole ≢ []
        → whole' ≢ []
        → let low = decimal_value N whole fraction in
          let high = decimal_value N whole' fraction' in
          parse_interval (
            some (range_text a (decimal_text whole fraction) b c (decimal_text whole' fraction') d))
          ≡ some (if is_unusable low high then none else some (low, high))
    parse_interval-decimals whole whole' fraction fraction' hw hf hw' hf' ne ne' =
        parse_interval-text (decimal_text whole fraction) (decimal_text whole' fraction')
          (decimal_text-number whole fraction hw hf) (decimal_text-number whole' fraction' hw' hf')
          (decimal_text-ne-nil whole fraction ne) (decimal_text-ne-nil whole' fraction' ne')
        ∙ rw
            (
              parse_float-decimal whole fraction hw hf ne,
              parse_float-decimal whole' fraction' hw' hf' ne',
            )
            (unfold range_of in refl)

    -- A range whose lower number has two points in it raises a ValueError.
    parse_interval-raises :
        (w x y high : List ℕ)
        → Holds is_number (w ++ b'.' ∷ (x ++ b'.' ∷ y))
        → Holds is_number high
        → high ≢ []
        → parse_interval {N = N} (some (range_text a (w ++ b'.' ∷ (x ++ b'.' ∷ y)) b c high d))
          ≡ none
    parse_interval-raises w x y high hl hh nh =
        parse_interval-text (w ++ b'.' ∷ (x ++ b'.' ∷ y)) high hl hh
          (with_point-ne-nil w (x ++ b'.' ∷ y)) nh
        ∙ rw (parse_float-two_points w x y) (unfold range_of in refl)
