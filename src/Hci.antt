-- ===== src/Hci.antt =====
-- hci.py: the configured connection interval, and the commands that ask the controller for it. Texts
-- are lists of code points, of which the digits and the white space are those of ASCII; what hcitool
-- does is an argument.
pub mod Interval
pub mod Handle
pub mod Listed
use solar_monitor.Prelude.{
  ℕ, ◌+◌, ◌*◌, ◌-◌, Bool, true, false, not, ◌&&◌, ◌||◌, Option, none, some, List, [], ◌∷◌, ◌++◌,
  leb, ◌==◌, if◌then◌else◌,
}
use solar_monitor.Prelude.Int.{ℤ, pos, eqb_ℤ}
use solar_monitor.Prelude.Text.{codes, is_infix}
use solar_monitor.Prelude.Words.{is_space, is_upper}
use solar_monitor.Numbers.{Num, Real, real_num}

abbrev pub is_digit : ℕ → Bool
is_digit c = leb b'0' c && leb c b'9'

-- [\d.]
unfoldable pub is_number : ℕ → Bool
is_number c = is_digit c || c == b'.'

-- The longest run of such characters in front, and the rest.
unfoldable pub span : (ℕ → Bool) → List ℕ → List ℕ × List ℕ
span test [] = ([], [])
span test (c ∷ cs) =
    let (run, rest) = span test cs in if test c then (c ∷ run, rest) else ([], c ∷ cs)

-- \s*
unfoldable pub skip_spaces : List ℕ → List ℕ
skip_spaces cs = (span is_space cs).1

-- the second number of a range and the end
unfoldable pub match_high : List ℕ → List ℕ × List ℕ → Option (List ℕ × List ℕ)
match_high low ([], rest) = none
match_high low (h ∷ high, rest) = elim (skip_spaces rest) [ [] ↦ some (low, h ∷ high) | _ ↦ none ]

unfoldable pub match_dash : List ℕ → List ℕ → Option (List ℕ × List ℕ)
match_dash low [] = none
match_dash low (c ∷ cs) =
    if c == b'-' then match_high low (span is_number (skip_spaces cs)) else none

unfoldable pub match_low : List ℕ × List ℕ → Option (List ℕ × List ℕ)
match_low ([], rest) = none
match_low (l ∷ low, rest) = match_dash (l ∷ low) (skip_spaces rest)

-- re.fullmatch(r"\s*([\d.]+)\s*-\s*([\d.]+)\s*", value), its two groups. Each part of the pattern
-- ends where the next one begins, so it takes the longest run.
unfoldable pub match_range : List ℕ → Option (List ℕ × List ℕ)
match_range cs = match_low (span is_number (skip_spaces cs))

-- float() of digits and points: the digits, and how many of them stand behind the point
unfoldable pub float_from : ℕ → Option ℕ → Bool → List ℕ → Option (ℕ × ℕ)
float_from acc places any_digit [] =
    if any_digit then some (acc, elim places [ none ↦ 0 | some k ↦ k ]) else none
float_from acc places any_digit (c ∷ cs) = elim (c == b'.') [
  | true ↦ elim places [ none ↦ float_from acc (some 0) any_digit cs | some k ↦ none ]
  | false ↦
      float_from (acc * 10 + (c - b'0')) (elim places [ none ↦ none | some k ↦ some (k + 1) ]) true
        cs
]

module _ {ℓ} {N : Type ℓ} ⦃r : Real N⦄ where
  open r use {num}

  unfoldable pub decimal_of : Option (ℕ × ℕ) → Option N
  decimal_of none = none
  decimal_of (some (m, places)) = some (r.decimal (pos m) places)

  -- none is a ValueError
  unfoldable pub parse_float : List ℕ → Option N
  parse_float cs = decimal_of (float_from 0 none false cs)

  -- Is the range refused?
  unfoldable pub is_unusable : N → N → Bool
  is_unusable low high = num.le low (num.of_int (pos 0)) || num.lt high low

  unfoldable pub range_of : Option N → Option N → Option (Option (N × N))
  range_of none high = none
  range_of (some low) none = none
  range_of (some low) (some high) = some (if is_unusable low high then none else some (low, high))

  unfoldable pub groups : Option (List ℕ × List ℕ) → Option (Option (N × N))
  groups none = some none
  groups (some (low, high)) = range_of (parse_float low) (parse_float high)

  -- parse_interval: none is a ValueError of float(), some none is None
  unfoldable pub parse_interval : Option (List ℕ) → Option (Option (N × N))
  parse_interval none = some none
  parse_interval (some []) = some none
  parse_interval (some (c ∷ cs)) = groups (match_range (c ∷ cs))

  -- round(ms * UNITS_PER_MS)
  unfoldable pub units : N → ℤ
  units ms = r.truncate (r.round_to (num.mul ms (r.decimal (pos 8) 1)) 0)

-- A letter as it is compared where case is ignored.
unfoldable pub fold : ℕ → ℕ
fold c = if is_upper c then c + 32 else c

-- What follows on a text that stands in front, case ignored.
unfoldable pub strip_front : List ℕ → List ℕ → Option (List ℕ)
strip_front [] cs = some cs
strip_front (p ∷ ps) [] = none
strip_front (p ∷ ps) (c ∷ cs) =
    let rest = strip_front ps cs in if fold p == fold c then rest else none

abbrev pub handle_word : List ℕ
handle_word = codes "handle "

-- the digits behind the word, if there is one
abbrev pub some_digits : List ℕ × List ℕ → Option (List ℕ)
some_digits ([], rest) = none
some_digits (d ∷ digits, rest) = some (d ∷ digits)

abbrev pub digits_behind : Option (List ℕ) → Option (List ℕ)
digits_behind none = none
digits_behind (some rest) = some_digits (span is_digit rest)

unfoldable pub handle_at : List ℕ → Option (List ℕ)
handle_at cs = digits_behind (strip_front handle_word cs)

abbrev pub or_later : Option (List ℕ) → Option (List ℕ) → Option (List ℕ)
or_later none later = later
or_later (some digits) later = some digits

-- .*?handle (\d+): the first on the line
unfoldable pub find_handle : List ℕ → Option (List ℕ)
find_handle [] = none
find_handle (c ∷ cs) =
    let later = find_handle cs in or_later (handle_at (c ∷ cs)) (if c == b'\n' then none else later)

-- The address in front, and a handle behind it.
abbrev pub handle_behind : Option (List ℕ) → Option (List ℕ)
handle_behind none = none
handle_behind (some rest) = find_handle rest

unfoldable pub device_at : List ℕ → List ℕ → Option (List ℕ)
device_at mac cs = handle_behind (strip_front mac cs)

-- pattern.search(text), its group
unfoldable pub search_device : List ℕ → List ℕ → Option (List ℕ)
search_device mac [] = device_at mac []
search_device mac (c ∷ cs) =
    let later = search_device mac cs in or_later (device_at mac (c ∷ cs)) later

-- What a run of hcitool gives.
pub data Ran : Type 0 where
  completed : ℤ → List ℕ → List ℕ → Ran
  raised : Ran

unfoldable pub connection_handle : List ℕ → Ran → Option (List ℕ)
connection_handle mac (completed code stdout stderr) = search_device mac stdout
connection_handle mac raised = none

-- the command, by its handle and the two units
pub data Command : Type 0 where
  con : Command
  lecup : List ℕ → ℤ → ℤ → Command

unfoldable pub is_accepted : Ran → Bool
unfolding is_infix
is_accepted (completed code stdout stderr) =
    let output = stdout ++ stderr in
    eqb_ℤ code (pos 0)
    && not
        (is_infix (codes "Operation not permitted") output || is_infix (codes "Could not") output)
is_accepted raised = false

module _ {ℓ} {N : Type ℓ} ⦃r : Real N⦄ where
  -- the commands that are run, and what it returns, by what the two runs give
  unfoldable pub set_connection_interval : Ran → Ran → List ℕ → N → N → List Command × Bool
  set_connection_interval listed updated mac min_ms max_ms = elim (connection_handle mac listed) [
    | none ↦ (con ∷ [], false)
    | some handle ↦ (con ∷ lecup handle (units min_ms) (units max_ms) ∷ [], is_accepted updated)
  ]

  -- ble.py, _assert_connection_interval, for the interval that parse_interval gave
  unfoldable pub assert_connection_interval : Ran → Ran → List ℕ → Option (N × N) → List Command
  assert_connection_interval listed updated mac none = []
  assert_connection_interval listed updated mac (some (low, high)) =
      (set_connection_interval listed updated mac low high).0
