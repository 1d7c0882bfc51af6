-- ===== src/Connection.antt =====
-- connection.py: the delay before a reconnection, and the write that is tried again.
use solar_monitor.Prelude.{
  ℕ, zero, suc, ◌+◌, ◌-◌, ◌^◌, ◌≤◌, ◌<◌, min, max, ◌≡◌, refl, ap, ◌∙◌, Bool, true, false, Option,
  none, some, List, [], ◌∷◌, arith, ltb, ltb→lt, if◌then◌else◌, Bool-cases, inl, inr, ◌⊎◌,
}
use solar_monitor.Prelude.Int.{ℤ, pos, pos_part}
use solar_monitor.Numbers.{Num}

abbrev pub max_backoff_exp : ℕ
max_backoff_exp = 30

-- min(max(attempt, 1), _MAX_BACKOFF_EXP), less one
unfoldable pub exponent : ℤ → ℕ
exponent attempt = min (max (pos_part attempt) 1) max_backoff_exp - 1

module _ {ℓ} {N : Type ℓ} ⦃n : Num N⦄ where
  -- Python's min and max of two numbers keep the first where neither is smaller.
  abbrev pub py_min : N → N → N
  py_min a b = if n.lt b a then b else a

  abbrev pub py_max : N → N → N
  py_max a b = if n.lt a b then b else a

  unfoldable pub backoff_delay : ℤ → N → N → N
  unfolding exponent
  backoff_delay attempt base maximum =
      py_min (n.mul base (n.of_int (pos (2 ^ exponent attempt)))) maximum

  -- `rand` is random.uniform or the function that a test gives.
  unfoldable pub backoff_seconds : ℤ → N → N → N → (N → N → N) → N
  unfolding backoff_delay
  backoff_seconds attempt base maximum jitter rand =
      py_max
        (n.add (backoff_delay attempt base maximum) (rand (n.sub (n.of_int (pos 0)) jitter) jitter))
        (n.of_int (pos 0))

  -- A delay is never below zero, whatever the random number, where `<` is asymmetric.
  backoff_seconds-nonneg :
      ((a b : N) → n.lt a b ≡ true → n.lt b a ≡ false)
      → (attempt : ℤ) (base maximum jitter : N) (rand : N → N → N)
      → n.lt (backoff_seconds attempt base maximum jitter rand) (n.of_int (pos 0)) ≡ false
  unfolding backoff_seconds
  backoff_seconds-nonneg asym attempt base maximum jitter rand =
      let nought = n.of_int (pos 0) in
      let delay = n.add (backoff_delay attempt base maximum) (rand (n.sub nought jitter) jitter) in
      let irrefl : (a : N) → n.lt a a ≡ false =
        λ a. elim (Bool-cases (n.lt a a)) [ inl p ↦ asym a a p | inr p ↦ p ] in
      elim (Bool-cases (n.lt delay nought)) [ inl p ↦ rw p (irrefl nought) | inr p ↦ rw (p, p) ]

-- What happens in the loop of write_with_retry.
pub data Event : Type 0 where
  written failed slept : Event

-- The loop from an attempt on, with the number of rounds left. Whether the write of an attempt
-- raises is the device's affair.
unfoldable pub write_from : (ℕ → Bool) → ℕ → ℕ → ℕ → Bool × List Event
write_from accepts zero attempt attempts = (false, [])
write_from accepts (suc rounds) attempt attempts =
    let rest = write_from accepts rounds (attempt + 1) attempts in
    if accepts attempt
    then (true, written ∷ [])
    else if ltb attempt attempts
    then (rest.0, failed ∷ slept ∷ rest.1)
    else (rest.0, failed ∷ rest.1)

unfoldable pub write_with_retry : (ℕ → Bool) → ℕ → Bool × List Event
unfolding write_from
write_with_retry accepts attempts = write_from accepts attempts 1 attempts

-- the number of writes in a run
unfoldable pub writes : List Event → ℕ
writes [] = 0
writes (slept ∷ es) = writes es
writes (_ ∷ es) = suc (writes es)

unfoldable pub sleeps : List Event → ℕ
sleeps [] = 0
sleeps (slept ∷ es) = suc (sleeps es)
sleeps (_ ∷ es) = sleeps es

-- the first attempt from k on that is accepted, within so many
unfoldable pub first_accepted : (ℕ → Bool) → ℕ → ℕ → Option ℕ
first_accepted accepts zero k = none
first_accepted accepts (suc rounds) k =
    let rest = first_accepted accepts rounds (k + 1) in if accepts k then some k else rest

-- The writes that it takes from a start on.
abbrev pub writes_until : ℕ → ℕ → Option ℕ → ℕ
writes_until start attempts (some k) = k + 1 - start
writes_until start attempts none = attempts + 1 - start

abbrev pub is_accepted : Option ℕ → Bool
is_accepted (some k) = true
is_accepted none = false

first_accepted-le :
    (accepts : ℕ → Bool) (rounds k : ℕ)
    → (first_accepted accepts rounds k ≡ none)
      ⊎ ((j : ℕ) × (first_accepted accepts rounds k ≡ some j) × (k ≤ j))
unfolding first_accepted
first_accepted-le accepts zero k = inl refl
first_accepted-le accepts (suc rounds) k = elim (Bool-cases (accepts k)) [
  | inl p ↦ inr (k, rw p, omega arith)
  | inr p ↦ elim (first_accepted-le accepts rounds (k + 1)) [
    | inl q ↦ inl (rw (p, q))
    | inr (j, q, h) ↦ inr (j, rw (p, q), omega arith)
  ]
]

-- The writes before the first accepted one, from one attempt earlier.
writes_until-suc :
    (accepts : ℕ → Bool) (rounds attempt attempts : ℕ)
    → attempt ≤ attempts
    → let o = first_accepted accepts rounds (attempt + 1) in
      suc (writes_until (attempt + 1) attempts o) ≡ writes_until attempt attempts o
writes_until-suc accepts rounds attempt attempts h =
    elim (first_accepted-le accepts rounds (attempt + 1)) [
      | inl p ↦ rw p (omega arith)
      | inr (j, p, le) ↦ rw p (omega arith)
    ]

writes_until-pos :
    (accepts : ℕ → Bool) (rounds attempt attempts : ℕ)
    → attempt ≤ attempts
    → 1 ≤ writes_until attempt attempts (first_accepted accepts rounds attempt)
writes_until-pos accepts rounds attempt attempts h =
    elim (first_accepted-le accepts rounds attempt) [
      | inl p ↦ rw p (omega arith)
      | inr (j, p, le) ↦ rw p (omega arith)
    ]

write_from-lem :
    (accepts : ℕ → Bool) (rounds attempt attempts : ℕ)
    → attempt + rounds ≡ attempts + 1
    → let run = write_from accepts rounds attempt attempts in
      let o = first_accepted accepts rounds attempt in
      (run.0 ≡ is_accepted o)
      × (writes run.1 ≡ writes_until attempt attempts o)
      × (sleeps run.1 ≡ writes run.1 - 1)
unfolding write_from writes sleeps first_accepted
write_from-lem accepts zero attempt attempts h = (refl, omega arith, refl)
write_from-lem accepts (suc rounds) attempt attempts h = elim (Bool-cases (accepts attempt)) [
  | inl p ↦ rw p (refl, omega arith, refl)
  | inr p ↦
      let ih = write_from-lem accepts rounds (attempt + 1) attempts (omega arith) in
      let step = writes_until-suc accepts rounds attempt attempts in
      let some_left : attempt < attempts
          → 1 ≤ writes (write_from accepts rounds (attempt + 1) attempts).1 =
        λ lt. omega (
          arith,
          ih.1,
          writes_until-pos accepts rounds (attempt + 1) attempts (omega (arith, lt)),
        ) in
      let none_left : ltb attempt attempts ≡ false → rounds ≡ 0 = λ q. ground arith in
      rw p (elim (Bool-cases (ltb attempt attempts)) [
        | inl q ↦ rw q (
          ih.0,
          ap suc ih.1 ∙ step (omega (arith, ltb→lt attempt attempts q)),
          omega (arith, ih.1, ih.2, some_left (ltb→lt attempt attempts q)),
        )
        | inr q ↦ rw q (ih.0, ap suc ih.1 ∙ step (omega arith), rw (none_left q) refl)
      ])
]

-- A command is written until a write is accepted, and at most `attempts` times: the result says
-- whether one was, the writes stop at the first accepted one, and a pause stands between two writes.
pub write_with_retry-first :
    (accepts : ℕ → Bool) (attempts : ℕ)
    → let run = write_with_retry accepts attempts in
      let o = first_accepted accepts attempts 1 in
      (run.0 ≡ is_accepted o)
      × (writes run.1 ≡ writes_until 1 attempts o)
      × (sleeps run.1 ≡ writes run.1 - 1)
unfolding write_with_retry
write_with_retry-first accepts attempts = write_from-lem accepts attempts 1 attempts (omega arith)
