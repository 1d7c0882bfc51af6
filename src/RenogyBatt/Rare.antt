-- ===== src/RenogyBatt/Rare.antt =====
-- plugins/RenogyBatt: how often the capacity is set from the voltage.
use solar_monitor.Prelude.{
  ℕ, ◌+◌, ◌*◌, ◌≤◌, ◌<◌, ◌≡◌, refl, Bool, true, false, List, [], ◌∷◌, ltb, arith, Bool-cases, inl,
  inr, ◌⊎◌,
}
use solar_monitor.Prelude.Int.{pos}
use solar_monitor.Numbers.{Real, real_num}
use solar_monitor.Device.Entities.{Entities}
use solar_monitor.Device.Setters.{exp_capacity, voltage}
use solar_monitor.Device.Getters.{getter}
use solar_monitor.RenogyBatt.Capacity.{Util, settle, resync, is_calm, voltage_to_capacity}

abbrev one_if : Bool → ℕ
one_if true = 1
one_if false = 0

-- what a call of voltageToCapacity finds: the device's readings, and the capacity of the battery
abbrev pub Found {ℓ} : Type ℓ → Type ℓ
Found N = Entities N × N

module _ {ℓ} {N : Type ℓ} ⦃r : Real N⦄ where
  open r use {num}

  -- The attributes of a call: the counter is the one that the call before it left.
  abbrev pub before : Found N → ℕ → Util N → Util N
  before (entities, max_capacity) count u = record u {
    entities = entities;
    max_capacity = max_capacity;
    volt_change_count = count;
  }

  -- Nothing is known of the capacity yet.
  abbrev pub is_unknown : Found N → Bool
  is_unknown (entities, max_capacity) = num.eq (getter exp_capacity entities) (num.of_int (pos 0))

  -- the counter behind the calls
  unfoldable pub count_after : Util N → List (Found N) → ℕ → ℕ
  count_after u [] count = count
  count_after u (f ∷ later) count =
      count_after u later (voltage_to_capacity (before f count u)).volt_change_count

  -- the calls with a current of 1.4 A at most
  unfoldable pub calm_calls : List (Found N) → ℕ
  calm_calls [] = 0
  calm_calls (f ∷ later) = calm_calls later + one_if (is_calm f.0)

  -- So many calls at most change a capacity that is known: every other one leaves all readings as
  -- they are, or finds a capacity of 0.
  pub data Changes (u : Util N) : List (Found N) → ℕ → ℕ → Type ℓ where
    none_left : {count : ℕ} → Changes u [] count 0
    left_alone :
        {f : Found N} {later : List (Found N)} {count k : ℕ}
        → ((voltage_to_capacity (before f count u)).entities ≡ f.0) ⊎ (is_unknown f ≡ true)
        → Changes u later (voltage_to_capacity (before f count u)).volt_change_count k
        → Changes u (f ∷ later) count k
    changed :
        {f : Found N} {later : List (Found N)} {count k : ℕ}
        → Changes u later (voltage_to_capacity (before f count u)).volt_change_count k
        → Changes u (f ∷ later) count (k + 1)

  resync-count : (u : Util N) → (resync u).volt_change_count ≡ u.volt_change_count
  unfolding resync
  resync-count u = ground arith

  -- What a call does that finds such readings and such a counter, by what it leaves: whether it may
  -- set a known capacity, and what the counter pays for it.
  abbrev IsPaid : Found N → ℕ → Util N → Bool → Type ℓ
  IsPaid f count after sets =
      (sets ≡ false → (after.entities ≡ f.0) ⊎ (is_unknown f ≡ true))
      × (after.volt_change_count < 300)
      × (300 * one_if sets + after.volt_change_count ≤ one_if (is_calm f.0) + count)

  call :
      (u : Util N) (f : Found N) (count : ℕ)
      → count < 300
      → (sets : Bool) × IsPaid f count (voltage_to_capacity (before f count u)) sets
  unfolding voltage_to_capacity settle
  call u (entities, max_capacity) count h =
      let nought = num.of_int (pos 0) in
      let f : Found N = (entities, max_capacity) in
      elim (Bool-cases (num.eq (getter voltage entities) nought)) [
        | inl p ↦ (false, rw p (λ e. inl refl, h, omega arith))
        | inr p ↦ elim (Bool-cases (num.eq max_capacity nought)) [
          | inl q ↦ (false, rw (p, q) (λ e. inl refl, h, omega arith))
          | inr q ↦ elim (Bool-cases (is_unknown f)) [
            | inl x ↦ (
              false,
              rw (p, q, x)
                  (
                    λ e. inr refl,
                    rw (resync-count (before f count u)) h,
                    rw (resync-count (before f count u)) (omega arith),
                  ),
            )
            | inr x ↦ elim (Bool-cases (is_calm entities)) [
              | inl c ↦ elim (Bool-cases (ltb (count + 1) 300)) [
                | inl l ↦ (false, rw (p, q, x, c, l) (λ e. inl refl, ground arith, omega arith))
                | inr l ↦
                    let full : 299 ≤ count = ground arith in
                    let reset = resync-count (before f 0 u) in
                    (
                      true,
                      rw (p, q, x, c, l)
                          (λ e. cc, rw reset (omega arith), rw reset (omega (arith, full))),
                    )
              ]
              | inr c ↦ elim (Bool-cases (ltb 0 count)) [
                | inl l ↦ (false, rw (p, q, x, c, l) (λ e. inl refl, omega arith, omega arith))
                | inr l ↦ (false, rw (p, q, x, c, l) (λ e. inl refl, h, omega arith))
              ]
            ]
          ]
        ]
      ]

  -- Over any sequence of calls, which finds any readings and capacities, a capacity that is known is
  -- set from the voltage at most once in 300 calls with a current of at most 1.4 A, however these
  -- calls and others alternate; the counter makes up for the rest and stays below 300. A call that
  -- does not count as one that sets it leaves all readings as they are, or finds a capacity of 0.
  pub voltage_to_capacity-rare :
      (u : Util N) (calls : List (Found N)) (count : ℕ)
      → count < 300
      → (k : ℕ) × Changes u calls count k
        × (count_after u calls count < 300)
        × (300 * k + count_after u calls count ≤ calm_calls calls + count)
  unfolding count_after calm_calls
  voltage_to_capacity-rare u [] count h = (0, none_left, h, omega arith)
  voltage_to_capacity-rare u (f ∷ later) count h =
      let (sets, facts) = call u f count h in
      let (k, changes, below, le) =
        voltage_to_capacity-rare u later (voltage_to_capacity (before f count u)).volt_change_count
          facts.1 in
      elim (Bool-cases sets) [
        | inl p ↦ (k + 1, changed changes, below, omega (arith, le, rw p at facts.2))
        | inr p ↦ (k, left_alone (facts.0 p) changes, below, omega (arith, le, rw p at facts.2))
      ]
