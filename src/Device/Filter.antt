-- ===== src/Device/Filter.antt =====
-- What PowerDevice.validate lets through, over every sequence of readings.
use solar_monitor.Prelude.{
  ℕ, ◌≤◌, ◌≡◌, ◌⊎◌, inl, refl, ap, ◌∙◌, true, false, Option, none, some, List, [], ◌∷◌, arith,
}
use solar_monitor.Numbers.{Num}
use solar_monitor.Device.Definition.{Definition, validate, validate_all, is_far, is_consistent}

module _ {ℓ} {N : Type ℓ} ⦃n : Num N⦄ where
  -- neither above the maximum nor below the minimum
  abbrev pub InBand : N → Definition N → Type 0
  InBand val d = (n.lt d.max val ≡ false) × (n.lt val d.min ≡ false)

  -- the limits of two definitions are the same
  abbrev pub SameLimits : Definition N → Definition N → Type ℓ
  SameLimits e d = (e.min ≡ d.min) × (e.max ≡ d.max) × (e.maxdiff ≡ d.maxdiff)

  pub validate-SameLimits : (x : N) (d : Definition N) → SameLimits (validate x d).0 d
  unfolding validate
  validate-SameLimits x d = ground arith

  pub validate-val :
      (x : N) (d : Definition N)
      → ((validate x d).0.val ≡ d.val)
        ⊎ (((validate x d).0.val ≡ n.to_float x) × InBand (n.to_float x) d)
  unfolding validate
  validate-val x d = ground arith

  validate-rejected : (x : N) (d : Definition N) → d.rejected ≤ 2 → (validate x d).0.rejected ≤ 2
  unfolding validate
  validate-rejected x d h = ground arith

  -- Whatever the readings, the stored value is the one that was there at first or lies within the
  -- limits, the limits stay as they are, and never more than two rejected readings are counted.
  pub validate_all-bounded :
      (xs : List N) (d : Definition N)
      → d.rejected ≤ 2
      → (((validate_all xs d).val ≡ d.val) ⊎ InBand (validate_all xs d).val d)
        × SameLimits (validate_all xs d) d
        × ((validate_all xs d).rejected ≤ 2)
  unfolding validate_all
  validate_all-bounded [] d h = (inl refl, (refl, refl, refl), h)
  validate_all-bounded (x ∷ xs) d h = ground (
    arith,
    validate-SameLimits x d,
    validate-val x d,
    validate-rejected x d h,
    validate_all-bounded xs (validate x d).0,
  )

  -- a reading within the limits that differs from the stored value by more than `maxdiff`
  abbrev pub Suspicious : N → Definition N → Type 0
  Suspicious val d = (n.eq val d.val ≡ false) × InBand val d × (is_far val d ≡ true)

  -- Of three readings in a row that are too far from the stored value but near each other, the first
  -- two are rejected and the third is stored, if no rejected reading came before them.
  validate_third :
      (a b c : N) (d : Definition N)
      → d.rejected_val ≡ none
      → Suspicious (n.to_float a) d
      → Suspicious (n.to_float b) d
      → Suspicious (n.to_float c) d
      → is_consistent (n.to_float b) d (some (n.to_float a)) ≡ true
      → is_consistent (n.to_float c) d (some (n.to_float b)) ≡ true
      → ((validate_all (a ∷ b ∷ []) d).val ≡ d.val)
        × ((validate_all (a ∷ b ∷ c ∷ []) d).val ≡ n.to_float c)
  unfolding validate_all validate
  validate_third a b c d fresh ha hb hc ab bc = ground arith

  -- Each reading is too far from the stored value, and from the rejected reading before it.
  abbrev pub Scattered : Definition N → Option N → List N → Type 0
  Scattered d previous [] = Unit
  Scattered d previous (x ∷ xs) =
      Suspicious (n.to_float x) d
      × (is_consistent (n.to_float x) d previous ≡ false)
      × Scattered d (some (n.to_float x)) xs

  Scattered-rejected :
      (d : Definition N) (previous : Option N) (r : ℕ) (v : Option N) (xs : List N)
      → Scattered d previous xs
      → Scattered (record d { rejected = r; rejected_val = v }) previous xs
  unfolding is_far is_consistent
  Scattered-rejected d previous r v [] h = tt
  Scattered-rejected d none r v (x ∷ xs) h =
      (h.0, h.1, Scattered-rejected d (some (n.to_float x)) r v xs h.2)
  Scattered-rejected d (some p) r v (x ∷ xs) h =
      (h.0, h.1, Scattered-rejected d (some (n.to_float x)) r v xs h.2)

  validate_scattered :
      (x : N) (d : Definition N)
      → Suspicious (n.to_float x) d
      → is_consistent (n.to_float x) d d.rejected_val ≡ false
      → (validate x d).0 ≡ record d { rejected = 1; rejected_val = some (n.to_float x) }
  unfolding validate
  validate_scattered x d h i = ground arith

  -- Noise never gets through: as long as each reading is within the limits, further from the stored
  -- value, which is not that of a fresh device, than a reading may be, and not near the rejected
  -- reading before it, none is stored.
  pub validate_all-noise :
      (xs : List N) (d : Definition N)
      → Scattered d d.rejected_val xs
      → (validate_all xs d).val ≡ d.val
  unfolding validate_all
  validate_all-noise [] d h = refl
  validate_all-noise (x ∷ xs) d h =
      ap (λ (e : Definition N). (validate_all xs e).val) (validate_scattered x d h.0 h.1)
      ∙ validate_all-noise xs (record d { rejected = 1; rejected_val = some (n.to_float x) })
          (Scattered-rejected d (some (n.to_float x)) 1 (some (n.to_float x)) xs h.2)

  -- A value within the limits that the device keeps reporting is stored after three readings at
  -- most, whatever was stored or rejected before: no reading latches the quantity for ever.
  pub validate_all-believes :
      (x : N) (d : Definition N)
      → InBand (n.to_float x) d
      → n.eq (n.to_float x) (n.to_float x) ≡ true
      → is_consistent (n.to_float x) d (some (n.to_float x)) ≡ true
      → n.eq (n.to_float x) (validate_all (x ∷ x ∷ x ∷ []) d).val ≡ true
  unfolding validate_all validate
  validate_all-believes x d band same near = ground arith
