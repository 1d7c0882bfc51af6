-- ===== src/Tests/Devices.antt =====
-- solardevice.py at concrete inputs.
use solar_monitor.Prelude.{◌≤◌, ◌≡◌, refl, ◌⊎◌, true, none, some, List, [], ◌∷◌, String, arith}
use solar_monitor.Prelude.Dict.{lookup}
use solar_monitor.Prelude.Int.{ℤ, pos, negsuc, ◌-ℤ◌, abs_ℤ}
use solar_monitor.Numbers.{int_num, real_num}
use solar_monitor.Device.Definition.{Definition, validate_all, is_far, is_consistent}
use solar_monitor.Device.Filter.{
  InBand, SameLimits, validate_all-bounded, validate_all-noise, validate_all-believes,
}
use solar_monitor.Device.Entities.{Entities, battery_definitions, new_entities, battery}
use solar_monitor.Device.Setters.{Attribute, mvoltage, current, store_all}
use solar_monitor.Device.Settled.{store_all-AllWithin}
use solar_monitor.Tests.Milli.{Milli, milli_real}

-- a battery of 13.2 V, whose voltage may move by 200 mV at a time
abbrev voltage : Definition ℤ
voltage = record {
  val = pos 13200;
  min = pos 10000;
  max = pos 15000;
  maxdiff = pos 200;
  rejected = 0;
  rejected_val = none;
}

validate_all-bounded_example :
    let after = validate_all (pos 9000 ∷ pos 13300 ∷ pos 70000 ∷ []) voltage in
    ((after.val ≡ voltage.val) ⊎ InBand after.val voltage)
    × SameLimits after voltage
    × (after.rejected ≤ 2)
validate_all-bounded_example =
    validate_all-bounded (pos 9000 ∷ pos 13300 ∷ pos 70000 ∷ []) voltage (omega arith)

validate_all-noise_example :
    (validate_all (pos 14000 ∷ pos 11000 ∷ pos 14500 ∷ []) voltage).val ≡ voltage.val
unfolding is_far is_consistent ◌-ℤ◌ abs_ℤ
validate_all-noise_example = validate_all-noise (pos 14000 ∷ pos 11000 ∷ pos 14500 ∷ []) voltage (
  (refl, (refl, refl), refl),
  refl,
  ((refl, (refl, refl), refl), refl, ((refl, (refl, refl), refl), refl, tt)),
)

validate_all-believes_example :
    int_num.eq (pos 14000) (validate_all (pos 14000 ∷ pos 14000 ∷ pos 14000 ∷ []) voltage).val
    ≡ true
unfolding is_consistent ◌-ℤ◌ abs_ℤ
validate_all-believes_example = validate_all-believes (pos 14000) voltage (refl, refl) refl refl

abbrev milli : ℤ → Milli
milli z = record { raw = z }

abbrev readings : List (Attribute × Milli)
readings = (mvoltage, milli (pos 13200000)) ∷ (current, milli (negsuc 4999)) ∷ []

store_all-AllWithin_example :
    (e : Entities Milli) × (store_all readings (new_entities battery) ≡ some e)
    × ((var : String) (d : Definition Milli)
        → lookup var e.definitions ≡ some d
        → (first : Definition Milli) × (lookup var battery_definitions ≡ some first)
          × SameLimits d first
          × ((d.val ≡ first.val) ⊎ InBand d.val first))
store_all-AllWithin_example = store_all-AllWithin readings
