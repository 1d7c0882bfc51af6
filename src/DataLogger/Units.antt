-- ===== src/DataLogger/Units.antt =====
-- datalogger.py: the units of the readings of a battery, as Home Assistant is told them.
use solar_monitor.Prelude.{
  ◌≡◌, ◌≢◌, refl, ap, sym, ◌∙◌, String, true, false, Option, some, ◌++◌, Bool-cases, inl, inr,
  reverse, arith, str_eq,
}
use mathlib.Core.List.{reverse-append}
use text.Mathlib.TextLemmas.{append_assoc}
use solar_monitor.Prelude.Dict.{lookup}
use solar_monitor.Prelude.Text.{
  ◌+s◌, codes, codes-append, str_eq-ne, contains, ends_with, ends_with-suffix,
}
use solar_monitor.DataLogger.Configs.{Json, word, Naming, sensor_class, sensor_fields}

-- the unit in a sensor's config
abbrev unit_of : Naming → String → String → Option Json
unit_of n device var = lookup "unit_of_measurement" (sensor_fields n device var)

unit-class :
    (n : Naming) (device var : String)
    → unit_of n device var ≡ lookup "unit_of_measurement" (sensor_class device var)
unfolding lookup sensor_fields
unit-class n device var = refl

-- A text that ends with "_voltage" does not end with "_state".
not_state : (s : String) → ends_with (s +s "_voltage") "_state" ≡ false
not_state s = elim (Bool-cases (ends_with (s +s "_voltage") "_state")) [
  | inl p ↦
      let (front, e) = ends_with-suffix (s +s "_voltage") "_state" p in
      let same : codes s ++ codes "_voltage" ≡ codes front ++ codes "_state" =
        sym (codes-append s "_voltage") ∙ ap codes e ∙ codes-append front "_state" in
      let back : reverse (codes "_voltage") ++ reverse (codes s)
          ≡ reverse (codes "_state") ++ reverse (codes front) =
        sym (reverse-append (codes s) (codes "_voltage"))
        ∙ ap reverse same
        ∙ reverse-append (codes front) (codes "_state") in
      absurd (ground (arith, back))
  | inr p ↦ p
]

-- the variable of a cell's voltage
abbrev cell_voltage_var : String → String
cell_voltage_var k = "cell_" +s k +s "_voltage"

cell_codes : (k : String) → codes (cell_voltage_var k) ≡ codes "cell_" ++ codes (k +s "_voltage")
cell_codes k = codes-append "cell_" (k +s "_voltage")

module _ (k : String) where
  other_var :
      (t : String)
      → (codes "cell_" ++ codes (k +s "_voltage")) ≢ codes t
      → str_eq (cell_voltage_var k) t ≡ false
  other_var t ne = str_eq-ne (cell_voltage_var k) t (λ e. ne (sym (cell_codes k) ∙ e))

  has_cell : contains (cell_voltage_var k) "cell" ≡ true
  unfolding contains
  has_cell = rw (cell_codes k) refl

  not_state_var : ends_with (cell_voltage_var k) "_state" ≡ false
  not_state_var =
      ap (λ s. ends_with s "_state") (sym (append_assoc "cell_" k "_voltage"))
      ∙ not_state ("cell_" +s k)

  class_cell :
      (device : String)
      → contains device "battery" ≡ true
      → lookup "unit_of_measurement" (sensor_class device (cell_voltage_var k)) ≡ some (word "mV")
  unfolding sensor_class lookup
  class_cell device battery =
      rw
        (
          other_var "temperature" (λ e. ground arith),
          other_var "soc" (λ e. ground arith),
          other_var "power" (λ e. ground arith),
          other_var "charge_power" (λ e. ground arith),
          other_var "input_power" (λ e. ground arith),
          other_var "voltage" (λ e. ground arith),
          other_var "charge_voltage" (λ e. ground arith),
          other_var "input_voltage" (λ e. ground arith),
          other_var "current" (λ e. ground arith),
          other_var "charge_current" (λ e. ground arith),
          other_var "input_current" (λ e. ground arith),
          other_var "charge_cycles" (λ e. ground arith),
          other_var "health" (λ e. ground arith),
          has_cell,
          not_state_var,
          battery,
        )
        refl

-- The temperature of a battery is announced in degrees Celsius, its charge in percent, its power,
-- voltage and current in W, V and A, and the voltage of a cell, `cell_<k>_voltage`, in mV, which is
-- not the unit that it has on the queue.
unit_of-battery :
    (n : Naming) (device k : String)
    → contains device "battery" ≡ true
    → (unit_of n device "temperature" ≡ some (word "°C"))
      × (unit_of n device "soc" ≡ some (word "%"))
      × (unit_of n device "power" ≡ some (word "W"))
      × (unit_of n device "voltage" ≡ some (word "V"))
      × (unit_of n device "current" ≡ some (word "A"))
      × (unit_of n device (cell_voltage_var k) ≡ some (word "mV"))
unfolding sensor_class lookup
unit_of-battery n device k battery = (
  unit-class n device "temperature",
  unit-class n device "soc",
  unit-class n device "power",
  unit-class n device "voltage",
  unit-class n device "current",
  unit-class n device (cell_voltage_var k) ∙ class_cell k device battery,
)
