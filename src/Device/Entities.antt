-- ===== src/Device/Entities.antt =====
-- solardevice.py: PowerDevice and its subclasses, as the dictionary of their definitions. A class
-- sets its definitions in the order of its constructor; a subclass first runs its parent's.
use solar_monitor.Prelude.{ℕ, String, Option, none, List, [], ◌∷◌, replicate, if◌then◌else◌}
use solar_monitor.Prelude.Dict.{insert}
use solar_monitor.Prelude.Int.{ℤ, pos, negsuc}
use solar_monitor.Prelude.Text.{contains}
use solar_monitor.Numbers.{Num}
use solar_monitor.Device.Definition.{Definition}

pub data Kind : Type 0 where
  power inverter rectifier regulator battery : Kind

pub data State : Type 0 where
  charging discharging standby : State

pub data Health : Type 0 where
  good perfect : Health

pub record Entities {ℓ} (N : Type ℓ) : Type ℓ where
  pub kind : Kind
  pub definitions : List (String × Definition N)
  pub cells : List (Definition N)  -- _cell_mvoltage, keys from 1 on
  pub power_switch : N
  pub msg : Option (List ℕ)
  pub status : Option ℤ
  pub afestatus : Option ℤ
  pub state : Option State
  pub health : Option Health

module _ {ℓ} {N : Type ℓ} ⦃n : Num N⦄ where
  unfoldable pub fresh : ℤ → ℤ → ℤ → ℤ → Definition N
  fresh val min max maxdiff = record {
    val = n.of_int val;
    min = n.of_int min;
    max = n.of_int max;
    maxdiff = n.of_int maxdiff;
    rejected = 0;
    rejected_val = none;
  }

  -- PowerDevice.__init__
  unfoldable pub power_definitions : List (String × Definition N)
  unfolding fresh
  power_definitions =
      ("_dsoc", fresh (pos 0) (pos 1) (pos 1000) (pos 100))
      ∷ ("_dkelvin", fresh (pos 2731) (pos 1731) (pos 3731) (pos 20))
      ∷ ("_bkelvin", fresh (pos 2731) (pos 1731) (pos 3731) (pos 20))
      ∷ ("_mcapacity", fresh (pos 0) (pos 1) (pos 250000) (pos 20000))
      ∷ ("_mcurrent", fresh (pos 0) (pos 0) (pos 30000) (pos 10000))
      ∷ ("_mpower", fresh (pos 0) (pos 0) (pos 200000) (pos 100000))
      ∷ ("_mvoltage", fresh (pos 0) (pos 0) (pos 48000) (pos 12000))
      ∷ ("_input_mcurrent", fresh (pos 0) (pos 0) (pos 30000) (pos 10000))
      ∷ ("_input_mpower", fresh (pos 0) (pos 0) (pos 200000) (pos 100000))
      ∷ ("_input_mvoltage", fresh (pos 0) (pos 0) (pos 48000) (pos 12000))
      ∷ ("_charge_mcurrent", fresh (pos 0) (pos 0) (pos 30000) (pos 10000))
      ∷ ("_charge_mpower", fresh (pos 0) (pos 0) (pos 200000) (pos 100000))
      ∷ ("_charge_mvoltage", fresh (pos 0) (pos 0) (pos 48000) (pos 12000))
      ∷ []

  -- InverterDevice.__init__
  unfoldable pub inverter_definitions : List (String × Definition N)
  unfolding power_definitions
  inverter_definitions =
      insert "_mvoltage" (fresh (pos 0) (pos 0) (pos 250000) (pos 250000))
        (insert "_input_mvoltage" (fresh (pos 0) (pos 0) (pos 50000) (pos 50000)) power_definitions)

  -- RectifierDevice.__init__
  unfoldable pub rectifier_definitions : List (String × Definition N)
  unfolding power_definitions
  rectifier_definitions =
      insert "_mvoltage" (fresh (pos 0) (pos 0) (pos 50000) (pos 50000)) (
        insert "_input_mvoltage" (fresh (pos 0) (pos 0) (pos 250000) (pos 250000))
          power_definitions)

  -- BatteryDevice.__init__, without the cells
  unfoldable pub battery_definitions : List (String × Definition N)
  unfolding power_definitions
  battery_definitions = insert "_charge_cycles" (fresh (pos 0) (pos 1) (pos 10000) (pos 1)) (
      insert "_mvoltage" (fresh (pos 0) (pos 10000) (pos 15000) (pos 12000)) (
        insert "_exp_capacity" (fresh (pos 0) (pos 0) (pos 400) (pos 5)) (
          insert "_max_capacity" (fresh (pos 0) (pos 0) (pos 400) (pos 5)) (
            insert "_mcurrent" (fresh (pos 0) (negsuc 499999) (pos 500000) (pos 400000))
              power_definitions))))

  unfoldable pub class_definitions : Kind → List (String × Definition N)
  unfolding inverter_definitions rectifier_definitions battery_definitions
  class_definitions power = power_definitions
  class_definitions inverter = inverter_definitions
  class_definitions rectifier = rectifier_definitions
  class_definitions regulator = power_definitions
  class_definitions battery = battery_definitions

  unfoldable pub class_cells : Kind → List (Definition N)
  unfolding fresh
  class_cells battery = replicate 16 (fresh (pos 0) (pos 2000) (pos 4000) (pos 500))
  class_cells _ = []

  unfoldable pub new_entities : Kind → Entities N
  unfolding class_definitions class_cells
  new_entities kind = record {
    kind = kind;
    definitions = class_definitions kind;
    cells = class_cells kind;
    power_switch = n.of_int (pos 0);
    msg = none;
    status = none;
    afestatus = none;
    state = none;
    health = none;
  }

-- SolarDevice.__init__ chooses the class by the name of the configuration section.
unfoldable pub class_of : String → Kind
class_of logger_name =
    if contains logger_name "battery"
    then battery
    else if contains logger_name "regulator"
    then regulator
    else if contains logger_name "inverter"
    then inverter
    else if contains logger_name "rectifier"
    then rectifier
    else power
