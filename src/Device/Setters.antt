-- ===== src/Device/Setters.antt =====
-- solardevice.py: the property setters of PowerDevice and BatteryDevice.
-- `none` stands for the AttributeError or KeyError that the source raises.
use mathlib.Core.Option
use solar_monitor.Prelude.{
  ℕ, zero, suc, String, ◌&&◌, ◌||◌, Option, none, some, List, [], ◌∷◌, get_elem?, set,
  if◌then◌else◌,
}
use solar_monitor.Prelude.Dict.{lookup, insert}
use solar_monitor.Prelude.Int.{pos, negsuc}
use solar_monitor.Numbers.{Num, Real, real_num}
use solar_monitor.Device.Definition.{Definition, validate}
use solar_monitor.Device.Entities.{
  Kind, battery, State, charging, discharging, standby, good, perfect, Entities,
}

-- the properties with a setter that validates
pub data Attribute : Type 0 where
  dsoc soc temperature battery_temperature temperature_celsius : Attribute
  battery_temperature_celsius mcapacity capacity mvoltage voltage : Attribute
  input_mvoltage input_voltage charge_mvoltage charge_voltage : Attribute
  mcurrent current input_mcurrent input_current charge_mcurrent charge_current : Attribute
  mpower power input_mpower input_power charge_mpower charge_power : Attribute
  charge_cycles max_capacity exp_capacity : Attribute

module _ {ℓ} {N : Type ℓ} ⦃n : Num N⦄ where
  -- self.validate(var, val), by the name of the definition
  unfoldable pub validate_attr : String → N → Entities N → Option (Entities N)
  validate_attr var val e =
      Option.map (λ d. record e { definitions = insert var (validate val d).0 e.definitions })
        (lookup var e.definitions)

  abbrev tenfold : N → N
  tenfold value = n.mul value (n.of_int (pos 10))

  abbrev thousandfold : N → N
  thousandfold value = n.mul value (n.of_int (pos 1000))

  abbrev deci_kelvin : N → N
  deci_kelvin value = n.add (n.mul value (n.of_int (pos 10))) (n.of_int (pos 2731))

  -- The definition that a setter of PowerDevice validates, and the value that it passes.
  unfoldable pub target : Attribute → N → String × N
  target dsoc v = ("_dsoc", v)
  target soc v = ("_dsoc", tenfold v)
  target temperature v = ("_dkelvin", v)
  target battery_temperature v = ("_bkelvin", v)
  target temperature_celsius v = ("_dkelvin", deci_kelvin v)
  target battery_temperature_celsius v = ("_bkelvin", deci_kelvin v)
  target mcapacity v = ("_mcapacity", v)
  target capacity v = ("_mcapacity", thousandfold v)
  target mvoltage v = ("_mvoltage", v)
  target voltage v = ("_mvoltage", thousandfold v)
  target input_mvoltage v = ("_input_mvoltage", v)
  target input_voltage v = ("_input_mvoltage", thousandfold v)
  target charge_mvoltage v = ("_charge_mvoltage", v)
  target charge_voltage v = ("_charge_mvoltage", thousandfold v)
  target mcurrent v = ("_mcurrent", v)
  target current v = ("_mcurrent", thousandfold v)
  target input_mcurrent v = ("_input_mcurrent", v)
  target input_current v = ("_input_mcurrent", thousandfold v)
  target charge_mcurrent v = ("_charge_mcurrent", v)
  target charge_current v = ("_charge_mcurrent", thousandfold v)
  target mpower v = ("_mpower", v)
  target power v = ("_mpower", thousandfold v)
  target input_mpower v = ("_input_mpower", v)
  target input_power v = ("_input_mpower", thousandfold v)
  target charge_mpower v = ("_charge_mpower", v)
  target charge_power v = ("_charge_mpower", thousandfold v)
  target charge_cycles v = ("_charge_cycles", v)
  target max_capacity v = ("_max_capacity", v)
  target exp_capacity v = ("_exp_capacity", v)

  unfoldable pub power_setter : Attribute → N → Entities N → Option (Entities N)
  unfolding validate_attr target
  power_setter a value e = let (var, val) = target a value in validate_attr var val e

  -- self.mcurrent
  unfoldable pub get_mcurrent : Entities N → N
  get_mcurrent e = elim (lookup "_mcurrent" e.definitions) [
    | none ↦ n.of_int (pos 0)
    | some d ↦ d.val
  ]

  -- The state that a current stands for, with the width of the standby band.
  unfoldable pub state_of : N → N → N → State
  state_of value low high =
      if n.lt high value then charging else if n.lt value low then discharging else standby

  -- A zero that contradicts a large stored current leaves the state alone.
  unfoldable pub update_state : N → N → N → Entities N → Entities N
  unfolding state_of get_mcurrent
  update_state value low high e =
      if n.eq value (n.of_int (pos 0))
        && (n.lt (n.of_int (pos 500)) (get_mcurrent e)
            || n.lt (get_mcurrent e) (n.of_int (negsuc 499)))
      then e
      else record e { state = some (state_of value low high) }

  -- BatteryDevice.mcurrent
  unfoldable pub battery_mcurrent : N → Entities N → Option (Entities N)
  unfolding power_setter update_state
  battery_mcurrent value e =
      Option.map (update_state value (n.of_int (negsuc 19)) (n.of_int (pos 20)))
        (power_setter mcurrent value e)

  -- BatteryDevice.charge_cycles
  unfoldable pub battery_charge_cycles : N → Entities N → Option (Entities N)
  unfolding power_setter
  battery_charge_cycles value e =
      Option.map
        (λ e'.
          if n.lt (n.of_int (pos 0)) value
          then record e' {
            health = some (if n.lt (n.of_int (pos 2000)) value then good else perfect);
          }
          else e')
        (power_setter charge_cycles value e)

  -- BatteryDevice.cell_mvoltage: the new value of one cell
  unfoldable pub store_cell : N → Definition N → Definition N
  store_cell new_value d =
      let zero_value = n.of_int (pos 0) in
      let diff = n.absolute (n.sub new_value d.val) in
      if n.eq d.val zero_value
        && n.lt zero_value new_value
        && n.lt d.min new_value
        && n.lt new_value d.max
      then record d { val = new_value }
      else if n.eq d.val zero_value && n.eq new_value zero_value
      then d
      else if n.lt d.max new_value
      then d
      else if n.lt new_value d.min
      then d
      else if n.lt d.maxdiff diff
      then d
      else if n.lt zero_value new_value && n.lt (n.of_int (pos 10)) diff
      then record d { val = new_value }
      else d

  -- Cells are numbered from 1; another number is a KeyError.
  unfoldable pub cell_mvoltage : ℕ → N → Entities N → Option (Entities N)
  unfolding store_cell
  cell_mvoltage zero new_value e = none
  cell_mvoltage (suc i) new_value e =
      Option.map (λ d. record e { cells = set e.cells i (store_cell new_value d) })
        (get_elem? e.cells i)

module _ {ℓ} {N : Type ℓ} ⦃r : Real N⦄ where
  -- BatteryDevice.current: PowerDevice.current sets `self.mcurrent`, which is the battery's own.
  unfoldable pub battery_current : N → Entities N → Option (Entities N)
  unfolding battery_mcurrent
  battery_current value e =
      Option.map (update_state value (r.decimal (negsuc 1) 2) (r.decimal (pos 2) 2))
        (battery_mcurrent (thousandfold value) e)

  -- The assignment `entities.<attribute> = value`. On a class that has no such property it only
  -- makes a plain attribute, which none of the modelled code reads.
  unfoldable pub assign : Kind → Attribute → N → Entities N → Option (Entities N)
  unfolding battery_current battery_charge_cycles
  assign battery mcurrent value e = battery_mcurrent value e
  assign battery current value e = battery_current value e
  assign battery charge_cycles value e = battery_charge_cycles value e
  assign battery a value e = power_setter a value e
  assign _ charge_cycles value e = some e
  assign _ max_capacity value e = some e
  assign _ exp_capacity value e = some e
  assign _ a value e = power_setter a value e

  unfoldable pub store : Attribute → N → Entities N → Option (Entities N)
  unfolding assign
  store a value e = assign e.kind a value e

  -- a sequence of assignments
  unfoldable pub store_all : List (Attribute × N) → Entities N → Option (Entities N)
  store_all [] e = some e
  store_all ((a, value) ∷ rest) e = elim (store a value e) [
    | none ↦ none
    | some e' ↦ store_all rest e'
  ]

  -- An assignment in code that does not look at the outcome. It never raises on a device whose
  -- definitions are all there.
  unfoldable pub put : Attribute → N → Entities N → Entities N
  put a value e = Option.get_or (store a value e) e

  -- entities.cell_mvoltage = (cell, value), likewise; only a battery has the property.
  unfoldable pub put_cell : ℕ → N → Entities N → Entities N
  unfolding cell_mvoltage
  put_cell cell value e = elim e.kind [
    | battery ↦ Option.get_or (cell_mvoltage cell value e) e
    | _ ↦ e
  ]
