-- ===== src/Device/Getters.antt =====
-- solardevice.py: the properties of PowerDevice that read a definition, and its switch.
use solar_monitor.Prelude.{String, Option, none, some, if◌then◌else◌}
use solar_monitor.Prelude.Dict.{lookup}
use solar_monitor.Prelude.Int.{pos}
use solar_monitor.Numbers.{Num, Real, real_num}
use solar_monitor.Device.Entities.{Entities}
use solar_monitor.Device.Setters.{
  Attribute, dsoc, soc, temperature, battery_temperature, temperature_celsius,
  battery_temperature_celsius, mcapacity, capacity, mvoltage, voltage, input_mvoltage,
  input_voltage, charge_mvoltage, charge_voltage, mcurrent, current, input_mcurrent, input_current,
  charge_mcurrent, charge_current, mpower, power, input_mpower, input_power, charge_mpower,
  charge_power, charge_cycles, max_capacity, exp_capacity,
}

module _ {ℓ} {N : Type ℓ} ⦃r : Real N⦄ where
  open r use {num}

  -- self.<var>['val']; the definitions that are read are always there
  unfoldable pub stored : String → Entities N → N
  stored var e = elim (lookup var e.definitions) [ none ↦ num.of_int (pos 0) | some d ↦ d.val ]

  abbrev tenth : N → N
  tenth value = r.div value (num.of_int (pos 10))

  -- round(value / 1000, 1)
  abbrev thousandth : N → N
  thousandth value = r.round_to (r.div value (num.of_int (pos 1000))) 1

  abbrev celsius : N → N
  celsius value =
      r.round_to (num.mul (num.sub value (num.of_int (pos 2731))) (r.decimal (pos 1) 1)) 1

  unfoldable pub getter : Attribute → Entities N → N
  unfolding stored
  getter dsoc e = stored "_dsoc" e
  getter soc e = tenth (stored "_dsoc" e)
  getter temperature e = stored "_dkelvin" e
  getter battery_temperature e = stored "_bkelvin" e
  getter temperature_celsius e = celsius (stored "_dkelvin" e)
  getter battery_temperature_celsius e = celsius (stored "_bkelvin" e)
  getter mcapacity e = stored "_mcapacity" e
  getter capacity e = thousandth (stored "_mcapacity" e)
  getter mvoltage e = stored "_mvoltage" e
  getter voltage e = thousandth (stored "_mvoltage" e)
  getter input_mvoltage e = stored "_input_mvoltage" e
  getter input_voltage e = thousandth (stored "_input_mvoltage" e)
  getter charge_mvoltage e = stored "_charge_mvoltage" e
  getter charge_voltage e = thousandth (stored "_charge_mvoltage" e)
  getter mcurrent e = stored "_mcurrent" e
  getter current e = thousandth (stored "_mcurrent" e)
  getter input_mcurrent e = stored "_input_mcurrent" e
  getter input_current e = thousandth (stored "_input_mcurrent" e)
  getter charge_mcurrent e = stored "_charge_mcurrent" e
  getter charge_current e = thousandth (stored "_charge_mcurrent" e)
  getter mpower e = stored "_mpower" e
  getter power e = thousandth (stored "_mpower" e)
  getter input_mpower e = stored "_input_mpower" e
  getter input_power e = thousandth (stored "_input_mpower" e)
  getter charge_mpower e = stored "_charge_mpower" e
  getter charge_power e = thousandth (stored "_charge_mpower" e)
  getter charge_cycles e = stored "_charge_cycles" e
  getter max_capacity e = stored "_max_capacity" e
  getter exp_capacity e = stored "_exp_capacity" e

module _ {ℓ} {N : Type ℓ} ⦃n : Num N⦄ where
  -- PowerDevice.power_switch for a number: the value that a change puts on the queue goes with it.
  unfoldable pub set_power_switch : N → Entities N → Entities N × Option N
  set_power_switch value e =
      if n.eq value e.power_switch
      then (e, none)
      else (record e { power_switch = value }, some value)
