-- ===== src/RenogyBatt/Capacity.antt =====
-- plugins/RenogyBatt: the capacity that is left, by the current and by the voltage.
use solar_monitor.Prelude.{ℕ, ◌+◌, ◌-◌, Bool, true, false, not, ltb, if◌then◌else◌}
use solar_monitor.Prelude.Int.{pos}
use solar_monitor.Numbers.{Real, real_num}
use solar_monitor.Device.Entities.{Entities}
use solar_monitor.Device.Setters.{exp_capacity, voltage, current, put}
use solar_monitor.Device.Getters.{getter}

-- The attributes of Util that outlive a call; a time is in seconds.
pub record Util {ℓ} (N : Type ℓ) : Type ℓ where
  pub entities : Entities N
  pub max_capacity : N
  pub time_int : N
  pub volt_change_count : ℕ

-- The counter of calm readings: its new value, and whether the capacity may be set.
unfoldable pub settle : Bool → ℕ → ℕ × Bool
settle calm count =
    if not calm
    then (if ltb 0 count then count - 1 else count, false)
    else if ltb (count + 1) 300
    then (count + 1, false)
    else (0, true)

module _ {ℓ} {N : Type ℓ} ⦃r : Real N⦄ where
  open r use {num}

  abbrev tens : N → N
  tens value = num.mul value (num.of_int (pos 10))

  -- new_voltage >= a literal with one digit behind the point
  abbrev at_least : N → ℕ → Bool
  at_least value tenths = num.le (r.decimal (pos tenths) 1) value

  -- the special case of 13.2 V
  unfoldable pub percent_flat : N → N → N
  percent_flat prev_capacity max_capacity =
      let ratio = r.div prev_capacity max_capacity in
      if num.eq prev_capacity (num.of_int (pos 0))
      then num.of_int (pos 65)
      else if num.lt (num.of_int (pos 80)) ratio
      then num.of_int (pos 80)
      else if num.lt ratio (num.of_int (pos 50))
      then num.of_int (pos 50)
      else num.of_int (pos 65)

  -- the percentage that a voltage stands for
  unfoldable pub percent_of : N → N → N → N
  unfolding percent_flat
  percent_of new_voltage prev_capacity max_capacity =
      if at_least new_voltage 135
      then num.of_int (pos 100)
      else if at_least new_voltage 134
      then num.of_int (pos 99)
      else if at_least new_voltage 133
      then num.of_int (pos 90)
      else if at_least new_voltage 132
      then percent_flat prev_capacity max_capacity
      else if at_least new_voltage 131
      then num.of_int (pos 40)
      else if at_least new_voltage 130
      then num.of_int (pos 30)
      else if at_least new_voltage 129
      then num.of_int (pos 20)
      else if at_least new_voltage 120
      then num.sub (tens new_voltage) (num.of_int (pos 111))
      else if at_least new_voltage 118
      then num.sub (r.div (num.sub (tens new_voltage) (num.of_int (pos 100))) (num.of_int (pos 2)))
          (num.of_int (pos 1))
      else if at_least new_voltage 100
      then r.div (num.sub (tens new_voltage) (num.of_int (pos 100))) (num.of_int (pos 2))
      else num.of_int (pos 100)

  -- the end of voltageToCapacity, from `percent = 100` on
  unfoldable pub resync : Util N → Util N
  unfolding percent_of
  resync u =
      let prev_capacity = getter exp_capacity u.entities in
      let percent = percent_of (getter voltage u.entities) prev_capacity u.max_capacity in
      let new_capacity = r.div (num.mul u.max_capacity percent) (num.of_int (pos 100)) in
      let off = r.div (num.absolute (num.sub prev_capacity new_capacity)) u.max_capacity in
      if num.lt (r.decimal (pos 1) 1) off
      then record u { entities = put exp_capacity new_capacity u.entities }
      else u

  -- abs(current) > 1.4 makes a reading unreliable
  unfoldable pub is_calm : Entities N → Bool
  is_calm e = not (num.lt (r.decimal (pos 14) 1) (num.absolute (getter current e)))

  unfoldable pub voltage_to_capacity : Util N → Util N
  voltage_to_capacity u =
      let nought = num.of_int (pos 0) in
      let settled = settle (is_calm u.entities) u.volt_change_count in
      let counted = record u { volt_change_count = settled.0 } in
      if num.eq (getter voltage u.entities) nought
      then u
      else if num.eq u.max_capacity nought
      then u
      else if num.eq (getter exp_capacity u.entities) nought
      then resync u
      else if settled.1
      then resync counted
      else counted

  -- 12.8 * 60 * 60, applied from the left
  abbrev watt_seconds : N → N
  watt_seconds value =
      num.mul (num.mul (num.mul value (r.decimal (pos 128) 1)) (num.of_int (pos 60)))
        (num.of_int (pos 60))

  unfoldable pub update_capacity_from_current : N → Util N → Util N
  update_capacity_from_current cur_time u =
      let charge =
        num.mul (num.mul (getter current u.entities) (getter voltage u.entities))
          (num.sub cur_time u.time_int) in
      let new_watts = num.add (watt_seconds (getter exp_capacity u.entities)) charge in
      let factor =
        num.mul (num.mul (r.decimal (pos 128) 1) (num.of_int (pos 60))) (num.of_int (pos 60)) in
      record u {
        time_int = cur_time;
        entities = put exp_capacity (r.div new_watts factor) u.entities;
      }
