-- ===== src/RenogyBatt/Update.antt =====
-- plugins/RenogyBatt: what a notification stores. `none` as a result is an exception, which leaves
-- what was assigned before it.
use solar_monitor.Prelude.{
  ℕ, zero, suc, ◌+◌, ◌*◌, Bool, true, false, not, ◌&&◌, Option, none, some, List, length, get_or,
  ltb, ◌==◌, if◌then◌else◌,
}
use solar_monitor.Prelude.Int.{ℤ, pos}
use solar_monitor.Numbers.{Real, real_num}
use solar_monitor.Codec.{to_signed, uint16_wrap}
use solar_monitor.Modbus.{bytes_to_int, validate_frame}
use solar_monitor.Device.Entities.{Entities, battery}
use solar_monitor.Device.Setters.{
  max_capacity, capacity, soc, current, voltage, temperature_celsius, battery_temperature_celsius,
  put, cell_mvoltage,
}
use solar_monitor.RenogyBatt.{
  read_word, voltage_current_soc, cell_voltage, temperature_state, function_read, function_write,
}
use solar_monitor.RenogyBatt.Capacity.{Util, update_capacity_from_current, voltage_to_capacity}

abbrev pub sign_threshold : ℕ
sign_threshold = 255

module _ {ℓ} {N : Type ℓ} ⦃r : Real N⦄ where
  open r use {num}

  -- modbus.bytes_to_int, times a literal with so many digits behind the point
  abbrev pub scaled : List ℕ → ℕ → ℕ → ℤ → ℕ → N
  scaled bs offset len m digits =
      num.mul (num.of_int (pos (bytes_to_int bs (pos offset) (pos len)))) (r.decimal m digits)

  -- a signed reading, whose wrap is 65536 times the same literal
  unfoldable pub signed : List ℕ → ℕ → ℕ → N
  signed bs offset digits =
      to_signed (scaled bs offset 2 (pos 1) digits)
        (num.mul (num.of_int (pos uint16_wrap)) (r.decimal (pos 1) digits))
        (num.of_int (pos sign_threshold))

  -- behind the division by max_capacity
  unfoldable pub store_state : N → List ℕ → Util N → Util N
  unfolding signed
  store_state cur_time bs u =
      let left = scaled bs 8 3 (pos 1) 3 in
      let e1 = put capacity left u.entities in
      let e2 = put soc (num.mul (r.div left u.max_capacity) (num.of_int (pos 100))) e1 in
      let e3 = put max_capacity u.max_capacity e2 in
      let e4 = put current (signed bs 3 2) e3 in
      let u1 = update_capacity_from_current cur_time (record u { entities = e4 }) in
      let u2 = record u1 { entities = put voltage (scaled bs 5 2 (pos 1) 1) u1.entities } in
      voltage_to_capacity u2

  -- The line that logs divides by the capacity that was just read.
  unfoldable pub log_and_store : N → List ℕ → Util N → Util N × Option Bool
  log_and_store cur_time bs u =
      if num.eq u.max_capacity (num.of_int (pos 0))
      then (u, none)
      else (store_state cur_time bs u, some true)

  -- updateVoltageCurrentSOC
  unfoldable pub update_voltage_current_soc : N → List ℕ → Util N → Util N × Option Bool
  update_voltage_current_soc cur_time bs u =
      log_and_store cur_time bs (record u { max_capacity = scaled bs 12 3 (pos 1) 3 })

  -- entities.cell_mvoltage = (cell, value): a battery has sixteen cells, and another is a KeyError.
  unfoldable pub assign_cell : ℕ → N → Entities N → Option (Entities N)
  assign_cell cell value e = elim e.kind [ battery ↦ cell_mvoltage cell value e | _ ↦ some e ]

  -- The loop over the cells from j on, with the number of rounds left: the bytes that it logs raise
  -- where the response ends before them.
  unfoldable pub cells_from : ℕ → ℕ → List ℕ → Entities N → Entities N × Option Bool
  cells_from zero j bs e = (e, some true)
  cells_from (suc rounds) j bs e =
      let local_s = 5 + j * 2 in
      let value = num.of_int (pos (bytes_to_int bs (pos local_s) (pos 2) * 100)) in
      elim (if ltb (local_s + 1) (length bs) then assign_cell (j + 1) value e else none) [
        | none ↦ (e, none)
        | some e' ↦ cells_from rounds (j + 1) bs e'
      ]

  -- updateCellVoltage; entities.cell_count is a plain attribute that nothing reads.
  unfoldable pub update_cell_voltage : List ℕ → Entities N → Entities N × Option Bool
  update_cell_voltage bs e = cells_from (get_or bs 4 0) 0 bs e

  -- updateTemperature, likewise: every reading goes to the same two attributes
  unfoldable pub temperatures_from : ℕ → ℕ → List ℕ → Entities N → Entities N × Option Bool
  unfolding signed
  temperatures_from zero j bs e = (e, some true)
  temperatures_from (suc rounds) j bs e =
      let local_s = 5 + j * 2 in
      let temperature = signed bs local_s 1 in
      let e1 = put temperature_celsius temperature e in
      let e2 = put battery_temperature_celsius temperature e1 in
      let rest = temperatures_from rounds (j + 1) bs e2 in
      if ltb (local_s + 1) (length bs) then rest else (e, none)

  unfoldable pub update_temperature : List ℕ → Entities N → Entities N × Option Bool
  update_temperature bs e = temperatures_from (get_or bs 4 0) 0 bs e

  -- The part of the entities, put back.
  abbrev within : Util N → Entities N × Option Bool → Util N × Option Bool
  within u done = (record u { entities = done.0 }, done.1)

  -- The three tests on the length byte, which no two hold at once.
  unfoldable pub dispatch_read : N → List ℕ → Util N → Util N × Option Bool
  dispatch_read cur_time value u =
      let id = get_or value 2 0 in
      if id == read_word voltage_current_soc * 2
      then update_voltage_current_soc cur_time value u
      else if id == read_word cell_voltage * 2
      then within u (update_cell_voltage value u.entities)
      else if id == read_word temperature_state * 2
      then within u (update_temperature value u.entities)
      else (u, some true)

  module _ (crc16 : List ℕ → ℕ) (device_id : ℕ) where
    -- param_expect stays 0, so the branch of a packet that follows is never taken.
    unfoldable pub notification_update : N → Option (List ℕ) → Util N → Util N × Option Bool
    notification_update cur_time none u = (u, some false)
    notification_update cur_time (some value) u =
        if not (validate_frame crc16 (some value))
        then (u, some false)
        else if get_or value 0 0 == device_id && get_or value 1 0 == function_read
        then dispatch_read cur_time value u
        else if get_or value 0 0 == device_id && get_or value 1 0 == function_write
        then (u, some true)
        else (u, some false)
