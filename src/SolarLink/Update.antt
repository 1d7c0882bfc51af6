-- ===== src/SolarLink/Update.antt =====
-- plugins/SolarLink: what a notification stores. The value that a change of the switch puts on the
-- queue is part of the result.
use solar_monitor.Prelude.{
  ℕ, zero, suc, ◌+◌, ◌*◌, Bool, true, false, not, ◌&&◌, Option, none, some, List, [], ◌∷◌, ◌++◌,
  length, take, drop, get_or, ltb, ◌==◌, if◌then◌else◌,
}
use solar_monitor.Prelude.Int.{ℤ, pos, sub_ℕ}
use solar_monitor.Prelude.Bytes.{be_from}
use solar_monitor.Numbers.{Real, real_num}
use solar_monitor.Modbus.{bytes_to_int, validate_frame}
use solar_monitor.Device.Entities.{Entities}
use solar_monitor.Device.Setters.{
  soc, charge_voltage, charge_current, charge_power, temperature_celsius,
  battery_temperature_celsius, voltage, current, power, input_voltage, input_current, input_power,
  put,
}
use solar_monitor.Device.Getters.{getter, set_power_switch}
use solar_monitor.SolarLink.{
  read_word, battery_param_info, solar_panel_info, solar_panel_and_battery_state,
  param_setting_data, function_read, function_write,
}

-- The buffer of the settings, the length that their first packet states, and the settings.
pub record Settings : Type 0 where
  pub param_buffer : List ℕ
  pub param_expect : ℕ
  pub param_data : List ℕ

abbrev pub no_settings : Settings
no_settings = record { param_buffer = []; param_expect = 0; param_data = [] }

-- The loop from i, with the number of rounds left.
unfoldable pub words_from : ℕ → ℕ → List ℕ → List ℕ
words_from zero i buffer = []
words_from (suc rounds) i buffer =
    let rest = words_from rounds (i + 2) buffer in
    if ltb i 66 then be_from 0 (take 2 (drop i buffer)) ∷ rest else []

abbrev pub append_packet : ℕ → List ℕ → Settings → Settings
append_packet i bs s =
    let buffer = s.param_buffer ++ drop i bs in
    if length buffer == s.param_expect + 3 + 2
    then record s { param_buffer = buffer; param_data = s.param_data ++ words_from 33 i buffer }
    else record s { param_buffer = buffer }

-- A packet that is passed here has five bytes or more.
unfoldable pub update_param_setting_data : List ℕ → Settings → Settings
update_param_setting_data bs s =
    if get_or bs 0 0 == 255 && get_or bs 1 0 == 3
    then append_packet 3 bs
        (record s { param_data = []; param_buffer = []; param_expect = get_or bs 2 0 })
    else append_packet 0 bs s

-- A byte in sign and magnitude.
unfoldable pub celsius_of : ℕ → ℤ
celsius_of byte = if ltb 128 byte then sub_ℕ 128 byte else pos byte

module _ {ℓ} {N : Type ℓ} ⦃r : Real N⦄ where
  open r use {num}

  abbrev pub register : List ℕ → ℕ → ℕ → N
  register bs offset len = num.of_int (pos (bytes_to_int bs (pos offset) (pos len)))

  -- * 0.1 and * 0.01
  abbrev pub tenths : List ℕ → ℕ → N
  tenths bs offset = num.mul (register bs offset 2) (r.decimal (pos 1) 1)

  abbrev pub hundredths : List ℕ → ℕ → N
  hundredths bs offset = num.mul (register bs offset 2) (r.decimal (pos 1) 2)

  unfoldable pub update_battery_param_info : List ℕ → Entities N → Entities N
  unfolding celsius_of
  update_battery_param_info bs e =
      let e1 = put soc (register bs 3 2) e in
      let e2 = put charge_voltage (tenths bs 5) e1 in
      let e3 = put charge_current (hundredths bs 7) e2 in
      let charge_power_watts = num.mul (getter charge_voltage e3) (getter charge_current e3) in
      let e4 = put charge_power charge_power_watts e3 in
      let e5 =
        put temperature_celsius (num.of_int (celsius_of (bytes_to_int bs (pos 9) (pos 1)))) e4 in
      let e6 =
        put battery_temperature_celsius (num.of_int (celsius_of (bytes_to_int bs (pos 10) (pos 1))))
          e5 in
      let e7 = put voltage (tenths bs 11) e6 in
      let e8 = put current (hundredths bs 13) e7 in put power (register bs 15 2) e8

  unfoldable pub update_solar_panel_info : List ℕ → Entities N → Entities N × Option N
  update_solar_panel_info bs e =
      let e1 = put input_voltage (tenths bs 3) e in
      let e2 = put input_current (hundredths bs 5) e1 in
      let e3 = put input_power (register bs 7 2) e2 in set_power_switch (register bs 9 2) e3

  -- It only logs.
  unfoldable pub update_solar_panel_and_battery_state : List ℕ → Entities N → Entities N
  update_solar_panel_and_battery_state bs e = e

  -- The four tests on the length byte, in their order.
  unfoldable pub dispatch_read : List ℕ → Settings → Entities N → Settings × Entities N × Option N
  dispatch_read value s e =
      let id = get_or value 2 0 in
      let e1 =
        if id == read_word battery_param_info * 2 then update_battery_param_info value e else e in
      let e2 =
        if id == read_word solar_panel_and_battery_state * 2
        then update_solar_panel_and_battery_state value e1
        else e1 in
      let panel =
        if id == read_word solar_panel_info * 2
        then update_solar_panel_info value e2
        else (e2, none) in
      let s1 =
        if id == read_word param_setting_data * 2 then update_param_setting_data value s else s in
      (s1, panel.0, panel.1)

  module _ (crc16 : List ℕ → ℕ) (device_id : ℕ) where
    unfoldable pub notification_update :
        Option (List ℕ) → Settings → Entities N → Settings × Entities N × Option N × Bool
    notification_update none s e = (s, e, none, false)
    notification_update (some value) s e =
        if not (validate_frame crc16 (some value))
        then (s, e, none, false)
        else if get_or value 0 0 == device_id && get_or value 1 0 == function_read
        then (let read = dispatch_read value s e in (read.0, read.1, read.2, true))
        else if get_or value 0 0 == device_id && get_or value 1 0 == function_write
        then (s, e, none, true)
        else if not (get_or value 0 0 == device_id) && ltb (length s.param_buffer) s.param_expect
        then (update_param_setting_data value s, e, none, true)
        else (s, e, none, false)
