-- ===== src/SolarLink.antt =====
-- plugins/SolarLink: the requests that poll and switch a regulator, and the cycle of polls. The CRC
-- of libscrc is the parameter `crc16`. self.poll_register and self.poll_data, which only a log line
-- reads, are not kept.
pub mod Requests
pub mod Update
pub mod Responses
use solar_monitor.Prelude.{
  ℕ, ◌+◌, String, Bool, Option, none, some, List, [], ◌∷◌, ◌++◌, ◌==◌, if◌then◌else◌, str_eq,
}
use solar_monitor.Prelude.Int.{ℤ, pos, eqb_ℤ}
use solar_monitor.Modbus.{high_byte, low_byte}

abbrev pub function_read : ℕ
function_read = 3

abbrev pub function_write : ℕ
function_write = 6

pub data Request : Type 0 where
  solar_panel_and_battery_state battery_param_info solar_panel_info : Request
  param_setting_data regulator_power_on regulator_power_off : Request

-- REG_ADDR
unfoldable pub reg_addr : Request → ℕ
reg_addr solar_panel_and_battery_state = 288
reg_addr battery_param_info = 256
reg_addr solar_panel_info = 263
reg_addr param_setting_data = 57345
reg_addr regulator_power_on = 266
reg_addr regulator_power_off = 266

-- READ_WORD, or the value that the switch is set to
unfoldable pub read_word : Request → ℕ
read_word solar_panel_and_battery_state = 3
read_word battery_param_info = 7
read_word solar_panel_info = 4
read_word param_setting_data = 33
read_word regulator_power_on = 1
read_word regulator_power_off = 0

unfoldable pub function_of : Request → ℕ
function_of regulator_power_on = function_write
function_of regulator_power_off = function_write
function_of _ = function_read

-- No address is 0, so the test `if regAddr` always holds.
unfoldable pub request_body : ℕ → Request → List ℕ
unfolding reg_addr read_word function_of
request_body device_id cmd =
    device_id
    ∷ function_of cmd
    ∷ high_byte (reg_addr cmd)
    ∷ low_byte (reg_addr cmd)
    ∷ high_byte (read_word cmd)
    ∷ low_byte (read_word cmd)
    ∷ []

-- The command that a value of the switch stands for.
unfoldable pub switch_command : ℤ → Option Request
switch_command value =
    if eqb_ℤ value (pos 0)
    then some regulator_power_off
    else if eqb_ℤ value (pos 1)
    then some regulator_power_on
    else none

module _ (crc16 : List ℕ → ℕ) (device_id : ℕ) where
  unfoldable pub create_poll_request : Request → List ℕ
  unfolding request_body
  create_poll_request cmd =
      let crc = crc16 (request_body device_id cmd) in
      request_body device_id cmd ++ (low_byte crc ∷ high_byte crc ∷ [])

  -- pollRequest: the new poll_loop_count, and the request
  unfoldable pub poll_request : ℕ → ℕ × Option (List ℕ)
  poll_request poll_loop_count =
      let count = poll_loop_count + 1 in
      let data1 = if count == 1 then some (create_poll_request battery_param_info) else none in
      let data2 = if count == 3 then some (create_poll_request solar_panel_info) else data1 in
      let data3 =
        if count == 5 then some (create_poll_request solar_panel_and_battery_state) else data2 in
      (if count == 10 then 0 else count, data3)

  -- `int(value)` is done by the caller; it raises on a text that is no number.
  unfoldable pub cmd_request : String → ℤ → List (List ℕ)
  unfolding switch_command
  cmd_request command value =
      elim (if str_eq command "power_switch" then switch_command value else none) [
        | none ↦ []
        | some cmd ↦
            create_poll_request cmd
            ∷ create_poll_request solar_panel_info
            ∷ create_poll_request battery_param_info
            ∷ []
      ]
