-- ===== src/RenogyBatt.antt =====
-- plugins/RenogyBatt: the requests that poll a battery, and the cycle of polls. The CRC of libscrc is
-- the parameter `crc16`. self.poll_register, which only a log line reads, is not kept.
pub mod Capacity
pub mod Rare
pub mod Update
pub mod Polls
use solar_monitor.Prelude.{ℕ, ◌+◌, Option, none, some, List, [], ◌∷◌, ◌++◌, ◌==◌, if◌then◌else◌}
use solar_monitor.Modbus.{high_byte, low_byte}

abbrev pub function_read : ℕ
function_read = 3

abbrev pub function_write : ℕ
function_write = 6

pub data Register : Type 0 where
  total_capacity voltage_current_soc temperature_state cell_voltage : Register

-- REG_ADDR; TotalCapacity has none, and 0 stands for that.
unfoldable pub reg_addr : Register → ℕ
reg_addr total_capacity = 0
reg_addr voltage_current_soc = 178
reg_addr temperature_state = 153
reg_addr cell_voltage = 136

unfoldable pub read_word : Register → ℕ
read_word total_capacity = 0
read_word voltage_current_soc = 6
read_word temperature_state = 7
read_word cell_voltage = 17

module _ (crc16 : List ℕ → ℕ) (device_id : ℕ) where
  -- The case of TotalCapacity behind the test of regAddr is never met.
  unfoldable pub request_body : Register → List ℕ
  unfolding reg_addr read_word
  request_body cmd = device_id ∷ function_read ∷ 19 ∷ reg_addr cmd ∷ 0 ∷ read_word cmd ∷ []

  unfoldable pub create_poll_request : Register → Option (List ℕ)
  create_poll_request cmd =
      let crc = crc16 (request_body cmd) in
      if reg_addr cmd == 0
      then none
      else some (request_body cmd ++ (low_byte crc ∷ high_byte crc ∷ []))

  -- the branch of a count
  unfoldable pub data_of : ℕ → Option (List ℕ)
  data_of count =
      let data1 = if count == 1 then create_poll_request total_capacity else none in
      if count == 3
      then create_poll_request voltage_current_soc
      else if count == 5
      then create_poll_request cell_voltage
      else if count == 6
      then create_poll_request voltage_current_soc
      else if count == 7
      then create_poll_request temperature_state
      else if count == 9
      then create_poll_request voltage_current_soc
      else if count == 11
      then create_poll_request voltage_current_soc
      else if count == 13
      then create_poll_request voltage_current_soc
      else if count == 15
      then create_poll_request voltage_current_soc
      else data1

  -- pollRequest: the new poll_loop_count, and the request
  unfoldable pub poll_request : ℕ → ℕ × Option (List ℕ)
  unfolding data_of
  poll_request poll_loop_count =
      let count = poll_loop_count + 1 in (if count == 16 then 2 else count, data_of count)
