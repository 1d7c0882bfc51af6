-- ===== src/SolarLink/Requests.antt =====
-- plugins/SolarLink: the layout of a request, and the cycle of polls.
use solar_monitor.Prelude.{
  ℕ, zero, suc, ◌+◌, ◌-◌, ◌*◌, ◌%◌, ◌^◌, ◌<◌, ◌≡◌, refl, ◌∙◌, Option, none, some, List, [], ◌∷◌,
  length, take, arith, ◌==◌, if◌then◌else◌,
}
use solar_monitor.Prelude.Int.{pos, negsuc}
use solar_monitor.Prelude.Bytes.{be_from}
use solar_monitor.Modbus.{bytes_to_int, high_byte, low_byte}
use solar_monitor.Modbus.Frames.{bytes_to_int-forward, crc-tail}
use solar_monitor.SolarLink.{
  Request, solar_panel_and_battery_state, battery_param_info, solar_panel_info, param_setting_data,
  regulator_power_on, regulator_power_off, reg_addr, read_word, function_of, request_body,
  create_poll_request, poll_request,
}

two_bytes : (v : ℕ) → v < 2 ^ 16 → be_from 0 (high_byte v ∷ low_byte v ∷ []) ≡ v
unfolding be_from high_byte low_byte
two_bytes v h = omega arith

reg_addr-lt : (cmd : Request) → reg_addr cmd < 2 ^ 16
unfolding reg_addr
reg_addr-lt solar_panel_and_battery_state = omega arith
reg_addr-lt battery_param_info = omega arith
reg_addr-lt solar_panel_info = omega arith
reg_addr-lt param_setting_data = omega arith
reg_addr-lt regulator_power_on = omega arith
reg_addr-lt regulator_power_off = omega arith

read_word-lt : (cmd : Request) → read_word cmd < 2 ^ 16
unfolding read_word
read_word-lt solar_panel_and_battery_state = omega arith
read_word-lt battery_param_info = omega arith
read_word-lt solar_panel_info = omega arith
read_word-lt param_setting_data = omega arith
read_word-lt regulator_power_on = omega arith
read_word-lt regulator_power_off = omega arith

low-high : (crc : ℕ) → crc < 2 ^ 16 → low_byte crc + 256 * high_byte crc ≡ crc
unfolding low_byte high_byte
low-high crc h = omega arith

module _ (crc16 : List ℕ → ℕ) (device_id : ℕ) where
  -- Every request reads back as what it asks for: the address and the function in front, the
  -- register address at byte 2, the count or value at byte 4, and the CRC of the six bytes before
  -- in the last two, if the CRC has 16 bits. This is how a regulator and modbus.py read a frame.
  pub create_poll_request-fields :
      (cmd : Request)
      → crc16 (request_body device_id cmd) < 2 ^ 16
      → let frame = create_poll_request crc16 device_id cmd in
        (take 2 frame ≡ device_id ∷ function_of cmd ∷ [])
        × (bytes_to_int frame (pos 2) (pos 2) ≡ reg_addr cmd)
        × (bytes_to_int frame (pos 4) (pos 2) ≡ read_word cmd)
        × (bytes_to_int frame (pos (length frame - 1)) (negsuc 1) ≡ crc16 (take 6 frame))
  unfolding create_poll_request request_body
  create_poll_request-fields cmd h =
      let a = reg_addr cmd in
      let w = read_word cmd in
      let f = function_of cmd in
      let crc = crc16 (request_body device_id cmd) in
      let tail = low_byte crc ∷ high_byte crc ∷ [] in
      (
        refl,
        bytes_to_int-forward (device_id ∷ f ∷ []) (high_byte a) (low_byte a ∷ [])
              (high_byte w ∷ low_byte w ∷ tail)
            ∙ two_bytes a (reg_addr-lt cmd),
        bytes_to_int-forward (device_id ∷ f ∷ high_byte a ∷ low_byte a ∷ []) (high_byte w)
              (low_byte w ∷ []) tail
            ∙ two_bytes w (read_word-lt cmd),
        crc-tail (request_body device_id cmd) (low_byte crc) (high_byte crc) ∙ low-high crc h,
      )

  -- n polls from a count on: the requests that they send
  unfoldable pub polls : ℕ → ℕ → List (Option (List ℕ))
  polls zero count = []
  polls (suc n) count = let step = poll_request crc16 device_id count in step.1 ∷ polls n step.0

  -- What the k-th poll since the start asks for: each register once in ten polls.
  unfoldable pub due : ℕ → Option (List ℕ)
  due k =
      if k % 10 == 0
      then some (create_poll_request crc16 device_id battery_param_info)
      else if k % 10 == 2
      then some (create_poll_request crc16 device_id solar_panel_info)
      else if k % 10 == 4
      then some (create_poll_request crc16 device_id solar_panel_and_battery_state)
      else none

  unfoldable pub scheduled : ℕ → ℕ → List (Option (List ℕ))
  scheduled zero k = []
  scheduled (suc n) k = due k ∷ scheduled n (k + 1)

  next_count : (k : ℕ) → (poll_request crc16 device_id (k % 10)).0 ≡ (k + 1) % 10
  unfolding poll_request
  next_count k = ground arith

  request_due : (k : ℕ) → (poll_request crc16 device_id (k % 10)).1 ≡ due k
  unfolding poll_request due
  request_due k = ground arith

  -- The polls from the k-th on follow the schedule for ever: the register of the battery at every
  -- tenth poll, the panel's two polls later, the state's four polls later, and nothing in between.
  polls-scheduled : (n k : ℕ) → polls n (k % 10) ≡ scheduled n k
  unfolding polls scheduled
  polls-scheduled zero k = refl
  polls-scheduled (suc n) k = rw (request_due k, next_count k, polls-scheduled n (k + 1))
