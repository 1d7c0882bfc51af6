-- ===== src/Modbus.antt =====
-- modbus.py: Modbus RTU framing. `libscrc.modbus`, a library function, is the parameter `crc16`.
pub mod Frames
use solar_monitor.Prelude.{
  ℕ, suc, ◌+◌, ◌-◌, ◌*◌, ◌/◌, ◌%◌, ◌<◌, Bool, true, false, not, Option, none, some, List, [], ◌∷◌,
  ◌++◌, length, take, get_or, ltb, leb, ◌==◌, if◌then◌else◌, String,
}
use solar_monitor.Prelude.Int.{ℤ, pos, negsuc, pos_part, ltb_ℤ, ◌+ℤ◌}
use solar_monitor.Prelude.Bytes.{slice, le_value, be_from}
use solar_monitor.Prelude.Text.{codes}

abbrev pub function_write_response : ℕ
function_write_response = 6

abbrev pub header_bytes : ℕ
header_bytes = 3

abbrev pub crc_bytes : ℕ
crc_bytes = 2

unfoldable pub bytes_to_int : List ℕ → ℤ → ℤ → ℕ
bytes_to_int frame offset len =
    if ltb_ℤ (pos (length frame)) (offset +ℤ len)
    then 0
    else if ltb_ℤ (pos 0) len
    then be_from 0 (slice frame offset (offset +ℤ len))
    else le_value (slice frame (offset +ℤ len +ℤ pos 1) (offset +ℤ pos 1))

-- value >> 8, masked to a byte
unfoldable pub high_byte : ℕ → ℕ
high_byte value = value / 256 % 256

unfoldable pub low_byte : ℕ → ℕ
low_byte value = value % 256

-- `{0:02x}`: two lower-case hex digits, for a byte
unfoldable pub hex_lower : ℕ → ℕ
hex_lower d = if ltb d 10 then b'0' + d else 87 + d

-- The payload is text in ASCII. `response[0]` of an empty response is an IndexError, `none`.
unfoldable pub ack_payload : List ℕ → Option (List ℕ)
unfolding hex_lower
ack_payload [] = none
ack_payload (b ∷ rest) =
    some (codes "main recv da ta[" ++ (hex_lower (b / 16) ∷ hex_lower (b % 16) ∷ codes "] ["))

module _ (crc16 : List ℕ → ℕ) where
  -- `None` is `none`; an index below the length that was tested is always there.
  unfoldable pub validate_frame : Option (List ℕ) → Bool
  validate_frame none = false
  validate_frame (some frame) =
      if ltb (length frame) (header_bytes + crc_bytes)
      then false
      else if get_or frame 1 0 == function_write_response
      then true
      else if not (length frame - (header_bytes + crc_bytes) == get_or frame 2 0)
      then false
      else (crc16 (slice frame (pos 0) (negsuc 1))
          == bytes_to_int frame (pos (length frame - 1)) (negsuc 1))
