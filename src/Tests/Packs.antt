-- ===== src/Tests/Packs.antt =====
-- plugins/Hacien, plugins/Topband and plugins/RenogyBatt, and the queue of solardevice.py, at concrete
-- inputs.
use solar_monitor.Prelude.{ℕ, ◌≡◌, refl, false, ◌&&◌, List, [], ◌∷◌, ◌++◌, ◌==◌, arith}
use solar_monitor.Prelude.Bytes.{All, IsByte}
use solar_monitor.Numbers.{real_num}
use solar_monitor.Modbus.{low_byte, high_byte}
use solar_monitor.Device.Entities.{new_entities, battery}
use solar_monitor.Hacien.Crc.{
  validate, modbus_crc, crc_from, add_byte, shift_bits, shift_bit, validate-two, validate-damaged,
}
use solar_monitor.Hacien.Message.{returned, handle_message}
use solar_monitor.Hacien.{starts_message}
use solar_monitor.Hacien.Joined.{receive, joined, receive-joined}
use solar_monitor.Hacien.{Util as HacienUtil}
use solar_monitor.Tests.Milli.{Milli, milli_real}

-- a poll, without its CRC
abbrev poll : List ℕ
poll = 0x01 ∷ 0x03 ∷ 0xd0 ∷ 0x00 ∷ 0x00 ∷ 0x26 ∷ []

poll-bytes : All IsByte poll
poll-bytes =
    (omega arith, (omega arith, (omega arith, (omega arith, (omega arith, (omega arith, tt))))))

validate-two_example :
    validate (poll ++ (0xfc ∷ 0xd0 ∷ []))
    ≡ (0xfc == low_byte (modbus_crc poll)) && (0xd0 == high_byte (modbus_crc poll))
validate-two_example = validate-two poll 0xfc 0xd0 poll-bytes (omega arith) (omega arith)

validate-damaged_example :
    validate ((0x01 ∷ 0x03 ∷ []) ++ 0xd1 ∷ (0x00 ∷ 0x00 ∷ 0x26 ∷ 0xfc ∷ 0xd0 ∷ [])) ≡ false
unfolding validate modbus_crc crc_from add_byte shift_bits shift_bit
validate-damaged_example =
    validate-damaged (0x01 ∷ 0x03 ∷ []) (0x00 ∷ 0x00 ∷ 0x26 ∷ 0xfc ∷ 0xd0 ∷ []) 0xd0 0xd1
      (omega arith, (omega arith, tt))
      (omega arith, (omega arith, (omega arith, (omega arith, (omega arith, tt))))) (omega arith)
      (omega arith) (λ e. omega (arith, e)) refl

abbrev hacien : HacienUtil Milli
hacien = record { buffer = 9 ∷ []; entities = new_entities battery }

-- a response of the size of a poll, in two parts
abbrev second_part : List ℕ
second_part = 0x00 ∷ 0x00 ∷ 0x26 ∷ 0xfc ∷ 0xd0 ∷ []

receive-joined_example :
    let whole = joined (1 ∷ 3 ∷ 0xd0 ∷ []) (second_part ∷ []) in
    let handled = handle_message whole hacien.entities in
    receive ((1 ∷ 3 ∷ 0xd0 ∷ []) ∷ second_part ∷ []) (hacien, returned false)
    ≡ (record { buffer = whole; entities = handled.0 }, handled.1)
unfolding validate modbus_crc crc_from add_byte shift_bits shift_bit starts_message
receive-joined_example =
    receive-joined (0xd0 ∷ []) (second_part ∷ []) hacien (returned false) (refl, tt) (refl, tt) refl
