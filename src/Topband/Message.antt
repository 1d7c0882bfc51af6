-- ===== src/Topband/Message.antt =====
-- plugins/Topband: what a message stores in the battery.
use solar_monitor.Prelude.{
  ℕ, zero, suc, ◌+◌, ◌*◌, Bool, true, false, some, List, length, ltb, if◌then◌else◌,
}
use solar_monitor.Prelude.Int.{ℤ, pos}
use solar_monitor.Numbers.{Real, real_num, int_num}
use solar_monitor.Codec.{to_signed, uint32_wrap, int32_max}
use solar_monitor.AsciiHex.{field_value}
use solar_monitor.Device.Entities.{Entities}
use solar_monitor.Device.Setters.{
  Attribute, mvoltage, mcurrent, mcapacity, charge_cycles, soc, temperature, put, put_cell,
}

-- asciihex.field_value(message, start, end)
abbrev pub field : List ℕ → ℕ → ℕ → ℤ
field message start end = field_value message (pos start) (pos end) (pos 0)

module _ {ℓ} {N : Type ℓ} ⦃r : Real N⦄ where
  open r use {num}

  abbrev pub put_int : Attribute → ℤ → Entities N → Entities N
  put_int a value e = put a (num.of_int value) e

  -- The loop over the cells from i on, with the number of rounds left.
  unfoldable pub put_cells : ℕ → ℕ → List ℕ → Entities N → Entities N
  put_cells zero i message e = e
  put_cells (suc rounds) i message e =
      put_cells rounds (i + 1) message
        (put_cell (i + 1) (num.of_int (field message (i * 4 + 44) (i * 4 + 47))) e)

  -- the assignments, in their order
  unfoldable pub store_message : List ℕ → Entities N → Entities N
  store_message message e =
      let e1 = put_int mvoltage (field message 0 7) (record e { msg = some message }) in
      let e2 =
        put_int mcurrent (to_signed (field message 8 15) (pos uint32_wrap) (pos int32_max)) e1 in
      let e3 = put_int mcapacity (field message 16 23) e2 in
      let e4 = put_int charge_cycles (field message 24 27) e3 in
      let e5 = put_int soc (field message 28 31) e4 in
      let e6 = put_int temperature (field message 32 35) e5 in
      let e7 = record e6 { status = some (field message 36 37) } in
      let e8 = record e7 { afestatus = some (field message 40 41) } in put_cells 16 0 message e8

  unfoldable pub handle_message : List ℕ → Entities N → Entities N × Bool
  handle_message message e =
      if ltb (length message) 38 then (e, false) else (store_message message e, true)
