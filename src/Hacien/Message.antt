-- ===== src/Hacien/Message.antt =====
-- plugins/Hacien: what a message stores in the battery. A message that ends before a byte that is
-- read raises an IndexError, behind the assignments that were already made.
use solar_monitor.Prelude.{
  ℕ, ◌+◌, ◌-◌, ◌*◌, Bool, true, false, not, ◌&&◌, some, List, length, get_or, ltb, ◌==◌,
  if◌then◌else◌,
}
use solar_monitor.Prelude.Int.{pos, negsuc, sub_ℕ}
use solar_monitor.Numbers.{Real, real_num}
use solar_monitor.Device.Entities.{Entities}
use solar_monitor.Device.Setters.{
  temperature_celsius, battery_temperature_celsius, mcurrent, exp_capacity, mcapacity,
  charge_cycles, soc, mvoltage, put, put_cell,
}
use solar_monitor.Device.Getters.{getter}

-- What a call ends with: whether there is new data, or an IndexError.
pub data Outcome : Type 0 where
  returned : Bool → Outcome
  raised : Outcome

abbrev pub state_id : ℕ
state_id = 0x32

abbrev pub cells_id : ℕ
cells_id = 0x4c

-- message[i] * 256 + message[i + 1]
unfoldable pub word : List ℕ → ℕ → ℕ
word message i = get_or message i 0 * 256 + get_or message (i + 1) 0

-- The test in front of a cell's assignment.
unfoldable pub has_cell : List ℕ → ℕ → Bool
has_cell message i = not (get_or message (i + 3) 0 == 238) && not (get_or message (i + 4) 0 == 73)

module _ {ℓ} {N : Type ℓ} ⦃r : Real N⦄ where
  open r use {num}

  -- int((word - 380) / 10)
  unfoldable pub celsius_of : ℕ → N
  celsius_of raw =
      num.of_int (r.truncate (r.div (num.of_int (sub_ℕ raw 380)) (num.of_int (pos 10))))

  -- The current in mA: what is drawn counts against what is charged.
  unfoldable pub current_of : ℕ → ℕ → N
  current_of charge_current draw_current =
      if ltb 0 draw_current
      then num.mul (num.of_int (pos draw_current)) (num.of_int (negsuc 0))
      else num.of_int (pos charge_current)

  unfoldable pub put_temperature : List ℕ → Entities N → Entities N
  put_temperature message e = put temperature_celsius (celsius_of (word message 3)) e

  unfoldable pub put_current : List ℕ → Entities N → Entities N
  put_current message e =
      put mcurrent (current_of (word message 27 * 100) (word message 29 * 100)) e

  unfoldable pub put_exp_capacity : List ℕ → Entities N → Entities N
  put_exp_capacity message e =
      put exp_capacity (r.div (num.of_int (pos (word message 35))) (num.of_int (pos 100))) e

  unfoldable pub put_capacity : List ℕ → Entities N → Entities N
  put_capacity message e = put mcapacity (num.of_int (pos (word message 37 * 10))) e

  unfoldable pub put_rest : List ℕ → Entities N → Entities N
  put_rest message e =
      let e1 = put charge_cycles (num.of_int (pos (get_or message 42 0))) e in
      let e2 = put soc (num.of_int (pos (get_or message 32 0))) e1 in
      put battery_temperature_celsius (getter temperature_celsius e2) e2

  -- The branch of the state, with the length that each assignment needs.
  unfoldable pub handle_state : List ℕ → Entities N → Entities N × Outcome
  handle_state message e =
      let e1 = put_temperature message e in
      let e2 = put_current message e1 in
      let e3 = put_exp_capacity message e2 in
      let e4 = put_capacity message e3 in
      if ltb (length message) 31
      then (e1, raised)
      else if ltb (length message) 37
      then (e2, raised)
      else if ltb (length message) 39
      then (e3, raised)
      else if ltb (length message) 43
      then (e4, raised)
      else (put_rest message e4, returned true)

  -- The round of the loop for the cell that starts at i: cells are numbered from 1.
  unfoldable pub put_cell_at : List ℕ → ℕ → ℕ → Entities N → Entities N
  put_cell_at message cell i e =
      if has_cell message i then put_cell cell (num.of_int (pos (word message (i + 3)))) e else e

  unfoldable pub handle_cells : List ℕ → Entities N → Entities N × Outcome
  handle_cells message e =
      let e1 = put mvoltage (num.of_int (pos (word message (length message - 4) * 10))) e in
      let e2 = put_cell_at message 1 0 e1 in
      let e3 = put_cell_at message 2 2 e2 in
      let e4 = put_cell_at message 3 4 e3 in
      let e5 = put_cell_at message 4 6 e4 in (e5, returned true)

  -- The dictionary of the previous messages, which only the log reads, is not kept. The message is
  -- never empty here, and message[2] raises on one of two bytes.
  unfoldable pub handle_message : List ℕ → Entities N → Entities N × Outcome
  handle_message message e =
      let e0 = record e { msg = some message } in
      if ltb (length message) 3
      then (e, raised)
      else if ltb 10 (length message) && (get_or message 2 0 == state_id)
      then handle_state message e0
      else if ltb 10 (length message) && (get_or message 2 0 == cells_id)
      then handle_cells message e0
      else (e0, returned false)
