-- ===== src/VeDirect.antt =====
-- plugins/VEDirect: the values of an inverter, the requests that switch it, and the packets that
-- keep a session alive. The pauses between the packets of a session are not kept.
pub mod Records
pub mod Session
use solar_monitor.Prelude.{
  ℕ, zero, suc, ◌+◌, ◌-◌, ◌*◌, ◌/◌, ◌%◌, ◌^◌, String, Bool, true, false, not, ◌&&◌, Option, none,
  some, List, [], ◌∷◌, ◌++◌, length, take, drop, get_or, ltb, leb, ◌==◌, if◌then◌else◌, str_eq,
}
use solar_monitor.Prelude.Int.{ℤ, pos, sub_ℕ, eqb_ℤ}
use solar_monitor.Prelude.Bytes.{le_value}
use solar_monitor.Numbers.{Real, real_num}
use solar_monitor.Device.Entities.{Entities}
use solar_monitor.Device.Setters.{Attribute, voltage, input_voltage, current, put}
use solar_monitor.Device.Getters.{getter, set_power_switch}

-- value[from:from + 2], little-endian
abbrev pub word_at : List ℕ → ℕ → ℕ
word_at value from = le_value (take 2 (drop from value))

-- int(str(byte), 16): the decimal digits of a byte, read as hexadecimal ones
unfoldable pub decimal_as_hex : ℕ → ℕ
decimal_as_hex byte = 256 * (byte / 100) + 16 * (byte / 10 % 10) + byte % 10

-- A current above 2^15 stands for a negative one.
unfoldable pub signed_current : ℕ → ℤ
signed_current pval = if ltb (2 ^ 15) pval then sub_ℕ pval (2 ^ 16) else pos pval

-- The device, and what changes of its switch put on the queue.
abbrev pub Device {ℓ} : Type ℓ → Type ℓ
Device N = Entities N × List N

module _ {ℓ} {N : Type ℓ} ⦃r : Real N⦄ where
  open r use {num}

  abbrev pub write : Attribute → N → Device N → Device N
  write a value (e, pushed) = (put a value e, pushed)

  abbrev pub add_pushed : List N → Entities N × Option N → Device N
  add_pushed pushed (e, none) = (e, pushed)
  add_pushed pushed (e, some value) = (e, pushed ++ (value ∷ []))

  abbrev pub switch : ℕ → Device N → Device N
  switch value (e, pushed) = add_pushed pushed (set_power_switch (num.of_int (pos value)) e)

  -- pval * 0.01 and pval * 0.1
  abbrev pub hundredths : ℤ → N
  hundredths pval = num.mul (num.of_int pval) (r.decimal (pos 1) 2)

  abbrev pub tenths : ℤ → N
  tenths pval = num.mul (num.of_int pval) (r.decimal (pos 1) 1)

  unfoldable pub set_output_voltage : ℕ → Device N → Device N
  set_output_voltage pval d =
      let d1 = write voltage (hundredths (pos pval)) d in
      let low = num.lt (getter voltage d1.0) (num.of_int (pos 1)) in
      let d2 = if low then write voltage (num.of_int (pos 0)) d1 else d1 in
      if ltb 10000 pval then switch 1 d2 else d2

  unfoldable pub set_output_current : ℕ → Device N → Device N
  set_output_current pval d =
      if pval == 0
      then write current (num.of_int (pos 0)) d
      else if pval == 65535
      then d
      else if pval == 65534
      then switch 1 d
      else if pval == 65533
      then write current (num.of_int (pos 0)) d
      else write current (tenths (pos pval)) d

  -- eight bytes
  unfoldable pub set_record : ℕ → ℕ → Device N → Device N
  unfolding signed_current set_output_voltage set_output_current
  set_record ptype pval d =
      if ptype == 34
      then set_output_voltage pval d
      else if ptype == 36333
      then write input_voltage (hundredths (pos pval)) d
      else if ptype == 36845
      then write current (tenths (signed_current pval)) d
      else if ptype == 290
      then set_output_current pval d
      else d

  -- seven bytes
  unfoldable pub set_switch : ℕ → ℕ → Device N → Device N
  set_switch ptype pval d =
      if ptype == 0
      then (if pval == 2
          then switch 1 d
          else if pval == 4
          then switch 0 d
          else if pval == 5
          then switch 1 d
          else d)
      else if ptype == 1
      then (if pval == 0
          then switch 0 d
          else if pval == 1
          then switch 1 d
          else if pval == 9
          then switch 1 d
          else d)
      else d

  unfoldable pub set_values : List ℕ → Device N → Device N
  unfolding set_record set_switch decimal_as_hex
  set_values value d =
      if length value == 8
      then set_record (word_at value 3) (word_at value 6) d
      else if length value == 7
      then set_switch (decimal_as_hex (get_or value 4 0)) (decimal_as_hex (get_or value 6 0)) d
      else d

  -- The loop over the buffer, with the number of rounds left.
  unfoldable pub set_records : ℕ → List ℕ → Device N → Device N
  set_records zero buffer d = d
  set_records (suc rounds) buffer d =
      let rest = set_records rounds (drop 8 buffer) (set_values (take 8 buffer) d) in
      if leb 8 (length buffer) then rest else d

  -- A packet of the bulk characteristic, with self._char_buffer.
  unfoldable pub set_bulk_values : List ℕ → List ℕ × Device N → List ℕ × Device N
  unfolding set_records
  set_bulk_values value (char_buffer, d) =
      let buffer = if word_at value 0 == 776 then value else char_buffer ++ value in
      if ltb 20 (length buffer) then ([], set_records (length buffer) buffer d) else (buffer, d)

  -- Both other characteristics carry single records.
  unfoldable pub notification_update : List ℕ → String → List ℕ × Device N → List ℕ × Device N
  unfolding set_bulk_values set_values
  notification_update value char (char_buffer, d) =
      if str_eq char "306b0004-b081-4037-83dc-e59fcc3cdfd0"
      then set_bulk_values value (char_buffer, d)
      else (char_buffer, set_values value d)
