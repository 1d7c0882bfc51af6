-- ===== src/Meritsun/Message.antt =====
-- plugins/Meritsun: the end of a frame, its fields, and what a message stores in the device. The
-- attributes RevBuf, Revindex, end and prev_values, which only this code reads, are not kept.
use solar_monitor.Prelude.{
  ℕ, zero, suc, ◌+◌, ◌-◌, ◌*◌, Bool, true, false, not, ◌&&◌, ◌||◌, Option, none, some, List, [],
  ◌∷◌, length, take, drop, ltb, leb, ◌==◌, if◌then◌else◌,
}
use solar_monitor.Prelude.Int.{ℤ, pos, ltb_ℤ, leb_ℤ, eqb_ℤ}
use solar_monitor.Numbers.{Real, real_num, int_num}
use solar_monitor.Codec.{to_signed, uint32_wrap, int32_max}
use solar_monitor.AsciiHex.{field_value}
use solar_monitor.Device.Entities.{Entities}
use solar_monitor.Device.Setters.{
  Attribute, mvoltage, mcurrent, mcapacity, charge_cycles, soc, temperature, put, put_cell,
}

abbrev pub end_val : ℕ
end_val = 12

-- The loop of _frameEnd over packet[i:], with the end found so far. At most 122 bytes count.
unfoldable pub frame_end_from : ℕ → ℕ → List ℕ → ℕ
frame_end_from i end [] = end
frame_end_from i end (b ∷ bs) =
    frame_end_from (i + 1) (if b == end_val && ltb end 110 then i + 1 else end) bs

unfoldable pub frame_end : List ℕ → ℕ
unfolding frame_end_from
frame_end packet = frame_end_from 1 0 (drop 1 (take 122 packet))

-- 0-9 and A-F
unfoldable pub is_upper_hex : ℕ → Bool
is_upper_hex char = (leb 0x30 char && leb char 0x39) || (leb 0x41 char && leb char 0x46)

unfoldable pub all_upper_hex : List ℕ → Bool
unfolding is_upper_hex
all_upper_hex [] = true
all_upper_hex (c ∷ cs) = is_upper_hex c && all_upper_hex cs

unfoldable pub read_field : List ℕ → ℕ → ℕ → Option ℤ
unfolding all_upper_hex
read_field message start end =
    if leb (length message) end || not (all_upper_hex (take (end + 1 - start) (drop start message)))
    then none
    else some (field_value message (pos start) (pos end) (pos 0))

-- `value for value in ... if value is not None`, as a truth value
abbrev is_set : Option ℤ → Bool
is_set none = false
is_set (some value) = not (eqb_ℤ value (pos 0))

-- Is any field but the voltage set?
unfoldable pub any_set : List ℕ → Bool
any_set message =
    is_set (read_field message 8 15)
    || is_set (read_field message 16 23)
    || is_set (read_field message 24 27)
    || is_set (read_field message 28 31)
    || is_set (read_field message 32 35)
    || is_set (read_field message 36 37)

module _ {ℓ} {N : Type ℓ} ⦃r : Real N⦄ where
  open r use {num}

  abbrev pub put_int : Attribute → ℤ → Entities N → Entities N
  put_int a value e = put a (num.of_int value) e

  abbrev put_field : Attribute → Option ℤ → Entities N → Entities N
  put_field a none e = e
  put_field a (some value) e = put_int a value e

  abbrev put_current : Option ℤ → Entities N → Entities N
  put_current none e = e
  put_current (some value) e =
      put_int mcurrent (to_signed value (pos uint32_wrap) (pos int32_max)) e

  abbrev put_status : Option ℤ → Entities N → Entities N
  put_status none e = e
  put_status (some value) e = record e { status = some value }

  -- The loop over the cell slots from i on, with the number of rounds left.
  unfoldable pub put_cells : ℕ → ℕ → List ℕ → Entities N → Entities N
  put_cells zero i message e = e
  put_cells (suc rounds) i message e =
      let cell_mv = field_value message (pos (i * 4 + 44)) (pos (i * 4 + 47)) (pos 0) in
      let plausible = leb_ℤ (pos 1000) cell_mv && leb_ℤ cell_mv (pos 5000) in
      let rest =
        put_cells rounds (i + 1) message
          (if plausible then put_cell (i + 1) (num.of_int cell_mv) e else e) in
      if eqb_ℤ cell_mv (pos 0) then e else rest

  unfoldable pub put_full : Bool → List ℕ → Entities N → Entities N
  put_full false message e = e
  put_full true message e =
      put_cells 16 0 message
        (record e { afestatus = some (field_value message (pos 40) (pos 41) (pos 0)) })

  -- the assignments, in their order
  unfoldable pub store_message : List ℕ → Bool → ℤ → Entities N → Entities N
  store_message message full voltage e =
      let e1 = put_int mvoltage voltage (record e { msg = some message }) in
      let e2 = put_current (read_field message 8 15) e1 in
      let e3 = put_field mcapacity (read_field message 16 23) e2 in
      let e4 = put_field charge_cycles (read_field message 24 27) e3 in
      let e5 = put_field soc (read_field message 28 31) e4 in
      let e6 = put_field temperature (read_field message 32 35) e5 in
      let e7 = put_status (read_field message 36 37) e6 in put_full full message e7

  abbrev store_checked : List ℕ → Bool → Option ℤ → Entities N → Entities N × Bool
  store_checked message full none e = (e, false)
  store_checked message full (some voltage) e =
      if ltb_ℤ voltage (pos 1000) || not (any_set message)
      then (e, false)
      else (store_message message full voltage e, true)

  unfoldable pub handle_message : List ℕ → Bool → Entities N → Entities N × Bool
  handle_message message full e =
      if ltb (length message) 38
      then (e, false)
      else store_checked message full (read_field message 0 7) e
