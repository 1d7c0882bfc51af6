-- ===== src/SolarLink/Responses.antt =====
-- plugins/SolarLink: what a response does.
use solar_monitor.Prelude.{
  ℕ, ◌+◌, ◌*◌, ◌≡◌, refl, ap, ◌∙◌, Bool, true, false, Option, none, some, List, [], ◌∷◌, ◌++◌,
  length, arith, ◌==◌, if◌then◌else◌, length-append, ==_iff, ◌&&◌, Bool-cases, inl, inr, get_or,
}
use solar_monitor.Numbers.{Real, real_num}
use solar_monitor.Modbus.{validate_frame}
use solar_monitor.Modbus.Frames.{response, validate_frame-response}
use solar_monitor.Device.Entities.{Entities}
use solar_monitor.SolarLink.{read_word}
use solar_monitor.SolarLink.Update.{
  Settings, update_param_setting_data, update_battery_param_info, update_solar_panel_info,
  update_solar_panel_and_battery_state, dispatch_read, notification_update,
}

-- A settings response that arrives whole is stored in the buffer and never decoded: the decoder
-- waits for a length that counts the three header bytes, which the buffer leaves out.
pub update_param_setting_data-whole :
    (payload : List ℕ) (low high : ℕ) (s : Settings)
    → let after = update_param_setting_data (response 255 3 (length payload) payload low high) s in
      (after.param_data ≡ []) × (after.param_buffer ≡ payload ++ (low ∷ high ∷ []))
unfolding update_param_setting_data
update_param_setting_data-whole payload low high s =
    let size : (length (payload ++ (low ∷ high ∷ [])) == length payload + 3 + 2) ≡ false =
      ground (arith, length-append payload (low ∷ high ∷ [])) in
    (rw size, rw size)

module _ {ℓ} {N : Type ℓ} ⦃r : Real N⦄ where
  -- what the length byte of a response to a read stands for
  abbrev pub outcome : ℕ → List ℕ → Settings → Entities N → Settings × Entities N × Option N × Bool
  outcome len frame s e =
      if len == 14
      then (s, update_battery_param_info frame e, none, true)
      else if len == 8
      then (s, (update_solar_panel_info frame e).0, (update_solar_panel_info frame e).1, true)
      else if len == 66
      then (update_param_setting_data frame s, e, none, true)
      else (s, e, none, true)

  dispatch_read-cases :
      (len : ℕ) (frame : List ℕ) (s : Settings) (e : Entities N)
      → get_or frame 2 0 ≡ len
      → let read = dispatch_read frame s e in (read.0, read.1, read.2, true) ≡ outcome len frame s e
  unfolding dispatch_read read_word update_solar_panel_and_battery_state
  dispatch_read-cases len frame s e h = rw h (elim (Bool-cases (len == 14)) [
    | inl p ↦ rw ((==_iff len 14).0 p)
    | inr p ↦ elim (Bool-cases (len == 8)) [
      | inl q ↦ rw ((==_iff len 8).0 q)
      | inr q ↦ elim (Bool-cases (len == 66)) [
        | inl t ↦ rw ((==_iff len 66).0 t)
        | inr t ↦ elim (Bool-cases (len == 6)) [
          | inl u ↦ rw ((==_iff len 6).0 u)
          | inr u ↦ rw (p, q, t, u)
        ]
      ]
    ]
  ])

  module _ (crc16 : List ℕ → ℕ) (device_id : ℕ) where
    -- A response to a read of the device, with the right length and CRC, does what its length byte
    -- stands for and nothing else: the battery's readings, the panel's readings and the switch, the
    -- settings, or nothing. The plugin reports new data each time.
    pub notification_update-read :
        (payload : List ℕ) (low high : ℕ) (s : Settings) (e : Entities N)
        → crc16 (device_id ∷ 3 ∷ length payload ∷ payload) ≡ low + 256 * high
        → let frame = response device_id 3 (length payload) payload low high in
          notification_update crc16 device_id (some frame) s e ≡ outcome (length payload) frame s e
    unfolding notification_update
    notification_update-read payload low high s e h =
        let frame = response device_id 3 (length payload) payload low high in
        let same : (n : ℕ) → (n == n) ≡ true = λ n. (==_iff n n).1 refl in
        let valid : validate_frame crc16 (some frame) ≡ true =
          validate_frame-response crc16 device_id 3 (length payload) payload low high (omega arith)
          ∙ ap (λ b. b && (crc16 (device_id ∷ 3 ∷ length payload ∷ payload) == low + 256 * high))
              (same (length payload))
          ∙ (==_iff (crc16 (device_id ∷ 3 ∷ length payload ∷ payload)) (low + 256 * high)).1 h in
        rw (valid, same device_id) (dispatch_read-cases (length payload) frame s e refl)

    -- A frame that modbus.py refuses, or none at all, changes nothing and is no new data.
    notification_update-invalid :
        (value : Option (List ℕ)) (s : Settings) (e : Entities N)
        → validate_frame crc16 value ≡ false
        → notification_update crc16 device_id value s e ≡ (s, e, none, false)
    unfolding notification_update
    notification_update-invalid none s e h = refl
    notification_update-invalid (some value) s e h = rw h
