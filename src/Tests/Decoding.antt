-- ===== src/Tests/Decoding.antt =====
-- codec.py, asciihex.py, modbus.py and plugins/SolarLink at concrete inputs.
use solar_monitor.Prelude.{
  ℕ, ◌+◌, ◌-◌, ◌*◌, ◌^◌, ◌%◌, ◌≡◌, ◌&&◌, some, List, [], ◌∷◌, ◌++◌, length, take, ◌==◌, arith,
}
use solar_monitor.Prelude.Int.{pos, negsuc}
use solar_monitor.Numbers.{int_num, real_num}
use solar_monitor.Modbus.{bytes_to_int, validate_frame}
use solar_monitor.Modbus.Frames.{response, validate_frame-response}
use solar_monitor.SolarLink.{
  solar_panel_info, reg_addr, read_word, function_of, request_body, create_poll_request,
}
use solar_monitor.SolarLink.Requests.{create_poll_request-fields}
use solar_monitor.SolarLink.Update.{no_settings, update_param_setting_data}
use solar_monitor.SolarLink.Responses.{update_param_setting_data-whole}
use solar_monitor.Tests.Milli.{milli_real}

-- a stand-in for the CRC
abbrev sum16 : List ℕ → ℕ
sum16 [] = 0
sum16 (b ∷ bs) = (b + sum16 bs) % 2 ^ 16

validate_frame-response_example :
    validate_frame sum16 (some (response 255 3 2 (1 ∷ 44 ∷ []) 49 1))
    ≡ (length {A = ℕ} (1 ∷ 44 ∷ []) == 2 && sum16 (255 ∷ 3 ∷ 2 ∷ 1 ∷ 44 ∷ []) == 49 + 256 * 1)
validate_frame-response_example =
    validate_frame-response sum16 255 3 2 (1 ∷ 44 ∷ []) 49 1 (omega arith)

create_poll_request-fields_example :
    let frame = create_poll_request sum16 255 solar_panel_info in
    (take 2 frame ≡ 255 ∷ function_of solar_panel_info ∷ [])
    × (bytes_to_int frame (pos 2) (pos 2) ≡ reg_addr solar_panel_info)
    × (bytes_to_int frame (pos 4) (pos 2) ≡ read_word solar_panel_info)
    × (bytes_to_int frame (pos (length frame - 1)) (negsuc 1) ≡ sum16 (take 6 frame))
unfolding create_poll_request request_body
create_poll_request-fields_example =
    create_poll_request-fields sum16 255 solar_panel_info (omega arith)

update_param_setting_data-whole_example :
    let after = update_param_setting_data (response 255 3 2 (0 ∷ 15 ∷ []) 7 8) no_settings in
    (after.param_data ≡ []) × (after.param_buffer ≡ (0 ∷ 15 ∷ []) ++ (7 ∷ 8 ∷ []))
update_param_setting_data-whole_example =
    update_param_setting_data-whole (0 ∷ 15 ∷ []) 7 8 no_settings

-- 29.4 V, 1.5 A, 44 W and the switch on, from the panel
abbrev panel : List ℕ
panel = 1 ∷ 38 ∷ 0 ∷ 150 ∷ 0 ∷ 44 ∷ 0 ∷ 1 ∷ []
