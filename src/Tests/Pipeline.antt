-- ===== src/Tests/Pipeline.antt =====
-- From a notification to the queue, and from a switch to the writes, at concrete inputs.
use solar_monitor.Prelude.{
  ℕ, ◌+◌, ◌-◌, ◌*◌, ◌≡◌, refl, String, Bool, true, ◌&&◌, none, some, List, [], ◌∷◌, ◌++◌, map,
  length, take, replicate, leb, ◌==◌, if◌then◌else◌, arith,
}
use solar_monitor.Prelude.Bytes.{All, IsByte, le_value}
use solar_monitor.Prelude.Dict.{lookup}
use solar_monitor.Numbers.{real_num}
use solar_monitor.Prelude.Text.{ends_with}
use solar_monitor.AsciiHex.Encode.{encode, hex_char}
use solar_monitor.AsciiHex.Checksum.{total, framed}
use solar_monitor.Device.Entities.{new_entities, battery}
use solar_monitor.Device.Notify.{
  Plugin, Served, Uuid, commands, Reading, readings, notify_callback, run_command,
}
use solar_monitor.Meritsun.{Decoder, Util}
use solar_monitor.Meritsun.Message.{end_val}
use solar_monitor.Meritsun.Stream.{is_marker, read_bytes}
use solar_monitor.Meritsun.Frames.{behind}
use solar_monitor.Meritsun.Layout.{Layout, payload, voltage, others}
use solar_monitor.Meritsun.Readings.{assigned}
use solar_monitor.Commands.{Bridge, drain_device, receive}
use solar_monitor.DataLogger.Configs.{Naming, switch_fields}
use solar_monitor.DataLogger.Topics.{with_slash, command_topic}
use solar_monitor.Pipeline.{meritsun_plugin, solar_link_commands}
use solar_monitor.Pipeline.Frames.{notify_callback-frame}
use solar_monitor.Pipeline.Switch.{payload_of, switched, switch-writes}
use solar_monitor.Tests.Milli.{Milli, milli_real}
use solar_monitor.Tests.Payload.{layout, layout-AllBytes}

-- the readings of the battery, and 33 bytes of zeros behind them
abbrev whole : Layout
whole = record layout { rest = replicate 33 0 }

abbrev decoder : Decoder Milli
decoder = record { frames_ok = 0; frames_bad = 0; entities = new_entities battery }

abbrev frame : List ℕ
frame = framed 146 (payload whole) 4 3 (end_val ∷ [])

abbrev served : Served Milli (Util Milli)
served = record {
  plugin_state = record { stream = frame; decoder = decoder };
  has_client = true;
  queue = ([], 0);
  writes = [];
}

abbrev any_uuid : Uuid → Bool
any_uuid uuid = true

frame_pending : read_bytes [] frame ≡ ([], frame)
unfolding read_bytes is_marker encode hex_char
frame_pending = refl

payload_bytes : All IsByte (payload whole)
payload_bytes = omega arith

notify_callback-frame_example :
    let message = encode (payload whole) ++ behind (payload whole) 4 3 [] in
    let new =
      (total (payload whole) == 4 * 256 + 3)
      && (leb 1000 (le_value (voltage whole)) && leb 1 (others whole)) in
    let stored = assigned whole message (leb (length frame) 130) decoder.entities in
    let items : List (Reading Milli) = if new then readings (λ name. none) stored else [] in
    (notify_callback (meritsun_plugin Milli) any_uuid 100 (146 ∷ []) served).queue
    ≡ ([] ++ take (100 - 0) items, 0 + (length items - (100 - 0)))
notify_callback-frame_example =
    notify_callback-frame any_uuid 100 whole 146 4 3 146 [] [] decoder served refl frame_pending
      (unfold is_marker in refl) (unfold read_bytes in refl) (unfold encode in omega arith)
      payload_bytes layout-AllBytes (omega arith) (omega arith) (omega arith) (omega arith)
      (omega arith) (omega arith)

-- a stand-in for the CRC
abbrev no_crc : List ℕ → ℕ
no_crc bytes = 0

-- a regulator, whose state does not matter here
abbrev regulator : Plugin Milli (Util Milli)
regulator = record (meritsun_plugin Milli) { cmd_request = some (solar_link_commands no_crc 255) }

abbrev naming : Naming
naming = record { prefix = "solar-monitor/"; device_types = []; aliases = [] }

abbrev bridge : Bridge
bridge = record { sets = []; submitted = [] }

abbrev topic : String
topic = "solar-monitor/regulator/power_switch/set"

switch-writes_example :
    ((drain_device "regulator" (receive topic (payload_of true) bridge)).submitted
      ≡ [] ++ ("regulator", ("power_switch", payload_of true)) ∷ [])
    × ((run_command regulator any_uuid 100 "power_switch" (payload_of true) served).writes
        ≡ [] ++ map (λ v. (commands, v)) (switched no_crc 255 true))
switch-writes_example =
    switch-writes regulator any_uuid 100 no_crc 255 "solar-monitor" "regulator" topic true naming
      bridge served (unfold with_slash ends_with in refl) (omega arith)
      (unfold lookup switch_fields command_topic in refl) (unfold lookup in refl) refl refl refl
