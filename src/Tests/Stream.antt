-- ===== src/Tests/Stream.antt =====
-- plugins/Meritsun and plugins/VEDirect at concrete inputs.
use solar_monitor.Prelude.{
  max, ◌≤◌, ℕ, zero, suc, ◌+◌, ◌*◌, ◌≡◌, ◌≢◌, refl, false, ◌||◌, List, [], ◌∷◌, ◌++◌, length,
  replicate, leb, ◌==◌, if◌then◌else◌, arith,
}
use solar_monitor.Prelude.Bytes.{All, le_value}
use solar_monitor.Numbers.{real_num}
use solar_monitor.AsciiHex.Encode.{encode}
use solar_monitor.AsciiHex.Checksum.{total, framed}
use solar_monitor.Device.Entities.{new_entities, battery, inverter}
use solar_monitor.Meritsun.{Decoder, Util, handle_data_packet, notification_update}
use solar_monitor.Meritsun.Message.{end_val, handle_message}
use solar_monitor.Meritsun.Stream.{is_marker, read_bytes}
use solar_monitor.Meritsun.Chunks.{notification_update-append}
use solar_monitor.Meritsun.Buffer.{length-notification_update}
use solar_monitor.Meritsun.Frames.{behind, handle_data_packet-framed}
use solar_monitor.VeDirect.{Device, set_bulk_values}
use solar_monitor.VeDirect.Records.{concat, set_each, set_bulk_values-each}
use solar_monitor.Tests.Milli.{Milli, milli_real}
use solar_monitor.Tests.Payload.{zeros_bytes}

abbrev decoder : Decoder Milli
decoder = record { frames_ok = 0; frames_bad = 0; entities = new_entities battery }

abbrev util : Util Milli
util = record { stream = 146 ∷ 48 ∷ []; decoder = decoder }

abbrev chunk : List ℕ
chunk = 49 ∷ 12 ∷ 146 ∷ 50 ∷ []

notification_update-append_example :
    let (u1, first) = notification_update chunk util in
    let (u2, second) = notification_update (201 ∷ 51 ∷ []) u1 in
    notification_update (chunk ++ (201 ∷ 51 ∷ [])) util ≡ (u2, first || second)
notification_update-append_example =
    notification_update-append chunk (201 ∷ 51 ∷ []) util (unfold read_bytes is_marker in refl)
      (omega arith)

length-notification_update_example :
    length (notification_update chunk util).0.stream ≤ max 512 (length chunk)
length-notification_update_example =
    length-notification_update chunk util (unfold read_bytes is_marker in refl) (omega arith)

zeros_plain : (n : ℕ) → All (λ c. c ≢ end_val) (replicate n 48)
zeros_plain zero = tt
zeros_plain (suc n) = (omega arith, zeros_plain n)

handle_data_packet-framed_example :
    let zeros : List ℕ = replicate 52 0 in
    let accepted =
      handle_message
        (encode zeros ++ behind zeros 0 0 [])
        (leb (length (framed 146 zeros 0 0 (end_val ∷ []))) 130)
        decoder.entities in
    handle_data_packet (framed 146 zeros 0 0 (end_val ∷ [])) decoder ≡ (
      if total zeros == 0 * 256 + 0
      then (record decoder { frames_ok = 1; entities = accepted.0 }, accepted.1)
      else (record decoder { frames_bad = 1 }, false))
handle_data_packet-framed_example =
    handle_data_packet-framed 146 (replicate 52 0) 0 0 [] decoder (zeros_bytes 52) (omega arith)
      (omega arith) (omega arith) (omega arith)

abbrev device : Device Milli
device = (new_entities inverter, [])

-- the output voltage and the input voltage
abbrev records : List (List ℕ)
records =
    (8 ∷ 3 ∷ 0 ∷ 34 ∷ 0 ∷ 0 ∷ 0xD8 ∷ 0x59 ∷ []) ∷ (8 ∷ 3 ∷ 0 ∷ 0xED ∷ 0x8D ∷ 0 ∷ 0x28 ∷ 5 ∷ []) ∷ []

set_bulk_values-each_example :
    set_bulk_values (concat records ++ (1 ∷ 2 ∷ 3 ∷ 4 ∷ 5 ∷ [])) (9 ∷ [], device)
    ≡ ([], set_each records device)
set_bulk_values-each_example =
    set_bulk_values-each records (1 ∷ 2 ∷ 3 ∷ 4 ∷ 5 ∷ [])
      (concat records ++ (1 ∷ 2 ∷ 3 ∷ 4 ∷ 5 ∷ [])) (9 ∷ []) device (refl, (refl, tt)) (omega arith)
      (unfold le_value in refl) (omega arith)
