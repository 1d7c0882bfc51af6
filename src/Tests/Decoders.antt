-- ===== src/Tests/Decoders.antt =====
-- plugins/Topband, plugins/RenogyBatt and the queue and limits of solardevice.py at concrete inputs.
use solar_monitor.Prelude.{
  ℕ, ◌+◌, ◌-◌, ◌*◌, ◌≤◌, ◌<◌, ◌≡◌, refl, Bool, true, false, none, some, List, [], ◌∷◌, ◌++◌, length,
  take, replicate, ◌==◌, if◌then◌else◌, arith, String, str_eq,
}
use solar_monitor.Prelude.Int.{ℤ, pos}
use solar_monitor.Numbers.{real_num}
use solar_monitor.AsciiHex.Encode.{encode}
use solar_monitor.AsciiHex.Checksum.{total, framed}
use solar_monitor.Device.Entities.{Entities, new_entities, battery}
use solar_monitor.Device.Limits.{
  LimitKey, min_key, max_key, maxdiff_key, Setting, absent, not_a_number, value,
}
use solar_monitor.Device.Notify.{Plugin, Served, Uuid, notify_callback}
use solar_monitor.Device.Publish.{published, acknowledged, notify_callback-queue}
use solar_monitor.Meritsun.Layout.{payload}
use solar_monitor.Topband.{soi, new_parser, protocol_head, Util, feed, notification_update}
use solar_monitor.Topband.Message.{handle_message}
use solar_monitor.Topband.Reader.{IsRunning, at, feed-IsRunning}
use solar_monitor.Topband.Frames.{zeros, filled, message, notification_update-framed}
use solar_monitor.Topband.Readings.{assigned, handle_message-fields}
use solar_monitor.RenogyBatt.Rare.{
  Found, Changes, count_after, calm_calls, voltage_to_capacity-rare,
}
use solar_monitor.Device.Setters.{put, exp_capacity, voltage}
use solar_monitor.RenogyBatt.Capacity.{Util as RenogyUtil}
use solar_monitor.Tests.Milli.{Milli, milli_real}
use solar_monitor.Tests.Payload.{layout, layout-AllBytes, zeros_bytes}

feed-IsRunning_example : IsRunning (feed (1 ∷ 94 ∷ 48 ∷ 0 ∷ []) new_parser).0
feed-IsRunning_example = feed-IsRunning (1 ∷ 94 ∷ 48 ∷ 0 ∷ []) new_parser ((refl, refl), refl)

abbrev pack : Entities Milli
pack = new_entities battery

abbrev nothing : List ℕ
nothing = replicate 52 0

notification_update-framed_example :
    let frame = framed protocol_head nothing 0 0 (zeros nothing ++ 0 ∷ []) in
    let after = at soi (filled nothing 0 0 (replicate 115 0)) 0 0 in
    let handled = handle_message (message nothing 0 0) pack in
    notification_update (frame ++ 94 ∷ []) (record { parser = new_parser; entities = pack }) ≡ (
      if total nothing == 0 * 256 + 0
      then (record { parser = after; entities = handled.0 }, handled.1)
      else notification_update [] (record { parser = after; entities = pack }))
notification_update-framed_example =
    notification_update-framed nothing 0 0 94 [] (replicate 115 0) pack (zeros_bytes 52)
      (omega arith) (omega arith) (omega arith) (omega arith) refl

handle_message-fields_example :
    let text = encode (payload layout) ++ [] in
    handle_message text pack ≡ (assigned layout text pack, true)
handle_message-fields_example = handle_message-fields layout [] pack layout-AllBytes

abbrev milli : ℤ → Milli
milli z = record { raw = z }

abbrev renogy : RenogyUtil Milli
renogy = record {
  entities = pack;
  max_capacity = milli (pos 100000);
  time_int = milli (pos 0);
  volt_change_count = 0;
}

-- a battery whose capacity is known, at rest
abbrev charged : Entities Milli
charged = put exp_capacity (milli (pos 50000)) (put voltage (milli (pos 13400)) pack)

abbrev calls : List (Found Milli)
calls = (charged, milli (pos 100000)) ∷ (charged, milli (pos 100000)) ∷ []

voltage_to_capacity-rare_example :
    (k : ℕ) × Changes renogy calls 299 k
    × (count_after renogy calls 299 < 300)
    × (300 * k + count_after renogy calls 299 ≤ calm_calls calls + 299)
voltage_to_capacity-rare_example = voltage_to_capacity-rare renogy calls 299 (omega arith)

-- the plugin for Topband
abbrev plugin : Plugin Milli (Util Milli)
plugin = record {
  send_ack = false;
  ack_data = λ bytes. none;
  update = λ bytes u. let done = notification_update bytes u in (done.0, [], some done.1);
  entities = λ u. u.entities;
  plain = λ u name. none;
  cmd_request = none;
}

abbrev no_uuid : Uuid → Bool
no_uuid uuid = false

abbrev served : Served Milli (Util Milli)
served = record {
  plugin_state = record { parser = new_parser; entities = pack };
  has_client = true;
  queue = ([], 0);
  writes = [];
}

notify_callback-queue_example :
    let items =
      acknowledged plugin no_uuid 10 false none
        (published plugin no_uuid 10 (94 ∷ []) served.plugin_state) in
    (notify_callback plugin no_uuid 10 (94 ∷ []) served).queue
    ≡ ([] ++ take (10 - 0) items, 0 + (length items - (10 - 0)))
notify_callback-queue_example =
    notify_callback-queue plugin no_uuid 10 (94 ∷ []) served (omega arith) (omega arith)

-- a section with a higher limit of the voltage, and a typing error
abbrev section : String → LimitKey → Setting Milli
section name max_key = if str_eq name "_mvoltage" then value (milli (pos 30000000)) else absent
section name min_key = not_a_number
section name maxdiff_key = absent
