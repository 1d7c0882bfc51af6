-- ===== src/Pipeline.antt =====
-- plugins/Meritsun and plugins/SolarLink behind solardevice.py: the plugins as SolarDevice uses them,
-- from the bytes of a notification to the queue, and from a command to the writes.
pub mod Frames
pub mod Switch
pub mod Availability
pub mod Shown
use mathlib.Core.Option
use solar_monitor.Prelude.{
  ℕ, String, Bool, false, Option, none, some, List, [], str_eq, if◌then◌else◌,
}
use solar_monitor.Prelude.Words.{int_text}
use solar_monitor.Numbers.{Real}
use solar_monitor.Device.Notify.{Plugin}
use solar_monitor.SolarLink.{cmd_request}
use solar_monitor.Meritsun.{Util, notification_update}

-- The module plugins.Meritsun: it acknowledges nothing, takes no commands and puts nothing on the
-- queue itself. The device is a battery, so all that the plugin assigns are properties.
abbrev pub meritsun_plugin {ℓ} : (N : Type ℓ) ⦃r : Real N⦄ → Plugin N (Util N)
meritsun_plugin N = record {
  send_ack = false;
  ack_data = λ bytes. none;
  update = λ bytes u. let done = notification_update bytes u in (done.0, [], some done.1);
  entities = λ u. u.decoder.entities;
  plain = λ u name. none;
  cmd_request = none;
}

-- SolarDevice.run_command reaches cmdRequest of plugins.SolarLink, which raises on a switch's value
-- that is no number.
unfoldable pub solar_link_commands : (List ℕ → ℕ) → ℕ → String → String → Option (List (List ℕ))
solar_link_commands crc16 device_id var message =
    if str_eq var "power_switch"
    then Option.map (cmd_request crc16 device_id var) (int_text message)
    else some []
