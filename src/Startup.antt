-- ===== src/Startup.antt =====
-- monitor_app.py, main, over the modules that it brings together: the configuration, the scan of
-- ble.py, the constructor of SolarDevice and the registration of the devices.
pub mod Registered
pub mod Main
pub mod Attempts
pub mod Ending
use mathlib.Core.Option
use solar_monitor.Prelude.{ℕ, String, Bool, true, false, Option, none, some, List, [], map}
use solar_monitor.Prelude.Text.{codes}
use solar_monitor.Numbers.{Real}
use solar_monitor.Configuration.{Configuration, get, getboolean, device_of, configured}
use solar_monitor.Ble.Manager.{Advert}
use solar_monitor.Ble.Manager.{discover as scan}
use solar_monitor.Device.Plugins.{Wired, construct}
use solar_monitor.Monitor.{Outcome, start}
use solar_monitor.Monitor.Readable.{is_some}

-- bool(dev.need_polling), where there is a device
abbrev pub polls {ℓ} : {N : Type ℓ} → Option (Wired N) → Bool
polls none = false
polls (some w) = w.need_polling

module _ {ℓ} (N : Type ℓ) ⦃r : Real N⦄ (config : Configuration) where
  -- SolarDevice(mac_address=mac, logger_name=section, config=config, ...)
  unfoldable pub device_for : String → Option (String × String) → Option (Wired N)
  device_for section none = none
  device_for section (some (mac, dtype)) =
      construct section dtype (Option.map codes (get config section "connection_interval"))

  unfoldable pub constructs : String → Bool
  constructs section = is_some (device_for section (device_of config section))

  -- the option `trusted`, which falls back on the device's need of polls; none is a ValueError
  unfoldable pub trusted_of : String → Option Bool
  trusted_of section =
      getboolean config section "trusted" (polls (device_for section (device_of config section)))

  -- main up to the end of the first registration, by what the scanner finds; none is a scan that
  -- raises
  unfoldable pub start_up : Option (List Advert) → Outcome
  start_up adverts = start (configured config) constructs trusted_of (Option.map scan adverts)
