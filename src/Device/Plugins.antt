-- ===== src/Device/Plugins.antt =====
-- plugins/*/__init__.py, the class Config of each plugin, and solardevice.py, SolarDevice: what the
-- constructor takes from it, the connection and its announcement to the data logger.
use solar_monitor.Prelude.{
  ℕ, String, Bool, true, false, Option, none, some, List, [], ◌∷◌, str_eq, if◌then◌else◌,
}
use solar_monitor.Prelude.Words.{strip}
use solar_monitor.Numbers.{Real}
use solar_monitor.Device.Entities.{Kind, class_of}
use solar_monitor.DataLogger.Configs.{Naming, Packet, set_device_alias, set_available}
use solar_monitor.Hci.{parse_interval}

pub data Plugin : Type 0 where
  meritsun solar_link ve_direct topband hacien renogy_batt : Plugin

-- The attributes of Config, of which some are missing.
pub record Config : Type 0 where
  pub notify_service : Option String
  pub notify_chars : List String
  pub write_service : Option String
  pub write_char_polling : Option String
  pub write_char_commands : Option String
  pub device_id : Option ℕ
  pub need_polling : Bool
  pub send_ack : Bool

-- a battery that pushes its readings
abbrev pushing : Config
pushing = record {
  notify_service = some "0000ffe0-0000-1000-8000-00805f9b34fb";
  notify_chars = "0000ffe4-0000-1000-8000-00805f9b34fb" ∷ [];
  write_service = none;
  write_char_polling = none;
  write_char_commands = none;
  device_id = none;
  need_polling = false;
  send_ack = false;
}

-- a device that speaks Modbus
abbrev on_modbus : ℕ → Config
on_modbus device_id = record {
  notify_service = some "0000fff0-0000-1000-8000-00805f9b34fb";
  notify_chars = "0000fff1-0000-1000-8000-00805f9b34fb" ∷ [];
  write_service = some "0000ffd0-0000-1000-8000-00805f9b34fb";
  write_char_polling = some "0000ffd1-0000-1000-8000-00805f9b34fb";
  write_char_commands = some "0000ffd1-0000-1000-8000-00805f9b34fb";
  device_id = some device_id;
  need_polling = true;
  send_ack = true;
}

abbrev pub meritsun_config : Config
meritsun_config = pushing

abbrev pub topband_config : Config
topband_config = pushing

abbrev pub solar_link_config : Config
solar_link_config = on_modbus 255

abbrev pub renogy_batt_config : Config
renogy_batt_config = on_modbus 48

abbrev pub ve_direct_config : Config
ve_direct_config = record {
  notify_service = some "306b0001-b081-4037-83dc-e59fcc3cdfd0";
  notify_chars =
      "306b0002-b081-4037-83dc-e59fcc3cdfd0" ∷ "306b0003-b081-4037-83dc-e59fcc3cdfd0"
      ∷ "306b0004-b081-4037-83dc-e59fcc3cdfd0" ∷ [];
  write_service = some "306b0001-b081-4037-83dc-e59fcc3cdfd0";
  write_char_polling = some "306b0002-b081-4037-83dc-e59fcc3cdfd0";
  write_char_commands = some "306b0003-b081-4037-83dc-e59fcc3cdfd0";
  device_id = none;
  need_polling = true;
  send_ack = false;
}

abbrev pub hacien_config : Config
hacien_config = record {
  notify_service = some "6e400001-b5a3-f393-e0a9-e50e24dcca9e";
  notify_chars = "6e400003-b5a3-f393-e0a9-e50e24dcca9e" ∷ [];
  write_service = some "6e400001-b5a3-f393-e0a9-e50e24dcca9e";
  write_char_polling = some "6e400002-b5a3-f393-e0a9-e50e24dcca9e";
  write_char_commands = none;
  device_id = none;
  need_polling = true;
  send_ack = false;
}

unfoldable pub config_of : Plugin → Config
config_of meritsun = meritsun_config
config_of solar_link = solar_link_config
config_of ve_direct = ve_direct_config
config_of topband = topband_config
config_of hacien = hacien_config
config_of renogy_batt = renogy_batt_config

-- the module plugins.<type>
unfoldable pub plugin_of : String → Option Plugin
plugin_of name =
    if str_eq name "Meritsun"
    then some meritsun
    else if str_eq name "SolarLink"
    then some solar_link
    else if str_eq name "VEDirect"
    then some ve_direct
    else if str_eq name "Topband"
    then some topband
    else if str_eq name "Hacien"
    then some hacien
    else if str_eq name "RenogyBatt"
    then some renogy_batt
    else none

unfoldable pub not_empty : List String → List String
not_empty [] = []
not_empty (u ∷ uuids) = let rest = not_empty uuids in if str_eq u "" then rest else u ∷ rest

abbrev pub first : List String → Option String
first [] = none
first (u ∷ uuids) = some u

-- What the constructor makes of the plugin and the section.
pub record Wired {ℓ} (N : Type ℓ) : Type ℓ where
  pub plugin : Plugin
  pub kind : Kind
  pub notify_uuids : List String
  pub notify_uuid : Option String
  pub need_polling : Bool
  pub connection_interval : Option (N × N)

module _ {ℓ} {N : Type ℓ} ⦃r : Real N⦄ where
  abbrev wire : String → Plugin → Option (Option (N × N)) → Option (Wired N)
  wire logger_name plugin none = none
  wire logger_name plugin (some interval) =
      let uuids = not_empty (config_of plugin).notify_chars in
      some (record {
        plugin = plugin;
        kind = class_of logger_name;
        notify_uuids = uuids;
        notify_uuid = first uuids;
        need_polling = (config_of plugin).need_polling;
        connection_interval = interval;
      })

  abbrev import_plugin : String → Option Plugin → Option (Option (N × N)) → Option (Wired N)
  import_plugin logger_name none interval = none
  import_plugin logger_name (some plugin) interval = wire logger_name plugin interval

  -- The constructor, for a section with a type, without the limits of Device.Limits: none where it
  -- raises, for a plugin that is not there
  -- or an interval that float() refuses.
  unfoldable pub construct : String → String → Option (List ℕ) → Option (Wired N)
  unfolding not_empty plugin_of config_of
  construct logger_name dtype interval =
      import_plugin logger_name (plugin_of dtype) (parse_interval interval)

-- The alias and the client of a device.
pub record Link : Type 0 where
  pub alias : String
  pub has_client : Bool

unfoldable pub set_alias : Option String → Link → Link
set_alias none l = l
set_alias (some name) l = if str_eq name "" then l else record l { alias = strip name }

-- on_connected, with what the data logger knows and sends, if there is one and it does not raise
unfoldable pub on_connected {ℓ} :
    {V : Type ℓ} → String → Link → Naming → Link × Naming × List (Packet V)
on_connected logger_name l n =
    let named = set_device_alias logger_name l.alias n in
    (record l { has_client = true }, named, set_available named logger_name true ∷ [])

unfoldable pub on_disconnected {ℓ} :
    {V : Type ℓ} → String → Link → Naming → Link × Naming × List (Packet V)
on_disconnected logger_name l n =
    (record l { has_client = false }, n, set_available n logger_name false ∷ [])
