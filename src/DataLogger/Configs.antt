-- ===== src/DataLogger/Configs.antt =====
-- datalogger.py: the discovery configs, the aliases and the availability of devices, and what goes
-- to the client for each message. A config is the dictionary that json.dumps is given.
use solar_monitor.Prelude.{
  ℕ, String, Bool, true, false, ◌&&◌, ◌||◌, Option, none, some, List, [], ◌∷◌, ◌++◌, str_eq,
  if◌then◌else◌,
}
use solar_monitor.Prelude.Dict.{lookup, insert}
use solar_monitor.Prelude.Text.{◌+s◌, but_last, contains, ends_with}
use solar_monitor.Prelude.Words.{capitalize, title, spaced, strip, truthy}
use solar_monitor.DataLogger.{Message, switch_config, sensor_config, subscribe, state}
use solar_monitor.DataLogger.Topics.{
  state_topic, command_topic, availability_topic, switch_topic, sensor_topic,
}

-- A value in the block of a device, and one in a config.
pub data Leaf : Type 0 where
  text : String → Leaf
  texts : List String → Leaf

pub data Json : Type 0 where
  leaf : Leaf → Json
  number : ℕ → Json
  flag : Bool → Json
  object : List (String × Leaf) → Json

abbrev pub word : String → Json
word s = leaf (text s)

-- What DataLoggerMqtt knows of the devices, beside the state that publish changes.
pub record Naming : Type 0 where
  pub prefix : String
  pub device_types : List (String × String)
  pub aliases : List (String × String)

unfoldable pub model : Option String → Option String → List (String × Leaf)
model (some alias) dtype = ("model", text alias) ∷ []
model none (some dtype) = ("model", text dtype) ∷ []
model none none = []

unfoldable pub manufacturer : Option String → List (String × Leaf)
manufacturer none = []
manufacturer (some dtype) = ("manufacturer", text dtype) ∷ []

-- _device_block
unfoldable pub device_block : Naming → String → List (String × Leaf)
unfolding truthy model manufacturer
device_block n device =
    let dtype = truthy (lookup device n.device_types) in
    ("identifiers", texts ((but_last n.prefix +s "_" +s device) ∷ []))
    ∷ ("name", text (capitalize (but_last n.prefix) +s " " +s title (spaced device)))
    ∷ (manufacturer dtype ++ model (truthy (lookup device n.aliases)) dtype)

unfoldable pub set_device_alias : String → String → Naming → Naming
set_device_alias device alias n =
    if str_eq alias ""
    then n
    else record n { aliases = insert (strip device) (strip alias) n.aliases }

unfoldable pub unique_id : Naming → String → String → String
unique_id n device var = but_last n.prefix +s "_" +s device +s "_" +s var

-- the end of both kinds of config
unfoldable pub availability : Naming → String → List (String × Json)
unfolding availability_topic
availability n device =
    ("device", object (device_block n device))
    ∷ ("availability_topic", word (availability_topic n.prefix device))
    ∷ ("payload_available", word "online")
    ∷ ("payload_not_available", word "offline")
    ∷ []

-- the config of create_switch
unfoldable pub switch_fields : Naming → String → String → List (String × Json)
unfolding availability
switch_fields n device var =
    ("name", word (title (spaced var)))
    ∷ ("unique_id", word (unique_id n device var))
    ∷ ("state_topic", word (state_topic n.prefix device var))
    ∷ ("command_topic", word (command_topic n.prefix device var))
    ∷ ("payload_on", number 1)
    ∷ ("payload_off", number 0)
    ∷ availability n device

abbrev measured : String → String → List (String × Json)
measured device_class unit =
    ("device_class", word device_class) ∷ ("unit_of_measurement", word unit) ∷ []

abbrev measured_as : String → String → String → List (String × Json)
measured_as device_class icon unit =
    ("device_class", word device_class)
    ∷ ("icon", word icon)
    ∷ ("unit_of_measurement", word unit)
    ∷ []

abbrev shown_as : String → List (String × Json)
shown_as icon = ("icon", word icon) ∷ []

-- the icon of a device, for a variable without any of its own
unfoldable pub device_icon : String → List (String × Json)
device_icon device =
    if contains device "battery"
    then shown_as "mdi:battery"
    else if contains device "regulator"
    then shown_as "mdi:solar-power"
    else if contains device "inverter"
    then shown_as "mdi:current-ac"
    else if contains device "rectifier"
    then shown_as "mdi:current-ac"
    else []

-- what create_sensor adds for a variable
unfoldable pub sensor_class : String → String → List (String × Json)
unfolding device_icon
sensor_class device var =
    if str_eq var "temperature"
    then measured "temperature" "°C"
    else if str_eq var "soc"
    then measured "battery" "%"
    else if str_eq var "power" || (str_eq var "charge_power" || str_eq var "input_power")
    then measured "power" "W"
    else if str_eq var "voltage" || (str_eq var "charge_voltage" || str_eq var "input_voltage")
    then measured_as "voltage" "mdi:flash" "V"
    else if str_eq var "current" || (str_eq var "charge_current" || str_eq var "input_current")
    then measured_as "current" "mdi:current-dc" "A"
    else if ends_with var "_state"
    then (("device_class", word "enum")
        ∷ ("options", leaf (texts ("charging" ∷ "standby" ∷ "discharging" ∷ [])))
        ∷ [])
    else if str_eq var "charge_cycles"
    then shown_as "mdi:recycle"
    else if str_eq var "health"
    then shown_as "mdi:heart-flash"
    else if contains device "battery" && contains var "cell"
    then (("icon", word "mdi:battery")
        ∷ ("unit_of_measurement", word "mV")
        ∷ ("device_class", word "voltage")
        ∷ [])
    else device_icon device

-- the config of create_sensor
unfoldable pub sensor_fields : Naming → String → String → List (String × Json)
unfolding availability sensor_class
sensor_fields n device var =
    (("name", word (title (spaced var)))
      ∷ ("unique_id", word (unique_id n device var))
      ∷ ("state_topic", word (state_topic n.prefix device var))
      ∷ ("force_update", flag true)
      ∷ availability n device)
    ++ sensor_class device var

pub data Payload {ℓ} (V : Type ℓ) : Type ℓ where
  config : List (String × Json) → Payload V
  value : V → Payload V
  note : String → Payload V
  nothing : Payload V

-- A call of the client: publish with its quality of service and whether it is retained, or
-- subscribe.
pub data Packet {ℓ} (V : Type ℓ) : Type ℓ where
  publish : String → Payload V → ℕ → Bool → Packet V
  subscribe_to : String → ℕ → Packet V

module _ {ℓ} {V : Type ℓ} where
  unfoldable pub packet : Naming → Message V → Packet V
  packet n (switch_config device var) =
      publish (switch_topic device var) (config (switch_fields n device var)) 1 true
  packet n (sensor_config device var) =
      publish (sensor_topic device var) (config (sensor_fields n device var)) 1 true
  packet n (subscribe device var) = subscribe_to (command_topic n.prefix device var) 1
  packet n (state device var val qos) =
      publish (state_topic n.prefix device var) (value val) qos true

  unfoldable pub set_available : Naming → String → Bool → Packet V
  set_available n device online =
      publish (availability_topic n.prefix (strip device))
        (note (if online then "online" else "offline")) 1 true

  unfoldable pub delete_switch : String → String → Packet V
  delete_switch device var = publish (switch_topic device var) nothing 0 false

  unfoldable pub delete_sensor : String → String → Packet V
  delete_sensor device var = publish (sensor_topic device var) nothing 0 false
