-- ===== src/Configuration.antt =====
-- monitor_app.py and datalogger.py: the configuration, as configparser gives it, and what the program
-- takes from it. Options have lower-case names.
pub mod Loaded
pub mod Devices
use mathlib.Core.Option
use solar_monitor.Prelude.{
  String, Bool, true, false, ◌||◌, Option, none, some, List, [], ◌∷◌, if◌then◌else◌, str_eq,
}
use solar_monitor.Prelude.Dict.{lookup, insert}
use solar_monitor.Prelude.Words.{lower_text, truthy}

abbrev pub Options : Type 0
Options = List (String × String)

-- The sections, and the section DEFAULT, where an option that a section lacks is looked for.
pub record Configuration : Type 0 where
  pub defaults : Options
  pub sections : List (String × Options)

abbrev pub or_default : Configuration → String → Option String → Option String
or_default config option none = lookup option config.defaults
or_default config option (some value) = some value

abbrev pub get_in : Configuration → String → Option Options → Option String
get_in config option none = none
get_in config option (some options) = or_default config option (lookup option options)

-- config.get(section, option, fallback=None)
unfoldable pub get : Configuration → String → String → Option String
get config section option = get_in config option (lookup section config.sections)

-- The texts that configparser reads as true and as false, in whatever case.
unfoldable pub is_one_of : String → List String → Bool
is_one_of word [] = false
is_one_of word (w ∷ words) = str_eq word w || is_one_of word words

unfoldable pub boolean : String → Option Bool
unfolding is_one_of lower_text
boolean value =
    if is_one_of (lower_text value) ("1" ∷ "yes" ∷ "true" ∷ "on" ∷ [])
    then some true
    else if is_one_of (lower_text value) ("0" ∷ "no" ∷ "false" ∷ "off" ∷ [])
    then some false
    else none

abbrev pub boolean_or : Bool → Option String → Option Bool
boolean_or fallback none = some fallback
boolean_or fallback (some value) = boolean value

-- config.getboolean(section, option, fallback=fallback): none is a ValueError
unfoldable pub getboolean : Configuration → String → String → Bool → Option Bool
getboolean config section option fallback = boolean_or fallback (get config section option)

-- config.set(section, option, value), for a section that is there
abbrev pub set_in : String → String → Option Options → Options
set_in option value none = []
set_in option value (some options) = insert option value options

unfoldable pub set_option : String → String → String → Configuration → Configuration
set_option section option value config = record config {
  sections = insert section (set_in option value (lookup section config.sections)) config.sections;
}

-- What config.read does: a parse error, no file, or a configuration.
pub data Read : Type 0 where
  parse_error no_file : Read
  read_ok : Configuration → Read

-- The options of the command line, put over the file's.
abbrev pub put_adapter : Option String → Configuration → Configuration
put_adapter none config = config
put_adapter (some adapter) config = set_option "monitor" "adapter" adapter config

abbrev pub put_debug : Bool → Configuration → Configuration
put_debug true config = set_option "monitor" "debug" "1" config
put_debug false config = config

abbrev pub with_monitor :
    Option Options → Option String → Bool → Configuration → Option Configuration
with_monitor none adapter debug config = none
with_monitor (some _) adapter debug config =
    some (put_debug debug (put_adapter (truthy adapter) config))

-- load_config: none is a ConfigError
unfoldable pub load_config : Read → Option String → Bool → Option Configuration
load_config parse_error adapter debug = none
load_config no_file adapter debug = none
load_config (read_ok config) adapter debug =
    with_monitor (lookup "monitor" config.sections) adapter debug config

-- A device's section has an address and a type.
abbrev pub both : Option String → Option String → Option (String × String)
both (some mac) (some dtype) = some (mac, dtype)
both (some mac) none = none
both none dtype = none

unfoldable pub device_of : Configuration → String → Option (String × String)
device_of config section =
    both (truthy (get config section "mac")) (truthy (get config section "type"))

abbrev pub put {ℓ} : {V : Type ℓ} → String → Option V → List (String × V) → List (String × V)
put section none devices = devices
put section (some v) devices = (section, v) ∷ devices

-- a dictionary over the sections that are those of devices
unfoldable pub collect {ℓ} :
    {V : Type ℓ}
    → (String × String → V)
    → Configuration
    → List (String × Options)
    → List (String × V)
collect field config [] = []
collect field config ((section, options) ∷ sections) =
    put section (Option.map field (device_of config section)) (collect field config sections)

-- main: `configured`, from a section to the address of its device
unfoldable pub configured : Configuration → List (String × String)
configured config = collect (λ d. lower_text d.0) config config.sections

-- DataLogger.__init__: `device_types`, from a section to the type of its device
unfoldable pub device_types : Configuration → List (String × String)
device_types config = collect (λ d. d.1) config config.sections
