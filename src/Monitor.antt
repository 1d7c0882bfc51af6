-- ===== src/Monitor.antt =====
-- monitor_app.py: the registration of the configured devices, at the start and by the scans that go
-- on behind it. The calls of the data logger and of the BLE manager are what it does, as a list.
pub mod Readable
pub mod Registrations
pub mod Stops
pub mod Discovery
use solar_monitor.Prelude.{
  ℕ, ◌+◌, ◌-◌, Bool, true, false, ◌&&◌, ◌||◌, Option, none, some, List, [], ◌∷◌, ◌++◌, length,
  get_or, leb, ◌==◌, if◌then◌else◌, String, str_eq, map,
}
use solar_monitor.Prelude.Dict.{lookup}

-- found[-1] == found[-1 - window], where there are more samples than the window
unfoldable pub discovery_complete : List ℕ → ℕ → Bool
discovery_complete found window =
    if leb (length found) window
    then false
    else (get_or found (length found - 1) 0 == get_or found (length found - 1 - window) 0)

-- A call that main makes for a section or an address.
pub data Call : Type 0 where
  set_offline expect : String → Call
  set_trusted : String → Bool → Call
  register : String → String → Call

-- `devices` by its keys, and the calls so far, oldest first
pub record App : Type 0 where
  pub devices : List String
  pub calls : List Call

unfoldable pub is_known : String → List String → Bool
is_known section [] = false
is_known section (known ∷ devices) = str_eq known section || is_known section devices

-- the sections that are not in `devices`
unfoldable pub missing : List String → App → List String
missing [] app = []
missing (section ∷ sections) app =
    let rest = missing sections app in if is_known section app.devices then rest else section ∷ rest

-- What a scan found: names by address.
abbrev pub Scan : Type 0
Scan = List (String × String)

-- `not devices`, negated
unfoldable pub has_devices : List String → Bool
has_devices [] = false
has_devices (_ ∷ _) = true

-- the keys of `configured`
unfoldable pub sections_of : List (String × String) → List String
sections_of configured = map (λ (c : String × String). c.0) configured

-- configured[section], where the scan found a device there
unfoldable pub address_of : List (String × String) → Scan → String → Option String
address_of configured discovered section = elim (lookup section configured) [
  | none ↦ none
  | some mac ↦ elim (lookup mac discovered) [ none ↦ none | some name ↦ some mac ]
]

-- What happened to the devices, and whether it went on: false stands for an exception that nothing
-- catches.
abbrev pub Outcome : Type 0
Outcome = App × Bool

-- `configured`, from a section to the address of its device; whether the constructor of SolarDevice
-- goes well for a section; and the option `trusted`, with its fallback, which is none where
-- getboolean raises.
module _ (configured : List (String × String)) (constructs : String → Bool)
    (trusted : String → Option Bool) where
  -- the end of _register, for a device that was constructed
  unfoldable pub add_device : String → String → Option Bool → App → Outcome
  add_device section mac none app = (app, false)
  add_device section mac (some trust) app = (
    record {
      devices = app.devices ++ section ∷ [];
      calls =
          app.calls
          ++ set_trusted mac trust
            ∷ expect section
            ∷ set_offline section
            ∷ register section mac
            ∷ [];
    },
    true,
  )

  -- the part of _register behind the name, if there is one
  unfoldable pub set_up : String → Option String → App → Outcome
  set_up section none app = (app, true)
  set_up section (some mac) app =
      if constructs section then add_device section mac (trusted section) app else (app, true)

  -- _register, without what it returns, which no caller reads
  unfoldable pub register_section : Scan → String → App → Outcome
  register_section discovered section app =
      set_up section
        (if is_known section app.devices then none else address_of configured discovered section)
        app

  unfoldable pub register_all : Scan → List String → App → Outcome
  register_all discovered [] app = (app, true)
  register_all discovered (section ∷ sections) app =
      let after = register_section discovered section app in
      elim after.1 [ true ↦ register_all discovered sections after.0 | false ↦ after ]

  -- main before the first scan: every configured device is offline
  unfoldable pub at_first : App
  at_first = record { devices = []; calls = map set_offline (sections_of configured) }

  -- main up to the first registration; a scan that raises is none
  unfoldable pub start : Option Scan → Outcome
  start none = (at_first, false)
  start (some discovered) = register_all discovered (sections_of configured) at_first

  -- A round of the late discovery, which catches a scan that raises.
  unfoldable pub late_round : Option Scan → App → Outcome
  late_round none app = (app, true)
  late_round (some found) app = register_all found (missing (sections_of configured) app) app

  -- The thread ends with an exception that nothing catches.
  unfoldable pub late_discovery : List (Option Scan) → App → Outcome
  late_discovery [] app = (app, true)
  late_discovery (scan ∷ scans) app =
      let after = late_round scan app in
      elim after.1 [ true ↦ late_discovery scans after.0 | false ↦ after ]

  -- main: without a device behind the first scan, or behind an exception, no later scan is made.
  unfoldable pub discover : Option Scan → List (Option Scan) → Outcome
  discover discovered scans =
      let after = start discovered in
      elim (after.1 && has_devices after.0.devices) [
        | true ↦ late_discovery scans after.0
        | false ↦ after
      ]
