-- ===== src/Monitor/Readable.antt =====
-- monitor_app.py: the registration as it is where every option `trusted` can be read, which the
-- theorems compare the one in Monitor with.
use solar_monitor.Prelude.{
  Bool, true, false, Option, none, some, List, [], ◌∷◌, ◌++◌, if◌then◌else◌, String, map,
}
use solar_monitor.Monitor.{
  App, Scan, is_known, missing, has_devices, sections_of, address_of, set_offline, expect,
  set_trusted, register,
}

abbrev pub is_some {ℓ} : {A : Type ℓ} → Option A → Bool
is_some none = false
is_some (some a) = true

abbrev pub or_false : Option Bool → Bool
or_false none = false
or_false (some b) = b

module _ (configured : List (String × String)) (constructs trusted : String → Bool) where
  -- the end of _register, for a device that was constructed
  unfoldable pub add_readable : String → String → App → App
  add_readable section mac app = record {
    devices = app.devices ++ section ∷ [];
    calls =
        app.calls
        ++ set_trusted mac (trusted section)
          ∷ expect section
          ∷ set_offline section
          ∷ register section mac
          ∷ [];
  }

  -- the part of _register behind the name, if there is one
  unfoldable pub set_up_readable : String → Option String → App → App
  set_up_readable section none app = app
  set_up_readable section (some mac) app =
      if constructs section then add_readable section mac app else app

  -- _register, without what it returns, which no caller reads
  unfoldable pub register_readable : Scan → String → App → App
  register_readable discovered section app =
      set_up_readable section
        (if is_known section app.devices then none else address_of configured discovered section)
        app

  unfoldable pub register_all_readable : Scan → List String → App → App
  register_all_readable discovered [] app = app
  register_all_readable discovered (section ∷ sections) app =
      register_all_readable discovered sections (register_readable discovered section app)

  -- main up to the first registration
  unfoldable pub start_readable : Scan → App
  start_readable discovered =
      register_all_readable discovered (sections_of configured)
        (record { devices = []; calls = map set_offline (sections_of configured) })

  -- A round of the late discovery; a scan that raises is none.
  unfoldable pub late_round_readable : Option Scan → App → App
  late_round_readable none app = app
  late_round_readable (some found) app =
      register_all_readable found (missing (sections_of configured) app) app

  unfoldable pub late_readable : List (Option Scan) → App → App
  late_readable [] app = app
  late_readable (scan ∷ scans) app = late_readable scans (late_round_readable scan app)

  -- main: without a device behind the first scan it ends, and no later scan is made.
  unfoldable pub discover_readable : Scan → List (Option Scan) → App
  discover_readable discovered scans =
      let app = start_readable discovered in
      if has_devices app.devices then late_readable scans app else app
