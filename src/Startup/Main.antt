-- ===== src/Startup/Main.antt =====
-- monitor_app.py: main as a whole, from the configuration to what it returns. The data logger's
-- constructor, the scanner and the rounds of the supervision are arguments.
use solar_monitor.Prelude.{ℕ, String, Bool, true, false, Option, none, some, List, if◌then◌else◌}
use solar_monitor.Prelude.Int.{pos}
use solar_monitor.Numbers.{Real, real_num}
use solar_monitor.Configuration.{Configuration, Read, getboolean, load_config}
use solar_monitor.Ble.Manager.{Advert}
use solar_monitor.Monitor.{Outcome, has_devices}
use solar_monitor.Startup.{start_up}
use solar_monitor.Supervisor.{Observation, supervise}

-- What main ends with, if it has ended: a value, or an exception that nothing catches.
pub data Ending : Type 0 where
  returned : ℕ → Ending
  uncaught running : Ending

abbrev pub ending_of : Option ℕ → Ending
ending_of none = running
ending_of (some code) = returned code

module _ {ℓ} (N : Type ℓ) ⦃r : Real N⦄ where
  -- What the supervision makes of its rounds so far.
  unfoldable pub watch : List (Observation N) → Ending
  watch rounds = ending_of (supervise (r.num.of_int (pos 600)) rounds)

  -- main behind the first registration, or behind an exception of it
  abbrev pub behind_start : List (Observation N) → Outcome → Ending
  behind_start rounds (app, false) = uncaught
  behind_start rounds (app, true) = if has_devices app.devices then watch rounds else returned 1

  unfoldable pub serve : Configuration → Option (List Advert) → List (Observation N) → Ending
  serve config adverts rounds = behind_start rounds (start_up N config adverts)

  -- the option `debug`, and the constructor of the data logger
  abbrev pub behind_debug :
      Option Bool → Bool → Configuration → Option (List Advert) → List (Observation N) → Ending
  behind_debug none logger_works config adverts rounds = uncaught
  behind_debug (some debug) logger_works config adverts rounds =
      if logger_works then serve config adverts rounds else returned 1

  abbrev pub behind_load :
      Option Configuration → Bool → Option (List Advert) → List (Observation N) → Ending
  behind_load none logger_works adverts rounds = returned 1
  behind_load (some config) logger_works adverts rounds =
      behind_debug (getboolean config "monitor" "debug" false) logger_works config adverts rounds

  -- main
  unfoldable pub run_main :
      Read → Option String → Bool → Bool → Option (List Advert) → List (Observation N) → Ending
  run_main read adapter debug logger_works adverts rounds =
      behind_load (load_config read adapter debug) logger_works adverts rounds
