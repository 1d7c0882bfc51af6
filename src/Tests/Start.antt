-- ===== src/Tests/Start.antt =====
-- monitor_app.py, hci.py and the plugins' configs at concrete inputs.
use solar_monitor.Prelude.{
  ℕ, ◌≡◌, ◌≢◌, refl, String, true, false, none, some, List, [], ◌∷◌, if◌then◌else◌, str_eq,
  Bool-cases, inl, inr,
}
use solar_monitor.Prelude.Dict.{lookup}
use solar_monitor.Prelude.Text.{codes}
use solar_monitor.Prelude.Words.{is_space, truthy}
use solar_monitor.Configuration.{Configuration, get, getboolean, read_ok, load_config, device_of}
use solar_monitor.Configuration.Loaded.{overridden, load_config-get}
use solar_monitor.Hci.{parse_interval, is_unusable, search_device}
use solar_monitor.Hci.Interval.{range_text, decimal_text, decimal_value, parse_interval-decimals}
use solar_monitor.Hci.Handle.{IsListed}
use solar_monitor.Hci.Listed.{search_device-exactly}
use solar_monitor.Ble.Manager.{Advert, or_else, run_calls, first_with, run_calls-first}
use solar_monitor.Monitor.{Call, register, expect}
use solar_monitor.Monitor.Readable.{is_some}
use solar_monitor.Monitor.Registrations.{registrations}
use solar_monitor.Monitor.Stops.{any_section}
use solar_monitor.Startup.{trusted_of, start_up}
use solar_monitor.Startup.Main.{returned, uncaught, watch, run_main}
use solar_monitor.Startup.Attempts.{section_names}
use solar_monitor.Startup.Ending.{served, unreadable, run_main-ending}
use solar_monitor.Supervisor.{Observation}
use solar_monitor.Prelude.Int.{pos}
use solar_monitor.Startup.Registered.{is_served, start_up-registers}
use solar_monitor.Tests.Milli.{Milli, milli_real}

-- " 7.5 - 15"
parse_interval-decimals_example :
    let low = decimal_value Milli (codes "7") (some (codes "5")) in
    let high = decimal_value Milli (codes "15") none in
    parse_interval (
      some (
        range_text
          (32 ∷ [])
          (decimal_text (codes "7") (some (codes "5")))
          (32 ∷ [])
          (32 ∷ [])
          (decimal_text (codes "15") none)
          []))
    ≡ some (if is_unusable low high then none else some (low, high))
parse_interval-decimals_example =
    parse_interval-decimals (32 ∷ []) (32 ∷ []) (32 ∷ []) [] (unfold is_space in (refl, tt))
      (unfold is_space in (refl, tt)) (unfold is_space in (refl, tt)) tt (codes "7") (codes "15")
      (some (codes "5")) none (refl, tt) (refl, tt) (refl, (refl, tt)) tt (λ e. cc) (λ e. cc)

abbrev listing : List ℕ
listing = codes "LE aa:01 handle 64 state 1"

search_device-exactly_example :
    ((digits : List ℕ)
      → search_device (codes "AA:01") listing ≡ some digits
      → IsListed (codes "AA:01") listing digits)
    × ((digits : List ℕ)
        → IsListed (codes "AA:01") listing digits
        → search_device (codes "AA:01") listing ≢ none)
search_device-exactly_example = search_device-exactly (codes "AA:01") listing

abbrev config : Configuration
config = record {
  defaults = [];
  sections =
      ("monitor", ("adapter", "hci0") ∷ [])
      ∷ ("battery_1", ("mac", "AA:01") ∷ ("type", "Meritsun") ∷ [])
      ∷ [];
}

load_config-get_example :
    (loaded : Configuration) × (load_config (read_ok config) (some "hci1") true ≡ some loaded)
    × ((s o : String)
        → get loaded s o ≡ overridden (truthy (some "hci1")) true s o (get config s o))
load_config-get_example =
    load_config-get config (some "hci1") true (("adapter", "hci0") ∷ []) (unfold lookup in refl)

-- two sections with one address
abbrev calls : List Call
calls = register "battery_1" "aa:01" ∷ expect "battery_2" ∷ register "battery_2" "aa:01" ∷ []

run_calls-first_example :
    lookup "aa:01" (run_calls calls []) ≡ or_else (lookup "aa:01" []) (first_with "aa:01" calls)
run_calls-first_example = run_calls-first "aa:01" calls []

abbrev adverts : List Advert
adverts = ("Aa:01", some "12V100Ah-081") ∷ []

-- There is no other section, so no option that cannot be read.
readable :
    (t : String)
    → is_served Milli config adverts t (device_of config t) ≡ true
    → is_some (trusted_of Milli config t) ≡ true
unfolding trusted_of getboolean get lookup
readable t h = elim (Bool-cases (str_eq "monitor" t)) [
  | inl p ↦ rw p refl
  | inr p ↦ elim (Bool-cases (str_eq "battery_1" t)) [
    | inl q ↦ rw (p, q) refl
    | inr q ↦ rw (p, q) refl
  ]
]

start_up-registers_example :
    registrations "battery_1" (start_up Milli config (some adverts)).0.calls
    ≡ (if is_served Milli config adverts "battery_1" (device_of config "battery_1") then 1 else 0)
start_up-registers_example = start_up-registers Milli config adverts "battery_1" readable

-- a round in which the stop is requested
abbrev stopping : Observation Milli
stopping = record {
  stopped = true;
  consumer_done = false;
  last = [];
  now = milli_real.num.of_int (pos 0);
}

run_main-ending_example :
    (run_main Milli (read_ok config) none false true (some adverts) (stopping ∷ []) ≡ (
      if any_section (unreadable Milli config adverts) (section_names config.sections)
      then uncaught
      else if any_section (served Milli config adverts) (section_names config.sections)
      then watch Milli (stopping ∷ [])
      else returned 1))
    × (run_main Milli (read_ok config) none false true none (stopping ∷ []) ≡ uncaught)
run_main-ending_example =
    run_main-ending Milli (read_ok config) none false true adverts (stopping ∷ []) config
      (unfold load_config lookup truthy in refl) (unfold getboolean get lookup in refl)
