-- ===== src/Startup/Ending.antt =====
-- monitor_app.py: what main ends with.
use solar_monitor.Prelude.{
  ◌≡◌, refl, ap, ◌∙◌, String, Bool, true, false, not, ◌&&◌, Option, none, some, List, if◌then◌else◌,
  Bool-cases, inl, inr,
}
use solar_monitor.Prelude.Words.{lower_text}
use solar_monitor.Numbers.{Real}
use solar_monitor.Configuration.{
  Configuration, Read, getboolean, load_config, device_of, configured,
}
use solar_monitor.Ble.Manager.{Advert}
use solar_monitor.Ble.Manager.{discover as scan}
use solar_monitor.Monitor.{App, Outcome, at_first, is_known, sections_of, has_devices, start}
use solar_monitor.Monitor.Readable.{is_some, register_all_readable}
use solar_monitor.Monitor.Stops.{
  any_section, any_section-cong, trusts, stops_at, register_all-stops,
}
use solar_monitor.Supervisor.{Observation}
use solar_monitor.Startup.{constructs, trusted_of, start_up}
use solar_monitor.Startup.Registered.{is_served, found_in-served}
use solar_monitor.Startup.Main.{
  returned, uncaught, watch, behind_start, behind_load, behind_debug, serve, run_main,
}
use solar_monitor.Startup.Attempts.{
  any_section-collect, section_names, has_devices-register_all_readable,
}

module _ {ℓ} (N : Type ℓ) ⦃r : Real N⦄ (config : Configuration) (adverts : List Advert) where
  -- the sections whose device is in range
  abbrev pub served : String → Bool
  served s = is_served N config adverts s (device_of config s)

  -- those of them whose option `trusted` is none of the texts for true and false
  abbrev pub unreadable : String → Bool
  unreadable s = served s && not (is_some (trusted_of N config s))

  unserved : (s : String) → device_of config s ≡ none → served s ≡ false
  unfolding is_served
  unserved s h = rw h refl

  any_served :
      (test : String → Bool)
      → ((s : String) → device_of config s ≡ none → test s ≡ false)
      → any_section test (sections_of (configured config))
        ≡ any_section test (section_names config.sections)
  unfolding configured
  any_served test h = any_section-collect test (λ d. lower_text d.0) config config.sections h

  abbrev trust : String → Bool
  trust = trusts (configured config) (constructs N config) (trusted_of N config)

  stops_at-unreadable :
      (s : String)
      → stops_at
          (configured config)
          (constructs N config)
          (trusted_of N config)
          (scan adverts)
          (at_first (configured config) (constructs N config) (trusted_of N config))
          s
        ≡ unreadable s
  unfolding at_first is_known
  stops_at-unreadable s =
      ap (λ b. b && not (is_some (trusted_of N config s))) (found_in-served N config adverts s)

  -- Does some section stop the start, and does some lead to a device?
  abbrev stops : Bool
  stops = any_section unreadable (section_names config.sections)

  abbrev serves : Bool
  serves = any_section served (section_names config.sections)

  abbrev first : App
  first = at_first (configured config) (constructs N config) (trusted_of N config)

  start-stops :
      any_section
        (stops_at
          (configured config)
          (constructs N config)
          (trusted_of N config)
          (scan adverts)
          first)
        (sections_of (configured config))
      ≡ stops
  start-stops =
      any_section-cong _ unreadable (sections_of (configured config)) stops_at-unreadable
      ∙ any_served unreadable
          (λ s h. ap (λ b. b && not (is_some (trusted_of N config s))) (unserved s h))

  start-serves :
      has_devices
        (register_all_readable
          (configured config)
          (constructs N config)
          trust
          (scan adverts)
          (sections_of (configured config))
          first).devices
      ≡ serves
  unfolding has_devices at_first
  start-serves =
      has_devices-register_all_readable (configured config) (constructs N config) trust
        (scan adverts) (sections_of (configured config)) first
      ∙ any_section-cong _ served (sections_of (configured config))
          (found_in-served N config adverts)
      ∙ any_served served unserved

  behind_start-uncaught :
      (rounds : List (Observation N)) (after : Outcome)
      → after.1 ≡ false
      → behind_start N rounds after ≡ uncaught
  behind_start-uncaught rounds (app, true) h = absurd (cc)
  behind_start-uncaught rounds (app, false) h = refl

  serve-ending :
      (rounds : List (Observation N))
      → serve N config (some adverts) rounds
        ≡ (if stops then uncaught else if serves then watch N rounds else returned 1)
  unfolding serve start_up start
  serve-ending rounds =
      let run =
        register_all-stops (configured config) (constructs N config) (trusted_of N config)
          (scan adverts) (sections_of (configured config)) first in
      elim (Bool-cases stops) [
        | inl p ↦ rw p (
            behind_start-uncaught rounds (start_up N config (some adverts))
              (run.0 (start-stops ∙ p)))
        | inr p ↦ rw p (ap (behind_start N rounds) (run.1 (start-stops ∙ p)) ∙ rw start-serves refl)
      ]

-- With a configuration that is read, whose debug option is none or a text for true or false, main
-- ends with 1 if the data logger cannot be set up. Otherwise, if the first scan raises, or some
-- section whose device is in range has an option `trusted` that is no text for true or false, it ends
-- with an exception; if not, and there is such a section, it goes on to the supervision and ends as
-- that does; and if there is none, it ends with 1.
pub run_main-ending {ℓ} :
    (N : Type ℓ) ⦃r : Real N⦄ (read : Read) (adapter : Option String) (debug logger_works : Bool)
    → (adverts : List Advert) (rounds : List (Observation N)) (config : Configuration)
    → load_config read adapter debug ≡ some config
    → is_some (getboolean config "monitor" "debug" false) ≡ true
    → (run_main N read adapter debug logger_works (some adverts) rounds ≡ (
        if not logger_works
        then returned 1
        else if any_section (unreadable N config adverts) (section_names config.sections)
        then uncaught
        else if any_section (served N config adverts) (section_names config.sections)
        then watch N rounds
        else returned 1))
      × (run_main N read adapter debug logger_works none rounds
          ≡ (if not logger_works then returned 1 else uncaught))
unfolding run_main
run_main-ending N read adapter debug logger_works adverts rounds config load readable = (
  ap (λ c. behind_load N c logger_works (some adverts) rounds) load
      ∙ behind_debug-if (getboolean config "monitor" "debug" false) logger_works readable,
  ap (λ c. behind_load N c logger_works none rounds) load
      ∙ behind_debug-none (getboolean config "monitor" "debug" false) logger_works readable,
)
  where
    behind_debug-if :
        (o : Option Bool) (logger_works : Bool)
        → is_some o ≡ true
        → behind_debug N o logger_works config (some adverts) rounds ≡ (
            if not logger_works
            then returned 1
            else if stops N config adverts
            then uncaught
            else if serves N config adverts
            then watch N rounds
            else returned 1)
    behind_debug-if none works h = absurd (cc)
    behind_debug-if (some b) false h = refl
    behind_debug-if (some b) true h = serve-ending N config adverts rounds

    behind_debug-none :
        (o : Option Bool) (logger_works : Bool)
        → is_some o ≡ true
        → behind_debug N o logger_works config none rounds
          ≡ (if not logger_works then returned 1 else uncaught)
    behind_debug-none none works h = absurd (cc)
    behind_debug-none (some b) false h = refl
    behind_debug-none (some b) true h = unfold serve start_up start in refl
