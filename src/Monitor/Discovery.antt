-- ===== src/Monitor/Discovery.antt =====
-- monitor_app.py: which devices are registered, with options `trusted` that may be unreadable.
use solar_monitor.Prelude.{
  ◌≡◌, refl, ap, ◌∙◌, String, Bool, true, false, ◌&&◌, ◌||◌, Option, none, some, List, [], ◌∷◌,
  if◌then◌else◌, arith, Bool-cases, inl, inr,
}
use solar_monitor.Monitor.{
  App, Scan, Outcome, is_known, missing, sections_of, has_devices, at_first, start, late_round,
  late_discovery, discover,
}
use solar_monitor.Monitor.Readable.{
  is_some, start_readable, late_round_readable, late_readable, discover_readable,
}
use solar_monitor.Monitor.Registrations.{
  found_in, found_in_any, registrations, discover_readable-registers,
}
use solar_monitor.Monitor.Stops.{trusts, register_all-readable}

module _ (configured : List (String × String)) (constructs : String → Bool)
    (trusted : String → Option Bool) where
  abbrev trust : String → Bool
  trust = trusts configured constructs trusted

  abbrev later_on : List (Option Scan) → Outcome → Outcome
  later_on scans after = elim after.1 [
    | true ↦ late_discovery configured constructs trusted scans after.0
    | false ↦ after
  ]

  late_discovery-readable :
      (scans : List (Option Scan)) (app : App)
      → ((s : String)
          → found_in_any configured constructs trust scans s ≡ true
          → is_some (trusted s) ≡ true)
      → late_discovery configured constructs trusted scans app
        ≡ (late_readable configured constructs trust scans app, true)
  unfolding late_discovery late_readable late_round late_round_readable found_in_any
  late_discovery-readable [] app readable = refl
  late_discovery-readable (none ∷ scans) app readable = late_discovery-readable scans app readable
  late_discovery-readable (some found ∷ scans) app readable =
      let known = missing (sections_of configured) app in
      ap (later_on scans) (
        register_all-readable configured constructs trusted found known app
          (λ s h. readable s (rw h refl)))
      ∙ late_discovery-readable scans _ (λ s h. readable s (ground (arith, h)))

  pub start-readable :
      (first : Scan)
      → ((s : String)
          → found_in configured constructs trust first s ≡ true
          → is_some (trusted s) ≡ true)
      → start configured constructs trusted (some first)
        ≡ (start_readable configured constructs trust first, true)
  unfolding start start_readable at_first
  start-readable first readable =
      register_all-readable configured constructs trusted first (sections_of configured) _ readable

  abbrev behind_start : List (Option Scan) → Outcome → Outcome
  behind_start scans after = elim (after.1 && has_devices after.0.devices) [
    | true ↦ late_discovery configured constructs trusted scans after.0
    | false ↦ after
  ]

  abbrev pick : List (Option Scan) → App → Bool → Outcome
  pick scans app goes_on = elim goes_on [
    | true ↦ late_discovery configured constructs trusted scans app
    | false ↦ (app, true)
  ]

  discover-readable :
      (first : Scan) (scans : List (Option Scan))
      → ((s : String)
          → (found_in configured constructs trust first s
              || found_in_any configured constructs trust scans s)
            ≡ true
          → is_some (trusted s) ≡ true)
      → discover configured constructs trusted (some first) scans
        ≡ (discover_readable configured constructs trust first scans, true)
  unfolding discover discover_readable
  discover-readable first scans readable =
      let app = start_readable configured constructs trust first in
      ap (behind_start scans) (start-readable first (λ s h. readable s (rw h refl)))
      ∙ elim (Bool-cases (has_devices app.devices)) [
        | inl p ↦
            ap (pick scans app) p
            ∙ late_discovery-readable scans app (λ s h. readable s (ground (arith, h)))
            ∙ rw p refl
        | inr p ↦ ap (pick scans app) p ∙ rw p refl
      ]

  -- Over the first scan and any later ones, those that fail among them, a device is registered exactly
  -- once if its section is configured, its constructor goes well and a scan finds its address, and
  -- never otherwise. The later scans count if the first one has led to some device. The first scan
  -- does not fail, and each section that is found and constructed has an option `trusted` that can be
  -- read, or none.
  pub discover-registers :
      (first : Scan) (scans : List (Option Scan)) (s : String)
      → ((s : String)
          → (found_in configured constructs trust first s
              || found_in_any configured constructs trust scans s)
            ≡ true
          → is_some (trusted s) ≡ true)
      → let goes_on = has_devices (start configured constructs trusted (some first)).0.devices in
        registrations s (discover configured constructs trusted (some first) scans).0.calls ≡ (
          if is_known s (sections_of configured)
            && (found_in configured constructs trust first s
                || (goes_on && found_in_any configured constructs trust scans s))
          then 1
          else 0)
  discover-registers first scans s readable =
      let same = discover-readable first scans readable in
      let at_start = start-readable first (λ s h. readable s (rw h refl)) in
      rw (same, at_start) (discover_readable-registers configured constructs trust first scans s)
