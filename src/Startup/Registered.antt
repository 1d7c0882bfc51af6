-- ===== src/Startup/Registered.antt =====
-- monitor_app.py: which sections of the configuration lead to a device.
use mathlib.Core.Option
use solar_monitor.Prelude.{
  ◌≡◌, refl, ap, sym, ◌∙◌, String, Bool, true, false, ◌&&◌, Option, none, some, List, [], ◌∷◌,
  if◌then◌else◌, str_eq, Option-cases, Bool-cases, inl, inr,
}
use solar_monitor.Prelude.Dict.{lookup}
use solar_monitor.Prelude.Words.{lower_text}
use solar_monitor.Numbers.{Real}
use solar_monitor.Configuration.{Configuration, device_of, configured}
use solar_monitor.Configuration.Devices.{configured-device_of}
use solar_monitor.Ble.Manager.{Advert, last_named, discover-last}
use solar_monitor.Ble.Manager.{discover as scan}
use solar_monitor.Monitor.{Scan, is_known, sections_of, address_of}
use solar_monitor.Monitor.Readable.{is_some}
use solar_monitor.Monitor.Registrations.{
  is_found, found_in, registrations, start_readable-IsOnce, start_readable-known,
}
use solar_monitor.Monitor.Stops.{trusts}
use solar_monitor.Monitor.Discovery.{start-readable}
use solar_monitor.Startup.{device_for, constructs, trusted_of, start_up}

is_known-sections_of :
    (s : String) (devices : List (String × String))
    → is_known s (sections_of devices) ≡ is_some (lookup s devices)
unfolding is_known sections_of lookup
is_known-sections_of s [] = refl
is_known-sections_of s ((section, mac) ∷ devices) = elim (Bool-cases (str_eq section s)) [
  | inl p ↦ rw p refl
  | inr p ↦ rw p (is_known-sections_of s devices)
]

unfoldable pub found_at : Scan → Option String → Bool
found_at found none = false
found_at found (some mac) = is_some (lookup mac found)

pub is_found-address_of :
    (devices : List (String × String)) (found : Scan) (s : String)
    → is_found (address_of devices found s) ≡ found_at found (lookup s devices)
unfolding address_of found_at
is_found-address_of devices found s = elim (Option-cases (lookup s devices)) [
  | inl e ↦ rw (e, address_of) refl
  | inr (mac, e) ↦ elim (Option-cases (lookup mac found)) [
    | inl e' ↦ rw (e, address_of, e') refl
    | inr (name, e') ↦ rw (e, address_of, e') refl
  ]
]

module _ {ℓ} (N : Type ℓ) ⦃r : Real N⦄ (config : Configuration) where
  -- The section has an address and a type, the constructor goes well, and some device in range has
  -- the address, whatever the case of its letters.
  unfoldable pub is_served : List Advert → String → Option (String × String) → Bool
  is_served adverts s none = false
  is_served adverts s (some (mac, dtype)) =
      is_some (last_named (lower_text mac) adverts)
      && is_some (device_for N config s (some (mac, dtype)))

  findable-device :
      (adverts : List Advert) (s : String) (d : Option (String × String))
      → (found_at (scan adverts) (Option.map (λ d. lower_text d.0) d)
          && is_some (device_for N config s d))
        ≡ is_served adverts s d
  unfolding is_served found_at
  findable-device adverts s none = refl
  findable-device adverts s (some (mac, dtype)) =
      ap (λ o. is_some o && is_some (device_for N config s (some (mac, dtype))))
        (discover-last (lower_text mac) adverts)

  -- The sections that the first scan can register are those that are served.
  pub found_in-served :
      (adverts : List Advert) (s : String)
      → found_in
          (configured config)
          (constructs N config)
          (trusts (configured config) (constructs N config) (trusted_of N config))
          (scan adverts)
          s
        ≡ is_served adverts s (device_of config s)
  unfolding constructs
  found_in-served adverts s =
      let makes = is_some (device_for N config s (device_of config s)) in
      ap (λ b. b && makes)
        (is_found-address_of (configured config) (scan adverts) s
          ∙ ap (found_at (scan adverts)) (configured-device_of config s).0)
      ∙ findable-device adverts s (device_of config s)

  is_served-known :
      (adverts : List Advert) (s : String) (d : Option (String × String))
      → (is_some (Option.map (λ d. lower_text d.0) d) && is_served adverts s d)
        ≡ is_served adverts s d
  unfolding is_served
  is_served-known adverts s none = refl
  is_served-known adverts s (some d) = refl

  -- A section is registered once when the program starts if it has an address and a type, its plugin
  -- is there, its connection interval can be read, and a device in range has its address in whatever
  -- case; and no other section is registered. The scan does not raise, and no such section has an
  -- option `trusted` that is no text for true or false.
  pub start_up-registers :
      (adverts : List Advert) (s : String)
      → ((t : String)
          → is_served adverts t (device_of config t) ≡ true
          → is_some (trusted_of N config t) ≡ true)
      → registrations s (start_up N config (some adverts)).0.calls
        ≡ (if is_served adverts s (device_of config s) then 1 else 0)
  unfolding start_up
  start_up-registers adverts s readable =
      let devices = configured config in
      let makes = constructs N config in
      let trust = trusts devices makes (trusted_of N config) in
      let found = scan adverts in
      let known : is_known s (sections_of devices)
          ≡ is_some (Option.map (λ d. lower_text d.0) (device_of config s)) =
        is_known-sections_of s devices ∙ ap is_some (configured-device_of config s).0 in
      let same =
        start-readable devices makes (trusted_of N config) found
          (λ t h. readable t (sym (found_in-served adverts t) ∙ h)) in
      rw same (
        start_readable-IsOnce devices makes trust found s
        ∙ ap (λ b. if b then 1 else 0)
            (start_readable-known devices makes trust found s
              ∙ rw (known, found_in-served adverts s)
                  (is_served-known adverts s (device_of config s))))
