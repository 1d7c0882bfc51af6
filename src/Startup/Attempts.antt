-- ===== src/Startup/Attempts.antt =====
-- monitor_app.py: whether there is a device behind the first registration.
use solar_monitor.Prelude.{
  ◌≡◌, refl, ◌∙◌, String, Bool, true, false, ◌&&◌, ◌||◌, Option, none, some, List, [], ◌∷◌, ◌++◌,
  map, arith, Option-cases, Bool-cases, inl, inr,
}
use solar_monitor.Monitor.{App, Scan, is_known, sections_of, address_of, has_devices}
use solar_monitor.Monitor.Readable.{
  set_up_readable, register_readable, register_all_readable, add_readable,
}
use solar_monitor.Monitor.Registrations.{is_found, found_in}
use solar_monitor.Monitor.Stops.{any_section}
use solar_monitor.Configuration.{Options, Configuration, device_of, collect}

module _ (configured : List (String × String)) (constructs : String → Bool)
    (trusts : String → Bool) where
  is_known-has_devices :
      (x : String) (devices : List String) → is_known x devices ≡ true → has_devices devices ≡ true
  unfolding is_known has_devices
  is_known-has_devices x [] h = h
  is_known-has_devices x (d ∷ devices) h = refl

  has_devices-append : (devices : List String) (x : String) → has_devices (devices ++ x ∷ []) ≡ true
  unfolding has_devices
  has_devices-append [] x = refl
  has_devices-append (d ∷ devices) x = refl

  has_devices-set_up_readable :
      (x : String) (address : Option String) (app : App)
      → has_devices (set_up_readable configured constructs trusts x address app).devices
        ≡ (has_devices app.devices || (is_found address && constructs x))
  unfolding set_up_readable add_readable
  has_devices-set_up_readable x none app = ground arith
  has_devices-set_up_readable x (some mac) app = elim (Bool-cases (constructs x)) [
    | inl c ↦ rw (c, has_devices-append app.devices x) (ground arith)
    | inr c ↦ rw c (ground arith)
  ]

  has_devices-register_readable :
      (found : Scan) (x : String) (app : App)
      → has_devices (register_readable configured constructs trusts found x app).devices
        ≡ (has_devices app.devices || found_in configured constructs trusts found x)
  unfolding register_readable
  has_devices-register_readable found x app = elim (Bool-cases (is_known x app.devices)) [
    | inl p ↦
        let some_device = is_known-has_devices x app.devices p in
        rw (p, has_devices-set_up_readable x none app, some_device) refl
    | inr p ↦ rw (p, has_devices-set_up_readable x (address_of configured found x) app) refl
  ]

  pub has_devices-register_all_readable :
      (found : Scan) (sections : List String) (app : App)
      → has_devices (register_all_readable configured constructs trusts found sections app).devices
        ≡ (has_devices app.devices
            || any_section (found_in configured constructs trusts found) sections)
  unfolding register_all_readable any_section
  has_devices-register_all_readable found [] app = ground arith
  has_devices-register_all_readable found (x ∷ sections) app =
      has_devices-register_all_readable found sections
        (register_readable configured constructs trusts found x app)
      ∙ rw (has_devices-register_readable found x app) (ground arith)

-- the names of the sections
abbrev pub section_names : List (String × Options) → List String
section_names sections = map (λ (s : String × Options). s.0) sections

-- A test that only sections with a device pass, over the devices of the configuration.
pub any_section-collect :
    (test : String → Bool) (field : String × String → String) (config : Configuration)
    → (sections : List (String × Options))
    → ((s : String) → device_of config s ≡ none → test s ≡ false)
    → any_section test (sections_of (collect field config sections))
      ≡ any_section test (section_names sections)
unfolding any_section sections_of collect
any_section-collect test field config [] h = refl
any_section-collect test field config ((s, options) ∷ sections) h =
    elim (Option-cases (device_of config s)) [
      | inl e ↦ rw (e, h s e) (any_section-collect test field config sections h)
      | inr (d, e) ↦ rw (e, any_section-collect test field config sections h) refl
    ]
