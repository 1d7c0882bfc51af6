-- ===== src/Monitor/Stops.antt =====
-- monitor_app.py: where an option `trusted` that cannot be read stops the registration.
use solar_monitor.Prelude.{
  ◌≡◌, refl, ap, sym, ◌∙◌, String, Bool, true, false, not, ◌&&◌, ◌||◌, Option, none, some, List, [],
  ◌∷◌, if◌then◌else◌, str_eq, str_eq_iff, arith, Option-cases, Bool-cases, inl, inr,
}
use solar_monitor.Monitor.{
  App, Scan, Outcome, is_known, address_of, add_device, set_up, register_section, register_all,
}
use solar_monitor.Monitor.Readable.{
  is_some, or_false, add_readable, set_up_readable, register_readable, register_all_readable,
}
use solar_monitor.Monitor.Registrations.{is_found, found_in, is_known-register_readable}

-- Does a section of the list pass the test?
unfoldable pub any_section : (String → Bool) → List String → Bool
any_section test [] = false
any_section test (s ∷ sections) = test s || any_section test sections

pub any_section-cong :
    (p q : String → Bool) (sections : List String)
    → ((s : String) → p s ≡ q s)
    → any_section p sections ≡ any_section q sections
unfolding any_section
any_section-cong p q [] h = refl
any_section-cong p q (s ∷ sections) h = rw (h s, any_section-cong p q sections h) refl

any_section-none :
    (p : String → Bool) (sections : List String)
    → ((s : String) → p s ≡ false)
    → any_section p sections ≡ false
unfolding any_section
any_section-none p [] h = refl
any_section-none p (s ∷ sections) h = rw (h s, any_section-none p sections h) refl

module _ (configured : List (String × String)) (constructs : String → Bool)
    (trusted : String → Option Bool) where
  abbrev pub trusts : String → Bool
  trusts s = or_false (trusted s)

  -- Does _register get as far as the option `trusted` of the section, and raise there?
  abbrev pub stops_at : Scan → App → String → Bool
  stops_at found app s =
      not (is_known s app.devices)
      && (found_in configured constructs trusts found s && not (is_some (trusted s)))

  set_up-stops :
      (s : String) (address : Option String) (app : App)
      → set_up configured constructs trusted s address app ≡ (
          if (is_found address && constructs s) && not (is_some (trusted s))
          then (app, false)
          else (set_up_readable configured constructs trusts s address app, true))
  unfolding set_up set_up_readable add_device add_readable
  set_up-stops s none app = refl
  set_up-stops s (some mac) app = elim (Bool-cases (constructs s)) [
    | inl c ↦ elim (Option-cases (trusted s)) [
      | inl e ↦ rw (c, e) refl
      | inr (b, e) ↦ rw (c, e) refl
    ]
    | inr c ↦ rw c refl
  ]

  register_section-stops :
      (found : Scan) (s : String) (app : App)
      → register_section configured constructs trusted found s app ≡ (
          if stops_at found app s
          then (app, false)
          else (register_readable configured constructs trusts found s app, true))
  unfolding register_section register_readable
  register_section-stops found s app = elim (Bool-cases (is_known s app.devices)) [
    | inl p ↦ rw p (set_up-stops s none app)
    | inr p ↦ rw p (set_up-stops s (address_of configured found s) app)
  ]

  stops_at-after :
      (found : Scan) (x : String) (app : App) (s : String)
      → stops_at found app x ≡ false
      → stops_at found (register_readable configured constructs trusts found x app) s
        ≡ stops_at found app s
  stops_at-after found x app s h = elim (Bool-cases (str_eq x s)) [
    | inl p ↦
        let e : x ≡ s = (str_eq_iff x s).0 p in
        let h' : stops_at found app s ≡ false = ap (stops_at found app) (sym e) ∙ h in
        rw (is_known-register_readable configured constructs trusts found x s app, p)
          (ground (arith, h'))
    | inr p ↦
        rw (is_known-register_readable configured constructs trusts found x s app, p) (ground arith)
  ]

  abbrev go_on : Scan → List String → Outcome → Outcome
  go_on found sections after = elim after.1 [
    | true ↦ register_all configured constructs trusted found sections after.0
    | false ↦ after
  ]

  abbrev outcome_of : App → App → Bool → Outcome
  outcome_of app after stops = if stops then (app, false) else (after, true)

  register_all-cons :
      (found : Scan) (x : String) (sections : List String) (app : App) (stops : Bool)
      → stops_at found app x ≡ stops
      → register_all configured constructs trusted found (x ∷ sections) app ≡ (
          if stops
          then (app, false)
          else register_all configured constructs trusted found sections
              (register_readable configured constructs trusts found x app))
  unfolding register_all
  register_all-cons found x sections app stops h =
      let after = register_readable configured constructs trusts found x app in
      let step : register_section configured constructs trusted found x app
          ≡ (if stops then (app, false) else (after, true)) =
        register_section-stops found x app ∙ ap (outcome_of app after) h in
      ap (go_on found sections) step ∙ by_stop stops after
    where
      by_stop :
          (stops : Bool) (after : App)
          → go_on found sections (if stops then (app, false) else (after, true)) ≡ (
              if stops
              then (app, false)
              else register_all configured constructs trusted found sections after)
      by_stop true after = refl
      by_stop false after = refl

  -- The registration stops exactly if one of the sections does, and otherwise goes as it does where
  -- every option can be read.
  pub register_all-stops :
      (found : Scan) (sections : List String) (app : App)
      → let run = register_all configured constructs trusted found sections app in
        (any_section (stops_at found app) sections ≡ true → run.1 ≡ false)
        × (any_section (stops_at found app) sections ≡ false
            → run ≡ (register_all_readable configured constructs trusts found sections app, true))
  unfolding register_all register_all_readable any_section
  register_all-stops found [] app = (λ e. cc, λ e. refl)
  register_all-stops found (x ∷ sections) app = elim (Bool-cases (stops_at found app x)) [
    | inl p ↦
        rw p
          (λ e. ap (λ (o : Outcome). o.1) (register_all-cons found x sections app true p), λ e. cc)
    | inr p ↦
        let after = register_readable configured constructs trusts found x app in
        let ih = register_all-stops found sections after in
        let same =
          any_section-cong (stops_at found after) (stops_at found app) sections
            (λ s. stops_at-after found x app s p) in
        let step = register_all-cons found x sections app false p in
        rw p (λ e. ap (λ (o : Outcome). o.1) step ∙ ih.0 (same ∙ e), λ e. step ∙ ih.1 (same ∙ e))
  ]

  -- A list of which no section stops.
  pub register_all-readable :
      (found : Scan) (sections : List String) (app : App)
      → ((s : String)
          → found_in configured constructs trusts found s ≡ true
          → is_some (trusted s) ≡ true)
      → register_all configured constructs trusted found sections app
        ≡ (register_all_readable configured constructs trusts found sections app, true)
  register_all-readable found sections app readable =
      (register_all-stops found sections app).1
        (any_section-none (stops_at found app) sections (λ s. ground (arith, readable s)))
