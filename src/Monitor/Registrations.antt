-- ===== src/Monitor/Registrations.antt =====
-- monitor_app.py: which devices are registered, and how often, where every option `trusted` can be
-- read.
use solar_monitor.Prelude.{
  ℕ, ◌+◌, ◌-◌, ◌≤◌, ◌<◌, ◌≡◌, refl, sym, ◌∙◌, Bool, true, false, not, ◌&&◌, ◌||◌, Option, none,
  some, List, [], ◌∷◌, ◌++◌, length, get_or, if◌then◌else◌, String, str_eq, str_eq_iff, map, arith,
  Bool-cases, inl, inr,
}
use solar_monitor.Monitor.{
  discovery_complete, App, is_known, Scan, address_of, missing, sections_of, has_devices, Call,
  set_offline, expect, set_trusted, register,
}
use solar_monitor.Monitor.Readable.{
  add_readable, set_up_readable, register_readable, register_all_readable, start_readable,
  late_round_readable, late_readable, discover_readable,
}

-- Where the counts never fall, a discovery that is complete has seen no new device in any of the last
-- samples of the window: they are all the last count.
pub discovery_complete-quiet :
    (found : List ℕ) (window k : ℕ)
    → ((i j : ℕ) → i ≤ j → j < length found → get_or found i 0 ≤ get_or found j 0)
    → discovery_complete found window ≡ true
    → k ≤ window
    → get_or found (length found - 1 - k) 0 ≡ get_or found (length found - 1) 0
unfolding discovery_complete
discovery_complete-quiet found window k rises complete le =
    let many : window < length found = ground arith in
    let same : get_or found (length found - 1) 0 ≡ get_or found (length found - 1 - window) 0 =
      ground arith in
    let last = rises (length found - 1 - k) (length found - 1) (omega arith) (omega arith) in
    let first =
      rises (length found - 1 - window) (length found - 1 - k) (omega arith) (omega arith) in
    omega (arith, same, last, first)

is_known-append :
    (s : String) (xs : List String) (x : String)
    → is_known s (xs ++ x ∷ []) ≡ (is_known s xs || str_eq x s)
unfolding is_known
is_known-append s [] x = ground arith
is_known-append s (y ∷ xs) x = ground (arith, is_known-append s xs x)

is_known_as :
    (x s : String) (devices : List String)
    → is_known x devices ≡ true
    → str_eq x s ≡ true
    → is_known s devices ≡ true
is_known_as x s devices p q = rw (← (str_eq_iff x s).0 q) p

abbrev pub is_found : Option String → Bool
is_found none = false
is_found (some mac) = true

is_known-missing :
    (sections : List String) (s : String) (app : App)
    → is_known s (missing sections app) ≡ (is_known s sections && not (is_known s app.devices))
unfolding missing is_known
is_known-missing [] s app = refl
is_known-missing (x ∷ sections) s app =
    let ih = is_known-missing sections s app in
    elim (Bool-cases (is_known x app.devices)) [
      | inl p ↦ rw (p, ih) (ground (arith, is_known_as x s app.devices p))
      | inr p ↦ elim (Bool-cases (str_eq x s)) [
        | inl q ↦
            let e : s ≡ x = sym ((str_eq_iff x s).0 q) in
            let unknown : is_known s app.devices ≡ false = rw e p in rw (p, q, unknown)
        | inr q ↦ rw (p, q, ih)
      ]
    ]

-- the calls that register a section
unfoldable pub registrations : String → List Call → ℕ
registrations s [] = 0
registrations s (register section mac ∷ calls) =
    if str_eq section s then registrations s calls + 1 else registrations s calls
registrations s (_ ∷ calls) = registrations s calls

registrations-append :
    (s : String) (xs ys : List Call)
    → registrations s (xs ++ ys) ≡ registrations s xs + registrations s ys
unfolding registrations
registrations-append s [] ys = omega arith
registrations-append s (register section mac ∷ xs) ys = ground (arith, registrations-append s xs ys)
registrations-append s (set_offline section ∷ xs) ys = registrations-append s xs ys
registrations-append s (expect section ∷ xs) ys = registrations-append s xs ys
registrations-append s (set_trusted mac b ∷ xs) ys = registrations-append s xs ys

registrations-offline :
    (s : String) (sections : List String) → registrations s (map set_offline sections) ≡ 0
unfolding registrations
registrations-offline s [] = refl
registrations-offline s (x ∷ sections) = registrations-offline s sections

-- A section that is known was registered once, and another never.
abbrev pub IsOnce : App → Type 0
IsOnce app = (s : String) → registrations s app.calls ≡ (if is_known s app.devices then 1 else 0)

module _ (configured : List (String × String)) (constructs trusted : String → Bool) where
  -- Can the scan register the section?
  abbrev pub found_in : Scan → String → Bool
  found_in scan s = is_found (address_of configured scan s) && constructs s

  abbrev step : Scan → String → App → App
  step = register_readable configured constructs trusted

  is_known-set_up_readable :
      (x s : String) (address : Option String) (app : App)
      → is_known s (set_up_readable configured constructs trusted x address app).devices
        ≡ (is_known s app.devices || (str_eq x s && (is_found address && constructs x)))
  unfolding set_up_readable add_readable
  is_known-set_up_readable x s none app = ground arith
  is_known-set_up_readable x s (some mac) app = elim (Bool-cases (constructs x)) [
    | inl c ↦ rw c (is_known-append s app.devices x ∙ ground arith)
    | inr c ↦ rw c (ground arith)
  ]

  same_section :
      (scan : Scan) (x s : String)
      → str_eq x s ≡ true
      → (is_found (address_of configured scan x) && constructs x) ≡ found_in scan s
  same_section scan x s q = let e : x ≡ s = (str_eq_iff x s).0 q in rw e

  pub is_known-register_readable :
      (scan : Scan) (x s : String) (app : App)
      → is_known s (step scan x app).devices
        ≡ (is_known s app.devices || (str_eq x s && found_in scan s))
  unfolding register_readable
  is_known-register_readable scan x s app = elim (Bool-cases (is_known x app.devices)) [
    | inl p ↦
        rw (p, is_known-set_up_readable x s none app)
          (ground (arith, is_known_as x s app.devices p))
    | inr p ↦
        rw (p, is_known-set_up_readable x s (address_of configured scan x) app)
          (ground (arith, same_section scan x s))
  ]

  is_known-register_all_readable :
      (scan : Scan) (sections : List String) (s : String) (app : App)
      → is_known s (register_all_readable configured constructs trusted scan sections app).devices
        ≡ (is_known s app.devices || (is_known s sections && found_in scan s))
  unfolding register_all_readable is_known
  is_known-register_all_readable scan [] s app = ground arith
  is_known-register_all_readable scan (x ∷ sections) s app =
      is_known-register_all_readable scan sections s (step scan x app)
      ∙ rw (is_known-register_readable scan x s app) (ground arith)

  -- does one of the scans find the section?
  unfoldable pub found_in_any : List (Option Scan) → String → Bool
  found_in_any [] s = false
  found_in_any (none ∷ scans) s = found_in_any scans s
  found_in_any (some scan ∷ scans) s = found_in scan s || found_in_any scans s

  is_known-late_readable :
      (scans : List (Option Scan)) (s : String) (app : App)
      → is_known s (late_readable configured constructs trusted scans app).devices
        ≡ (is_known s app.devices || (is_known s (sections_of configured) && found_in_any scans s))
  unfolding late_readable late_round_readable found_in_any
  is_known-late_readable [] s app = ground arith
  is_known-late_readable (none ∷ scans) s app = is_known-late_readable scans s app
  is_known-late_readable (some scan ∷ scans) s app =
      let sections = sections_of configured in
      is_known-late_readable scans s
        (register_all_readable configured constructs trusted scan (missing sections app) app)
      ∙ rw
          (
            is_known-register_all_readable scan (missing sections app) s app,
            is_known-missing sections s app,
          )
          (ground arith)

  registrations-new :
      (x s mac : String)
      → registrations s
          (set_trusted mac (trusted x) ∷ expect x ∷ set_offline x ∷ register x mac ∷ [])
        ≡ (if str_eq x s then 1 else 0)
  unfolding registrations
  registrations-new x s mac = ground arith

  set_up_readable-IsOnce :
      (x : String) (address : Option String) (app : App)
      → is_known x app.devices ≡ false
      → IsOnce app
      → IsOnce (set_up_readable configured constructs trusted x address app)
  unfolding set_up_readable add_readable
  set_up_readable-IsOnce x none app new h s = h s
  set_up_readable-IsOnce x (some mac) app new h s = elim (Bool-cases (constructs x)) [
    | inr c ↦ rw c (h s)
    | inl c ↦
        let more =
          registrations-append s app.calls
            (set_trusted mac (trusted x) ∷ expect x ∷ set_offline x ∷ register x mac ∷ []) in
        let clash : str_eq x s ≡ true → is_known s app.devices ≡ false =
          λ q. rw (← (str_eq_iff x s).0 q) new in
        rw (c, more, is_known-append s app.devices x, h s, registrations-new x s mac)
          (ground (arith, clash))
  ]

  register_readable-IsOnce :
      (scan : Scan) (x : String) (app : App) → IsOnce app → IsOnce (step scan x app)
  unfolding register_readable set_up_readable
  register_readable-IsOnce scan x app h = elim (Bool-cases (is_known x app.devices)) [
    | inl p ↦ rw p h
    | inr p ↦ rw p (set_up_readable-IsOnce x (address_of configured scan x) app p h)
  ]

  register_all_readable-IsOnce :
      (scan : Scan) (sections : List String) (app : App)
      → IsOnce app
      → IsOnce (register_all_readable configured constructs trusted scan sections app)
  unfolding register_all_readable
  register_all_readable-IsOnce scan [] app h = h
  register_all_readable-IsOnce scan (x ∷ sections) app h =
      register_all_readable-IsOnce scan sections (step scan x app)
        (register_readable-IsOnce scan x app h)

  late_readable-IsOnce :
      (scans : List (Option Scan)) (app : App)
      → IsOnce app
      → IsOnce (late_readable configured constructs trusted scans app)
  unfolding late_readable late_round_readable
  late_readable-IsOnce [] app h = h
  late_readable-IsOnce (none ∷ scans) app h = late_readable-IsOnce scans app h
  late_readable-IsOnce (some scan ∷ scans) app h =
      late_readable-IsOnce scans _
        (register_all_readable-IsOnce scan (missing (sections_of configured) app) app h)

  pub start_readable-IsOnce :
      (first : Scan) → IsOnce (start_readable configured constructs trusted first)
  unfolding start_readable is_known
  start_readable-IsOnce first =
      register_all_readable-IsOnce first (sections_of configured) _
        (λ s. registrations-offline s (sections_of configured))

  pub start_readable-known :
      (first : Scan) (s : String)
      → is_known s (start_readable configured constructs trusted first).devices
        ≡ (is_known s (sections_of configured) && found_in first s)
  unfolding start_readable is_known
  start_readable-known first s = is_known-register_all_readable first (sections_of configured) s _

  pub discover_readable-registers :
      (first : Scan) (scans : List (Option Scan)) (s : String)
      → let goes_on = has_devices (start_readable configured constructs trusted first).devices in
        registrations s (discover_readable configured constructs trusted first scans).calls ≡ (
          if is_known s (sections_of configured)
            && (found_in first s || (goes_on && found_in_any scans s))
          then 1
          else 0)
  unfolding discover_readable
  discover_readable-registers first scans s =
      let app = start_readable configured constructs trusted first in
      elim (Bool-cases (has_devices app.devices)) [
        | inl p ↦ rw p (
            late_readable-IsOnce scans app (start_readable-IsOnce first) s
            ∙ rw (is_known-late_readable scans s app, start_readable-known first s) (ground arith))
        | inr p ↦
            rw p (start_readable-IsOnce first s ∙ rw (start_readable-known first s) (ground arith))
      ]
