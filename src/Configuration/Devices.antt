-- ===== src/Configuration/Devices.antt =====
-- monitor_app.py and datalogger.py: the devices of a configuration, on both sides.
use mathlib.Core.Option
use solar_monitor.Prelude.{
  ◌≡◌, refl, ap, ◌∙◌, String, Bool, true, false, Option, none, some, List, [], ◌∷◌, str_eq,
  str_eq_iff, if◌then◌else◌, Bool-cases, inl, inr, arith,
}
use solar_monitor.Prelude.Dict.{lookup, str_eq_refl}
use solar_monitor.Prelude.Words.{lower_text, truthy}
use solar_monitor.Configuration.{
  Options, Configuration, get, device_of, put, collect, configured, device_types,
}

-- Is the section among these?
unfoldable is_among : String → List (String × Options) → Bool
is_among s [] = false
is_among s ((section, options) ∷ sections) = if str_eq section s then true else is_among s sections

module _ {ℓ} {V : Type ℓ} where
  if_none : (b : Bool) → ◌≡◌ {A = Option V} (if b then none else none) none
  if_none true = refl
  if_none false = refl

  lookup-put_self :
      (s : String) (v : Option V) (devices : List (String × V)) (known : Bool)
      → lookup s devices ≡ (if known then v else none)
      → lookup s (put s v devices) ≡ v
  lookup-put_self s none devices known h = h ∙ if_none known
  lookup-put_self s (some x) devices known h = unfold lookup in rw (str_eq_refl s) refl

  lookup-put_other :
      (section s : String) (v : Option V) (devices : List (String × V))
      → str_eq section s ≡ false
      → lookup s (put section v devices) ≡ lookup s devices
  lookup-put_other section s none devices h = refl
  lookup-put_other section s (some x) devices h = unfold lookup in rw h refl

  lookup-collect :
      (field : String × String → V) (config : Configuration) (s : String)
      → (sections : List (String × Options))
      → lookup s (collect field config sections)
        ≡ (if is_among s sections then Option.map field (device_of config s) else none)
  unfolding collect is_among
  lookup-collect field config s [] = unfold lookup in refl
  lookup-collect field config s ((section, options) ∷ sections) =
      let ih = lookup-collect field config s sections in
      let rest = collect field config sections in
      elim (Bool-cases (str_eq section s)) [
        | inl p ↦ rw p (
            ap (λ k. lookup s (put k (Option.map field (device_of config k)) rest))
              ((str_eq_iff section s).0 p)
            ∙ lookup-put_self s (Option.map field (device_of config s)) rest (is_among s sections)
                ih)
        | inr p ↦
            rw p
              (lookup-put_other section s (Option.map field (device_of config section)) rest p ∙ ih)
      ]

-- A section that is not there has no device.
device_of-none :
    (config : Configuration) (s : String)
    → lookup s config.sections ≡ none
    → device_of config s ≡ none
unfolding device_of get truthy
device_of-none config s h = rw h refl

is_among-lookup :
    (s : String) (sections : List (String × Options))
    → is_among s sections ≡ false
    → lookup s sections ≡ none
unfolding is_among lookup
is_among-lookup s [] h = refl
is_among-lookup s ((section, options) ∷ sections) h = ground (arith, is_among-lookup s sections)

lookup-devices {ℓ} :
    {V : Type ℓ} (field : String × String → V) (config : Configuration) (s : String)
    → lookup s (collect field config config.sections) ≡ Option.map field (device_of config s)
lookup-devices field config s = elim (Bool-cases (is_among s config.sections)) [
  | inl p ↦ lookup-collect field config s config.sections ∙ rw p refl
  | inr p ↦
      lookup-collect field config s config.sections
      ∙ rw (p, device_of-none config s (is_among-lookup s config.sections p)) refl
]

-- A section is a device of the program exactly if it has an address and a type, neither of them
-- empty: main then knows its address in lower case, and the MQTT logger its type.
pub configured-device_of :
    (config : Configuration) (s : String)
    → (lookup s (configured config) ≡ Option.map (λ d. lower_text d.0) (device_of config s))
      × (lookup s (device_types config) ≡ Option.map (λ d. d.1) (device_of config s))
unfolding configured device_types
configured-device_of config s =
    (lookup-devices (λ d. lower_text d.0) config s, lookup-devices (λ d. d.1) config s)
