-- ===== src/Device/Limits.antt =====
-- solardevice.py: the limits that a device's section of the configuration sets.
use mathlib.Core.Option
use solar_monitor.Prelude.{
  ◌≡◌, refl, ap, ◌∙◌, String, Option, none, some, List, [], ◌∷◌, str_eq, str_eq_iff, Bool-cases,
  inl, inr,
}
use solar_monitor.Prelude.Dict.{lookup}
use solar_monitor.Device.Definition.{Definition}
use solar_monitor.Device.Entities.{Entities}

-- LIMIT_KEYS
pub data LimitKey : Type 0 where
  min_key max_key maxdiff_key : LimitKey

-- What the section has for an option: nothing, a text that is no number, or a number.
pub data Setting {ℓ} (N : Type ℓ) : Type ℓ where
  absent not_a_number : Setting N
  value : N → Setting N

module _ {ℓ} {N : Type ℓ} where
  -- definition[key] = value
  unfoldable pub set_limit : LimitKey → N → Definition N → Definition N
  set_limit min_key v d = record d { min = v }
  set_limit max_key v d = record d { max = v }
  set_limit maxdiff_key v d = record d { maxdiff = v }

  unfoldable pub override_key : LimitKey → Setting N → Definition N → Definition N
  unfolding set_limit
  override_key key absent d = d
  override_key key not_a_number d = d
  override_key key (value v) d = set_limit key v d

  -- the loop over the keys; `option` is the section by the name of a definition and the key
  unfoldable pub override_definition :
      (String → LimitKey → Setting N) → String → Definition N → Definition N
  unfolding override_key
  override_definition option name d =
      override_key maxdiff_key (option name maxdiff_key)
        (override_key max_key (option name max_key) (override_key min_key (option name min_key) d))

  unfoldable pub override_all :
      (String → LimitKey → Setting N) → List (String × Definition N) → List (String × Definition N)
  override_all option [] = []
  override_all option ((name, d) ∷ definitions) =
      (name, override_definition option name d) ∷ override_all option definitions

  -- The section, where there is one. The dictionary of the cells has none of the keys, so the loop
  -- leaves it out.
  unfoldable pub apply_limit_overrides :
      Option (String → LimitKey → Setting N) → Entities N → Entities N
  apply_limit_overrides none e = e
  apply_limit_overrides (some option) e = record e {
    definitions = override_all option e.definitions;
  }

  -- what a setting makes of a limit
  abbrev pub or_kept : Setting N → N → N
  or_kept absent old = old
  or_kept not_a_number old = old
  or_kept (value v) old = v

  -- the definition with the limits that its settings make
  abbrev pub with_limits : (LimitKey → Setting N) → Definition N → Definition N
  with_limits option d = record d {
    min = or_kept (option min_key) d.min;
    max = or_kept (option max_key) d.max;
    maxdiff = or_kept (option maxdiff_key) d.maxdiff;
  }

  override_key-min :
      (v : Setting N) (d : Definition N)
      → override_key min_key v d ≡ record d { min = or_kept v d.min }
  unfolding override_key set_limit
  override_key-min absent d = refl
  override_key-min not_a_number d = refl
  override_key-min (value v) d = refl

  override_key-max :
      (v : Setting N) (d : Definition N)
      → override_key max_key v d ≡ record d { max = or_kept v d.max }
  unfolding override_key set_limit
  override_key-max absent d = refl
  override_key-max not_a_number d = refl
  override_key-max (value v) d = refl

  override_key-maxdiff :
      (v : Setting N) (d : Definition N)
      → override_key maxdiff_key v d ≡ record d { maxdiff = or_kept v d.maxdiff }
  unfolding override_key set_limit
  override_key-maxdiff absent d = refl
  override_key-maxdiff not_a_number d = refl
  override_key-maxdiff (value v) d = refl

  override_definition-with_limits :
      (option : String → LimitKey → Setting N) (name : String) (d : Definition N)
      → override_definition option name d ≡ with_limits (option name) d
  unfolding override_definition
  override_definition-with_limits option name d =
      rw (override_key-min (option name min_key) d, override_key-max (option name max_key))
        (override_key-maxdiff (option name maxdiff_key) _)

  lookup-override_all :
      (option : String → LimitKey → Setting N) (definitions : List (String × Definition N))
      → (var : String)
      → lookup var (override_all option definitions)
        ≡ Option.map (with_limits (option var)) (lookup var definitions)
  unfolding override_all lookup
  lookup-override_all option [] var = refl
  lookup-override_all option ((name, d) ∷ definitions) var = elim (Bool-cases (str_eq name var)) [
    | inl p ↦
        let e : name ≡ var = (str_eq_iff name var).0 p in
        rw p (ap some (override_definition-with_limits option name d ∙ rw e refl))
    | inr p ↦ rw p (lookup-override_all option definitions var)
  ]

  -- Each limit of each quantity is what the section says, if that is a number, and as it was
  -- otherwise; no stored value changes, nor a count of rejected readings, nor a limit of a cell.
  pub apply_limit_overrides-lookup :
      (option : String → LimitKey → Setting N) (e : Entities N) (var : String)
      → let after = apply_limit_overrides (some option) e in
        (lookup var after.definitions
          ≡ Option.map (with_limits (option var)) (lookup var e.definitions))
        × (after.cells ≡ e.cells)
  unfolding apply_limit_overrides
  apply_limit_overrides-lookup option e var = (lookup-override_all option e.definitions var, refl)
