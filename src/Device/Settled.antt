-- ===== src/Device/Settled.antt =====
-- solardevice.py: the validated quantities of a battery, over every sequence of assignments.
use mathlib.Core.Option
use solar_monitor.Prelude.{
  ◌≡◌, refl, ap, subst, sym, ◌∙◌, inl, inr, String, Option, none, some, List, [], ◌∷◌, arith, ◌⊎◌,
  str_eq, str_eq_iff, Bool-cases,
}
use solar_monitor.Prelude.Dict.{lookup, insert, lookup-insert}
use solar_monitor.Numbers.{Num, Real, real_num}
use solar_monitor.Device.Definition.{Definition, validate}
use solar_monitor.Device.Filter.{InBand, SameLimits, validate-SameLimits, validate-val}
use solar_monitor.Device.Entities.{Kind, battery, Entities, battery_definitions, new_entities}
use solar_monitor.Device.Setters.{
  Attribute, mcurrent, current, charge_cycles, target, validate_attr, power_setter, update_state,
  battery_mcurrent, battery_current, battery_charge_cycles, assign, store, store_all,
}

known_after {ℓ} :
    {V : Type ℓ} (var : String) (d : V) (defs : List (String × V)) (j : String)
    → (x : V) × (lookup j defs ≡ some x)
    → (x : V) × (lookup j (insert var d defs) ≡ some x)
known_after var d defs j (x, found) = elim (Bool-cases (str_eq var j)) [
  | inl same ↦ (d, lookup-insert var j d defs ∙ rw same)
  | inr other ↦ (x, lookup-insert var j d defs ∙ rw other found)
]

module _ {ℓ} {N : Type ℓ} ⦃n : Num N⦄ where
  -- The limits are those of the first definition, and the value is that one's or lies within them.
  abbrev pub IsWithin : Definition N → Definition N → Type ℓ
  IsWithin first d = SameLimits d first × ((d.val ≡ first.val) ⊎ InBand d.val first)

  validate-IsWithin :
      (x : N) (first d : Definition N) → IsWithin first d → IsWithin first (validate x d).0
  validate-IsWithin x first d h = ground (arith, validate-SameLimits x d, validate-val x d)

  -- Each definition of a list is within the one of the same name in another.
  abbrev pub AllWithin : List (String × Definition N) → List (String × Definition N) → Type ℓ
  AllWithin firsts defs =
      (var : String) (d : Definition N)
      → lookup var defs ≡ some d
      → (first : Definition N) × (lookup var firsts ≡ some first) × IsWithin first d

  AllWithin-insert :
      (firsts defs : List (String × Definition N)) (var : String) (val : N) (d : Definition N)
      → lookup var defs ≡ some d
      → AllWithin firsts defs
      → AllWithin firsts (insert var (validate val d).0 defs)
  AllWithin-insert firsts defs var val d found h j x at =
      let after = sym (lookup-insert var j (validate val d).0 defs) ∙ at in
      elim (Bool-cases (str_eq var j)) [
        | inl same ↦
            let (first, there, within) = h var d found in
            let new : (validate val d).0 ≡ x = cc (rw same at after) in
            (
              first,
              ap (λ k. lookup k firsts) (sym ((str_eq_iff var j).0 same)) ∙ there,
              subst (IsWithin first) new (validate-IsWithin val first d within),
            )
        | inr other ↦ h j x (rw other at after)
      ]

  -- What holds of a battery between two assignments: each quantity is within what it was at first,
  -- and the definition that a setter validates is there.
  pub record IsSound (e : Entities N) : Type ℓ where
    pub is_battery : e.kind ≡ battery
    pub within : AllWithin battery_definitions e.definitions
    pub known :
        (a : Attribute) (v : N)
        → (d : Definition N) × (lookup (target a v).0 e.definitions ≡ some d)

  validate_attr-IsSound :
      (var : String) (val : N) (e : Entities N) (d : Definition N)
      → lookup var e.definitions ≡ some d
      → IsSound e
      → (e' : Entities N) × (validate_attr var val e ≡ some e') × IsSound e'
  unfolding validate_attr
  validate_attr-IsSound var val e d found s =
      let d' = (validate val d).0 in
      let defs = e.definitions in
      (
        record e { definitions = insert var d' defs },
        ap (Option.map (λ x. record e { definitions = insert var (validate val x).0 defs })) found,
        record {
          is_battery = s.is_battery;
          within = AllWithin-insert battery_definitions defs var val d found s.within;
          known = λ a v. known_after var d' defs (target a v).0 (s.known a v);
        },
      )

  IsSound-same :
      (e e' : Entities N)
      → e'.kind ≡ e.kind
      → e'.definitions ≡ e.definitions
      → IsSound e
      → IsSound e'
  IsSound-same e e' k d s = record {
    is_battery = k ∙ s.is_battery;
    within = subst (AllWithin battery_definitions) (sym d) s.within;
    known = λ a v. rw d (s.known a v);
  }

  IsSound-map :
      (f : Entities N → Entities N) (m : Option (Entities N))
      → ((x : Entities N) → ((f x).kind ≡ x.kind) × ((f x).definitions ≡ x.definitions))
      → (e : Entities N) × (m ≡ some e) × IsSound e
      → (e : Entities N) × (Option.map f m ≡ some e) × IsSound e
  IsSound-map f m keeps (e, found, s) =
      (f e, ap (Option.map f) found, IsSound-same e (f e) (keeps e).0 (keeps e).1 s)

  power_setter-IsSound :
      (a : Attribute) (v : N) (e : Entities N)
      → IsSound e
      → (e' : Entities N) × (power_setter a v e ≡ some e') × IsSound e'
  unfolding power_setter
  power_setter-IsSound a v e s =
      let (d, found) = s.known a v in
      validate_attr-IsSound (target a v).0 (target a v).1 e d found s

  update_state-keeps :
      (v low high : N) (e : Entities N)
      → ((update_state v low high e).kind ≡ e.kind)
        × ((update_state v low high e).definitions ≡ e.definitions)
  unfolding update_state
  update_state-keeps v low high e = ground arith

  battery_mcurrent-IsSound :
      (v : N) (e : Entities N)
      → IsSound e
      → (e' : Entities N) × (battery_mcurrent v e ≡ some e') × IsSound e'
  unfolding battery_mcurrent
  battery_mcurrent-IsSound v e s =
      IsSound-map _ _ (update_state-keeps v _ _) (power_setter-IsSound mcurrent v e s)

  battery_charge_cycles-IsSound :
      (v : N) (e : Entities N)
      → IsSound e
      → (e' : Entities N) × (battery_charge_cycles v e ≡ some e') × IsSound e'
  unfolding battery_charge_cycles
  battery_charge_cycles-IsSound v e s =
      IsSound-map _ _ (λ x. ground arith) (power_setter-IsSound charge_cycles v e s)

  battery_known :
      (a : Attribute) (v : N)
      → (d : Definition N) × (lookup (target a v).0 battery_definitions ≡ some d)
  unfolding target battery_definitions lookup insert
  battery_known mcurrent v = (_, refl)
  battery_known a v = (_, refl)

module _ {ℓ} (N : Type ℓ) ⦃n : Num N⦄ where
  new_entities-IsSound : IsSound {N = N} (new_entities battery)
  unfolding new_entities
  new_entities-IsSound = record {
    is_battery = refl;
    within = λ var d found. (d, found, ((refl, refl, refl), inl refl));
    known = battery_known;
  }

module _ {ℓ} {N : Type ℓ} ⦃r : Real N⦄ where
  battery_current-IsSound :
      (v : N) (e : Entities N)
      → IsSound e
      → (e' : Entities N) × (battery_current v e ≡ some e') × IsSound e'
  unfolding battery_current
  battery_current-IsSound v e s =
      IsSound-map _ _ (update_state-keeps v _ _) (battery_mcurrent-IsSound _ e s)

  assign-IsSound :
      (a : Attribute) (v : N) (e : Entities N)
      → IsSound e
      → (e' : Entities N) × (assign battery a v e ≡ some e') × IsSound e'
  unfolding assign
  assign-IsSound mcurrent v e s = battery_mcurrent-IsSound v e s
  assign-IsSound current v e s = battery_current-IsSound v e s
  assign-IsSound charge_cycles v e s = battery_charge_cycles-IsSound v e s
  assign-IsSound a v e s = power_setter-IsSound a v e s

  store_all-IsSound :
      (calls : List (Attribute × N)) (e : Entities N)
      → IsSound e
      → (e' : Entities N) × (store_all calls e ≡ some e') × IsSound e'
  unfolding store_all store
  store_all-IsSound [] e s = (e, refl, s)
  store_all-IsSound ((a, v) ∷ rest) e s =
      let (e1, now, s1) = assign-IsSound a v e s in
      let (e2, later, s2) = store_all-IsSound rest e1 s1 in
      (
        e2,
        ap (λ (o : Option (Entities N)). elim o [ none ↦ none | some x ↦ store_all rest x ])
              (ap (λ (k : Kind). assign k a v e) s.is_battery ∙ now)
            ∙ later,
        s2,
      )

  -- No sequence of assignments to the properties of a new battery whose setters validate raises, and
  -- after any of them every quantity but the cells has the limits that it had at first, and its value
  -- is the first one or lies within these limits.
  pub store_all-AllWithin :
      (calls : List (Attribute × N))
      → (e : Entities N) × (store_all calls (new_entities battery) ≡ some e)
        × ((var : String) (d : Definition N)
            → lookup var e.definitions ≡ some d
            → (first : Definition N) × (lookup var battery_definitions ≡ some first)
              × SameLimits d first
              × ((d.val ≡ first.val) ⊎ InBand d.val first))
  store_all-AllWithin calls =
      let (e, found, s) = store_all-IsSound calls (new_entities battery) (new_entities-IsSound N) in
      (
        e,
        found,
        λ var d present.
            let (first, there, within) = s.within var d present in
            (first, there, within.0, within.1),
      )
