-- ===== src/DataLogger/Sinks.antt =====
-- datalogger.py: what the MQTT sink is sent and answers for a new value.
use solar_monitor.Prelude.{
  ℕ, ◌≡◌, refl, ◌∙◌, String, Bool, true, false, not, ◌&&◌, ◌||◌, Bool-cases, ◌++◌, Option, none,
  some, List, [], ◌∷◌, if◌then◌else◌, Option-cases, inl, inr,
}
use solar_monitor.Prelude.Dict.{lookup, lookup-insert, str_eq_refl}
use solar_monitor.Prelude.Int.{pos}
use solar_monitor.Numbers.{Num}
use solar_monitor.DataLogger.{
  find, assign, assign_in, Message, Mqtt, World, publish, is_switch, announce, renew_listener,
  create_listener, state,
}

self-entry {ℓ} : {V : Type ℓ} (var : String) (v : V) → lookup var ((var, v) ∷ []) ≡ some v
unfolding lookup
self-entry var v = rw (str_eq_refl var)

pub find-assign {ℓ} :
    {V : Type ℓ} (device var : String) (v : V) (d : List (String × List (String × V)))
    → find device var (assign device var v d) ≡ some v
find-assign device var v d =
    rw (lookup-insert device device (assign_in var v (lookup device d)) d, str_eq_refl device)
      (found (lookup device d))
  where
    found : (vars : Option (List (String × _))) → lookup var (assign_in var v vars) ≡ some v
    found none = self-entry var v
    found (some vars) = lookup-insert var var v vars ∙ rw (str_eq_refl var) refl

abbrev pub is_there {ℓ} : {A : Type ℓ} → Option A → Bool
is_there none = false
is_there (some a) = true

module _ {ℓ} {T : Type ℓ} where
  -- Does the variable have a listener, or get one with its first value, if it needs one?
  abbrev pub is_heard : World T → String → String → Mqtt T → Bool
  is_heard w device var m =
      not (is_switch var)
      || ((not (is_there (find device var m.sensors)) && w.subscribes)
          || is_there (find device var m.listener_created))

  -- What the MQTT sink answers: true where there is none, and none where it raises.
  abbrev pub reply : World T → String → String → Option (Mqtt T) → Option Bool
  reply w device var none = some true
  reply w device var (some m) = if is_heard w device var m then some w.accepted else none

module _ {ℓ κ} {T : Type ℓ} {V : Type κ} ⦃n : Num T⦄ where
  -- what the MQTT sink is sent for a new value
  abbrev pub published : World T → String → String → V → Option (Mqtt T) → List (Message V)
  published w device var val none = []
  published w device var val (some m) = (publish w device var val false m).1

  -- With a broker, the state is among it.
  abbrev pub HasState : String → String → V → Option (Mqtt T) → List (Message V) → Type κ
  HasState device var val none sent = Unit
  HasState device var val (some m) sent =
      (front : List (Message V)) × (back : List (Message V)) × (qos : ℕ) × (sent
        ≡ front ++ state device var val qos ∷ back)

  pub published-HasState :
      (w : World T) (device var : String) (val : V) (m : Option (Mqtt T))
      → HasState device var val m (published w device var val m)
  published-HasState w device var val none = tt
  published-HasState w device var val (some m) = unfold publish in (_, _, _, refl)

  pub publish-reply :
      (w : World T) (device var : String) (val : V) (m : Mqtt T)
      → (publish w device var val false m).2 ≡ reply w device var (some m)
  unfolding publish announce renew_listener create_listener
  publish-reply w device var val m = elim (Bool-cases (is_switch var)) [
    | inr s ↦ rw s refl
    | inl s ↦ elim (Option-cases (find device var m.sensors)) [
      | inr (t, e) ↦ elim (Option-cases (find device var m.listener_created)) [
        | inl l ↦ rw (s, e, l) refl
        | inr (c, l) ↦ elim (Bool-cases (n.lt (n.add c (n.of_int (pos 300))) w.time)) [
          | inl late ↦ rw (s, e, l, late) refl
          | inr soon ↦ rw (s, e, l, soon) refl
        ]
      ]
      | inl e ↦ elim (Bool-cases w.subscribes) [
        | inr deaf ↦ elim (Option-cases (find device var m.listener_created)) [
          | inl l ↦ rw (s, e, deaf, l) refl
          | inr (c, l) ↦ elim (Bool-cases (n.lt (n.add c (n.of_int (pos 300))) w.time)) [
            | inl late ↦ rw (s, e, deaf, l, late) refl
            | inr soon ↦ rw (s, e, deaf, l, soon) refl
          ]
        ]
        | inl heard ↦
            let new = find-assign device var w.time m.listener_created in
            elim (Bool-cases (n.lt (n.add w.time (n.of_int (pos 300))) w.time)) [
              | inl late ↦ rw (s, e, heard, new, late) refl
              | inr soon ↦ rw (s, e, heard, new, soon) refl
            ]
      ]
    ]
  ]
