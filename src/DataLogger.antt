-- ===== src/DataLogger.antt =====
-- datalogger.py: what is sent, to which sinks, and what is remembered as sent. A topic is kept by
-- the device and the variable that it is made of; what the broker and the web server answer is an
-- argument of a call.
pub mod Log
pub mod Sinks
pub mod Delivery
pub mod Switches
pub mod Topics
pub mod Distinct
pub mod Units
pub mod Configs
use solar_monitor.Prelude.{
  ℕ, ◌+◌, String, Bool, true, false, not, ◌&&◌, ◌||◌, Option, none, some, List, [], ◌∷◌, ◌++◌, map,
  if◌then◌else◌, str_eq, leb,
}
use solar_monitor.Prelude.Dict.{lookup, insert}
use solar_monitor.Prelude.Int.{ℤ, pos}
use solar_monitor.Prelude.Text.{contains}
use solar_monitor.Numbers.{Num}

abbrev pub find_in {ℓ} : {V : Type ℓ} → String → Option (List (String × V)) → Option V
find_in var none = none
find_in var (some vars) = lookup var vars

-- d[device][var]
abbrev pub find {ℓ} : {V : Type ℓ} → String → String → List (String × List (String × V)) → Option V
find device var d = find_in var (lookup device d)

abbrev pub assign_in {ℓ} :
    {V : Type ℓ} → String → V → Option (List (String × V)) → List (String × V)
assign_in var v none = (var, v) ∷ []
assign_in var v (some vars) = insert var v vars

-- d[device][var] = v, where d[device] is made first if it is not there
abbrev pub assign {ℓ} :
    {V : Type ℓ}
    → String
    → String
    → V
    → List (String × List (String × V))
    → List (String × List (String × V))
assign device var v d = insert device (assign_in var v (lookup device d)) d

-- What goes to the broker. The quality of service is 1 except for the state of a sensor.
pub data Message {ℓ} (V : Type ℓ) : Type ℓ where
  switch_config sensor_config : String → String → Message V
  subscribe : String → String → Message V
  state : String → String → V → ℕ → Message V

pub record Mqtt {ℓ} (T : Type ℓ) : Type ℓ where
  pub sensors : List (String × List (String × T))
  pub listener_created : List (String × List (String × T))
  pub command_topics : List (String × String)
  pub sets : List (String × List (String × String))

-- What a call of publish meets: the two clocks, whether the client accepts the message, and whether
-- it takes a subscription without raising.
pub record World {ℓ} (T : Type ℓ) : Type ℓ where
  pub monotonic : T
  pub time : T
  pub accepted : Bool
  pub subscribes : Bool

-- add to a set
abbrev pub add_topic : String → String → List (String × String) → List (String × String)
add_topic device var [] = (device, var) ∷ []
add_topic device var ((d, v) ∷ topics) =
    if str_eq d device && str_eq v var
    then (d, v) ∷ topics
    else (d, v) ∷ add_topic device var topics

abbrev pub set_default :
    String → List (String × List (String × String)) → List (String × List (String × String))
set_default device sets = elim (lookup device sets) [ none ↦ insert device [] sets | some _ ↦ sets ]

abbrev pub is_switch : String → Bool
is_switch var = contains var "power_switch"

module _ {ℓ} {T : Type ℓ} where
  unfoldable pub create_listener : World T → String → String → Mqtt T → Mqtt T
  create_listener w device var m = record {
    sensors = m.sensors;
    listener_created =
        if w.subscribes then assign device var w.time m.listener_created else m.listener_created;
    command_topics = add_topic device var m.command_topics;
    sets = set_default device m.sets;
  }

module _ {ℓ} {T : Type ℓ} ⦃n : Num T⦄ where
  abbrev pub is_due : World T → Bool → Option T → Bool
  is_due w refresh none = true
  is_due w refresh (some published_at) =
      refresh && n.le (n.of_int (pos 3600)) (n.sub w.monotonic published_at)

module _ {ℓ κ} {T : Type ℓ} {V : Type κ} ⦃n : Num T⦄ where
  -- The discovery config of an entity that is new or due.
  unfoldable pub announce : World T → String → String → Mqtt T → Mqtt T × List (Message V)
  announce w device var m =
      if is_switch var
      then (
        record (create_listener w device var m) {
          sensors = assign device var w.monotonic m.sensors;
        },
        switch_config device var ∷ subscribe device var ∷ [],
      )
      else (
        record m { sensors = assign device var w.monotonic m.sensors },
        sensor_config device var ∷ [],
      )

  -- The tail of publish, after the state was sent. `none` is the KeyError of a switch that no
  -- listener was made for.
  unfoldable pub renew_listener :
      World T → String → String → Mqtt T → Mqtt T × List (Message V) × Option Bool
  renew_listener w device var m =
      if is_switch var
      then elim (find device var m.listener_created) [
        | none ↦ (m, [], none)
        | some created ↦
            if n.lt (n.add created (n.of_int (pos 300))) w.time
            then (create_listener w device var m, subscribe device var ∷ [], some w.accepted)
            else (m, [], some w.accepted)
      ]
      else (m, [], some w.accepted)

  -- DataLoggerMqtt.publish: the messages in their order, and what it returns or that it raises
  unfoldable pub publish :
      World T → String → String → V → Bool → Mqtt T → Mqtt T × List (Message V) × Option Bool
  publish w device var val refresh m =
      let announced =
        if is_due w refresh (find device var m.sensors) then announce w device var m else (m, []) in
      let renewed = renew_listener w device var announced.0 in
      let sent = state device var val (if is_switch var then 1 else 0) in
      (renewed.0, announced.1 ++ (sent ∷ renewed.1), renewed.2)

-- on_connect: every command topic is subscribed again.
unfoldable pub on_connect {ℓ κ} : {T : Type ℓ} {V : Type κ} → Mqtt T → List (Message V)
on_connect m = map (λ t. subscribe t.0 t.1) m.command_topics
