-- ===== src/DataLogger/Topics.antt =====
-- datalogger.py: the topics of DataLoggerMqtt. `prefix` is as the logger keeps it, with the slash
-- behind it.
use Prim.Native.Char.{code}
use solar_monitor.Prelude.{
  ℕ, String, Option, none, some, [], ◌∷◌, ◌++◌, ◌≡◌, refl, ap, ◌∙◌, if◌then◌else◌, arith,
  Bool-cases, inl, inr,
}
use solar_monitor.Prelude.Text.{
  ◌+s◌, ends_with, ends_with-suffix, split, split-append, split-Lacks, Lacks,
}
use text.Mathlib.TextLemmas.{nil-append, cons-append, append_assoc}
use solar_monitor.DataLogger.{Message, switch_config, sensor_config, subscribe, state}

-- the prefix, and the one of the configuration, if there is one
unfoldable pub with_slash : String → String
with_slash prefix = if ends_with prefix "/" then prefix else prefix +s "/"

unfoldable pub prefix_of : Option String → String
prefix_of none = with_slash "solar-monitor"
prefix_of (some prefix) = with_slash prefix

unfoldable pub state_topic : String → String → String → String
state_topic prefix device var = prefix +s device +s "/" +s var +s "/state"

unfoldable pub command_topic : String → String → String → String
command_topic prefix device var = prefix +s device +s "/" +s var +s "/set"

unfoldable pub availability_topic : String → String → String
availability_topic prefix device = prefix +s device +s "/availability"

unfoldable pub switch_topic : String → String → String
switch_topic device var = "homeassistant/switch/" +s device +s "/" +s var +s "/config"

unfoldable pub sensor_topic : String → String → String
sensor_topic device var = "homeassistant/sensor/" +s device +s "/" +s var +s "/config"

abbrev pub slash : ℕ
slash = code "/"

-- the topic that a call of the client names
unfoldable pub topic_of {ℓ} : {V : Type ℓ} → String → Message V → String
topic_of prefix (switch_config device var) = switch_topic device var
topic_of prefix (sensor_config device var) = sensor_topic device var
topic_of prefix (subscribe device var) = command_topic prefix device var
topic_of prefix (state device var val qos) = state_topic prefix device var

slash_cons : (t : String) → "/" +s t ≡ String.◌∷◌ "/" t
slash_cons t = cons-append "/" "" t ∙ ap (String.◌∷◌ "/") (nil-append t)

-- A text with a slash in it is cut there.
split-slash : (s t : String) → split slash (s +s "/" +s t) ≡ split slash s ++ split slash t
split-slash s t = ap (λ u. split slash (s +s u)) (slash_cons t) ∙ split-append "/" s t

-- a name behind the front of a topic, and the last word
split-ending :
    (front device var word : String)
    → Lacks slash device
    → Lacks slash var
    → Lacks slash word
    → split slash (front +s "/" +s device +s "/" +s var +s "/" +s word)
      ≡ split slash front ++ device ∷ var ∷ word ∷ []
split-ending front device var word hd hv hw =
    split-slash front (device +s "/" +s var +s "/" +s word)
    ∙ ap (λ ps. split slash front ++ ps)
        (split-slash device (var +s "/" +s word)
          ∙ rw
              (
                split-slash var word,
                split-Lacks slash device hd,
                split-Lacks slash var hv,
                split-Lacks slash word hw,
              )
              refl)

-- A prefix that the logger keeps ends with a slash.
pub with_slash-stem : (prefix : String) → (stem : String) × (with_slash prefix ≡ stem +s "/")
unfolding with_slash
with_slash-stem prefix = elim (Bool-cases (ends_with prefix "/")) [
  | inl p ↦ rw p (ends_with-suffix prefix "/" p)
  | inr p ↦ rw p (prefix, refl)
]

-- The topics of an entity end with its device, its variable and a word.
behind_prefix :
    (prefix device var word : String)
    → Lacks slash device
    → Lacks slash var
    → Lacks slash word
    → split slash (with_slash prefix +s device +s "/" +s var +s "/" +s word)
      ≡ split slash (with_slash-stem prefix).0 ++ device ∷ var ∷ word ∷ []
behind_prefix prefix device var word hd hv hw =
    let (stem, e) = with_slash-stem prefix in
    ap (λ p. split slash (p +s device +s "/" +s var +s "/" +s word)) e
    ∙ ap (split slash) (append_assoc stem "/" (device +s "/" +s var +s "/" +s word))
    ∙ split-ending stem device var word hd hv hw

pub split-state_topic :
    (prefix device var : String)
    → Lacks slash device
    → Lacks slash var
    → split slash (state_topic (with_slash prefix) device var)
      ≡ split slash (with_slash-stem prefix).0 ++ device ∷ var ∷ "state" ∷ []
unfolding state_topic
split-state_topic prefix device var hd hv =
    behind_prefix prefix device var "state" hd hv (omega arith)

pub split-command_topic :
    (prefix device var : String)
    → Lacks slash device
    → Lacks slash var
    → split slash (command_topic (with_slash prefix) device var)
      ≡ split slash (with_slash-stem prefix).0 ++ device ∷ var ∷ "set" ∷ []
unfolding command_topic
split-command_topic prefix device var hd hv =
    behind_prefix prefix device var "set" hd hv (omega arith)

pub split-switch_topic :
    (device var : String)
    → Lacks slash device
    → Lacks slash var
    → split slash (switch_topic device var)
      ≡ ("homeassistant" ∷ "switch" ∷ []) ++ device ∷ var ∷ "config" ∷ []
unfolding switch_topic split
split-switch_topic device var hd hv =
    ap (split slash)
      (append_assoc "homeassistant/switch" "/" (device +s "/" +s var +s "/" +s "config"))
    ∙ split-ending "homeassistant/switch" device var "config" hd hv (omega arith)

pub split-sensor_topic :
    (device var : String)
    → Lacks slash device
    → Lacks slash var
    → split slash (sensor_topic device var)
      ≡ ("homeassistant" ∷ "sensor" ∷ []) ++ device ∷ var ∷ "config" ∷ []
unfolding sensor_topic split
split-sensor_topic device var hd hv =
    ap (split slash)
      (append_assoc "homeassistant/sensor" "/" (device +s "/" +s var +s "/" +s "config"))
    ∙ split-ending "homeassistant/sensor" device var "config" hd hv (omega arith)
