-- ===== src/DataLogger/Distinct.antt =====
-- datalogger.py: no two entities share a topic.
use solar_monitor.Prelude.{
  ℕ, ◌+◌, ◌-◌, String, List, [], ◌∷◌, ◌++◌, ◌≡◌, refl, sym, ap, ◌∙◌, if◌then◌else◌, get_or, length,
  length-append, get_or-append, str_eq, arith,
}
use solar_monitor.Prelude.Text.{split, Lacks}
use solar_monitor.DataLogger.{Message, switch_config, sensor_config, subscribe, state}
use solar_monitor.DataLogger.Topics.{
  with_slash, slash, topic_of, with_slash-stem, split-state_topic, split-command_topic,
  split-switch_topic, split-sensor_topic,
}

-- What a topic is for.
pub data Kind : Type 0 where
  switch sensor command status : Kind

unfoldable pub label {ℓ} : {V : Type ℓ} → Message V → Kind × String × String
label (switch_config device var) = (switch, device, var)
label (sensor_config device var) = (sensor, device, var)
label (subscribe device var) = (command, device, var)
label (state device var val qos) = (status, device, var)

-- the k-th part from the end, from 1 on
abbrev from_end : ℕ → List String → String
from_end k parts = get_or parts (length parts - k) ""

kind_of : List String → Kind
kind_of parts =
    if str_eq (from_end 1 parts) "set"
    then command
    else if str_eq (from_end 1 parts) "state"
    then status
    else if str_eq (from_end 4 parts) "switch"
    then switch
    else sensor

label_of : List String → Kind × String × String
unfolding kind_of
label_of parts = (kind_of parts, from_end 3 parts, from_end 2 parts)

from_end-append :
    (k i : ℕ) (xs ys : List String) → i + k ≡ length ys → from_end k (xs ++ ys) ≡ get_or ys i ""
from_end-append k i xs ys h =
    let e : length (xs ++ ys) - k ≡ length xs + i = omega (arith, length-append xs ys) in
    rw e (get_or-append xs ys i "")

label_of-topic {ℓ} :
    {V : Type ℓ} (prefix : String) (m : Message V)
    → Lacks slash (label m).1
    → Lacks slash (label m).2
    → label_of (split slash (topic_of (with_slash prefix) m)) ≡ label m
unfolding label label_of topic_of
label_of-topic prefix (switch_config device var) hd hv =
    rw (split-switch_topic device var hd hv) refl
label_of-topic prefix (sensor_config device var) hd hv =
    rw (split-sensor_topic device var hd hv) refl
label_of-topic prefix (subscribe device var) hd hv =
    let front = split slash (with_slash-stem prefix).0 in
    let ending = device ∷ var ∷ "set" ∷ [] in
    rw (split-command_topic prefix device var hd hv) (
      rw
        (
          from_end-append 1 2 front ending refl,
          from_end-append 2 1 front ending refl,
          from_end-append 3 0 front ending refl,
        )
        refl)
label_of-topic prefix (state device var val qos) hd hv =
    let front = split slash (with_slash-stem prefix).0 in
    let ending = device ∷ var ∷ "state" ∷ [] in
    rw (split-state_topic prefix device var hd hv) (
      rw
        (
          from_end-append 1 2 front ending refl,
          from_end-append 2 1 front ending refl,
          from_end-append 3 0 front ending refl,
        )
        refl)

-- Two messages whose topics are equal are of the same kind, a switch's config, a sensor's config, a
-- subscription or a state, and about the same variable of the same device, whatever the prefix, if
-- no name has a slash in it.
pub topic_of-injective {ℓ} :
    {V : Type ℓ} (prefix : String) (m m' : Message V)
    → Lacks slash (label m).1
    → Lacks slash (label m).2
    → Lacks slash (label m').1
    → Lacks slash (label m').2
    → topic_of (with_slash prefix) m ≡ topic_of (with_slash prefix) m'
    → label m ≡ label m'
topic_of-injective prefix m m' hd hv hd' hv' e =
    sym (label_of-topic prefix m hd hv)
    ∙ ap (λ t. label_of (split slash t)) e
    ∙ label_of-topic prefix m' hd' hv'
