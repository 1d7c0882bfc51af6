-- ===== src/Pipeline/Shown.antt =====
-- ble.py, solardevice.py and datalogger.py: the availability that is published last of a device.
use text.Mathlib.TextLemmas.{append_cancel_left, append_cancel_right}
use solar_monitor.Prelude.{
  ℕ, ◌≡◌, ◌≢◌, refl, ap, sym, subst, ◌∙◌, String, Bool, true, false, Option, none, some, List, ◌∷◌,
  ◌==◌, if◌then◌else◌, str_eq, str_eq_iff, arith, ==_iff, Bool-cases, inl, inr,
}
use solar_monitor.Prelude.Dict.{str_eq_refl}
use solar_monitor.Prelude.Words.{strip}
use solar_monitor.DataLogger.Topics.{availability_topic}
use solar_monitor.DataLogger.Configs.{
  Naming, Packet, Payload, publish, note, set_available, set_device_alias,
}
use solar_monitor.Device.Plugins.{on_connected, on_disconnected}
use solar_monitor.Ble.Task.{
  Shared, Task, Move, quit, no_client, begin, acquire, connect, connect_fails, subscribe,
  subscribe_fails, hold, hold_ends, stop_after, retry, back_off, wake, cancel_locked,
  cancel_subscribing, cancel_waiting, cancel_holding, cancel_closing, cancel_backing_off, serves,
}
use solar_monitor.Ble.Fleet.{Fleet, update, move, request_stop, Reach, start, later}
use solar_monitor.Ble.Invariant.{Reach-IsHonest}
use solar_monitor.Pipeline.Availability.{told, World, retained, tell, history}

abbrev or_before : Option Bool → Bool → Bool
or_before none before = before
or_before (some b) before = b

announced-told :
    {notify me : ℕ} {m m' : Shared} {t t' : Task} (mv : Move notify me m t m' t')
    → t.announced ≡ serves t.phase
    → t'.announced ≡ or_before (told mv) t.announced
unfolding told serves
announced-told (quit p s) h = refl
announced-told (no_client p s) h = refl
announced-told (begin p s) h = refl
announced-told (acquire p s) h = refl
announced-told (connect p) h = refl
announced-told (connect_fails p) h = refl
announced-told (subscribe p) h = refl
announced-told (subscribe_fails p) h = refl
announced-told (hold p) h = refl
announced-told (hold_ends p) h = refl
announced-told (stop_after p s) h = refl
announced-told (retry p s) h = refl
announced-told (back_off p s) h = refl
announced-told (wake p) h = refl
announced-told (cancel_locked p) h = refl
announced-told (cancel_subscribing p) h = refl
announced-told (cancel_waiting p) h = refl
announced-told (cancel_holding p) h = refl
announced-told (cancel_closing p) h = sym (h ∙ ap serves p)
announced-told (cancel_backing_off p) h = sym (h ∙ ap serves p)

announced-update :
    {notify : ℕ} {m m' : Shared} {t' : Task} (task : ℕ → Task) (i j : ℕ)
    → (mv : Move notify i m (task i) m' t') → (task i).announced ≡ serves (task i).phase
    → (if i == j then or_before (told mv) (task j).announced else (task j).announced)
      ≡ (update task i t' j).announced
announced-update task i j mv honest = elim (Bool-cases (i == j)) [
  | inl q ↦
      let e : j ≡ i = sym ((==_iff i j).0 q) in
      rw q (ap (λ k. or_before (told mv) (task k).announced) e ∙ sym (announced-told mv honest))
  | inr q ↦ rw q refl
]

-- Two topics of availability are the same for one name only.
other_topic :
    (prefix a b : String)
    → a ≢ b
    → str_eq (availability_topic prefix a) (availability_topic prefix b) ≡ false
unfolding availability_topic
other_topic prefix a b ne =
    elim (Bool-cases (str_eq (availability_topic prefix a) (availability_topic prefix b))) [
      | inl p ↦ absurd (
          ne (
            append_cancel_right a b "/availability"
              (append_cancel_left prefix _ _ ((str_eq_iff _ _).0 p))))
      | inr p ↦ p
    ]

prefix-set_device_alias :
    (device alias : String) (n : Naming) → (set_device_alias device alias n).prefix ≡ n.prefix
unfolding set_device_alias
prefix-set_device_alias device alias n = ground arith

module _ {ℓ} {V : Type ℓ} where
  retained-publish_same :
      (topic : String) (payload : Payload V) (qos : ℕ) (packets : List (Packet V))
      → retained topic (publish topic payload qos true ∷ packets) ≡ some payload
  unfolding retained
  retained-publish_same topic payload qos packets = rw (str_eq_refl topic) refl

  retained-publish_other :
      (t topic : String) (payload : Payload V) (qos : ℕ) (packets : List (Packet V))
      → str_eq t topic ≡ false
      → retained topic (publish t payload qos true ∷ packets) ≡ retained topic packets
  unfolding retained
  retained-publish_other t topic payload qos packets h = rw h refl

abbrev online_text : Bool → String
online_text online = if online then "online" else "offline"

module _ {ℓ} {V : Type ℓ} (name : ℕ → String) where
  -- What is known of a device: its client, and what was published last of its availability.
  abbrev IsShown : String → World V → ℕ → Bool → Type ℓ
  IsShown prefix w i online =
      ((w.link i).has_client ≡ online)
      × (retained (availability_topic prefix (strip (name i))) w.sent
          ≡ some (note (if online then "online" else "offline")))

  prefix-tell :
      (i : ℕ) (o : Option Bool) (w : World V) → (tell name i o w).naming.prefix ≡ w.naming.prefix
  unfolding tell on_connected on_disconnected set_device_alias
  prefix-tell i none w = refl
  prefix-tell i (some true) w = ground arith
  prefix-tell i (some false) w = refl

  sent-tell :
      (i : ℕ) (b : Bool) (w : World V)
      → (tell name i (some b) w).sent
        ≡ publish
            (availability_topic w.naming.prefix (strip (name i)))
            (note (online_text b))
            1
            true
          ∷ w.sent
  unfolding tell on_connected on_disconnected set_available
  sent-tell i true w =
      ap (λ p. publish (availability_topic p (strip (name i))) (note "online") 1 true ∷ w.sent)
        (prefix-set_device_alias (name i) (w.link i).alias w.naming)
  sent-tell i false w = refl

  client-tell :
      (i j : ℕ) (b : Bool) (w : World V)
      → ((tell name i (some b) w).link j).has_client ≡ (if i == j then b else (w.link j).has_client)
  unfolding tell on_connected on_disconnected
  client-tell i j true w = elim (Bool-cases (i == j)) [ inl q ↦ rw q refl | inr q ↦ rw q refl ]
  client-tell i j false w = elim (Bool-cases (i == j)) [ inl q ↦ rw q refl | inr q ↦ rw q refl ]

  tell-IsShown :
      (i j : ℕ) (o : Option Bool) (w : World V) (prefix : String) (before : Bool)
      → ((i : ℕ) → i ≢ j → strip (name i) ≢ strip (name j))
      → w.naming.prefix ≡ prefix
      → IsShown prefix w j before
      → IsShown prefix (tell name i o w) j (if i == j then or_before o before else before)
  tell-IsShown i j none w prefix before distinct same h =
      unfold tell in elim (Bool-cases (i == j)) [ inl q ↦ rw q h | inr q ↦ rw q h ]
  tell-IsShown i j (some b) w prefix before distinct same h =
      let at : String → ℕ → String = λ p k. availability_topic p (strip (name k)) in
      let sent =
        sent-tell i b w ∙ ap (λ p. publish (at p i) (note (online_text b)) 1 true ∷ w.sent) same in
      elim (Bool-cases (i == j)) [
        | inl q ↦
            let e : j ≡ i = sym ((==_iff i j).0 q) in
            rw q (
              client-tell i j b w ∙ rw q refl,
              ap (retained (at prefix j)) sent
                  ∙ ap
                      (λ k.
                        retained (at prefix k)
                          (publish (at prefix i) (note (online_text b)) 1 true ∷ w.sent))
                      e
                  ∙ retained-publish_same (at prefix i) (note (online_text b)) 1 w.sent,
            )
        | inr q ↦
            let ne : i ≢ j = λ e. ground arith in
            rw q (
              client-tell i j b w ∙ rw q h.0,
              ap (retained (at prefix j)) sent
                  ∙ retained-publish_other (at prefix i) (at prefix j) (note (online_text b)) 1
                      w.sent (other_topic prefix _ _ (distinct i ne))
                  ∙ h.1,
            )
      ]

  prefix-history :
      {notify : ℕ → ℕ} {s : Fleet} (w : World V) (r : Reach notify s)
      → (history name w r).naming.prefix ≡ w.naming.prefix
  unfolding history
  prefix-history w start = refl
  prefix-history w (later r (move i mv)) =
      prefix-tell i (told mv) (history name w r) ∙ prefix-history w r
  prefix-history w (later r request_stop) = prefix-history w r

  announced-IsShown :
      {notify : ℕ → ℕ} {s : Fleet} (w : World V) (prefix : String) (r : Reach notify s) (j : ℕ)
      → ((i : ℕ) → i ≢ j → strip (name i) ≢ strip (name j))
      → w.naming.prefix ≡ prefix
      → IsShown prefix w j false
      → IsShown prefix (history name w r) j (s.task j).announced
  unfolding history
  announced-IsShown w prefix start j distinct same h = h
  announced-IsShown w prefix (later {s = s} r (move i mv)) j distinct same h =
      subst (IsShown prefix (tell name i (told mv) (history name w r)) j)
        (announced-update s.task i j mv (Reach-IsHonest r i).0)
        (tell-IsShown i j (told mv) (history name w r) prefix (s.task j).announced distinct
          (prefix-history w r ∙ same) (announced-IsShown w prefix r j distinct same h))
  announced-IsShown w prefix (later r request_stop) j distinct same h =
      announced-IsShown w prefix r j distinct same h

  -- In every state that the tasks reach, whatever the radio does and whenever they are cancelled, a
  -- device has a client exactly while its task subscribes or holds, and the availability that was
  -- published last of it, to be retained, is online then and offline otherwise. The device has no
  -- client at first and was set offline, no other has its name, and no call of the data logger
  -- raises.
  pub history-retained :
      {notify : ℕ → ℕ} {s : Fleet} (w : World V) (prefix : String) (r : Reach notify s) (j : ℕ)
      → ((i : ℕ) → i ≢ j → strip (name i) ≢ strip (name j))
      → w.naming.prefix ≡ prefix
      → (w.link j).has_client ≡ false
      → retained (availability_topic prefix (strip (name j))) w.sent ≡ some (note "offline")
      → (((history name w r).link j).has_client ≡ serves (s.task j).phase)
        × (retained (availability_topic prefix (strip (name j))) (history name w r).sent
            ≡ some (note (if serves (s.task j).phase then "online" else "offline")))
  history-retained {s = s} w prefix r j distinct same client offline =
      subst (IsShown prefix (history name w r) j) (Reach-IsHonest r j).0
        (announced-IsShown w prefix r j distinct same (client, offline))
