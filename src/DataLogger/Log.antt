-- ===== src/DataLogger/Log.antt =====
-- datalogger.py: DataLogger, its sinks and its cache of what was sent.
use solar_monitor.Prelude.{
  ℕ, String, Bool, true, false, not, ◌&&◌, Option, none, some, List, [], ◌∷◌, ◌++◌, if◌then◌else◌,
  leb,
}
use mathlib.Core.Option
use solar_monitor.Numbers.{Num}
use solar_monitor.DataLogger.{find, assign, Message, Mqtt, World, publish}

-- requests.post: a status code, or a RequestException
pub data Answer : Type 0 where
  status_code : ℕ → Answer
  request_exception : Answer

abbrev pub is_ok : Answer → Bool
is_ok (status_code code) = not (leb 400 code)
is_ok request_exception = false

pub record Entry {ℓ κ} (T : Type ℓ) (V : Type κ) : Type (ℓ ⊔ κ) where
  pub ts : T
  pub value : Option V

pub record DataLogger {ℓ κ} (T : Type ℓ) (V : Type κ) : Type (ℓ ⊔ κ) where
  pub mqtt : Option (Mqtt T)
  pub has_url : Bool
  pub refresh_interval : T
  pub logdata : List (String × List (String × Entry T V))

-- What leaves the program in a call.
pub data Sent {ℓ} (V : Type ℓ) : Type ℓ where
  message : Message V → Sent V
  post : String → String → V → Sent V

abbrev pub messages {ℓ} : {V : Type ℓ} → List (Message V) → List (Sent V)
messages [] = []
messages (m ∷ ms) = message m ∷ messages ms

abbrev pub is_returned : Option Bool → Bool
is_returned none = false
is_returned (some delivered) = true

abbrev pub is_unchanged {ℓ} : {V : Type ℓ} → (V → V → Bool) → V → Option V → Bool
is_unchanged same val none = false
is_unchanged same val (some v) = same v val

module _ {ℓ κ} {T : Type ℓ} {V : Type κ} ⦃n : Num T⦄ where
  -- the call of the MQTT sink; none is a raise
  abbrev pub publish_to :
      World T
      → String
      → String
      → V
      → Bool
      → Option (Mqtt T)
      → Option (Mqtt T) × List (Sent V) × Option Bool
  publish_to w device var val refresh none = (none, [], some true)
  publish_to w device var val refresh (some m) =
      let run = publish w device var val refresh m in (some run.0, messages run.1, run.2)

  -- the call of the web server, if there is one, behind that of the MQTT sink
  abbrev pub behind_mqtt :
      String
      → String
      → V
      → Bool
      → Answer
      → Option (Mqtt T) × List (Sent V) × Option Bool
      → Option (Mqtt T) × List (Sent V) × Option Bool
  behind_mqtt device var val has_url answer (m, sent, none) = (m, sent, none)
  behind_mqtt device var val false answer (m, sent, some delivered) = (m, sent, some delivered)
  behind_mqtt device var val true answer (m, sent, some delivered) =
      (m, sent ++ (post device var val ∷ []), some (delivered && is_ok answer))

  -- send_to_server: what is left of the MQTT sink, what was sent, and whether every sink accepted
  -- it; `none` where the MQTT sink raised, before the web server was called.
  unfoldable pub send_to_server :
      World T
      → Answer
      → String
      → String
      → V
      → Bool
      → DataLogger T V
      → Option (Mqtt T) × List (Sent V) × Option Bool
  send_to_server w answer device var val refresh l =
      behind_mqtt device var val l.has_url answer (publish_to w device var val refresh l.mqtt)

  -- The entry of a variable, with the one that is made for a new variable.
  abbrev pub entry_of : T → String → String → DataLogger T V → Entry T V
  entry_of ts device var l =
      Option.get_or (find device var l.logdata) (record { ts = ts; value = none })

  -- logdata after the sinks answered
  abbrev pub remember :
      T
      → String
      → String
      → V
      → Option Bool
      → DataLogger T V
      → List (String × List (String × Entry T V))
  remember ts device var val (some true) l =
      assign device var (record { ts = ts; value = some val }) l.logdata
  remember ts device var val (some false) l = l.logdata
  remember ts device var val none l = l.logdata

  -- The value is sent, and remembered if it was delivered. The Bool says that nothing was raised.
  unfoldable pub deliver :
      World T
      → Answer
      → T
      → String
      → String
      → V
      → Bool
      → DataLogger T V
      → DataLogger T V × List (Sent V) × Bool
  deliver w answer ts device var val refresh l =
      let run = send_to_server w answer device var val refresh l in
      (
        record {
          mqtt = run.0;
          has_url = l.has_url;
          refresh_interval = l.refresh_interval;
          logdata = remember ts device var val run.2 l;
        },
        run.1,
        is_returned run.2,
      )

  -- `device` is stripped already. `same` is Python's == of two values; `ts` and `now` are the two
  -- readings of the clock.
  unfoldable pub log :
      (V → V → Bool)
      → World T
      → Answer
      → T
      → T
      → String
      → String
      → V
      → DataLogger T V
      → DataLogger T V × List (Sent V) × Bool
  log same w answer ts now device var val l =
      let e = entry_of ts device var l in
      let l1 = record l { logdata = assign device var e l.logdata } in
      let unchanged = is_unchanged same val e.value in
      if not unchanged
      then deliver w answer ts device var val false l1
      else if n.lt e.ts (n.sub now l.refresh_interval)
      then deliver w answer ts device var val true l1
      else (l1, [], true)
