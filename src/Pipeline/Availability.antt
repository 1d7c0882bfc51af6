-- ===== src/Pipeline/Availability.antt =====
-- ble.py, solardevice.py and datalogger.py: what the tasks of the devices make the data logger
-- publish of their availability, where no call of it raises.
use solar_monitor.Prelude.{
  ℕ, String, Bool, true, false, Option, none, some, List, [], ◌∷◌, ◌++◌, ◌==◌, if◌then◌else◌,
  str_eq,
}
use solar_monitor.DataLogger.Configs.{Naming, Packet, Payload, publish, subscribe_to}
use solar_monitor.Device.Plugins.{Link, on_connected, on_disconnected}
use solar_monitor.Ble.Task.{
  Shared, Task, Move, quit, no_client, begin, acquire, connect, connect_fails, subscribe,
  subscribe_fails, hold, hold_ends, stop_after, retry, back_off, wake, cancel_locked,
  cancel_subscribing, cancel_waiting, cancel_holding, cancel_closing, cancel_backing_off,
}
use solar_monitor.Ble.Fleet.{Fleet, move, request_stop, Reach, start, later}

-- Which of the device's methods a step of its task calls: some true is on_connected, some false
-- on_disconnected.
unfoldable pub told :
    {notify me : ℕ} {m m' : Shared} {t t' : Task} → Move notify me m t m' t' → Option Bool
told (quit p s) = none
told (no_client p s) = none
told (begin p s) = none
told (acquire p s) = none
told (connect p) = some true
told (connect_fails p) = some false
told (subscribe p) = none
told (subscribe_fails p) = some false
told (hold p) = none
told (hold_ends p) = some false
told (stop_after p s) = none
told (retry p s) = none
told (back_off p s) = none
told (wake p) = none
told (cancel_locked p) = some false
told (cancel_subscribing p) = some false
told (cancel_waiting p) = some false
told (cancel_holding p) = some false
told (cancel_closing p) = none
told (cancel_backing_off p) = none

-- The devices by number, what the data logger knows, and the calls of the client, the last one
-- first.
pub record World {ℓ} (V : Type ℓ) : Type ℓ where
  pub naming : Naming
  pub link : ℕ → Link
  pub sent : List (Packet V)

-- The payload that was published last under a topic to be retained.
abbrev kept_by {ℓ} : {V : Type ℓ} → String → Packet V → Option (Payload V) → Option (Payload V)
kept_by topic (publish t payload qos retain) before =
    if str_eq t topic then if retain then some payload else before else before
kept_by topic (subscribe_to t qos) before = before

unfoldable pub retained {ℓ} : {V : Type ℓ} → String → List (Packet V) → Option (Payload V)
retained topic [] = none
retained topic (p ∷ packets) = kept_by topic p (retained topic packets)

abbrev put_link : (ℕ → Link) → ℕ → Link → ℕ → Link
put_link links i l j = if i == j then l else links j

module _ {ℓ} {V : Type ℓ} (name : ℕ → String) where
  abbrev answered : ℕ → Link × Naming × List (Packet V) → World V → World V
  answered i (l, n, packets) w = record {
    naming = n;
    link = put_link w.link i l;
    sent = packets ++ w.sent;
  }

  unfoldable pub tell : ℕ → Option Bool → World V → World V
  tell i none w = w
  tell i (some true) w = answered i (on_connected (name i) (w.link i) w.naming) w
  tell i (some false) w = answered i (on_disconnected (name i) (w.link i) w.naming) w

  -- what has been told along the steps to a state of the tasks
  unfoldable pub history : {notify : ℕ → ℕ} {s : Fleet} → World V → Reach notify s → World V
  history w start = w
  history w (later r (move i mv)) = tell i (told mv) (history w r)
  history w (later r request_stop) = history w r
