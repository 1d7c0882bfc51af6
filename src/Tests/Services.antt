-- ===== src/Tests/Services.antt =====
-- connection.py, supervisor.py and datalogger.py at concrete inputs.
use solar_monitor.Prelude.{ℕ, ◌≡◌, refl, Bool, true, false, none, some, [], ◌∷◌, ◌==◌}
use solar_monitor.Prelude.Int.{ℤ, pos}
use solar_monitor.Numbers.{int_num}
use solar_monitor.Supervisor.{Item}
use solar_monitor.Prelude.Dict.{lookup}
use solar_monitor.Prelude.Text.{contains}
use solar_monitor.DataLogger.Switches.{publish-raises}
use solar_monitor.DataLogger.{switch_config, subscribe, state, Mqtt, World, publish}
use solar_monitor.DataLogger.Log.{DataLogger}
use solar_monitor.DataLogger.Delivery.{accepted}

-- the second write is accepted
abbrev second : ℕ → Bool
second attempt = attempt == 2

abbrev voltage : ℕ → Item ℕ
voltage value = record { name = "battery_1"; item = "voltage"; value = value }

abbrev no_broker : World ℤ
no_broker = record { monotonic = pos 5; time = pos 5; accepted = false; subscribes = false }

abbrev broker : World ℤ
broker = record { monotonic = pos 9; time = pos 9; accepted = true; subscribes = true }

abbrev no_mqtt : Mqtt ℤ
no_mqtt = record { sensors = []; listener_created = []; command_topics = []; sets = [] }

abbrev logger : DataLogger ℤ ℕ
logger = record { mqtt = some no_mqtt; has_url = true; refresh_interval = pos 600; logdata = [] }

abbrev same : ℕ → ℕ → Bool
same a b = a == b

publish-raises_example :
    let first = publish {V = ℕ} no_broker "regulator" "power_switch" 1 false no_mqtt in
    (first.2 ≡ none)
    × (first.1
        ≡ switch_config "regulator" "power_switch"
          ∷ subscribe "regulator" "power_switch"
          ∷ state "regulator" "power_switch" 1 1
          ∷ [])
    × (publish {V = ℕ} broker "regulator" "power_switch" 0 false first.0
        ≡ (first.0, state "regulator" "power_switch" 0 1 ∷ [], none))
unfolding lookup contains
publish-raises_example =
    publish-raises {V = ℕ} no_broker broker "regulator" "power_switch" 1 0 no_mqtt refl refl refl
      refl
