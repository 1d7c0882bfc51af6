-- ===== src/Tests/Topics.antt =====
-- datalogger.py at concrete topics and configs.
use solar_monitor.Prelude.{ℕ, ◌≡◌, refl, [], arith}
use solar_monitor.Commands.{Bridge, queue_command, receive}
use solar_monitor.Commands.Topic.{receive-command_topic}
use solar_monitor.DataLogger.{Message, state}
use solar_monitor.DataLogger.Topics.{with_slash, topic_of, command_topic}
use solar_monitor.DataLogger.Configs.{Naming}
use solar_monitor.DataLogger.Distinct.{label, topic_of-injective}

-- two states of one reading
abbrev earlier : Message ℕ
earlier = state "battery_1" "soc" 80 0

abbrev later : Message ℕ
later = state "battery_1" "soc" 81 0

topic_of-injective_example : label earlier ≡ label later
topic_of-injective_example =
    topic_of-injective "solar-monitor" earlier later (unfold label in omega arith)
      (unfold label in omega arith) (unfold label in omega arith) (unfold label in omega arith)
      (unfold topic_of in refl)

abbrev bridge : Bridge
bridge = record { sets = []; submitted = [] }

receive-command_topic_example :
    receive (command_topic (with_slash "home/solar") "regulator" "power_switch") "1" bridge
    ≡ queue_command "regulator" ("power_switch", "1") bridge
receive-command_topic_example =
    receive-command_topic "home/solar" "regulator" "power_switch" "1" bridge (omega arith)
      (omega arith)

abbrev naming : Naming
naming = record { prefix = "solar-monitor/"; device_types = []; aliases = [] }
