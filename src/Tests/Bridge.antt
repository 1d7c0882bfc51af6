-- ===== src/Tests/Bridge.antt =====
-- Commands to devices at concrete inputs.
use solar_monitor.Prelude.{◌≡◌, List, [], ◌∷◌, ◌++◌}
use solar_monitor.Commands.{Bridge, Step, message, turn, run}
use solar_monitor.Commands.Exactly.{history, received, history-run}

abbrev waiting : Bridge
waiting = record { sets = ("regulator", ("power_switch", "0") ∷ []) ∷ []; submitted = [] }

-- solar-monitor/regulator/power_switch/set
abbrev steps : List Step
steps =
    message ("solar-monitor" ∷ "regulator" ∷ "power_switch" ∷ "set" ∷ []) "1"
    ∷ turn "regulator"
    ∷ message ("solar-monitor" ∷ "inverter_1" ∷ "power_switch" ∷ "set" ∷ []) "5"
    ∷ []

history-run_example :
    history "regulator" (run steps waiting)
    ≡ history "regulator" waiting ++ received "regulator" steps
history-run_example = history-run steps "regulator" waiting
