-- ===== src/Tests/Radio.antt =====
-- ble.py and monitor_app.py at concrete inputs.
use solar_monitor.Prelude.{
  ℕ, ◌≤◌, ◌≡◌, refl, String, Bool, true, false, ◌&&◌, ◌||◌, Option, none, some, List, [], ◌∷◌,
  if◌then◌else◌,
}
use solar_monitor.Numbers.{int_num}
use solar_monitor.Ble.Task.{
  Task, new_task, wanting, connecting, closed, begin, acquire, connect_fails, locks, IsHonest,
}
use solar_monitor.Ble.Fleet.{Fleet, update, init, move, Reach, start, later}
use solar_monitor.Ble.Invariant.{Reach-one, Reach-IsHonest}
use solar_monitor.Ble.Stop.{steps_left, Run, here, own, Run-ends}
use solar_monitor.Monitor.{Scan, discover, has_devices, sections_of, is_known}
use solar_monitor.Monitor.{start as first_scan}
use solar_monitor.Monitor.Registrations.{registrations, found_in, found_in_any}
use solar_monitor.Monitor.Discovery.{discover-registers}

-- one characteristic that notifies for each device
abbrev one : ℕ → ℕ
one i = 1

abbrev wants : Task
wants = record new_task { phase = wanting }

abbrev connects : Task
connects = record new_task { phase = connecting }

-- The first device has taken the lock.
abbrev fleet : Fleet
fleet = record {
  shared = record { owner = some 0; stop = false };
  task = update (update init.task 0 wants) 0 connects;
}

taken : Reach one fleet
taken = later (later start (move 0 (begin refl refl))) (move 0 (acquire refl refl))

Reach-one_example : ◌≡◌ {A = ℕ} 0 0
Reach-one_example = Reach-one taken 0 0 (unfold locks in refl) (unfold locks in refl)

Reach-IsHonest_example : IsHonest (fleet.task 0)
Reach-IsHonest_example = Reach-IsHonest taken 0

-- The first device waits for the lock when the stop comes.
abbrev stopping : Fleet
stopping = record { shared = record { owner = none; stop = true }; task = update init.task 0 wants }

abbrev stopping_taken : Fleet
stopping_taken = record {
  shared = record { owner = some 0; stop = true };
  task = update stopping.task 0 connects;
}

abbrev stopping_failed : Fleet
stopping_failed = record {
  shared = record { owner = none; stop = true };
  task = update stopping_taken.task 0 (closed false connects);
}

two_steps : Run one 0 stopping 2 stopping_failed
two_steps = own (own here (acquire refl refl)) (connect_fails refl)

Run-ends_example :
    (2 ≤ steps_left (one 0) (stopping.task 0).phase)
    × ((stopping_failed.task 0).rounds ≡ (stopping.task 0).rounds)
Run-ends_example = Run-ends two_steps refl

-- Two devices are configured; the scan at the start finds the first one, and a later one both.
abbrev configured : List (String × String)
configured = ("battery_1", "aa:01") ∷ ("regulator", "aa:02") ∷ []

abbrev any : String → Bool
any section = true

abbrev trust_all : String → Option Bool
trust_all section = some true

abbrev scans : List (Option Scan)
scans = none ∷ some (("aa:01", "BT01") ∷ ("aa:02", "BT02") ∷ []) ∷ []

abbrev at_start : Scan
at_start = ("aa:01", "BT01") ∷ []

discover-registers_example :
    let goes_on = has_devices (first_scan configured any trust_all (some at_start)).0.devices in
    registrations "regulator" (discover configured any trust_all (some at_start) scans).0.calls ≡ (
      if is_known "regulator" (sections_of configured)
        && (found_in configured any any at_start "regulator"
            || (goes_on && found_in_any configured any any scans "regulator"))
      then 1
      else 0)
discover-registers_example =
    discover-registers configured any trust_all at_start scans "regulator" (λ s h. refl)
