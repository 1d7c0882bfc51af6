-- ===== src/Tests/Availability.antt =====
-- ble.py and solardevice.py: the availability of a device that connects.
use solar_monitor.Prelude.{
  ℕ, ◌≡◌, ◌≢◌, refl, ap, String, true, false, some, [], ◌∷◌, ◌==◌, if◌then◌else◌, ==_iff, arith,
  get_or, Bool-cases, inl, inr,
}
use solar_monitor.Prelude.Text.{codes}
use solar_monitor.Prelude.Words.{strip}
use solar_monitor.DataLogger.Topics.{availability_topic}
use solar_monitor.DataLogger.Configs.{Naming, note, set_available}
use solar_monitor.Ble.Task.{
  Task, new_task, wanting, connecting, subscribing, begin, acquire, connect, serves,
}
use solar_monitor.Ble.Fleet.{Fleet, update, init, move, Reach, start, later}
use solar_monitor.Pipeline.Availability.{World, retained, history}
use solar_monitor.Pipeline.Shown.{history-retained}

-- the first device, and all others
abbrev names : ℕ → String
names i = if i == 0 then "battery_1" else "battery_2"

other_names : (i : ℕ) → i ≢ 0 → strip (names i) ≢ strip (names 0)
unfolding strip
other_names i ne = elim (Bool-cases (i == 0)) [
  | inl q ↦ absurd (ne ((==_iff i 0).0 q))
  | inr q ↦ rw q (λ e. omega (arith, ap (λ s. get_or (codes s) 8 0) e))
]

abbrev naming : Naming
naming = record { prefix = "solar-monitor/"; device_types = []; aliases = [] }

-- both were set offline at the start
abbrev at_first : World ℕ
at_first = record {
  naming = naming;
  link = λ i. record { alias = "12V100Ah-081"; has_client = false };
  sent = set_available naming "battery_2" false ∷ set_available naming "battery_1" false ∷ [];
}

-- one characteristic that notifies for each device
abbrev one : ℕ → ℕ
one i = 1

abbrev wants : Task
wants = record new_task { phase = wanting }

abbrev connects : Task
connects = record new_task { phase = connecting }

abbrev subscribes : Task
subscribes = record new_task { phase = subscribing 1; announced = true }

-- The first device has connected.
abbrev fleet : Fleet
fleet = record {
  shared = record { owner = some 0; stop = false };
  task = update (update (update init.task 0 wants) 0 connects) 0 subscribes;
}

connected : Reach one fleet
connected =
    later (later (later start (move 0 (begin refl refl))) (move 0 (acquire refl refl)))
      (move 0 (connect refl))

history-retained_example :
    (((history names at_first connected).link 0).has_client ≡ serves (fleet.task 0).phase)
    × (retained
          (availability_topic "solar-monitor/" (strip "battery_1"))
          (history names at_first connected).sent
        ≡ some (note (if serves (fleet.task 0).phase then "online" else "offline")))
history-retained_example =
    history-retained names at_first "solar-monitor/" connected 0 other_names refl refl
      (unfold retained set_available availability_topic strip in refl)
