-- ===== src/Ble/Fleet.antt =====
-- ble.py: the tasks of all devices over one lock, interleaved in any order, and the stop.
use solar_monitor.Prelude.{ℕ, true, false, none, ◌==◌, if◌then◌else◌}
use solar_monitor.Ble.Task.{Shared, Task, new_task, Move}

-- A number past the last device stands for a task that never moves.
pub record Fleet : Type 0 where
  pub shared : Shared
  pub task : ℕ → Task

abbrev pub update : (ℕ → Task) → ℕ → Task → ℕ → Task
update f i t j = if i == j then t else f j

-- start, and a register for each device
abbrev pub init : Fleet
init = record { shared = record { owner = none; stop = false }; task = λ _. new_task }

pub data Step (notify : ℕ → ℕ) (s : Fleet) : Fleet → Type 0 where
  move :
      (i : ℕ) {m : Shared} {t : Task}
      → Move (notify i) i s.shared (s.task i) m t
      → Step notify s (record { shared = m; task = update s.task i t })
  request_stop : Step notify s (record s { shared = record s.shared { stop = true } })

pub data Reach (notify : ℕ → ℕ) : Fleet → Type 0 where
  start : Reach notify init
  later : {s t : Fleet} → Reach notify s → Step notify s t → Reach notify t
