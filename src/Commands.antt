-- ===== src/Commands.antt =====
-- datalogger.py, on_message, and ble.py, command_bridge: commands from the broker to the devices. A
-- message and one device's turn in a round of the bridge are one step each; the wake events only
-- make a round come sooner. `parts` is the topic, split at its slashes.
pub mod Exactly
pub mod Topic
use solar_monitor.Prelude.{
  ℕ, ◌-◌, String, Option, none, some, List, [], ◌∷◌, ◌++◌, map, length, get_or, ltb, if◌then◌else◌,
}
use solar_monitor.Prelude.Dict.{lookup, insert}
use solar_monitor.Prelude.Text.{split}
use solar_monitor.DataLogger.Topics.{slash}

-- variable and payload
abbrev pub Command : Type 0
Command = String × String

-- mqtt.sets, and what was given to submit_command, with the name of the device
pub record Bridge : Type 0 where
  pub sets : List (String × List Command)
  pub submitted : List (String × Command)

abbrev pub queued : Option (List Command) → List Command
queued none = []
queued (some commands) = commands

-- self.sets.setdefault(device, []).append(command)
unfoldable pub queue_command : String → Command → Bridge → Bridge
queue_command device command b = record b {
  sets = insert device (queued (lookup device b.sets) ++ (command ∷ [])) b.sets;
}

-- A topic of less than four parts is ignored.
unfoldable pub on_message : List String → String → Bridge → Bridge
on_message parts payload b =
    let n = length parts in
    if ltb n 4
    then b
    else queue_command (get_or parts (n - 3) "") (get_or parts (n - 2) "", payload) b

-- on_message from the topic on
unfoldable pub receive : String → String → Bridge → Bridge
receive topic payload b = on_message (split slash topic) payload b

-- The commands that were queued for a device are submitted, in order, if there are any.
unfoldable pub submit_all : String → List Command → Bridge → Bridge
submit_all name [] b = b
submit_all name (command ∷ commands) b = record {
  sets = insert name [] b.sets;
  submitted = b.submitted ++ map (λ c. (name, c)) (command ∷ commands);
}

-- one device's turn
unfoldable pub drain_device : String → Bridge → Bridge
drain_device name b = submit_all name (queued (lookup name b.sets)) b

-- a round of the bridge over the names of the devices
unfoldable pub bridge_round : List String → Bridge → Bridge
bridge_round [] b = b
bridge_round (name ∷ names) b = bridge_round names (drain_device name b)

-- What happens to the bridge: messages, and turns of devices.
pub data Step : Type 0 where
  message : List String → String → Step
  turn : String → Step

unfoldable pub step : Step → Bridge → Bridge
step (message parts payload) b = on_message parts payload b
step (turn name) b = drain_device name b

unfoldable pub run : List Step → Bridge → Bridge
run [] b = b
run (s ∷ steps) b = run steps (step s b)
