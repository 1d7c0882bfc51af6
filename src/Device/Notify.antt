-- ===== src/Device/Notify.antt =====
-- solardevice.py, SolarDevice: what a notification puts on the queue, the writes to the device, and
-- the commands. The plugin is a parameter. The names of the items that are numbered cells are data,
-- in place of the texts that `format` makes of them.
use solar_monitor.Prelude.{
  ℕ, ◌+◌, Bool, true, false, ◌&&◌, Option, none, some, List, [], ◌∷◌, ◌++◌, if◌then◌else◌, String,
}
use solar_monitor.Prelude.Int.{pos}
use solar_monitor.Numbers.{Real, real_num}
use solar_monitor.Device.Definition.{Definition}
use solar_monitor.Device.Entities.{battery, Entities, State, Health}
use solar_monitor.Device.Setters.{
  Attribute, current, input_current, charge_current, voltage, input_voltage, charge_voltage, power,
  input_power, charge_power, soc, capacity, exp_capacity, max_capacity, charge_cycles,
  temperature_celsius, battery_temperature_celsius,
}
use solar_monitor.Device.Getters.{getter}
use solar_monitor.Supervisor.{enqueue_all}

pub data Name : Type 0 where
  item : Attribute → Name
  state health power_switch temperature battery_temperature : Name
  cell cell_voltage : ℕ → Name

pub data Value {ℓ} (N : Type ℓ) : Type ℓ where
  number : N → Value N
  state_value : Option State → Value N
  health_value : Option Health → Value N

abbrev pub Reading {ℓ} : Type ℓ → Type ℓ
Reading N = Name × Value N

-- the items that every class has, behind each other in their order
abbrev common : List Attribute
common =
    current ∷ input_current ∷ charge_current ∷ voltage ∷ input_voltage ∷ charge_voltage ∷ power
    ∷ input_power ∷ charge_power ∷ soc ∷ capacity ∷ []

-- the two characteristics that are written
pub data Uuid : Type 0 where
  polling commands : Uuid

module _ {ℓ} {N : Type ℓ} ⦃r : Real N⦄ where
  open r use {num}

  unfoldable pub read_items : List Attribute → Entities N → List (Reading N)
  read_items [] e = []
  read_items (a ∷ attributes) e = (item a, number (getter a e)) ∷ read_items attributes e

  unfoldable pub present : (Name → Option (Value N)) → List Name → List (Reading N)
  present plain [] = []
  present plain (name ∷ names) = elim (plain name) [
    | none ↦ present plain names
    | some value ↦ (name, value) ∷ present plain names
  ]

  -- The items from exp_capacity to health: properties of a battery, and nothing elsewhere but for a
  -- plain attribute that a plugin has made, which `plain` gives.
  unfoldable pub battery_items : (Name → Option (Value N)) → Entities N → List (Reading N)
  battery_items plain e = elim e.kind [
    | battery ↦
        read_items (exp_capacity ∷ max_capacity ∷ charge_cycles ∷ []) e
        ++ (state, state_value e.state) ∷ (health, health_value e.health) ∷ []
    | _ ↦
        present plain
          (item exp_capacity ∷ item max_capacity ∷ item charge_cycles ∷ state ∷ health ∷ [])
  ]

  -- The loops over the cells: those above zero, numbered from i on.
  unfoldable pub cell_items : (ℕ → Name) → (N → N) → ℕ → List (Definition N) → List (Reading N)
  cell_items name scale i [] = []
  cell_items name scale i (d ∷ cells) =
      let rest = cell_items name scale (i + 1) cells in
      if num.lt (num.of_int (pos 0)) (scale d.val)
      then (name i, number (scale d.val)) ∷ rest
      else rest

  -- All that on_notification puts on the queue, in its order. A class without cells has none here.
  unfoldable pub readings : (Name → Option (Value N)) → Entities N → List (Reading N)
  unfolding read_items battery_items cell_items
  readings plain e =
      read_items common e
      ++ (battery_items plain e
          ++ (power_switch, number e.power_switch)
            ∷ (temperature, number (getter temperature_celsius e))
            ∷ (battery_temperature, number (getter battery_temperature_celsius e))
            ∷ (cell_items cell (λ mv. mv) 1 e.cells
                ++ cell_items cell_voltage (λ mv. num.mul mv (r.decimal (pos 1) 3)) 1 e.cells))

-- A plugin, as on_notification uses it: what to acknowledge with, where there is an acknowledgement;
-- and an update, which gives what it puts on the queue itself, and whether there is new data. An
-- exception is `none`.
pub record Plugin {ℓ κ} (N : Type ℓ) (S : Type κ) : Type (ℓ ⊔ κ) where
  pub send_ack : Bool
  pub ack_data : List ℕ → Option (List ℕ)
  pub update : List ℕ → S → S × List (Reading N) × Option Bool
  pub entities : S → Entities N
  pub plain : S → Name → Option (Value N)
  pub cmd_request : Option (String → String → Option (List (List ℕ)))

-- A device: its plugin's state, whether it has a client, the queue with the count of what was
-- dropped, and the writes that were scheduled.
pub record Served {ℓ κ} (N : Type ℓ) (S : Type κ) : Type (ℓ ⊔ κ) where
  pub plugin_state : S
  pub has_client : Bool
  pub queue : List (Reading N) × ℕ
  pub writes : List (Uuid × List ℕ)

module _ {ℓ κ} {N : Type ℓ} ⦃r : Real N⦄ {S : Type κ} (plugin : Plugin N S) (has_uuid : Uuid → Bool)
    (maxsize : ℕ) where
  -- characteristic_write_value: what it schedules for write_with_retry
  unfoldable pub characteristic_write_value : List ℕ → Uuid → Served N S → Served N S
  characteristic_write_value value uuid d =
      if d.has_client && has_uuid uuid
      then record d { writes = d.writes ++ (uuid, value) ∷ [] }
      else d

  -- the items on the queue, one by one
  abbrev put_all : List (Reading N) → Served N S → Served N S
  put_all items d = record d { queue = enqueue_all maxsize d.queue items }

  unfoldable pub after_update : Option Bool → Served N S → Served N S
  after_update (some true) d =
      put_all (readings (plugin.plain d.plugin_state) (plugin.entities d.plugin_state)) d
  after_update _ d = d

  -- notificationUpdate and what follows on it
  unfoldable pub run_update : List ℕ → Served N S → Served N S
  run_update value d =
      let updated = plugin.update value d.plugin_state in
      after_update updated.2 (put_all updated.1 (record d { plugin_state = updated.0 }))

  unfoldable pub acknowledge : Option (List ℕ) → List ℕ → Served N S → Served N S
  acknowledge none value d = d
  acknowledge (some data_bytes) value d =
      run_update value (characteristic_write_value data_bytes polling d)

  -- on_notification, by whether it acknowledges
  unfoldable pub on_notification : Bool → List ℕ → Served N S → Served N S
  on_notification true value d = acknowledge (plugin.ack_data value) value d
  on_notification false value d = run_update value d

  -- It catches what on_notification raises.
  unfoldable pub notify_callback : List ℕ → Served N S → Served N S
  notify_callback value d = on_notification plugin.send_ack value d

  unfoldable pub write_all : List (List ℕ) → Served N S → Served N S
  write_all [] d = d
  write_all (value ∷ values) d = write_all values (characteristic_write_value value commands d)

  -- run_command, by submit_command, which catches what it raises
  unfoldable pub run_command : String → String → Served N S → Served N S
  run_command var message d = elim plugin.cmd_request [
    | none ↦ d
    | some request ↦ elim (request var message) [ none ↦ d | some values ↦ write_all values d ]
  ]
