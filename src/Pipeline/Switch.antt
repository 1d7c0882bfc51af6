-- ===== src/Pipeline/Switch.antt =====
-- datalogger.py, ble.py, solardevice.py and plugins/SolarLink: a switch of a regulator, from its
-- discovery config to the writes.
use solar_monitor.Prelude.{
  ℕ, ◌≡◌, refl, ap, sym, ◌∙◌, String, Bool, true, false, Option, some, List, [], ◌∷◌, ◌++◌, map,
  if◌then◌else◌, arith, append-nil, append_assoc,
}
use solar_monitor.Prelude.Dict.{lookup, lookup-insert, str_eq_refl}
use solar_monitor.Prelude.Text.{Lacks}
use solar_monitor.Prelude.Words.{int_text}
use solar_monitor.Numbers.{Real}
use solar_monitor.DataLogger.Configs.{word, Naming, switch_fields}
use solar_monitor.DataLogger.Topics.{with_slash, slash, command_topic}
use solar_monitor.Commands.{
  Bridge, queued, queue_command, receive, submit_all, drain_device, Command,
}
use solar_monitor.Commands.Topic.{receive-command_topic}
use solar_monitor.Device.Notify.{
  Plugin, Served, Uuid, commands, run_command, write_all, characteristic_write_value,
}
use solar_monitor.SolarLink.{
  regulator_power_on, regulator_power_off, solar_panel_info, battery_param_info,
  create_poll_request, cmd_request,
}
use solar_monitor.Pipeline.{solar_link_commands}

-- payload_on and payload_off, as texts
abbrev pub payload_of : Bool → String
payload_of true = "1"
payload_of false = "0"

-- A command that comes alone is submitted in the next turn of its device.
drain-queue_command :
    (device : String) (c : Command) (b : Bridge)
    → queued (lookup device b.sets) ≡ []
    → (drain_device device (queue_command device c b)).submitted ≡ b.submitted ++ (device, c) ∷ []
unfolding drain_device queue_command submit_all
drain-queue_command device c b free =
    rw (free, lookup-insert device device (c ∷ []) b.sets, str_eq_refl device) refl

-- the topic in a switch's config
config_topic :
    (n : Naming) (device var topic : String)
    → lookup "command_topic" (switch_fields n device var) ≡ some (word topic)
    → topic ≡ command_topic n.prefix device var
unfolding lookup switch_fields
config_topic n device var topic h = cc

module _ (crc16 : List ℕ → ℕ) (device_id : ℕ) where
  -- the requests of a switch
  abbrev pub switched : Bool → List (List ℕ)
  switched on =
      create_poll_request crc16 device_id (if on then regulator_power_on else regulator_power_off)
      ∷ create_poll_request crc16 device_id solar_panel_info
      ∷ create_poll_request crc16 device_id battery_param_info
      ∷ []

  commands-switched :
      (on : Bool)
      → solar_link_commands crc16 device_id "power_switch" (payload_of on) ≡ some (switched on)
  unfolding solar_link_commands cmd_request int_text
  commands-switched true = refl
  commands-switched false = refl

module _ {ℓ κ} {N : Type ℓ} ⦃r : Real N⦄ {S : Type κ} (plugin : Plugin N S) (has_uuid : Uuid → Bool)
    (maxsize : ℕ) where
  write-connected :
      (value : List ℕ) (d : Served N S)
      → d.has_client ≡ true
      → has_uuid commands ≡ true
      → characteristic_write_value plugin has_uuid maxsize value commands d
        ≡ record d { writes = d.writes ++ (commands, value) ∷ [] }
  unfolding characteristic_write_value
  write-connected value d client uuid = rw (client, uuid) refl

  writes-write_all :
      (values : List (List ℕ)) (d : Served N S)
      → d.has_client ≡ true
      → has_uuid commands ≡ true
      → (write_all plugin has_uuid maxsize values d).writes
        ≡ d.writes ++ map (λ v. (commands, v)) values
  unfolding write_all
  writes-write_all [] d client uuid = sym (append-nil d.writes)
  writes-write_all (v ∷ values) d client uuid =
      ap (λ after. (write_all plugin has_uuid maxsize values after).writes)
        (write-connected v d client uuid)
      ∙ writes-write_all values (record d { writes = d.writes ++ (commands, v) ∷ [] }) client uuid
      ∙ append_assoc d.writes ((commands, v) ∷ []) (map (λ v. (commands, v)) values)

  writes-run_command :
      (request : String → String → Option (List (List ℕ))) (values : List (List ℕ))
      → (var message : String) (d : Served N S) → plugin.cmd_request ≡ some request
      → request var message ≡ some values
      → run_command plugin has_uuid maxsize var message d
        ≡ write_all plugin has_uuid maxsize values d
  unfolding run_command
  writes-run_command request values var message d takes gives = rw (takes, gives) refl

  -- Whoever publishes a switch's payload on the topic that its discovery config names has the
  -- command submitted in the next turn of the device, if none was queued before; and where it is
  -- run, on a connected regulator, it writes the request that switches the load to that payload,
  -- and two polls behind it.
  pub switch-writes :
      (crc16 : List ℕ → ℕ) (device_id : ℕ) (prefix device topic : String) (on : Bool) (n : Naming)
      → (b : Bridge) (d : Served N S) → n.prefix ≡ with_slash prefix
      → Lacks slash device
      → lookup "command_topic" (switch_fields n device "power_switch") ≡ some (word topic)
      → queued (lookup device b.sets) ≡ []
      → plugin.cmd_request ≡ some (solar_link_commands crc16 device_id)
      → d.has_client ≡ true
      → has_uuid commands ≡ true
      → ((drain_device device (receive topic (payload_of on) b)).submitted
          ≡ b.submitted ++ (device, ("power_switch", payload_of on)) ∷ [])
        × ((run_command plugin has_uuid maxsize "power_switch" (payload_of on) d).writes
            ≡ d.writes ++ map (λ v. (commands, v)) (switched crc16 device_id on))
  switch-writes crc16 device_id prefix device topic on n b d kept name config free takes client
        uuid =
      let at : topic ≡ command_topic (with_slash prefix) device "power_switch" =
        config_topic n device "power_switch" topic config
        ∙ ap (λ p. command_topic p device "power_switch") kept in
      let request = solar_link_commands crc16 device_id in
      let values = switched crc16 device_id on in
      (
        ap (λ t. (drain_device device (receive t (payload_of on) b)).submitted) at
            ∙ ap (λ b'. (drain_device device b').submitted)
                (receive-command_topic prefix device "power_switch" (payload_of on) b name
                  (omega arith))
            ∙ drain-queue_command device ("power_switch", payload_of on) b free,
        ap (λ after. after.writes)
              (writes-run_command request values "power_switch" (payload_of on) d takes
                (commands-switched crc16 device_id on))
            ∙ writes-write_all values d client uuid,
      )
