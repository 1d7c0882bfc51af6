-- ===== src/Device/Publish.antt =====
-- solardevice.py, SolarDevice: what a notification leaves on the queue.
use solar_monitor.Prelude.{
  ℕ, ◌+◌, ◌-◌, ◌≤◌, ◌<◌, ◌≡◌, refl, ◌∙◌, sym, Bool, true, false, ◌&&◌, Option, none, some, List, [],
  ◌∷◌, ◌++◌, length, take, Bool-cases, inl, inr,
}
use solar_monitor.Numbers.{Real, real_num}
use solar_monitor.Device.Notify.{
  Reading, readings, Plugin, Served, Uuid, characteristic_write_value, after_update, run_update,
  acknowledge, on_notification, notify_callback,
}
use solar_monitor.Supervisor.{enqueue, enqueue_all}
use solar_monitor.Supervisor.Watch.{enqueue_all-room}

enqueue_all-append {ℓ} :
    {V : Type ℓ} (maxsize : ℕ) (state : List V × ℕ) (xs ys : List V)
    → enqueue_all maxsize state (xs ++ ys) ≡ enqueue_all maxsize (enqueue_all maxsize state xs) ys
unfolding enqueue_all
enqueue_all-append maxsize state [] ys = refl
enqueue_all-append maxsize state (x ∷ xs) ys =
    enqueue_all-append maxsize (enqueue maxsize state x) xs ys

module _ {ℓ κ} {N : Type ℓ} ⦃r : Real N⦄ {S : Type κ} (plugin : Plugin N S) (has_uuid : Uuid → Bool)
    (maxsize : ℕ) where
  queue-write :
      (value : List ℕ) (uuid : Uuid) (d : Served N S)
      → let after = characteristic_write_value plugin has_uuid maxsize value uuid d in
        (after.queue ≡ d.queue) × (after.plugin_state ≡ d.plugin_state)
  unfolding characteristic_write_value
  queue-write value uuid d = elim (Bool-cases (d.has_client && has_uuid uuid)) [
    | inl p ↦ rw p (refl, refl)
    | inr p ↦ rw p (refl, refl)
  ]

  -- what an update puts on the queue: the plugin's own items, and the readings of new data
  abbrev pub items_of : Option Bool → List (Reading N) → S → List (Reading N)
  items_of none own s = own
  items_of (some false) own s = own
  items_of (some true) own s = own ++ readings (plugin.plain s) (plugin.entities s)

  abbrev pub published : List ℕ → S → List (Reading N)
  published value s = let updated = plugin.update value s in items_of updated.2 updated.1 updated.0

  -- the same behind an acknowledgement
  abbrev pub acknowledged : Bool → Option (List ℕ) → List (Reading N) → List (Reading N)
  acknowledged false ack items = items
  acknowledged true none items = []
  acknowledged true (some data_bytes) items = items

  queue-after_update :
      (done : Option Bool) (s : S) (own : List (Reading N)) (d : Served N S)
      → (after_update plugin has_uuid maxsize done
          (record d { plugin_state = s; queue = enqueue_all maxsize d.queue own })).queue
        ≡ enqueue_all maxsize d.queue (items_of done own s)
  unfolding after_update
  queue-after_update (some true) s own d =
      sym (enqueue_all-append maxsize d.queue own (readings (plugin.plain s) (plugin.entities s)))
  queue-after_update (some false) s own d = refl
  queue-after_update none s own d = refl

  queue-run_update :
      (value : List ℕ) (d : Served N S)
      → (run_update plugin has_uuid maxsize value d).queue
        ≡ enqueue_all maxsize d.queue (published value d.plugin_state)
  unfolding run_update
  queue-run_update value d =
      let updated = plugin.update value d.plugin_state in
      queue-after_update updated.2 updated.0 updated.1 d

  queue-acknowledge :
      (ack : Option (List ℕ)) (value : List ℕ) (d : Served N S)
      → (acknowledge plugin has_uuid maxsize ack value d).queue
        ≡ enqueue_all maxsize d.queue (acknowledged true ack (published value d.plugin_state))
  unfolding acknowledge enqueue_all
  queue-acknowledge none value d = refl
  queue-acknowledge (some data_bytes) value d =
      let d' = characteristic_write_value plugin has_uuid maxsize data_bytes Uuid.polling d in
      let (same_queue, same_state) = queue-write data_bytes Uuid.polling d in
      queue-run_update value d' ∙ rw (same_queue, same_state) refl

  queue-on_notification :
      (send_ack : Bool) (value : List ℕ) (d : Served N S)
      → (on_notification plugin has_uuid maxsize send_ack value d).queue
        ≡ enqueue_all maxsize d.queue
            (acknowledged send_ack (plugin.ack_data value) (published value d.plugin_state))
  unfolding on_notification
  queue-on_notification true value d = queue-acknowledge (plugin.ack_data value) value d
  queue-on_notification false value d = queue-run_update value d

  -- A notification puts on the queue what the plugin does while it decodes it, and then, if there is
  -- new data, all readings of the device: in order while there is room, the rest dropped and counted,
  -- and nothing that was queued before is lost. It is so whether the device is acknowledged or not;
  -- where the acknowledgement raises, the notification is not decoded.
  pub notify_callback-queue :
      (value : List ℕ) (d : Served N S)
      → 0 < maxsize
      → length d.queue.0 ≤ maxsize
      → let items =
          acknowledged plugin.send_ack (plugin.ack_data value) (published value d.plugin_state) in
        let room = maxsize - length d.queue.0 in
        (notify_callback plugin has_uuid maxsize value d).queue
        ≡ (d.queue.0 ++ take room items, d.queue.1 + (length items - room))
  unfolding notify_callback
  notify_callback-queue value d h k =
      let items =
        acknowledged plugin.send_ack (plugin.ack_data value) (published value d.plugin_state) in
      queue-on_notification plugin.send_ack value d
      ∙ enqueue_all-room maxsize d.queue.0 d.queue.1 items h k
