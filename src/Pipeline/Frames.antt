-- ===== src/Pipeline/Frames.antt =====
-- plugins/Meritsun behind solardevice.py: what a frame of a battery puts on the queue.
use solar_monitor.Prelude.{
  ℕ, ◌+◌, ◌-◌, ◌*◌, ◌≤◌, ◌<◌, ◌≡◌, refl, ap, ◌∙◌, Bool, true, false, ◌&&◌, none, some, List, [],
  ◌∷◌, ◌++◌, length, take, leb, ◌==◌, if◌then◌else◌,
}
use solar_monitor.Prelude.Bytes.{All, IsByte, le_value}
use solar_monitor.Numbers.{Real}
use solar_monitor.AsciiHex.Encode.{encode}
use solar_monitor.AsciiHex.Checksum.{total, framed}
use solar_monitor.Device.Entities.{Entities}
use solar_monitor.Device.Notify.{Served, Uuid, Reading, readings, notify_callback}
use solar_monitor.Device.Publish.{notify_callback-queue, items_of, published}
use solar_monitor.Meritsun.{Decoder, Util, handle_data_packet, notification_update}
use solar_monitor.Meritsun.Message.{end_val}
use solar_monitor.Meritsun.Stream.{is_marker, read_bytes, handle_all}
use solar_monitor.Meritsun.Chunks.{IsPending, notification_update-read_bytes}
use solar_monitor.Meritsun.Frames.{behind, handle_data_packet-framed}
use solar_monitor.Meritsun.Layout.{Layout, payload, voltage, others, AllBytes}
use solar_monitor.Meritsun.Readings.{assigned, handle_message-payload}
use solar_monitor.Pipeline.{meritsun_plugin}

done_twice : (done : Bool) → (if done then true else false) ≡ done
done_twice true = refl
done_twice false = refl

reads_frame :
    (f : ℕ) (fs : List ℕ) (next : ℕ) (bytes : List ℕ)
    → is_marker next ≡ true
    → read_bytes (next ∷ []) bytes ≡ ([], next ∷ bytes)
    → read_bytes (f ∷ fs) (next ∷ bytes) ≡ ((f ∷ fs) ∷ [], next ∷ bytes)
unfolding read_bytes
reads_frame f fs next bytes mark rest = rw (mark, read_bytes) (rw rest refl)

module _ {ℓ} {N : Type ℓ} ⦃r : Real N⦄ where
  -- A notification that begins with the marker of the next frame hands the frame over.
  notification_update-next :
      (f : ℕ) (fs : List ℕ) (d : Decoder N) (next : ℕ) (bytes : List ℕ)
      → IsPending (f ∷ fs)
      → is_marker next ≡ true
      → read_bytes (next ∷ []) bytes ≡ ([], next ∷ bytes)
      → length ((f ∷ fs) ++ next ∷ bytes) ≤ 512
      → let handled = handle_data_packet (f ∷ fs) d in
        notification_update (next ∷ bytes) (record { stream = f ∷ fs; decoder = d })
        ≡ (record { stream = next ∷ bytes; decoder = handled.0 }, handled.1)
  notification_update-next f fs d next bytes pending mark rest fits =
      let handled = handle_data_packet (f ∷ fs) d in
      notification_update-read_bytes (next ∷ bytes) (record { stream = f ∷ fs; decoder = d })
        pending fits
      ∙ rw (reads_frame f fs next bytes mark rest) (
          unfold handle_all in
          ap (λ b. (record { stream = next ∷ bytes; decoder = handled.0 }, b))
            (done_twice handled.1))

  -- the entities behind a whole frame, and whether there is new data
  frame_entities :
      (l : Layout) (marker high low : ℕ) (pads : List ℕ) (d : Decoder N)
      → All IsByte (payload l)
      → AllBytes l
      → IsByte high
      → IsByte low
      → 52 ≤ length (payload l)
      → length (payload l) ≤ 58
      → let packet = framed marker (payload l) high low (end_val ∷ pads) in
        let message = encode (payload l) ++ behind (payload l) high low pads in
        let new =
          (total (payload l) == high * 256 + low)
          && (leb 1000 (le_value (voltage l)) && leb 1 (others l)) in
        let handled = handle_data_packet packet d in
        (handled.1 ≡ new)
        × (handled.0.entities
            ≡ (if new then assigned l message (leb (length packet) 130) d.entities else d.entities))
  frame_entities l marker high low pads d h hl hh hlo long short =
      let packet = framed marker (payload l) high low (end_val ∷ pads) in
      let post = behind (payload l) high low pads in
      let full = leb (length packet) 130 in
      let plausible = leb 1000 (le_value (voltage l)) && leb 1 (others l) in
      rw
        (
          handle_data_packet-framed marker (payload l) high low pads d h hh hlo long short,
          handle_message-payload l post full d.entities hl,
        )
        (by_tests (total (payload l) == high * 256 + low) plausible d
          (assigned l (encode (payload l) ++ post) full d.entities))
    where
      by_tests :
          (same plausible : Bool) (d : Decoder N) (e : Entities N)
          → let accepted : Entities N × Bool =
              if plausible then (e, true) else (d.entities, false) in
            let handled : Decoder N × Bool =
              if same
              then (record d { frames_ok = d.frames_ok + 1; entities = accepted.0 }, accepted.1)
              else (record d { frames_bad = d.frames_bad + 1 }, false) in
            (handled.1 ≡ (same && plausible))
            × (handled.0.entities ≡ (if same && plausible then e else d.entities))
      by_tests true true d e = (refl, refl)
      by_tests true false d e = (refl, refl)
      by_tests false plausible d e = (refl, refl)

  -- What an update puts on the queue, by whether there is new data.
  queued_items :
      (new : Bool) (u : Util N) (e e' : Entities N)
      → u.decoder.entities ≡ (if new then e else e')
      → (if new then readings (λ name. none) u.decoder.entities else [])
        ≡ (if new then readings (λ name. none) e else [])
  queued_items true u e e' h = ap (readings (λ name. none)) h
  queued_items false u e e' h = refl

module _ {ℓ} {N : Type ℓ} ⦃r : Real N⦄ (has_uuid : Uuid → Bool) (maxsize : ℕ) where
  items-update :
      (new : Bool) (u : Util N)
      → items_of (meritsun_plugin N) has_uuid maxsize (some new) [] u
        ≡ (if new then readings (λ name. none) u.decoder.entities else [])
  items-update true u = refl
  items-update false u = refl

  -- A battery whose stream holds a whole frame, and of which a notification brings the start of the
  -- next frame: if the checksum of the frame is right and its voltage and some other reading are
  -- plausible, all readings of the device go to the queue, with those of the frame stored in it, in
  -- order while there is room, and the rest is counted as dropped. Otherwise nothing goes to the
  -- queue. The payload has 52 to 58 bytes, and the stream and the notification fit in 512.
  pub notify_callback-frame :
      (l : Layout) (marker high low next : ℕ) (pads bytes : List ℕ) (decoder : Decoder N)
      → (d : Served N (Util N))
      → let packet = framed marker (payload l) high low (end_val ∷ pads) in
        d.plugin_state ≡ record { stream = packet; decoder = decoder }
        → IsPending packet
        → is_marker next ≡ true
        → read_bytes (next ∷ []) bytes ≡ ([], next ∷ bytes)
        → length (packet ++ next ∷ bytes) ≤ 512
        → All IsByte (payload l)
        → AllBytes l
        → IsByte high
        → IsByte low
        → 52 ≤ length (payload l)
        → length (payload l) ≤ 58
        → 0 < maxsize
        → length d.queue.0 ≤ maxsize
        → let message = encode (payload l) ++ behind (payload l) high low pads in
          let new =
            (total (payload l) == high * 256 + low)
            && (leb 1000 (le_value (voltage l)) && leb 1 (others l)) in
          let stored = assigned l message (leb (length packet) 130) decoder.entities in
          let items : List (Reading N) = if new then readings (λ name. none) stored else [] in
          let room = maxsize - length d.queue.0 in
          (notify_callback (meritsun_plugin N) has_uuid maxsize (next ∷ bytes) d).queue
          ≡ (d.queue.0 ++ take room items, d.queue.1 + (length items - room))
  notify_callback-frame l marker high low next pads bytes decoder d at pending mark rest fits h hl
        hh hlo long short some_room in_room =
      let packet = framed marker (payload l) high low (end_val ∷ pads) in
      let handled = handle_data_packet packet decoder in
      let after : Util N = record { stream = next ∷ bytes; decoder = handled.0 } in
      let (news, kept) = frame_entities l marker high low pads decoder h hl hh hlo long short in
      let new =
        (total (payload l) == high * 256 + low)
        && (leb 1000 (le_value (voltage l)) && leb 1 (others l)) in
      let message = encode (payload l) ++ behind (payload l) high low pads in
      let stored = assigned l message (leb (length packet) 130) decoder.entities in
      let tail = encode (payload l) ++ (encode (high ∷ low ∷ []) ++ end_val ∷ pads) in
      let room = maxsize - length d.queue.0 in
      let queue : List (Reading N) → List (Reading N) × ℕ =
        λ items. (d.queue.0 ++ take room items, d.queue.1 + (length items - room)) in
      let put : Util N × Bool → List (Reading N) =
        λ n. items_of (meritsun_plugin N) has_uuid maxsize (some n.1) [] n.0 in
      notify_callback-queue (meritsun_plugin N) has_uuid maxsize (next ∷ bytes) d some_room in_room
      ∙ ap queue (
          ap (published (meritsun_plugin N) has_uuid maxsize (next ∷ bytes)) at
          ∙ ap put (notification_update-next marker tail decoder next bytes pending mark rest fits)
          ∙ ap (λ b. put (after, b)) news
          ∙ items-update new after
          ∙ queued_items new after stored decoder.entities kept)
