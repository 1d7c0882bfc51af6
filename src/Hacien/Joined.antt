-- ===== src/Hacien/Joined.antt =====
-- plugins/Hacien: a message that arrives in several notifications.
use solar_monitor.Prelude.{ℕ, ◌≡◌, refl, ap, ◌∙◌, true, false, some, List, [], ◌∷◌, ◌++◌}
use solar_monitor.Prelude.Bytes.{All}
use solar_monitor.Numbers.{Real}
use solar_monitor.Device.Entities.{Entities}
use solar_monitor.Hacien.Crc.{validate}
use solar_monitor.Hacien.Message.{Outcome, returned, handle_message}
use solar_monitor.Hacien.{Util, starts_message, join, check_buffer, notification_update}

-- a part of a message behind its first
abbrev pub Continues : List ℕ → Type 0
Continues bytes = starts_message bytes ≡ some false

-- Every joined part but the last leaves a buffer that is not valid.
abbrev pub AllIncomplete : List ℕ → List (List ℕ) → Type 0
AllIncomplete got [] = Unit
AllIncomplete got (part ∷ parts) = (validate got ≡ false) × AllIncomplete (got ++ part) parts

-- the bytes of the parts
abbrev pub joined : List ℕ → List (List ℕ) → List ℕ
joined got [] = got
joined got (part ∷ parts) = joined (got ++ part) parts

module _ {ℓ} {N : Type ℓ} ⦃r : Real N⦄ where
  -- notifications in turn, and the outcome of the last
  unfoldable pub receive : List (List ℕ) → Util N × Outcome → Util N × Outcome
  receive [] state = state
  receive (bytes ∷ rest) (u, outcome) = receive rest (notification_update bytes u)

  notification_update-Continues :
      (part : List ℕ) (u : Util N)
      → Continues part
      → notification_update part u ≡ check_buffer (u.buffer ++ part) u.entities
  unfolding notification_update join
  notification_update-Continues part u h = rw (h, notification_update)

  notification_update-starts :
      (rest : List ℕ) (u : Util N)
      → notification_update (1 ∷ 3 ∷ rest) u ≡ check_buffer (1 ∷ 3 ∷ rest) u.entities
  unfolding notification_update starts_message join
  notification_update-starts rest u = refl

  check_buffer-invalid :
      (buffer : List ℕ) (e : Entities N)
      → validate buffer ≡ false
      → check_buffer buffer e ≡ (record { buffer = buffer; entities = e }, returned false)
  unfolding check_buffer
  check_buffer-invalid buffer e h = rw h

  check_buffer-valid :
      (buffer : List ℕ) (e : Entities N)
      → validate buffer ≡ true
      → let handled = handle_message buffer e in
        check_buffer buffer e ≡ (record { buffer = buffer; entities = handled.0 }, handled.1)
  unfolding check_buffer
  check_buffer-valid buffer e h = rw h

  receive-parts :
      (parts : List (List ℕ)) (got : List ℕ) (e : Entities N)
      → All Continues parts
      → AllIncomplete got parts
      → receive parts (check_buffer got e) ≡ check_buffer (joined got parts) e
  unfolding receive
  receive-parts [] got e h incomplete = refl
  receive-parts (part ∷ parts) got e h incomplete = rw (check_buffer-invalid got e incomplete.0) (
      ap (receive parts)
        (notification_update-Continues part (record { buffer = got; entities = e }) h.0)
      ∙ receive-parts parts (got ++ part) e h.1 incomplete.1)

  -- A message that comes in parts, the first one with the start and none of the others with it, is
  -- decoded once, when its last part is there, as if it had come at once, whatever the buffer held
  -- before: its CRC is right, and no shorter run of its parts happens to have a right one.
  pub receive-joined :
      (first : List ℕ) (parts : List (List ℕ)) (u : Util N) (before : Outcome)
      → All Continues parts
      → AllIncomplete (1 ∷ 3 ∷ first) parts
      → let whole = joined (1 ∷ 3 ∷ first) parts in
        validate whole ≡ true
        → let handled = handle_message whole u.entities in
          receive ((1 ∷ 3 ∷ first) ∷ parts) (u, before)
          ≡ (record { buffer = whole; entities = handled.0 }, handled.1)
  unfolding receive
  receive-joined first parts u before h incomplete valid =
      ap (receive parts) (notification_update-starts first u)
      ∙ receive-parts parts (1 ∷ 3 ∷ first) u.entities h incomplete
      ∙ check_buffer-valid (joined (1 ∷ 3 ∷ first) parts) u.entities valid
