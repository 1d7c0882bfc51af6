-- ===== src/Hacien.antt =====
-- plugins/Hacien: the polls of a battery, and the notifications that are joined to messages. The log
-- of `debug` is left out.
pub mod Crc
pub mod Message
pub mod Polls
pub mod Joined
use solar_monitor.Prelude.{
  ℕ, ◌+◌, Bool, true, false, ◌&&◌, ◌||◌, Option, none, some, List, [], ◌∷◌, ◌++◌, length, get_or,
  ltb, ◌==◌, if◌then◌else◌,
}
use solar_monitor.Numbers.{Real}
use solar_monitor.Device.Entities.{Entities}
use Crc.{validate}
use Message.{Outcome, returned, raised, handle_message}

-- What pollnum asks for. The literals that are set and then dropped are left out.
unfoldable pub poll_data : ℕ → Option (List ℕ)
poll_data pollnum =
    if pollnum == 1
    then some (0x01 ∷ 0x03 ∷ 0xd0 ∷ 0x00 ∷ 0x00 ∷ 0x26 ∷ 0xfc ∷ 0xd0 ∷ [])
    else if pollnum == 3
    then some (0x01 ∷ 0x03 ∷ 0xd0 ∷ 0x26 ∷ 0x00 ∷ 0x19 ∷ 0x5d ∷ 0x0b ∷ [])
    else none

-- pollRequest: the new pollnum, and the request
unfoldable pub poll_request : ℕ → ℕ × Option (List ℕ)
unfolding poll_data
poll_request pollnum = ((if pollnum == 10 then 0 else pollnum) + 1, poll_data pollnum)

pub record Util {ℓ} (N : Type ℓ) : Type ℓ where
  pub buffer : List ℕ
  pub entities : Entities N

-- data[0] == 1 and data[1] == 3, where `none` is an IndexError
unfoldable pub starts_message : List ℕ → Option Bool
starts_message [] = none
starts_message (first ∷ []) = if first == 1 then none else some false
starts_message (first ∷ second ∷ _) = some ((first == 1) && (second == 3))

-- the buffer with the bytes of a notification
unfoldable pub join : Bool → List ℕ → List ℕ → List ℕ
join new buffer bytes = (if new then [] else buffer) ++ bytes

module _ {ℓ} {N : Type ℓ} ⦃r : Real N⦄ where
  -- the end of notificationUpdate, on the joined buffer
  unfoldable pub check_buffer : List ℕ → Entities N → Util N × Outcome
  check_buffer buffer e =
      let handled = handle_message buffer e in
      if validate buffer
      then (record { buffer = buffer; entities = handled.0 }, handled.1)
      else (record { buffer = buffer; entities = e }, returned false)

  unfoldable pub notification_update : List ℕ → Util N → Util N × Outcome
  notification_update bytes u = elim (starts_message bytes) [
    | none ↦ (u, raised)
    | some new ↦ check_buffer (join new u.buffer bytes) u.entities
  ]
