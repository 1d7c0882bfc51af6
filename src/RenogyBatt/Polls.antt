-- ===== src/RenogyBatt/Polls.antt =====
-- plugins/RenogyBatt: the cycle of polls.
use solar_monitor.Prelude.{
  ℕ, zero, suc, ◌+◌, ◌-◌, ◌%◌, ◌<◌, ◌≡◌, refl, ◌&&◌, Option, none, List, [], ◌∷◌, arith, ◌==◌, ltb,
  if◌then◌else◌,
}
use solar_monitor.RenogyBatt.{
  total_capacity, voltage_current_soc, temperature_state, cell_voltage, create_poll_request,
  data_of, poll_request, reg_addr,
}

module _ (crc16 : List ℕ → ℕ) (device_id : ℕ) where
  -- n polls from a count on: the requests that they send
  unfoldable pub polls : ℕ → ℕ → List (Option (List ℕ))
  polls zero count = []
  polls (suc n) count = let step = poll_request crc16 device_id count in step.1 ∷ polls n step.0

  -- where the k-th poll stands in the cycle of fourteen, of which the first two polls are no part
  abbrev pub place : ℕ → ℕ
  place k = if ltb k 2 then k else (k - 2) % 14 + 2

  -- What the poll at a place sends.
  unfoldable pub due : ℕ → Option (List ℕ)
  due p =
      if p == 4
      then create_poll_request crc16 device_id cell_voltage
      else if p == 6
      then create_poll_request crc16 device_id temperature_state
      else if p == 5
      then create_poll_request crc16 device_id voltage_current_soc
      else if ltb 1 p && (p % 2 == 0)
      then create_poll_request crc16 device_id voltage_current_soc
      else none

  unfoldable pub scheduled : ℕ → ℕ → List (Option (List ℕ))
  scheduled zero k = []
  scheduled (suc n) k = due (place k) ∷ scheduled n (k + 1)

  next_count : (k : ℕ) → (poll_request crc16 device_id (place k)).0 ≡ place (k + 1)
  unfolding poll_request
  next_count k = ground arith

  total_none : create_poll_request crc16 device_id total_capacity ≡ none
  unfolding create_poll_request reg_addr
  total_none = refl

  request_due : (p : ℕ) → p < 16 → (poll_request crc16 device_id p).1 ≡ due p
  unfolding poll_request data_of due
  request_due p h = ground (arith, total_none)

  place-lt : (k : ℕ) → place k < 16
  place-lt k = ground arith

  -- The polls from the k-th on follow the schedule for ever: behind two polls that send nothing, a
  -- cycle of fourteen asks for the state six times, and for the cells and the temperature once.
  pub polls-cycle : (n k : ℕ) → polls n (place k) ≡ scheduled n k
  unfolding polls scheduled
  polls-cycle zero k = refl
  polls-cycle (suc n) k =
      rw (request_due (place k) (place-lt k), next_count k, polls-cycle n (k + 1))
