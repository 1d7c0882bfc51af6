-- ===== src/Hacien/Polls.antt =====
-- plugins/Hacien: the cycle of polls.
use solar_monitor.Prelude.{
  ℕ, zero, suc, ◌+◌, ◌%◌, ◌≡◌, refl, true, Option, none, some, List, [], ◌∷◌, arith, ◌==◌,
  if◌then◌else◌,
}
use solar_monitor.Hacien.Crc.{validate, modbus_crc, crc_from, add_byte, shift_bits, shift_bit}
use solar_monitor.Hacien.{poll_data, poll_request}

-- n polls from a count on: the requests that they send
unfoldable pub polls : ℕ → ℕ → List (Option (List ℕ))
polls zero pollnum = []
polls (suc n) pollnum = let step = poll_request pollnum in step.1 ∷ polls n step.0

-- the two requests
abbrev pub ask_cells : List ℕ
ask_cells = 0x01 ∷ 0x03 ∷ 0xd0 ∷ 0x00 ∷ 0x00 ∷ 0x26 ∷ 0xfc ∷ 0xd0 ∷ []

abbrev pub ask_state : List ℕ
ask_state = 0x01 ∷ 0x03 ∷ 0xd0 ∷ 0x26 ∷ 0x00 ∷ 0x19 ∷ 0x5d ∷ 0x0b ∷ []

-- what the k-th poll since the start asks for
unfoldable pub due : ℕ → Option (List ℕ)
due k = if k % 10 == 1 then some ask_cells else if k % 10 == 3 then some ask_state else none

unfoldable pub scheduled : ℕ → ℕ → List (Option (List ℕ))
scheduled zero k = []
scheduled (suc n) k = due k ∷ scheduled n (suc k)

-- pollnum is 0 at the start and goes from 1 to 10 then
abbrev pub pollnum_at : ℕ → ℕ
pollnum_at zero = 0
pollnum_at (suc k) = k % 10 + 1

next_pollnum : (k : ℕ) → (poll_request (pollnum_at k)).0 ≡ pollnum_at (suc k)
unfolding poll_request
next_pollnum zero = refl
next_pollnum (suc k) = ground arith

request_due : (k : ℕ) → (poll_request (pollnum_at k)).1 ≡ due k
unfolding poll_request poll_data due
request_due zero = refl
request_due (suc k) = ground arith

polls-scheduled : (n k : ℕ) → polls n (pollnum_at k) ≡ scheduled n k
unfolding polls scheduled
polls-scheduled zero k = refl
polls-scheduled (suc n) k = rw (request_due k, next_pollnum k, polls-scheduled n (suc k))

asks-valid : (validate ask_cells ≡ true) × (validate ask_state ≡ true)
unfolding validate modbus_crc crc_from add_byte shift_bits shift_bit
asks-valid = (refl, refl)
