-- ===== src/VeDirect/Session.antt =====
-- plugins/VEDirect: the packets that open a session and keep it alive, and the commands.
use solar_monitor.Prelude.{
  ℕ, zero, suc, ◌+◌, ◌-◌, ◌%◌, ◌≡◌, refl, String, Bool, true, false, not, ◌&&◌, Option, none, some,
  List, [], ◌∷◌, ltb, ◌==◌, if◌then◌else◌, str_eq, arith,
}
use solar_monitor.Prelude.Int.{ℤ, pos, eqb_ℤ}

-- the two characteristics that are written
pub data Characteristic : Type 0 where
  polling commands : Characteristic

pub data Command : Type 0 where
  poll_data power_on power_off power_eco : Command

unfoldable pub create_poll_request : Command → List ℕ
create_poll_request poll_data = 0xf9 ∷ 0x41 ∷ []
create_poll_request power_on = 0x06 ∷ 0x03 ∷ 0x82 ∷ 0x19 ∷ 0x02 ∷ 0x00 ∷ 0x41 ∷ 0x02 ∷ []
create_poll_request power_off = 0x06 ∷ 0x03 ∷ 0x82 ∷ 0x19 ∷ 0x02 ∷ 0x00 ∷ 0x41 ∷ 0x04 ∷ []
create_poll_request power_eco = 0x06 ∷ 0x03 ∷ 0x82 ∷ 0x19 ∷ 0x02 ∷ 0x00 ∷ 0x41 ∷ 0x05 ∷ []

-- the command that a value of the switch stands for
unfoldable pub switch_command : ℤ → Option Command
switch_command value =
    if eqb_ℤ value (pos 0)
    then some power_off
    else if eqb_ℤ value (pos 1)
    then some power_on
    else if eqb_ℤ value (pos 5)
    then some power_eco
    else none

-- `int(value)` is done by the caller; it raises on a text that is no number.
unfoldable pub cmd_request : String → ℤ → List (List ℕ)
unfolding switch_command create_poll_request
cmd_request command value =
    elim (if str_eq command "power_switch" then switch_command value else none) [
      | none ↦ []
      | some cmd ↦ create_poll_request cmd ∷ []
    ]

abbrev pub Write : Type 0
Write = Characteristic × List ℕ

unfoldable pub send_magic_packets : List Write
send_magic_packets =
    (polling, 0xfa ∷ 0x80 ∷ 0xff ∷ [])
    ∷ (polling, 0xf9 ∷ 0x80 ∷ [])
    ∷ (commands, 0x01 ∷ [])
    ∷ (commands, 0x03 ∷ 0x00 ∷ [])
    ∷ (
      commands,
      0x06 ∷ 0x00 ∷ 0x82 ∷ 0x18 ∷ 0x93 ∷ 0x42 ∷ 0x10 ∷ 0x27 ∷ 0x03 ∷ 0x01 ∷ 0x03 ∷ 0x03 ∷ [],
    )
    ∷ (
      commands,
      0x81 ∷ 0x18 ∷ 0x90 ∷ 0x05 ∷ 0x00 ∷ 0x81 ∷ 0x19 ∷ 0xec ∷ 0x3f ∷ 0x05 ∷ 0x00 ∷ 0x81 ∷ 0x19
          ∷ 0xec ∷ 0x12 ∷ [],
    )
    ∷ (
      commands,
      0x19 ∷ 0xec ∷ 0xdc ∷ 0x05 ∷ 0x03 ∷ 0x81 ∷ 0x19 ∷ 0xec ∷ 0xeb ∷ 0x05 ∷ 0x03 ∷ 0x81 ∷ 0x19
          ∷ 0xec ∷ 0xed ∷ [],
    )
    ∷ (polling, 0xf9 ∷ 0x41 ∷ [])
    ∷ (commands, 0x06 ∷ 0x00 ∷ 0x82 ∷ 0x18 ∷ 0x93 ∷ 0x42 ∷ 0x10 ∷ 0x27 ∷ [])
    ∷ (polling, 0xf9 ∷ 0x41 ∷ [])
    ∷ []

unfoldable pub keep_alive : List Write
keep_alive =
    (
      commands,
      0x06 ∷ 0x00 ∷ 0x82 ∷ 0x18 ∷ 0x93 ∷ 0x42 ∷ 0x10 ∷ 0x27 ∷ 0x03 ∷ 0x01 ∷ 0x03 ∷ 0x03 ∷ [],
    )
    ∷ (polling, 0xf9 ∷ 0x41 ∷ [])
    ∷ []

pub record Session : Type 0 where
  pub is_initialized : Bool
  pub poll_loop_count : ℕ

abbrev pub new_session : Session
new_session = record { is_initialized = false; poll_loop_count = 0 }

-- pollRequest: the packets that a poll writes. It returns no request itself.
unfoldable pub poll_request : Session → Session × List Write
poll_request s =
    if not s.is_initialized && s.poll_loop_count == 2
    then (
      record { is_initialized = true; poll_loop_count = s.poll_loop_count + 1 },
      send_magic_packets,
    )
    else if s.poll_loop_count == 5
    then (record s { poll_loop_count = 1 }, keep_alive)
    else (record s { poll_loop_count = s.poll_loop_count + 1 }, [])

-- the packets of n polls from a session on
unfoldable pub polls : ℕ → Session → List (List Write)
polls zero s = []
polls (suc n) s = (poll_request s).1 ∷ polls n (poll_request s).0

-- What the k-th poll of a session writes, counted from 0.
unfoldable pub due : ℕ → List Write
due k = if k == 2 then send_magic_packets else if ltb 2 k && k % 5 == 0 then keep_alive else []

unfoldable pub scheduled : ℕ → ℕ → List (List Write)
scheduled zero k = []
scheduled (suc n) k = due k ∷ scheduled n (k + 1)

-- the session before the k-th poll
abbrev session_at : ℕ → Session
session_at k = record {
  is_initialized = ltb 2 k;
  poll_loop_count = if k == 0 then 0 else (k - 1) % 5 + 1;
}

poll_request-due :
    (k : ℕ)
    → ((poll_request (session_at k)).1 ≡ due k)
      × ((poll_request (session_at k)).0 ≡ session_at (k + 1))
unfolding poll_request due
poll_request-due k = (ground arith, ground arith)

polls-from : (n k : ℕ) → polls n (session_at k) ≡ scheduled n k
unfolding polls scheduled
polls-from zero k = refl
polls-from (suc n) k = rw ((poll_request-due k).0, (poll_request-due k).1, polls-from n (k + 1))

-- A session opens with the third poll, and from then on every fifth poll keeps it alive; the other
-- polls write nothing.
session-scheduled : (n : ℕ) → polls n new_session ≡ scheduled n 0
session-scheduled n = polls-from n 0
