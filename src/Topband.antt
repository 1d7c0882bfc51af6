-- ===== src/Topband.antt =====
-- plugins/Topband: the state machine that cuts the bytes of notifications into frames.
pub mod Message
pub mod Reader
pub mod Inside
pub mod Frames
pub mod Readings
use solar_monitor.Prelude.{
  ℕ, ◌+◌, ◌-◌, Bool, true, false, ◌&&◌, Option, none, some, List, [], ◌∷◌, replicate, take, drop,
  set, ltb, ◌==◌, if◌then◌else◌,
}
use solar_monitor.Numbers.{Real}
use solar_monitor.AsciiHex.{checksum_matches}
use solar_monitor.Device.Entities.{Entities}
use Message.{handle_message}

abbrev pub protocol_head : ℕ
protocol_head = 94

abbrev pub protocol_end : ℕ
protocol_end = 0

-- RecvDataType
pub data RecvDataType : Type 0 where
  soi info eoi : RecvDataType

-- The buffer has 115 places. A place that is not yet written is None in the source, and 0 here.
pub record Parser : Type 0 where
  pub recv_data_type : RecvDataType
  pub rev_buf : List ℕ
  pub revindex : ℕ
  pub end : ℕ

abbrev pub new_parser : Parser
new_parser = record { recv_data_type = soi; rev_buf = replicate 115 0; revindex = 0; end = 0 }

-- Back to the search for a head: the bytes in the buffer stay.
unfoldable pub reset : Parser → Parser
reset p = record p { recv_data_type = soi; revindex = 0; end = 0 }

-- RevBuf[Revindex] = data[i], and the index moves on
unfoldable pub append : ℕ → Parser → Parser
append byte p = record p { rev_buf = set p.rev_buf p.revindex byte; revindex = p.revindex + 1 }

-- the end of the content, behind a byte that was just appended
unfoldable pub note_end : ℕ → Parser → Parser
note_end byte p =
    if byte == protocol_end
    then record p {
      end = if ltb p.end 110 then p.revindex else p.end;
      recv_data_type = if p.revindex == 114 then eoi else p.recv_data_type;
    }
    else p

-- RevBuf[1:Revindex]
unfoldable pub cmd_data : Parser → List ℕ
cmd_data p = take (p.revindex - 1) (drop 1 p.rev_buf)

-- One byte in each state: the parser, and the frame that is then handled.
unfoldable pub step_in : RecvDataType → ℕ → Parser → Parser × Option (List ℕ)
unfolding reset append note_end cmd_data
step_in soi byte p =
    (if byte == protocol_head then append byte (record p { recv_data_type = info }) else p, none)
step_in info byte p = (note_end byte (append byte p), none)
step_in eoi byte p = (reset p, if checksum_matches p.rev_buf p.end then some (cmd_data p) else none)

-- the reset in front of each byte, where the buffer is full
unfoldable pub wrapped : Parser → Parser
unfolding reset
wrapped p = if ltb 114 p.revindex then reset p else p

unfoldable pub step : ℕ → Parser → Parser × Option (List ℕ)
step byte p = step_in (wrapped p).recv_data_type byte (wrapped p)

-- The loop over the bytes of a notification, up to the first frame: the bytes behind it are dropped.
unfoldable pub feed : List ℕ → Parser → Parser × Option (List ℕ)
feed [] p = (p, none)
feed (byte ∷ bytes) p = elim (step byte p).1 [
  | none ↦ feed bytes (step byte p).0
  | some frame ↦ ((step byte p).0, some frame)
]

pub record Util {ℓ} (N : Type ℓ) : Type ℓ where
  pub parser : Parser
  pub entities : Entities N

module _ {ℓ} {N : Type ℓ} ⦃r : Real N⦄ where
  -- handleMessage on the frame that the bytes complete, if they do
  unfoldable pub handle_frame : Option (List ℕ) → Entities N → Entities N × Bool
  handle_frame none e = (e, false)
  handle_frame (some message) e = handle_message message e

  unfoldable pub notification_update : List ℕ → Util N → Util N × Bool
  notification_update bytes u =
      let fed = feed bytes u.parser in
      let handled = handle_frame fed.1 u.entities in
      (record { parser = fed.0; entities = handled.0 }, handled.1)
