-- ===== src/Meritsun.antt =====
-- plugins/Meritsun: the stream of notifications, cut at the frame markers.
pub mod Message
pub mod Stream
pub mod Chunks
pub mod Buffer
pub mod Frames
pub mod Layout
pub mod Readings
use mathlib.Core.Option
use solar_monitor.Prelude.{
  ℕ, zero, suc, ◌+◌, ◌-◌, min, max, Bool, true, false, not, ◌&&◌, ◌||◌, Option, none, some, List,
  [], ◌∷◌, ◌++◌, length, take, drop, replicate, ltb, leb, ◌==◌, if◌then◌else◌,
}
use solar_monitor.Prelude.Int.{ℤ, pos}
use solar_monitor.Numbers.{Real}
use solar_monitor.AsciiHex.{checksum_matches}
use solar_monitor.Device.Entities.{Entities}
use Message.{frame_end, handle_message}

abbrev pub start_val : ℕ
start_val = 146

-- the second marker
abbrev pub second_val : ℕ
second_val = 0xC9

-- bytearray.find: the first index, or none for -1
unfoldable pub find : ℕ → List ℕ → Option ℕ
find mark [] = none
find mark (b ∷ bs) = if b == mark then some 0 else Option.map suc (find mark bs)

-- find from an index on
unfoldable pub find_from : ℕ → List ℕ → ℕ → Option ℕ
unfolding find
find_from mark stream from = Option.map (λ i. i + from) (find mark (drop from stream))

-- the last index
unfoldable pub rfind : ℕ → List ℕ → Option ℕ
rfind mark [] = none
rfind mark (b ∷ bs) = elim (rfind mark bs) [
  | some i ↦ some (suc i)
  | none ↦ if b == mark then some 0 else none
]

-- the smaller of two indices that were found
unfoldable pub earlier : Option ℕ → Option ℕ → Option ℕ
earlier none q = q
earlier (some p) none = some p
earlier (some p) (some q) = some (if ltb q p then q else p)

-- the larger of two, where -1 is smaller than all
unfoldable pub later : Option ℕ → Option ℕ → Option ℕ
later none q = q
later (some p) none = some p
later (some p) (some q) = some (max p q)

unfoldable pub first_marker : List ℕ → Option ℕ
unfolding earlier
first_marker stream = earlier (find start_val stream) (find second_val stream)

unfoldable pub next_marker : List ℕ → ℕ → Option ℕ
unfolding earlier find_from
next_marker stream start =
    earlier (find_from start_val stream (start + 1)) (find_from second_val stream (start + 1))

unfoldable pub last_marker : List ℕ → Option ℕ
unfolding later rfind
last_marker stream = later (rfind start_val stream) (rfind second_val stream)

-- The cut of a stream of more than 512 bytes: from the last marker on, or the last 256 bytes.
unfoldable pub cut : List ℕ → List ℕ
unfolding last_marker
cut stream =
    let tail = drop (length stream - 256) stream in
    if ltb 512 (length stream)
    then elim (last_marker stream) [
      | none ↦ tail
      | some keep ↦ if ltb 0 keep then drop keep stream else tail
    ]
    else stream

-- The loop over the frames in the stream, over any handler of packets. Each round but the last
-- drops at least one byte, so the length of the stream is fuel enough.
unfoldable pub drain {ℓ} :
    {S : Type ℓ} → (List ℕ → S → S × Bool) → ℕ → List ℕ → Bool → S → List ℕ × Bool × S
drain handle zero stream updated s = (stream, updated, s)
drain handle (suc fuel) stream updated s = elim (first_marker stream) [
  | none ↦ ([], updated, s)
  | some start ↦ elim (next_marker stream start) [
    | none ↦ (drop start stream, updated, s)
    | some nxt ↦
        let (s', done) = handle (take (nxt - start) (drop start stream)) s in
        drain handle fuel (drop nxt stream) (if done then true else updated) s'
  ]
]

-- the frame counters, and `PowerDevice.entities`
pub record Decoder {ℓ} (N : Type ℓ) : Type ℓ where
  pub frames_ok : ℕ
  pub frames_bad : ℕ
  pub entities : Entities N

pub record Util {ℓ} (N : Type ℓ) : Type ℓ where
  pub stream : List ℕ
  pub decoder : Decoder N

module _ {ℓ} {N : Type ℓ} ⦃r : Real N⦄ where
  -- _handleDataPacket
  unfoldable pub handle_data_packet : List ℕ → Decoder N → Decoder N × Bool
  handle_data_packet packet d =
      let buf = take 122 (packet ++ replicate 122 0) in
      let revindex = min (length packet) 121 in
      let end = frame_end packet in
      if ltb end 60 || not (checksum_matches buf end)
      then (record d { frames_bad = d.frames_bad + 1 }, false)
      else let message = take (revindex - 1) (drop 1 buf) in
        let (entities, updated) = handle_message message (leb (length packet) 130) d.entities in
        (record d { frames_ok = d.frames_ok + 1; entities = entities }, updated)

  -- notificationUpdate, without the capture that `debug` writes to a file
  unfoldable pub notification_update : List ℕ → Util N → Util N × Bool
  notification_update [] u = (u, false)
  notification_update (b ∷ bs) u =
      let stream = cut (u.stream ++ (b ∷ bs)) in
      let (rest, updated, decoder) =
        drain handle_data_packet (suc (length stream)) stream false u.decoder in
      (record { stream = rest; decoder = decoder }, updated)

  -- frame_health: the counts since the last call, which are reset
  unfoldable pub frame_health : Decoder N → Decoder N × (ℕ × ℕ)
  frame_health d = (record d { frames_ok = 0; frames_bad = 0 }, (d.frames_ok, d.frames_bad))
