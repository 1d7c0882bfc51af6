-- ===== src/Topband/Reader.antt =====
-- plugins/Topband: what the state machine keeps over any bytes.
use solar_monitor.Prelude.{
  ℕ, ◌+◌, ◌≤◌, ◌≡◌, refl, ◌∙◌, none, some, List, [], ◌∷◌, ◌++◌, length, length-set, set, arith, ltb,
  ◌==◌, Bool-cases, inl, inr, Option-cases,
}
use solar_monitor.Topband.{
  RecvDataType, soi, info, eoi, Parser, reset, append, note_end, step_in, wrapped, step, feed,
}

-- What the index and the end may be in each state.
abbrev pub InStep : RecvDataType → ℕ → ℕ → Type 0
InStep soi revindex end = (revindex ≡ 0) × (end ≡ 0)
InStep info revindex end = (1 ≤ revindex) × (revindex ≤ 115) × (end ≤ revindex)
InStep eoi revindex end = (revindex ≡ 114) × (110 ≤ end) × (end ≤ 114)

abbrev pub IsRunning : Parser → Type 0
IsRunning p = InStep p.recv_data_type p.revindex p.end × (length p.rev_buf ≡ 115)

reset-IsRunning : (p : Parser) → length p.rev_buf ≡ 115 → IsRunning (reset p)
unfolding reset
reset-IsRunning p h = ((refl, refl), h)

-- Behind the reset in front of a byte, the next place of the buffer is there.
wrapped-IsRunning :
    (p : Parser) → IsRunning p → IsRunning (wrapped p) × ((wrapped p).revindex ≤ 114)
unfolding wrapped
wrapped-IsRunning p h = elim (Bool-cases (ltb 114 p.revindex)) [
  | inl full ↦ rw full (reset-IsRunning p h.1, unfold reset in omega arith)
  | inr room ↦ rw room (h, ground arith)
]

note_end-IsRunning :
    (byte end revindex : ℕ) (buf : List ℕ)
    → 1 ≤ revindex
    → revindex ≤ 115
    → end ≤ revindex
    → length buf ≡ 115
    → IsRunning (
        note_end byte
          (record { recv_data_type = info; rev_buf = buf; revindex = revindex; end = end }))
unfolding note_end
note_end-IsRunning byte end revindex buf lo hi le size = elim (Bool-cases (byte == 0)) [
  | inl z ↦ rw z (elim (Bool-cases (revindex == 114)) [
    | inl last ↦ rw last (ground arith, size)
    | inr more ↦ rw more (ground arith, size)
  ])
  | inr nz ↦ rw nz ((lo, hi, le), size)
]

abbrev pub at : RecvDataType → List ℕ → ℕ → ℕ → Parser
at t buf i end = record { recv_data_type = t; rev_buf = buf; revindex = i; end = end }

step_in-IsRunning :
    (byte : ℕ) (t : RecvDataType) (buf : List ℕ) (i end : ℕ)
    → IsRunning (at t buf i end)
    → i ≤ 114
    → IsRunning (step_in t byte (at t buf i end)).0
unfolding step_in append
step_in-IsRunning byte soi buf i end h room = elim (Bool-cases (byte == 94)) [
  | inl head ↦
      rw head ((omega (arith, h.0), omega arith, omega (arith, h.0)), length-set buf i byte ∙ h.1)
  | inr other ↦ rw other h
]
step_in-IsRunning byte info buf i end h room =
    note_end-IsRunning byte end (i + 1) (set buf i byte) (omega arith) (omega arith)
      (omega (arith, h.0)) (length-set buf i byte ∙ h.1)
step_in-IsRunning byte eoi buf i end h room = reset-IsRunning (at eoi buf i end) h.1

pub step-IsRunning : (byte : ℕ) (p : Parser) → IsRunning p → IsRunning (step byte p).0
unfolding step
step-IsRunning byte p h =
    let q = wrapped p in
    let (running, room) = wrapped-IsRunning p h in
    step_in-IsRunning byte q.recv_data_type q.rev_buf q.revindex q.end running room

-- Over any bytes the parser stays in order: the buffer keeps its 115 places; while a head is
-- searched the index and the end are 0; inside a frame the index is from 1 to 115 and the end is no
-- further; and a checksum is only tested behind 114 bytes, with an end from 110 to 114.
pub feed-IsRunning : (bytes : List ℕ) (p : Parser) → IsRunning p → IsRunning (feed bytes p).0
unfolding feed
feed-IsRunning [] p h = h
feed-IsRunning (byte ∷ bytes) p h = elim (Option-cases (step byte p).1) [
  | inl going ↦ rw (going, feed) (feed-IsRunning bytes (step byte p).0 (step-IsRunning byte p h))
  | inr (frame, done) ↦ rw (done, feed) (step-IsRunning byte p h)
]

-- Where the bytes of a notification complete no frame, those of the next follow on without a seam.
pub feed-append :
    (xs ys : List ℕ) (p : Parser) → (feed xs p).1 ≡ none → feed (xs ++ ys) p ≡ feed ys (feed xs p).0
unfolding feed
feed-append [] ys p h = refl
feed-append (byte ∷ xs) ys p h = elim (Option-cases (step byte p).1) [
  | inl going ↦ rw (going, feed) (feed-append xs ys (step byte p).0 (rw (going, feed) at h))
  | inr (frame, done) ↦ absurd (no_frame (rw (done, feed) at h))
]
  where
    no_frame : {frame : List ℕ} → some frame ≡ none → ⊥
    no_frame e = cc
