-- ===== src/Ble/Hold.antt =====
-- ble.py: the loop that holds a connection, and the check of its quality.
use solar_monitor.Prelude.{
  ℕ, suc, ◌+◌, ◌/◌, ◌<◌, ◌≡◌, refl, Bool, true, false, not, ◌&&◌, ◌||◌, Option, none, some, List,
  [], ◌∷◌, ◌++◌, length, ltb, leb, if◌then◌else◌, arith, Bool-cases, inl, inr, ◌⊎◌,
}
use solar_monitor.Prelude.Bytes.{All}
use solar_monitor.Prelude.Int.{pos, +ℤ-pos}
use solar_monitor.Numbers.{Num, Real, real_num, int_num}

-- What a round of the loop meets: the stop, the link, what get_poll_data gives, and whether the
-- write of it raises.
pub record Round : Type 0 where
  pub stopped : Bool
  pub is_connected : Bool
  pub poll_data : Option (List ℕ)
  pub write_raises : Bool

pub data Act : Type 0 where
  wrote : List ℕ → Act
  write_failed slept verified : Act

-- what there is to write: nothing for None or no bytes, or where the device is not polled
unfoldable pub to_write : Bool → Option (List ℕ) → Option (List ℕ)
to_write polled none = none
to_write polled (some []) = none
to_write polled (some (b ∷ bs)) = if polled then some (b ∷ bs) else none

abbrev write_act : Option (List ℕ) → List Act
write_act none = []
write_act (some bytes) = wrote bytes ∷ []

abbrev fails : Option (List ℕ) → Bool → Bool
fails none raises = false
fails (some bytes) raises = raises

module _ {ℓ} {N : Type ℓ} ⦃n : Num N⦄ where
  -- since_verify, and whether the link is checked, behind a wait
  unfoldable pub tick : N → N → N × Bool
  tick poll_interval since =
      let now = n.add since poll_interval in
      if n.le (n.of_int (pos 60)) now then (n.of_int (pos 0), true) else (now, false)

  -- The loop over what its rounds meet: what it does, and whether it has ended. `polled` is
  -- `dev.need_polling and dev.device_write_characteristic_polling`.
  unfoldable pub hold : Bool → N → List Round → N → List Act × Bool
  unfolding to_write
  hold polled poll_interval [] since = ([], false)
  hold polled poll_interval (o ∷ rest) since =
      let bytes = to_write polled o.poll_data in
      let ticked = tick poll_interval since in
      let next = hold polled poll_interval rest ticked.0 in
      if o.stopped || not o.is_connected
      then ([], true)
      else if fails bytes o.write_raises
      then (write_failed ∷ [], true)
      else (write_act bytes ++ (slept ∷ (if ticked.1 then verified ∷ next.0 else next.0)), next.1)

abbrev pub min_frames_to_judge : ℕ
min_frames_to_judge = 20

-- _verify_link: whether it asserts the interval again, by the accepted and rejected frames.
unfoldable pub verify_link {ℓ} : (N : Type ℓ) ⦃r : Real N⦄ → Bool → Option (ℕ × ℕ) → Bool
verify_link N ⦃r⦄ has_interval none = false
verify_link N ⦃r⦄ has_interval (some (accepted, rejected)) =
    let total = accepted + rejected in
    let ratio = r.num.mul (r.num.of_int (pos total)) (r.decimal (pos 3) 1) in
    has_interval
    && not (ltb total min_frames_to_judge || r.num.le ratio (r.num.of_int (pos accepted)))

-- the checks of the link among the acts
unfoldable pub checks : List Act → ℕ
checks [] = 0
checks (verified ∷ acts) = suc (checks acts)
checks (_ ∷ acts) = checks acts

-- A round that goes on.
abbrev pub GoesOn : Round → Type 0
GoesOn o = (o.stopped ≡ false) × (o.is_connected ≡ true) × (o.write_raises ≡ false)

checks-write_act :
    (bytes : Option (List ℕ)) (acts : List Act) → checks (write_act bytes ++ acts) ≡ checks acts
unfolding checks
checks-write_act none acts = refl
checks-write_act (some bytes) acts = refl

fails-never : (bytes : Option (List ℕ)) → fails bytes false ≡ false
fails-never none = refl
fails-never (some bytes) = refl

tick-second :
    (since : ℕ)
    → since < 60
    → (((since + 1 < 60) × (tick (pos 1) (pos since) ≡ (pos (since + 1), false)))
        ⊎ ((since + 1 ≡ 60) × (tick (pos 1) (pos since) ≡ (pos 0, true))))
unfolding tick
tick-second since lt = rw (+ℤ-pos since 1) (elim (Bool-cases (leb 60 (since + 1))) [
  | inl p ↦ inr (ground arith, ground arith)
  | inr p ↦ inl (ground arith, ground arith)
])

-- While the link holds and no write fails, a device that is polled every second has its link checked
-- in every sixtieth round, and the loop goes on.
pub hold-checks :
    (polled : Bool) (rounds : List Round) (since : ℕ)
    → since < 60
    → All GoesOn rounds
    → let held = hold polled (pos 1) rounds (pos since) in
      (checks held.0 ≡ (since + length rounds) / 60) × (held.1 ≡ false)
unfolding hold checks
hold-checks polled [] since lt h = (omega arith, refl)
hold-checks polled (o ∷ rest) since lt h =
    let bytes = to_write polled o.poll_data in
    let going : (o.stopped || not o.is_connected) ≡ false = rw (h.0.0, h.0.1) refl in
    rw (going, h.0.2, fails-never bytes)
      (elim (tick-second since lt) [
        | inl (more, e) ↦
            let ih = hold-checks polled rest (since + 1) more h.1 in
            rw (e, checks-write_act bytes) (omega (arith, ih.0), ih.1)
        | inr (full, e) ↦
            let ih = hold-checks polled rest 0 (omega arith) h.1 in
            rw (e, checks-write_act bytes) (omega (arith, ih.0, full), ih.1)
      ])
