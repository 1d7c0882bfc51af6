-- ===== src/Ble/Shutdown.antt =====
-- ble.py: BleManager.stop, which sets the stop event and cancels the tasks, where its loop runs on
-- until each task has left by its `finally`.
use solar_monitor.Prelude.{
  ℕ, zero, suc, ◌<◌, ◌≡◌, refl, ap, ◌∙◌, true, false, ◌==◌, if◌then◌else◌, arith, ==_iff,
  Bool-cases, inl, inr,
}
use solar_monitor.Ble.Task.{
  Phase, checking, wanting, connecting, subscribing, holding, closing, backing_off, ended, Task,
  unlocked, cancelled, quit, cancel_locked, cancel_subscribing, cancel_waiting, cancel_holding,
  cancel_closing, cancel_backing_off, serves,
}
use solar_monitor.Ble.Fleet.{Fleet, update, move, request_stop, Reach, later}
use solar_monitor.Ble.Invariant.{Reach-IsHonest}

-- A task that stands at an await is cancelled there. One that stands at the head of its loop, where
-- there is none, sees the stop event.
unfoldable cancel_at : Phase → ℕ → Fleet → Fleet
cancel_at checking i s = record s { task = update s.task i (record (s.task i) { phase = ended }) }
cancel_at connecting i s = record {
  shared = unlocked s.shared;
  task = update s.task i (cancelled (s.task i));
}
cancel_at (subscribing k) i s = record {
  shared = unlocked s.shared;
  task = update s.task i (cancelled (s.task i));
}
cancel_at ended i s = s
cancel_at _ i s = record s { task = update s.task i (cancelled (s.task i)) }

-- the tasks below n, the last one first
unfoldable cancel_all : ℕ → Fleet → Fleet
cancel_all zero s = s
cancel_all (suc n) s = cancel_all n (cancel_at (s.task n).phase n s)

unfoldable shut_down : ℕ → Fleet → Fleet
shut_down n s = cancel_all n (record s { shared = record s.shared { stop = true } })

Reach-cancel_at :
    {notify : ℕ → ℕ} (p : Phase) (i : ℕ) (s : Fleet)
    → Reach notify s
    → s.shared.stop ≡ true
    → (s.task i).phase ≡ p
    → Reach notify (cancel_at p i s)
unfolding cancel_at
Reach-cancel_at checking i s r stop e = later r (move i (quit e stop))
Reach-cancel_at wanting i s r stop e = later r (move i (cancel_waiting e))
Reach-cancel_at connecting i s r stop e = later r (move i (cancel_locked e))
Reach-cancel_at (subscribing k) i s r stop e = later r (move i (cancel_subscribing e))
Reach-cancel_at holding i s r stop e = later r (move i (cancel_holding e))
Reach-cancel_at (closing b) i s r stop e = later r (move i (cancel_closing e))
Reach-cancel_at backing_off i s r stop e = later r (move i (cancel_backing_off e))
Reach-cancel_at ended i s r stop e = r

stop-cancel_at : (p : Phase) (i : ℕ) (s : Fleet) → (cancel_at p i s).shared.stop ≡ s.shared.stop
unfolding cancel_at
stop-cancel_at checking i s = refl
stop-cancel_at wanting i s = refl
stop-cancel_at connecting i s = refl
stop-cancel_at (subscribing k) i s = refl
stop-cancel_at holding i s = refl
stop-cancel_at (closing b) i s = refl
stop-cancel_at backing_off i s = refl
stop-cancel_at ended i s = refl

update-ended :
    (task : ℕ → Task) (i j : ℕ) (t : Task)
    → t.phase ≡ ended
    → (update task i t j).phase ≡ (if i == j then ended else (task j).phase)
update-ended task i j t e = elim (Bool-cases (i == j)) [ inl q ↦ rw q e | inr q ↦ rw q refl ]

phase-cancel_at :
    (p : Phase) (i j : ℕ) (s : Fleet)
    → (s.task i).phase ≡ p
    → ((cancel_at p i s).task j).phase ≡ (if i == j then ended else (s.task j).phase)
unfolding cancel_at
phase-cancel_at checking i j s e = update-ended s.task i j _ refl
phase-cancel_at wanting i j s e = update-ended s.task i j _ refl
phase-cancel_at connecting i j s e = update-ended s.task i j _ refl
phase-cancel_at (subscribing k) i j s e = update-ended s.task i j _ refl
phase-cancel_at holding i j s e = update-ended s.task i j _ refl
phase-cancel_at (closing b) i j s e = update-ended s.task i j _ refl
phase-cancel_at backing_off i j s e = update-ended s.task i j _ refl
phase-cancel_at ended i j s e = elim (Bool-cases (i == j)) [
  | inl q ↦ rw (q, ← (==_iff i j).0 q) e
  | inr q ↦ rw q refl
]

-- A task that has ended stays so.
stays_ended :
    (n j : ℕ) (s : Fleet) → (s.task j).phase ≡ ended → ((cancel_all n s).task j).phase ≡ ended
unfolding cancel_all
stays_ended zero j s e = e
stays_ended (suc n) j s e = stays_ended n j (cancel_at (s.task n).phase n s) (
    phase-cancel_at (s.task n).phase n j s refl
    ∙ elim (Bool-cases (n == j)) [ inl q ↦ rw q refl | inr q ↦ rw q e ])

all_ended : (n j : ℕ) (s : Fleet) → j < n → ((cancel_all n s).task j).phase ≡ ended
unfolding cancel_all
all_ended zero j s below = absurd (omega (arith, below))
all_ended (suc n) j s below =
    let after = cancel_at (s.task n).phase n s in
    elim (Bool-cases (n == j)) [
      | inl q ↦ stays_ended n j after (phase-cancel_at (s.task n).phase n j s refl ∙ rw q refl)
      | inr q ↦ all_ended n j after (ground (arith, below))
    ]

Reach-cancel_all :
    {notify : ℕ → ℕ} (n : ℕ) (s : Fleet)
    → Reach notify s
    → s.shared.stop ≡ true
    → Reach notify (cancel_all n s)
unfolding cancel_all
Reach-cancel_all zero s r stop = r
Reach-cancel_all (suc n) s r stop =
    let p = (s.task n).phase in
    Reach-cancel_all n (cancel_at p n s) (Reach-cancel_at p n s r stop refl)
      (stop-cancel_at p n s ∙ stop)

-- Wherever the tasks stand, the stop brings them, by steps of their own, to a state in which each
-- that was registered has ended and its device no longer counts as connected.
shut_down-ends :
    {notify : ℕ → ℕ} (n : ℕ) (s : Fleet)
    → Reach notify s
    → Reach notify (shut_down n s)
      × ((i : ℕ)
          → i < n
          → (((shut_down n s).task i).phase ≡ ended) × (((shut_down n s).task i).announced ≡ false))
unfolding shut_down
shut_down-ends n s r =
    let stopped : Fleet = record s { shared = record s.shared { stop = true } } in
    let r' = Reach-cancel_all n stopped (later r request_stop) refl in
    (
      r',
      λ i below.
          let e = all_ended n i stopped below in
          (e, (Reach-IsHonest r' i).0 ∙ unfold serves in ap serves e),
    )
