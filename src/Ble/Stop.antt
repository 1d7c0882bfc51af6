-- ===== src/Ble/Stop.antt =====
-- ble.py: the end of the tasks behind a request to stop.
use solar_monitor.Prelude.{
  ℕ, suc, ◌+◌, ◌≤◌, ◌<◌, ◌≡◌, ◌≢◌, refl, ◌∙◌, Bool, true, false, ◌==◌, arith, ==_iff,
}
use solar_monitor.Ble.Task.{
  Phase, checking, wanting, connecting, subscribing, holding, closing, backing_off, ended, Shared,
  Task, Move, quit, no_client, begin, acquire, connect, connect_fails, subscribe, subscribe_fails,
  hold, hold_ends, stop_after, retry, back_off, wake, cancel_locked, cancel_subscribing,
  cancel_waiting, cancel_holding, cancel_closing, cancel_backing_off,
}
use solar_monitor.Ble.Fleet.{Fleet, update}

-- The steps that a task has left at most, once a stop is requested.
unfoldable pub steps_left : ℕ → Phase → ℕ
steps_left notify ended = 0
steps_left notify checking = 1
steps_left notify backing_off = 2
steps_left notify (closing connected) = 1
steps_left notify holding = 2
steps_left notify (subscribing k) = k + 3
steps_left notify connecting = notify + 4
steps_left notify wanting = notify + 5

absurd_stop : {b : Bool} → b ≡ true → b ≡ false → ⊥
absurd_stop p q = ground arith

Move-stop :
    {notify me : ℕ} {m m' : Shared} {t t' : Task} → Move notify me m t m' t' → m'.stop ≡ m.stop
Move-stop (quit p s) = refl
Move-stop (no_client p s) = refl
Move-stop (begin p s) = refl
Move-stop (acquire p s) = refl
Move-stop (connect p) = refl
Move-stop (connect_fails p) = refl
Move-stop (subscribe p) = refl
Move-stop (subscribe_fails p) = refl
Move-stop (hold p) = refl
Move-stop (hold_ends p) = refl
Move-stop (stop_after p s) = refl
Move-stop (retry p s) = refl
Move-stop (back_off p s) = refl
Move-stop (wake p) = refl
Move-stop (cancel_locked p) = refl
Move-stop (cancel_subscribing p) = refl
Move-stop (cancel_waiting p) = refl
Move-stop (cancel_holding p) = refl
Move-stop (cancel_closing p) = refl
Move-stop (cancel_backing_off p) = refl

Move-steps_left :
    {notify me : ℕ} {m m' : Shared} {t t' : Task}
    → Move notify me m t m' t'
    → m.stop ≡ true
    → steps_left notify t'.phase < steps_left notify t.phase
unfolding steps_left
Move-steps_left {notify = notify} (quit p s) h = rw p (omega arith)
Move-steps_left (no_client p s) h = absurd (absurd_stop h s)
Move-steps_left (begin p s) h = absurd (absurd_stop h s)
Move-steps_left {notify = notify} (acquire p s) h = rw p (omega arith)
Move-steps_left {notify = notify} (connect p) h = rw p (omega arith)
Move-steps_left {notify = notify} (connect_fails p) h = rw p (omega arith)
Move-steps_left {notify = notify} (subscribe p) h = rw p (omega arith)
Move-steps_left {notify = notify} (subscribe_fails p) h = rw p (omega arith)
Move-steps_left {notify = notify} (hold p) h = rw p (omega arith)
Move-steps_left {notify = notify} (hold_ends p) h = rw p (omega arith)
Move-steps_left {notify = notify} (stop_after p s) h = rw p (omega arith)
Move-steps_left (retry p s) h = absurd (absurd_stop h s)
Move-steps_left (back_off p s) h = absurd (absurd_stop h s)
Move-steps_left {notify = notify} (wake p) h = rw p (omega arith)
Move-steps_left {notify = notify} (cancel_locked p) h = rw p (omega arith)
Move-steps_left {notify = notify} (cancel_subscribing p) h = rw p (omega arith)
Move-steps_left {notify = notify} (cancel_waiting p) h = rw p (omega arith)
Move-steps_left {notify = notify} (cancel_holding p) h = rw p (omega arith)
Move-steps_left {notify = notify} (cancel_closing p) h = rw p (omega arith)
Move-steps_left {notify = notify} (cancel_backing_off p) h = rw p (omega arith)

-- No step behind a stop ends a round with another one to come.
Move-rounds :
    {notify me : ℕ} {m m' : Shared} {t t' : Task}
    → Move notify me m t m' t'
    → m.stop ≡ true
    → t'.rounds ≡ t.rounds
Move-rounds (quit p s) h = refl
Move-rounds (no_client p s) h = refl
Move-rounds (begin p s) h = refl
Move-rounds (acquire p s) h = refl
Move-rounds (connect p) h = refl
Move-rounds (connect_fails p) h = refl
Move-rounds (subscribe p) h = refl
Move-rounds (subscribe_fails p) h = refl
Move-rounds (hold p) h = refl
Move-rounds (hold_ends p) h = refl
Move-rounds (stop_after p s) h = refl
Move-rounds (retry p s) h = absurd (absurd_stop h s)
Move-rounds (back_off p s) h = absurd (absurd_stop h s)
Move-rounds (wake p) h = refl
Move-rounds (cancel_locked p) h = refl
Move-rounds (cancel_subscribing p) h = refl
Move-rounds (cancel_waiting p) h = refl
Move-rounds (cancel_holding p) h = refl
Move-rounds (cancel_closing p) h = refl
Move-rounds (cancel_backing_off p) h = refl

-- A run of all the tasks, with the number of steps that the task i takes in it.
pub data Run (notify : ℕ → ℕ) (i : ℕ) (s : Fleet) : ℕ → Fleet → Type 0 where
  here : Run notify i s 0 s
  own :
      {n : ℕ} {t : Fleet} {m : Shared} {u : Task}
      → Run notify i s n t
      → Move (notify i) i t.shared (t.task i) m u
      → Run notify i s (suc n) (record { shared = m; task = update t.task i u })
  other :
      {n : ℕ} {t : Fleet} {m : Shared} {u : Task}
      → Run notify i s n t
      → (j : ℕ) → i ≢ j
      → Move (notify j) j t.shared (t.task j) m u
      → Run notify i s n (record { shared = m; task = update t.task j u })

Run-steps :
    {notify : ℕ → ℕ} {i : ℕ} {s : Fleet} {n : ℕ} {t : Fleet}
    → Run notify i s n t
    → s.shared.stop ≡ true
    → (t.shared.stop ≡ true)
      × (n + steps_left (notify i) (t.task i).phase ≤ steps_left (notify i) (s.task i).phase)
Run-steps here h = (h, omega arith)
Run-steps {notify} {i} (own {n} r mv) h =
    let (stopped, le) = Run-steps r h in
    let less = Move-steps_left mv stopped in
    let self : (i == i) ≡ true = (==_iff i i).1 refl in
    (Move-stop mv ∙ stopped, rw self (omega (arith, le, less)))
Run-steps {notify} {i} (other {n} r j ne mv) h =
    let (stopped, le) = Run-steps r h in
    let apart : (j == i) ≡ false = ground arith in (Move-stop mv ∙ stopped, rw apart le)

Run-rounds :
    {notify : ℕ → ℕ} {i : ℕ} {s : Fleet} {n : ℕ} {t : Fleet}
    → Run notify i s n t
    → s.shared.stop ≡ true
    → (t.task i).rounds ≡ (s.task i).rounds
Run-rounds here h = refl
Run-rounds {i = i} (own r mv) h =
    let self : (i == i) ≡ true = (==_iff i i).1 refl in
    rw self (Move-rounds mv (Run-steps r h).0 ∙ Run-rounds r h)
Run-rounds {i = i} (other r j ne mv) h =
    let apart : (j == i) ≡ false = ground arith in rw apart (Run-rounds r h)

-- Once a stop is requested, a task takes no more steps than it has left, whatever the others do and
-- whatever the radio does, and it goes through its loop no more: a connection that was to come when
-- the stop was requested may still be made, and the task ends with it. The steps left are 1 at the
-- head of the loop or in a disconnect, 2 in a pause or in _hold, and as many more as there are steps
-- before these in a round.
pub Run-ends :
    {notify : ℕ → ℕ} {i n : ℕ} {s t : Fleet}
    → Run notify i s n t
    → s.shared.stop ≡ true
    → (n ≤ steps_left (notify i) (s.task i).phase) × ((t.task i).rounds ≡ (s.task i).rounds)
Run-ends {notify} {i} {t = t} r h = (omega (arith, (Run-steps r h).1), Run-rounds r h)
