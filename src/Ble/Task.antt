-- ===== src/Ble/Task.antt =====
-- ble.py: maintain_device, an await at a time. What the radio does at each await is left open: it
-- goes well, it raises, or the task is cancelled there. Where on_connected, or the code between two
-- awaits of _hold, raises, the step is the same as where the await before it does.
use solar_monitor.Prelude.{
  ℕ, zero, suc, ◌+◌, ◌≤◌, ◌≡◌, Bool, true, false, Option, none, some, List, [], ◌∷◌,
}

-- Where a task stands.
pub data Phase : Type 0 where
  checking : Phase  -- head of the loop
  wanting : Phase  -- before the lock
  connecting : Phase  -- in client.connect(), with the lock
  subscribing : ℕ → Phase  -- so many subscriptions to go, with the lock
  holding : Phase  -- in _hold
  closing : Bool → Phase  -- in client.disconnect(), and whether the connection was good
  backing_off : Phase
  ended : Phase

-- What the tasks share: the owner of `connect_lock`, and `stop_event`.
pub record Shared : Type 0 where
  pub owner : Option ℕ
  pub stop : Bool

-- `attempt`, whether the device was told that it is connected, and the outcomes of the rounds so
-- far, the last one first, which only the theorems read.
pub record Task : Type 0 where
  pub phase : Phase
  pub attempt : ℕ
  pub announced : Bool
  pub rounds : List Bool

abbrev pub new_task : Task
new_task = record { phase = checking; attempt = 0; announced = false; rounds = [] }

-- The `async with` gives the lock back, and on_disconnected is called.
abbrev pub unlocked : Shared → Shared
unlocked m = record m { owner = none }

abbrev pub closed : Bool → Task → Task
closed connected t = record t { phase = closing connected; announced = false }

-- A cancelled task leaves by the `finally`.
abbrev pub cancelled : Task → Task
cancelled t = record t { phase = ended; announced = false }

-- One step of the task `me`, on a device with so many characteristics that notify.
pub data Move (notify me : ℕ) (m : Shared) : Task → Shared → Task → Type 0 where
  quit :
      {t : Task}
      → t.phase ≡ checking
      → m.stop ≡ true
      → Move notify me m t m (record t { phase = ended })
  no_client :
      {t : Task}
      → t.phase ≡ checking
      → m.stop ≡ false
      → Move notify me m t m (record t { phase = ended })
  begin :
      {t : Task}
      → t.phase ≡ checking
      → m.stop ≡ false
      → Move notify me m t m (record t { phase = wanting })
  acquire :
      {t : Task}
      → t.phase ≡ wanting
      → m.owner ≡ none
      → Move notify me m t (record m { owner = some me }) (record t { phase = connecting })
  connect :
      {t : Task}
      → t.phase ≡ connecting
      → Move notify me m t m (record t { phase = subscribing notify; announced = true })
  connect_fails :
      {t : Task} → t.phase ≡ connecting → Move notify me m t (unlocked m) (closed false t)
  subscribe :
      {t : Task} {k : ℕ}
      → t.phase ≡ subscribing (suc k)
      → Move notify me m t m (record t { phase = subscribing k })
  subscribe_fails :
      {t : Task} {k : ℕ}
      → t.phase ≡ subscribing (suc k)
      → Move notify me m t (unlocked m) (closed false t)
  hold :
      {t : Task}
      → t.phase ≡ subscribing zero
      → Move notify me m t (unlocked m) (record t { phase = holding })
  hold_ends : {t : Task} → t.phase ≡ holding → Move notify me m t m (closed true t)
  stop_after :
      {t : Task} {connected : Bool}
      → t.phase ≡ closing connected
      → m.stop ≡ true
      → Move notify me m t m (record t { phase = ended })
  retry :
      {t : Task}
      → t.phase ≡ closing true
      → m.stop ≡ false
      → Move notify me m t m (record t { phase = checking; attempt = 0; rounds = true ∷ t.rounds })
  back_off :
      {t : Task}
      → t.phase ≡ closing false
      → m.stop ≡ false
      → Move notify me m t m
          (record t { phase = backing_off; attempt = t.attempt + 1; rounds = false ∷ t.rounds })
  wake : {t : Task} → t.phase ≡ backing_off → Move notify me m t m (record t { phase = checking })
  cancel_locked : {t : Task} → t.phase ≡ connecting → Move notify me m t (unlocked m) (cancelled t)
  cancel_subscribing :
      {t : Task} {k : ℕ} → t.phase ≡ subscribing k → Move notify me m t (unlocked m) (cancelled t)
  cancel_waiting : {t : Task} → t.phase ≡ wanting → Move notify me m t m (cancelled t)
  cancel_holding : {t : Task} → t.phase ≡ holding → Move notify me m t m (cancelled t)
  cancel_closing :
      {t : Task} {connected : Bool}
      → t.phase ≡ closing connected
      → Move notify me m t m (cancelled t)
  cancel_backing_off : {t : Task} → t.phase ≡ backing_off → Move notify me m t m (cancelled t)

-- Does the task own the lock?
unfoldable pub locks : Phase → Bool
locks connecting = true
locks (subscribing k) = true
locks _ = false

-- Is the device served, between on_connected and on_disconnected?
unfoldable pub serves : Phase → Bool
serves (subscribing k) = true
serves holding = true
serves _ = false

-- The failed rounds since the last good one.
unfoldable pub failures : List Bool → ℕ
failures [] = 0
failures (true ∷ rounds) = 0
failures (false ∷ rounds) = failures rounds + 1

abbrev IsWaiting : Phase → ℕ → Type 0
IsWaiting backing_off attempt = 1 ≤ attempt
IsWaiting _ attempt = Unit

-- What holds of a task alone.
abbrev pub IsHonest : Task → Type 0
IsHonest t =
    (t.announced ≡ serves t.phase) × (t.attempt ≡ failures t.rounds) × IsWaiting t.phase t.attempt
