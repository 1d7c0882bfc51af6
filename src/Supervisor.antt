-- ===== src/Supervisor.antt =====
-- supervisor.py: the bounded queue, the loop that logs, the tracker of readings and the watch.
pub mod Watch
use solar_monitor.Prelude.{
  ℕ, zero, suc, ◌+◌, ◌≡◌, refl, ap, Bool, true, false, not, ◌&&◌, ◌||◌, Option, none, some, List,
  [], ◌∷◌, ◌++◌, length, map, ltb, ◌==◌, if◌then◌else◌, String,
}
use solar_monitor.Prelude.Dict.{lookup, insert}
use solar_monitor.Numbers.{Num}

-- What the devices put on the queue: name, item and value.
pub record Item {ℓ} (V : Type ℓ) : Type ℓ where
  pub name : String
  pub item : String
  pub value : V

module _ {ℓ} {V : Type ℓ} where
  -- A queue.Queue as its items, oldest first. A maxsize of 0 is no bound.
  unfoldable pub try_put : ℕ → List V → V → List V × Bool
  try_put maxsize q item =
      if ltb 0 maxsize && not (ltb (length q) maxsize) then (q, false) else (q ++ (item ∷ []), true)

-- SolarDevice._enqueue, with the count of what was dropped.
module _ {ℓ} {V : Type ℓ} where
  unfoldable pub enqueue : ℕ → List V × ℕ → V → List V × ℕ
  unfolding try_put
  enqueue maxsize (q, dropped) item =
      let put = try_put maxsize q item in (put.0, if put.1 then dropped else dropped + 1)

  unfoldable pub enqueue_all : ℕ → List V × ℕ → List V → List V × ℕ
  enqueue_all maxsize state [] = state
  enqueue_all maxsize state (item ∷ items) = enqueue_all maxsize (enqueue maxsize state item) items

-- The loop of run_logger over what the queue gives, `none` for a second without an item. The state
-- of the logger is `S`; `log` gives the state that a call leaves, and whether it raised. `on_item`
-- goes with the state too.
module _ {ℓ κ} {V : Type ℓ} {S : Type κ} (log : Item V → S → S × Bool)
    (on_item : String → S → S × Bool) where
  unfoldable pub log_item : Item V → S → S
  log_item i s = let logged = log i s in if logged.1 then logged.0 else (on_item i.name logged.0).0

  unfoldable pub run_logger : List (Option (Item V)) → S → S
  unfolding log_item
  run_logger [] s = s
  run_logger (none ∷ got) s = run_logger got s
  run_logger (some i ∷ got) s = run_logger got (log_item i s)

module _ {ℓ} {T : Type ℓ} ⦃n : Num T⦄ where
  -- LivenessTracker: self._last, with the time as an argument.
  unfoldable pub expect : String → T → List (String × T) → List (String × T)
  expect name now last = elim (lookup name last) [ none ↦ insert name now last | some t ↦ last ]

  unfoldable pub record_reading : String → T → List (String × T) → List (String × T)
  record_reading name now last = insert name now last

  abbrev pub is_stale : T → T → T → Bool
  is_stale now timeout_s t = n.lt timeout_s (n.sub now t)

  unfoldable pub stale : T → T → List (String × T) → List String
  stale now timeout_s [] = []
  stale now timeout_s ((name, t) ∷ last) =
      let rest = stale now timeout_s last in if is_stale now timeout_s t then name ∷ rest else rest

abbrev pub any_expected {ℓ} : {T : Type ℓ} → List (String × T) → Bool
any_expected [] = false
any_expected (_ ∷ _) = true

abbrev pub expected_count {ℓ} : {T : Type ℓ} → List (String × T) → ℕ
expected_count last = length last

-- What one round of supervise sees, after its wait: whether a stop is requested, whether the
-- consumer is done, the tracker and the time. on_tick is the caller's.
pub record Observation {ℓ} (T : Type ℓ) : Type ℓ where
  pub stopped : Bool
  pub consumer_done : Bool
  pub last : List (String × T)
  pub now : T

module _ {ℓ} {T : Type ℓ} ⦃n : Num T⦄ where
  unfoldable pub all_stale : T → Observation T → Bool
  unfolding stale
  all_stale stale_timeout o =
      any_expected o.last && (length (stale o.now stale_timeout o.last) == expected_count o.last)

  -- The exit code, `none` while the watch goes on.
  unfoldable pub supervise : T → List (Observation T) → Option ℕ
  unfolding all_stale
  supervise stale_timeout [] = none
  supervise stale_timeout (o ∷ rest) =
      let later = supervise stale_timeout rest in
      if o.stopped
      then some 0
      else if o.consumer_done
      then some 1
      else if all_stale stale_timeout o
      then some 1
      else later
