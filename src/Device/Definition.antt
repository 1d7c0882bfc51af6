-- ===== src/Device/Definition.antt =====
-- solardevice.py, PowerDevice.validate: one stored quantity with its limits, and the filter that a
-- new reading passes. The `rejected` entries that a definition lacks at first read as 0 and None.
use solar_monitor.Prelude.{
  ℕ, ◌+◌, Bool, false, not, ◌&&◌, Option, none, some, List, [], ◌∷◌, leb, if◌then◌else◌,
}
use solar_monitor.Prelude.Int.{pos}
use solar_monitor.Numbers.{Num}

pub record Definition {ℓ} (N : Type ℓ) : Type ℓ where
  pub val : N
  pub min : N
  pub max : N
  pub maxdiff : N
  pub rejected : ℕ
  pub rejected_val : Option N

-- PowerDevice.MAX_CONSECUTIVE_REJECTS
abbrev pub max_consecutive_rejects : ℕ
max_consecutive_rejects = 2

module _ {ℓ} {N : Type ℓ} ⦃n : Num N⦄ where
  -- abs(val - previous) <= maxdiff, for a reading that was rejected before
  unfoldable pub is_consistent : N → Definition N → Option N → Bool
  is_consistent val d none = false
  is_consistent val d (some previous) = n.le (n.absolute (n.sub val previous)) d.maxdiff

  -- the test before "a spurious reading is transient": 0 and 2731 are the values of a fresh device
  unfoldable pub is_far : N → Definition N → Bool
  is_far val d =
      not (n.eq d.val (n.of_int (pos 0)))
      && not (n.eq d.val (n.of_int (pos 2731)))
      && n.lt d.maxdiff (n.absolute (n.sub val d.val))

  unfoldable pub accept : N → Definition N → Definition N
  accept val d = record d { val = val; rejected = 0; rejected_val = none }

  -- how many consistent rejected readings `val` completes
  unfoldable pub run_length : N → Definition N → ℕ
  unfolding is_consistent
  run_length val d = if is_consistent val d d.rejected_val then d.rejected + 1 else 1

  -- The result is False for a rejected reading, and None for one that is stored.
  unfoldable pub reject_or_accept : N → Definition N → Definition N × Option Bool
  unfolding run_length accept
  reject_or_accept val d =
      let count = run_length val d in
      if leb count max_consecutive_rejects
      then (record d { rejected = count; rejected_val = some val }, some false)
      else (accept val d, none)

  unfoldable pub validate : N → Definition N → Definition N × Option Bool
  unfolding is_far reject_or_accept accept
  validate raw d =
      let val = n.to_float raw in
      if n.eq val d.val
      then (record d { rejected = 0; rejected_val = none }, some false)
      else if n.lt d.max val
      then (d, some false)
      else if n.lt val d.min
      then (d, some false)
      else if is_far val d
      then reject_or_accept val d
      else (accept val d, none)

  -- the readings of one quantity, in the order in which they arrive
  unfoldable pub validate_all : List N → Definition N → Definition N
  validate_all [] d = d
  validate_all (raw ∷ rest) d = validate_all rest (validate raw d).0
