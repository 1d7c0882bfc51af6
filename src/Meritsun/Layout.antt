-- ===== src/Meritsun/Layout.antt =====
-- plugins/Meritsun: the bytes of a message, by the fields that they stand for.
use solar_monitor.Prelude.{ℕ, ◌+◌, List, [], ◌∷◌, ◌++◌}
use solar_monitor.Prelude.Bytes.{All, IsByte, le_value}

-- The bytes of a payload: voltage, current, capacity, cycles, charge, temperature and status.
pub record Layout : Type 0 where
  pub v0 : ℕ
  pub v1 : ℕ
  pub v2 : ℕ
  pub v3 : ℕ
  pub c0 : ℕ
  pub c1 : ℕ
  pub c2 : ℕ
  pub c3 : ℕ
  pub q0 : ℕ
  pub q1 : ℕ
  pub q2 : ℕ
  pub q3 : ℕ
  pub y0 : ℕ
  pub y1 : ℕ
  pub s0 : ℕ
  pub s1 : ℕ
  pub t0 : ℕ
  pub t1 : ℕ
  pub u0 : ℕ
  pub rest : List ℕ

module _ (l : Layout) where
  open l use {v0, v1, v2, v3, c0, c1, c2, c3, q0, q1, q2, q3, y0, y1, s0, s1, t0, t1, u0, rest}

  abbrev pub voltage : List ℕ
  voltage = v0 ∷ v1 ∷ v2 ∷ v3 ∷ []

  abbrev pub current : List ℕ
  current = c0 ∷ c1 ∷ c2 ∷ c3 ∷ []

  abbrev pub capacity : List ℕ
  capacity = q0 ∷ q1 ∷ q2 ∷ q3 ∷ []

  abbrev pub cycles : List ℕ
  cycles = y0 ∷ y1 ∷ []

  abbrev pub charge : List ℕ
  charge = s0 ∷ s1 ∷ []

  abbrev pub kelvin : List ℕ
  kelvin = t0 ∷ t1 ∷ []

  abbrev pub status_byte : List ℕ
  status_byte = u0 ∷ []

  abbrev pub payload : List ℕ
  payload =
      voltage
      ++ (current ++ (capacity ++ (cycles ++ (charge ++ (kelvin ++ (status_byte ++ rest))))))

-- every byte of the fields is a byte
abbrev pub AllBytes : Layout → Type 0
AllBytes l =
    All IsByte (voltage l)
    × All IsByte (current l)
    × All IsByte (capacity l)
    × All IsByte (cycles l)
    × All IsByte (charge l)
    × All IsByte (kelvin l)
    × All IsByte (status_byte l)

-- the readings other than the voltage, added up
abbrev pub others : Layout → ℕ
others l =
    le_value (current l)
    + le_value (capacity l)
    + le_value (cycles l)
    + le_value (charge l)
    + le_value (kelvin l)
    + le_value (status_byte l)
