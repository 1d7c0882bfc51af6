-- ===== src/Numbers.antt =====
-- Python's numbers as the program uses them: whole numbers and floats in one type `N`. Floats are
-- not modelled; the operations that the program applies are the fields of an interface, and what a
-- theorem needs of them it takes as a hypothesis.
use solar_monitor.Prelude.{ℕ, Bool}
use solar_monitor.Prelude.Int.{ℤ, ltb_ℤ, leb_ℤ, eqb_ℤ, ◌+ℤ◌, ◌-ℤ◌, ◌*ℤ◌, abs_ℤ}

-- `a < b` is `lt a b` and `a > b` is `lt b a`; `a <= b` is `le a b`, which is no negation of `<`
-- where a value is not a number. `to_float` is `float()`.
pub record Num {ℓ} (N : Type ℓ) : Type ℓ where
  pub add : N → N → N
  pub mul : N → N → N
  pub lt : N → N → Bool
  pub le : N → N → Bool
  pub eq : N → N → Bool
  pub sub : N → N → N
  pub absolute : N → N
  pub to_float : N → N
  pub of_int : ℤ → N

-- The operations that leave the whole numbers: `/`, `round(a, digits)`, `int()`, and the literal
-- whose digits are `m` with `digits` of them behind the point.
pub record Real {ℓ} (N : Type ℓ) : Type ℓ where
  pub num : Num N
  pub div : N → N → N
  pub round_to : N → ℕ → N
  pub truncate : N → ℤ
  pub decimal : ℤ → ℕ → N

instance abbrev pub real_num {ℓ} : {N : Type ℓ} ⦃r : Real N⦄ → Num N
real_num ⦃r⦄ = r.num

-- The whole numbers below 2^53, on which float() is exact.
instance abbrev pub int_num : Num ℤ
int_num = record {
  add = ◌+ℤ◌;
  mul = ◌*ℤ◌;
  lt = ltb_ℤ;
  le = leb_ℤ;
  eq = eqb_ℤ;
  sub = ◌-ℤ◌;
  absolute = abs_ℤ;
  to_float = λ a. a;
  of_int = λ a. a;
}
