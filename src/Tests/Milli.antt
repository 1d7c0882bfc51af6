-- ===== src/Tests/Milli.antt =====
-- Numbers with three digits behind the point, to run the definitions on.
use solar_monitor.Prelude.{ℕ, ◌/◌, ◌^◌, ◌-◌}
use solar_monitor.Prelude.Int.{ℤ, pos, negsuc, ltb_ℤ, leb_ℤ, eqb_ℤ, ◌+ℤ◌, ◌-ℤ◌, ◌*ℤ◌, abs_ℤ}
use solar_monitor.Numbers.{Num, Real}

-- a count of thousandths
pub record Milli : Type 0 where
  pub raw : ℤ

abbrev floor_div : ℤ → ℕ → ℤ
floor_div (pos a) k = pos (a / k)
floor_div (negsuc a) k = negsuc (a / k)

-- the quotient of two counts, where the divisor is positive
abbrev quotient : ℤ → ℤ → ℤ
quotient a (pos k) = floor_div a k
quotient a (negsuc k) = pos 0

abbrev milli_num : Num Milli
unfolding ◌+ℤ◌ ◌-ℤ◌ ◌*ℤ◌ abs_ℤ
milli_num = record {
  add = λ a b. record { raw = a.raw +ℤ b.raw };
  mul = λ a b. record { raw = floor_div (a.raw *ℤ b.raw) 1000 };
  lt = λ a b. ltb_ℤ a.raw b.raw;
  le = λ a b. leb_ℤ a.raw b.raw;
  eq = λ a b. eqb_ℤ a.raw b.raw;
  sub = λ a b. record { raw = a.raw -ℤ b.raw };
  absolute = λ a. record { raw = abs_ℤ a.raw };
  to_float = λ a. a;
  of_int = λ k. record { raw = k *ℤ pos 1000 };
}

instance abbrev pub milli_real : Real Milli
unfolding milli_num ◌*ℤ◌
milli_real = record {
  num = milli_num;
  div = λ a b. record { raw = quotient (a.raw *ℤ pos 1000) b.raw };
  round_to = λ a digits. a;
  truncate = λ a. floor_div a.raw 1000;
  decimal = λ m digits. record { raw = m *ℤ pos (10 ^ (3 - digits)) };
}
