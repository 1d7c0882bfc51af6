-- ===== src/Prelude/Bits.antt =====
-- Exclusive or on the native numbers, by the lowest digit.
use Prim.Native.Nat.{
  ℕ, zero, suc, ◌+◌, ◌*◌, ◌/◌, ◌%◌, ◌≤◌, ◌<◌, bit_xor, digits, differ, bit_xor-bitwise,
}
use mathlib.Core.Path.{◌≡◌, refl, ◌∙◌}
use native.Mathlib.Omega.{arith}

abbrev xor_digits : ℕ → ℕ → ℕ → ℕ
xor_digits n a b = digits (λ b. b) differ n a b

xor_digits_fuel : (n m a b : ℕ) → a ≤ n → a ≤ m → xor_digits n a b ≡ xor_digits m a b
xor_digits_fuel zero zero a b p q = refl
xor_digits_fuel zero (suc m) zero b p q = refl
xor_digits_fuel zero (suc m) (suc a) b p q = absurd (omega arith)
xor_digits_fuel (suc n) zero zero b p q = refl
xor_digits_fuel (suc n) zero (suc a) b p q = absurd (omega arith)
xor_digits_fuel (suc n) (suc m) zero b p q = refl
xor_digits_fuel (suc n) (suc m) (suc a) b p q =
    omega (arith, xor_digits_fuel n m (suc a / 2) (b / 2) (omega arith) (omega arith))

pub zero-bit_xor : (b : ℕ) → bit_xor 0 b ≡ b
zero-bit_xor b = bit_xor-bitwise 0 b

-- whether two digits differ
abbrev pub digit_xor : ℕ → ℕ → ℕ
digit_xor a b = (a + b) % 2

differ-lem : (a b : ℕ) → a < 2 → b < 2 → differ a b ≡ digit_xor a b
differ-lem zero zero p q = refl
differ-lem zero (suc zero) p q = refl
differ-lem (suc zero) zero p q = refl
differ-lem (suc zero) (suc zero) p q = refl
differ-lem (suc (suc a)) b p q = absurd (omega arith)
differ-lem zero (suc (suc b)) p q = absurd (omega arith)
differ-lem (suc zero) (suc (suc b)) p q = absurd (omega arith)

pub bit_xor_step : (a b : ℕ) → bit_xor a b ≡ bit_xor (a / 2) (b / 2) * 2 + digit_xor (a % 2) (b % 2)
bit_xor_step zero b = omega (arith, zero-bit_xor b, zero-bit_xor (b / 2))
bit_xor_step (suc a) b = omega (
  arith,
  differ-lem (suc a % 2) (b % 2) (omega arith) (omega arith),
  bit_xor-bitwise (suc a) b,
  bit_xor-bitwise (suc a / 2) (b / 2),
  xor_digits_fuel a (suc a / 2) (suc a / 2) (b / 2) (omega arith) (omega arith),
)

bit_xor_self_fuel : (n a : ℕ) → a ≤ n → bit_xor a a ≡ 0
bit_xor_self_fuel n zero h = zero-bit_xor 0
bit_xor_self_fuel zero (suc a) h = absurd (omega arith)
bit_xor_self_fuel (suc n) (suc a) h =
    omega (arith, bit_xor_step (suc a) (suc a), bit_xor_self_fuel n (suc a / 2) (omega arith))

pub bit_xor_self : (a : ℕ) → bit_xor a a ≡ 0
bit_xor_self a = bit_xor_self_fuel a a (omega arith)

-- a number with k zero digits behind it
abbrev pub shifted : ℕ → ℕ → ℕ
shifted zero a = a
shifted (suc k) a = 2 * shifted k a

pub bit_xor-lt : (k a b : ℕ) → a < shifted k 1 → b < shifted k 1 → bit_xor a b < shifted k 1
bit_xor-lt zero a b p q =
    let ea : a ≡ 0 = omega arith in let eb : b ≡ 0 = omega arith in rw (ea, eb) (omega arith)
bit_xor-lt (suc k) a b p q =
    omega (arith, bit_xor_step a b, bit_xor-lt k (a / 2) (b / 2) (omega arith) (omega arith))

bit_xor-cancel_fuel : (n a b c : ℕ) → a ≤ n → b ≤ n → bit_xor a c ≡ bit_xor b c → a ≡ b
bit_xor-cancel_fuel zero a b c p q h = omega arith
bit_xor-cancel_fuel (suc n) a b c p q h = omega (
  arith,
  bit_xor_step a c,
  bit_xor_step b c,
  bit_xor-cancel_fuel n (a / 2) (b / 2) (c / 2) (omega arith) (omega arith)
      (omega (arith, bit_xor_step a c, bit_xor_step b c)),
)

-- Two numbers that agree under the same mask are the same.
pub bit_xor-cancel : (a b c : ℕ) → bit_xor a c ≡ bit_xor b c → a ≡ b
bit_xor-cancel a b c h = bit_xor-cancel_fuel (a + b) a b c (omega arith) (omega arith) h

bit_xor_comm_fuel : (n a b : ℕ) → a ≤ n → b ≤ n → bit_xor a b ≡ bit_xor b a
bit_xor_comm_fuel zero a b p q =
    let ea : a ≡ 0 = omega arith in let eb : b ≡ 0 = omega arith in rw (ea, eb)
bit_xor_comm_fuel (suc n) a b p q = omega (
  arith,
  bit_xor_step a b,
  bit_xor_step b a,
  bit_xor_comm_fuel n (a / 2) (b / 2) (omega arith) (omega arith),
)

pub bit_xor_comm : (a b : ℕ) → bit_xor a b ≡ bit_xor b a
bit_xor_comm a b = bit_xor_comm_fuel (a + b) a b (omega arith) (omega arith)

-- A mask of the low digits clears them.
pub bit_xor-low : (k h l : ℕ) → l < shifted k 1 → bit_xor (shifted k h + l) l ≡ shifted k h
bit_xor-low zero h l p =
    let e : l ≡ 0 = omega arith in
    rw (e, bit_xor_comm (h + 0) 0, zero-bit_xor (h + 0)) (omega arith)
bit_xor-low (suc k) h l p =
    let half : (2 * shifted k h + l) / 2 ≡ shifted k h + l / 2 = omega arith in
    let low : (2 * shifted k h + l) % 2 ≡ l % 2 = omega arith in
    let ih = bit_xor-low k h (l / 2) (omega arith) in
    bit_xor_step (2 * shifted k h + l) l ∙ rw (half, low, ih) (omega arith)

-- A digit that only one of the two numbers reaches stays set.
pub bit_xor-ge :
    (k a b : ℕ)
    → a < shifted k 1
    → shifted k 1 ≤ b
    → b < 2 * shifted k 1
    → shifted k 1 ≤ bit_xor a b
bit_xor-ge zero a b p q r =
    let ea : a ≡ 0 = omega arith in let eb : b ≡ 1 = omega arith in rw (ea, eb) (omega arith)
bit_xor-ge (suc k) a b p q r = omega (
  arith,
  bit_xor_step a b,
  bit_xor-ge k (a / 2) (b / 2) (omega arith) (omega arith) (omega arith),
)
