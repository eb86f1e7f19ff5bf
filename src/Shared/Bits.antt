-- ===== src/Shared/Bits.antt =====
-- `^` on words at variables: one binary digit at a time, a bound, and cancellation.
use Prim.Native.Nat.{
  ℕ, zero, suc, ◌+◌, ◌*◌, ◌/◌, ◌%◌, ◌≤◌, ◌<◌, ◌^◌, bit_xor, digits, differ, bit_xor-bitwise,
}
use mathlib.Core.Path.{◌≡◌, refl}
use native.Mathlib.Nat.{pow-suc}
use native.Mathlib.Omega.{arith}

abbrev xor_digits : ℕ → ℕ → ℕ → ℕ
xor_digits n a b = digits (λ b. b) differ n a b

xor_digits_fuel : (n m a b : ℕ) → a ≤ n → a ≤ m → xor_digits n a b ≡ xor_digits m a b
xor_digits_fuel zero zero a b p q = refl
xor_digits_fuel zero (suc m) zero b p q = refl
xor_digits_fuel zero (suc m) (suc a) b p q = absurd (omega arith)
xor_digits_fuel (suc n) zero zero b p q = refl
xor_digits_fuel (suc n) zero (suc a) b p q = absurd (omega arith)
xor_digits_fuel (suc n) (suc m) zero b p q = refl
xor_digits_fuel (suc n) (suc m) (suc a) b p q =
    omega (arith, xor_digits_fuel n m (suc a / 2) (b / 2) (omega arith) (omega arith))

zero-bit_xor : (b : ℕ) → bit_xor 0 b ≡ b
zero-bit_xor b = bit_xor-bitwise 0 b

bit_xor_step : (a b : ℕ) → bit_xor a b ≡ bit_xor (a / 2) (b / 2) * 2 + differ (a % 2) (b % 2)
bit_xor_step zero b = omega (arith, zero-bit_xor b, zero-bit_xor (b / 2))
bit_xor_step (suc a) b = omega (
  arith,
  bit_xor-bitwise (suc a) b,
  bit_xor-bitwise (suc a / 2) (b / 2),
  xor_digits_fuel a (suc a / 2) (suc a / 2) (b / 2) (omega arith) (omega arith),
)

differ_bit : (a b : ℕ) → a < 2 → b < 2 → differ a b ≡ (a + b) % 2
differ_bit zero b p q = omega arith
differ_bit (suc zero) zero p q = omega arith
differ_bit (suc zero) (suc b) p q = omega arith
differ_bit (suc (suc a)) b p q = absurd (omega arith)

-- The lowest digit, in the form that `omega` reads.
xor_low : (a b : ℕ) → bit_xor a b ≡ bit_xor (a / 2) (b / 2) * 2 + (a % 2 + b % 2) % 2
xor_low a b =
    omega (arith, bit_xor_step a b, differ_bit (a % 2) (b % 2) (omega arith) (omega arith))

xor_cancel_fuel : (n a x y : ℕ) → a + x + y ≤ n → bit_xor a x ≡ bit_xor a y → x ≡ y
xor_cancel_fuel zero a x y h e = omega arith
xor_cancel_fuel (suc n) a x y h e =
    let lx = xor_low a x in
    let ly = xor_low a y in
    let halves = xor_cancel_fuel n (a / 2) (x / 2) (y / 2) (omega arith) (omega arith) in
    omega arith

-- Mixing a word in by `^` loses nothing of it.
pub bit_xor_cancel : (a x y : ℕ) → bit_xor a x ≡ bit_xor a y → x ≡ y
bit_xor_cancel a x y e = xor_cancel_fuel (a + x + y) a x y (omega arith) e

pub bit_xor_bound : (k a b : ℕ) → a < 2 ^ k → b < 2 ^ k → bit_xor a b < 2 ^ k
bit_xor_bound zero a b p q = let e : a ≡ 0 = omega arith in rw e (omega (arith, zero-bit_xor b))
bit_xor_bound (suc k) a b p q =
    let e = pow-suc 2 k in
    let halves = bit_xor_bound k (a / 2) (b / 2) (omega arith) (omega arith) in
    omega (arith, xor_low a b)

xor_twice_fuel : (n a k : ℕ) → a + k ≤ n → bit_xor (bit_xor a k) k ≡ a
xor_twice_fuel zero a k h =
    let ea : a ≡ 0 = omega arith in let ek : k ≡ 0 = omega arith in rw (ea, ek) refl
xor_twice_fuel (suc n) zero zero h = refl
xor_twice_fuel (suc n) a k h =
    let low = xor_low a k in
    let half : bit_xor a k / 2 ≡ bit_xor (a / 2) (k / 2) = omega arith in
    let again = xor_low (bit_xor a k) k in
    let back : bit_xor (bit_xor a k / 2) (k / 2) ≡ a / 2 =
      rw half (xor_twice_fuel n (a / 2) (k / 2) (omega arith)) in
    omega arith

-- Mixing the same word in twice gives the first word back.
pub bit_xor_twice : (a k : ℕ) → bit_xor (bit_xor a k) k ≡ a
bit_xor_twice a k = xor_twice_fuel (a + k) a k (omega arith)
