-- ===== src/Common/Xor.antt =====
-- When `^` and `|` of two numbers are 0.
use Prim.Native.Nat.{
  ℕ, zero, suc, ◌+◌, ◌*◌, ◌/◌, ◌%◌, ◌≤◌, differ, bit_or, bit_or-bitwise, bit_xor, bit_xor-bitwise,
}
use mathlib.Core.Path.{◌≡◌, refl, sym}
use mathlib.Core.Logic.{◌↔◌}
use native.Mathlib.Nat.{le_refl}
use native.Mathlib.Omega.{arith}
use dumbarp.Common.Bits.{or_digit, lowest_digit}

differ-eq-zero : (a b : ℕ) → differ a b ≡ 0 → a ≡ b
differ-eq-zero zero b e = omega (arith, e)
differ-eq-zero (suc a) zero e = absurd (omega arith)
differ-eq-zero (suc a) (suc b) e = omega (arith, differ-eq-zero a b e)

differ_self : (a : ℕ) → differ a a ≡ 0
differ_self zero = refl
differ_self (suc a) = differ_self a

xor_digit : (x y : ℕ) → bit_xor x y ≡ 2 * bit_xor (x / 2) (y / 2) + differ (x % 2) (y % 2)
xor_digit zero y = simp bit_xor-bitwise (omega arith)
xor_digit (suc x) y = simp bit_xor-bitwise (omega (arith, lowest_digit (λ r. r) differ x y))

xor_zero_below : (n x y : ℕ) → x ≤ n → bit_xor x y ≡ 0 → x ≡ y
xor_zero_below n zero y h e = sym (simp bit_xor-bitwise at e)
xor_zero_below zero (suc x) y h e = absurd (omega arith)
xor_zero_below (suc n) (suc x) y h e =
    let high =
      xor_zero_below n (suc x / 2) (y / 2) (omega arith) (omega (arith, xor_digit (suc x) y, e)) in
    let low = differ-eq-zero (suc x % 2) (y % 2) (omega (arith, xor_digit (suc x) y, e)) in
    omega (arith, high, low)

xor_self_below : (n x : ℕ) → x ≤ n → bit_xor x x ≡ 0
xor_self_below n zero h = refl
xor_self_below zero (suc x) h = absurd (omega arith)
xor_self_below (suc n) (suc x) h = omega (
  arith,
  xor_digit (suc x) (suc x),
  differ_self (suc x % 2),
  xor_self_below n (suc x / 2) (omega arith),
)

pub xor-eq-zero : (x y : ℕ) → (bit_xor x y ≡ 0) ↔ (x ≡ y)
xor-eq-zero x y = (xor_zero_below x x y (le_refl x), λ e. rw e (xor_self_below y y (le_refl y)))

or_zero_of : (n x y : ℕ) → x ≤ n → bit_or x y ≡ 0 → (x ≡ 0) × (y ≡ 0)
or_zero_of n zero y h e = (refl, simp bit_or-bitwise at e)
or_zero_of zero (suc x) y h e = absurd (omega arith)
or_zero_of (suc n) (suc x) y h e =
    let (high, high') =
      or_zero_of n (suc x / 2) (y / 2) (omega arith) (omega (arith, or_digit (suc x) y, e)) in
    ground (arith, or_digit (suc x) y, e, high, high')

pub or-eq-zero : (x y : ℕ) → (bit_or x y ≡ 0) ↔ ((x ≡ 0) × (y ≡ 0))
or-eq-zero x y = (or_zero_of x x y (le_refl x), λ (ex, ey). rw (ex, ey) refl)
