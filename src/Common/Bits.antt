-- ===== src/Common/Bits.antt =====
-- `|` of disjoint bit fields and `&` with a mask of low bits, as sums and remainders.
use Prim.Native.Nat.{
  ℕ, zero, suc, ◌+◌, ◌-◌, ◌*◌, ◌/◌, ◌%◌, ◌^◌, ◌≤◌, ◌<◌, min, max, digits, bitwise, bit_and, bit_or,
  bit_and-bitwise, bit_or-bitwise,
}
use mathlib.Core.Path.{◌≡◌, refl, ap}
use native.Mathlib.Nat.{le_refl, pow-suc, one-le-pow}
use native.Mathlib.Omega.{arith}

-- `bitwise` goes down the binary digits of its first number; any fuel from that number on will do.
module _ (rest : ℕ → ℕ) (op : ℕ → ℕ → ℕ) where
  digits-enough : (f g x y : ℕ) → x ≤ f → x ≤ g → digits rest op f x y ≡ digits rest op g x y
  digits-enough zero zero x y hf hg = refl
  digits-enough zero (suc g) zero y hf hg = refl
  digits-enough (suc f) zero zero y hf hg = refl
  digits-enough (suc f) (suc g) zero y hf hg = refl
  digits-enough (suc f) (suc g) (suc x) y hf hg =
      rw (digits-enough f g (suc x / 2) (y / 2) (omega arith) (omega arith))
  digits-enough zero g (suc x) y hf hg = absurd (omega arith)
  digits-enough f zero (suc x) y hf hg = absurd (omega arith)

  pub lowest_digit :
      (x y : ℕ)
      → bitwise rest op (suc x) y ≡ bitwise rest op (suc x / 2) (y / 2) * 2 + op (suc x % 2) (y % 2)
  lowest_digit x y =
      omega (arith, digits-enough x (suc x / 2) (suc x / 2) (y / 2) (omega arith) (le_refl _))

pub or_digit : (x y : ℕ) → bit_or x y ≡ 2 * bit_or (x / 2) (y / 2) + max (x % 2) (y % 2)
or_digit zero y = simp bit_or-bitwise (omega arith)
or_digit (suc x) y = simp bit_or-bitwise (omega (arith, lowest_digit (λ r. r) max x y))

and_digit : (x y : ℕ) → bit_and x y ≡ 2 * bit_and (x / 2) (y / 2) + min (x % 2) (y % 2)
and_digit zero y = simp bit_and-bitwise (omega arith)
and_digit (suc x) y = simp bit_and-bitwise (omega (arith, lowest_digit (λ r. 0) min x y))

or_zero_below : (n x : ℕ) → x ≤ n → bit_or x 0 ≡ x
or_zero_below n zero h = refl
or_zero_below zero (suc x) h = absurd (omega arith)
or_zero_below (suc n) (suc x) h =
    omega (arith, or_digit (suc x) 0, or_zero_below n (suc x / 2) (omega arith))

and_zero_below : (n x : ℕ) → x ≤ n → bit_and x 0 ≡ 0
and_zero_below n zero h = refl
and_zero_below zero (suc x) h = absurd (omega arith)
and_zero_below (suc n) (suc x) h =
    omega (arith, and_digit (suc x) 0, and_zero_below n (suc x / 2) (omega arith))

double_shift : (w x : ℕ) → x * 2 ^ suc w ≡ 2 * (x * 2 ^ w)
double_shift w x = omega (arith, ap (λ (t : ℕ). x * t) (pow-suc 2 w))

-- `(hi << w) | lo`, where `lo` has at most `w` bits.
pub or-shift : (w hi lo : ℕ) → lo < 2 ^ w → bit_or (hi * 2 ^ w) lo ≡ hi * 2 ^ w + lo
or-shift zero hi lo small = ground (arith, or_zero_below hi hi (le_refl hi))
or-shift (suc w) hi lo small =
    ground
      (arith, or_digit (hi * 2 ^ suc w) lo, double_shift w hi, or-shift w hi (lo / 2) (omega arith))

and_low : (w hi lo : ℕ) → lo < 2 ^ w → bit_and (hi * 2 ^ w + lo) (2 ^ w - 1) ≡ lo
and_low zero hi lo small = rw (and_zero_below (hi * 1 + lo) _ (le_refl _)) (omega arith)
and_low (suc w) hi lo small = ground (
  arith,
  and_digit (hi * 2 ^ suc w + lo) (2 ^ suc w - 1),
  double_shift w hi,
  pow-suc 2 w,
  and_low w hi (lo / 2) (omega arith),
)

-- `x & (2 ^ w - 1)`.
pub and-mask : (w x : ℕ) → bit_and x (2 ^ w - 1) ≡ x % 2 ^ w
and-mask w x = ground (arith, one-le-pow w 2, and_low w (x / 2 ^ w) (x % 2 ^ w))
