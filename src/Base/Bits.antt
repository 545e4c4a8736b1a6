-- ===== src/Base/Bits.antt =====
-- Masks: what the hash table needs to know of `&`.
use Prim.Native.Nat.{
  ℕ, zero, suc, ◌+◌, ◌-◌, ◌*◌, ◌/◌, ◌%◌, ◌^◌, ◌≤◌, min, bit_and, digits, bit_and-bitwise,
}
use mathlib.Core.Path.{◌≡◌, refl}
use native.Mathlib.Nat.{pow-suc, one-le-pow}
use native.Mathlib.Omega.{arith}

-- The digit recursion that the native operation stands for, on any fuel that is enough.
abbrev and_bits : ℕ → ℕ → ℕ → ℕ
and_bits fuel a m = digits (λ _. zero) min fuel a m

and_bits-enough : (f g a m : ℕ) → a ≤ f → a ≤ g → and_bits f a m ≡ and_bits g a m
and_bits-enough zero zero a m p q = refl
and_bits-enough zero (suc g) zero m p q = refl
and_bits-enough (suc f) zero zero m p q = refl
and_bits-enough (suc f) (suc g) zero m p q = refl
and_bits-enough zero g (suc a) m p q = absurd (omega arith)
and_bits-enough (suc f) zero (suc a) m p q = absurd (omega arith)
and_bits-enough (suc f) (suc g) (suc a) m p q =
    omega (arith, and_bits-enough f g (suc a / 2) (m / 2) (omega arith) (omega arith))

zero-and : (m : ℕ) → bit_and 0 m ≡ 0
zero-and m = bit_and-bitwise 0 m

low_bit : (a m : ℕ) → bit_and a m ≡ 2 * bit_and (a / 2) (m / 2) + min (a % 2) (m % 2)
low_bit zero m = omega (arith, zero-and m, zero-and (m / 2))
low_bit (suc a) m = omega (
  arith,
  bit_and-bitwise (suc a) m,
  bit_and-bitwise (suc a / 2) (m / 2),
  and_bits-enough a (suc a / 2) (suc a / 2) (m / 2) (omega arith) (omega arith),
)

and-le_below : (f a m : ℕ) → a ≤ f → bit_and a m ≤ m
and-le_below f zero m h = omega (arith, zero-and m)
and-le_below zero (suc a) m h = absurd (omega arith)
and-le_below (suc f) (suc a) m h =
    omega (arith, low_bit (suc a) m, and-le_below f (suc a / 2) (m / 2) (omega arith))

-- A masked number is within the mask.
pub and-le : (a m : ℕ) → bit_and a m ≤ m
and-le a m = and-le_below a a m (omega arith)

-- A power of two has no bit in common with the number before it.
pub and-pow_pred : (k : ℕ) → bit_and (2 ^ k - 1) (2 ^ k) ≡ 0
and-pow_pred zero = zero-and 1
and-pow_pred (suc k) =
    let pos = one-le-pow k 2 (omega arith) in
    let double : 2 ^ suc k ≡ 2 ^ k * 2 = pow-suc 2 k in
    let half : (2 ^ k * 2 - 1) / 2 ≡ 2 ^ k - 1 = omega arith in
    let whole : 2 ^ k * 2 / 2 ≡ 2 ^ k = omega arith in
    rw (double, low_bit, half, whole, and-pow_pred k) (omega arith)
