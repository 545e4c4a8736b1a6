-- ===== src/Base/Double.antt =====
-- Numbers of type double as their 64 bits, and the comparisons of IEEE 754: the bits of numbers of
-- one sign are in order, a zero of either sign is zero, and a NaN compares false with everything.
use mini_redis.Base.Int.{ℤ, pos, sub_ℕ, ltb_ℤ, eqb_ℤ}
use mini_redis.Base.{
  ℕ, ◌-◌, ◌%◌, ◌^◌, ◌≡◌, Bool, true, false, ◌&&◌, ◌||◌, not, arith, ltb, if◌then◌else◌,
}

-- The magnitude of an infinity; those above it are NaN.
abbrev pub infinity : ℕ
infinity = 0x7FF0000000000000

unfoldable pub is_nan : ℕ → Bool
is_nan a = ltb infinity (a % 2 ^ 63)

-- The sign and the magnitude as one integer.
unfoldable pub dbl_key : ℕ → ℤ
dbl_key a = if ltb a (2 ^ 63) then pos a else sub_ℕ 0 (a - 2 ^ 63)

unfoldable pub dbl_lt : ℕ → ℕ → Bool
dbl_lt a b = not (is_nan a || is_nan b) && ltb_ℤ (dbl_key a) (dbl_key b)

unfoldable pub dbl_eq : ℕ → ℕ → Bool
dbl_eq a b = not (is_nan a || is_nan b) && eqb_ℤ (dbl_key a) (dbl_key b)

module _ (a b c : ℕ) where
  pub dbl_lt_trans : dbl_lt a b ≡ true → dbl_lt b c ≡ true → dbl_lt a c ≡ true
  unfolding dbl_lt
  dbl_lt_trans h k = ground arith

  pub dbl_eq_trans : dbl_eq a b ≡ true → dbl_eq b c ≡ true → dbl_eq a c ≡ true
  unfolding dbl_eq
  dbl_eq_trans h k = ground arith

  pub dbl_lt-eq : dbl_lt a b ≡ true → dbl_eq b c ≡ true → dbl_lt a c ≡ true
  unfolding dbl_lt dbl_eq
  dbl_lt-eq h k = ground arith

  pub dbl_eq-lt : dbl_eq a b ≡ true → dbl_lt b c ≡ true → dbl_lt a c ≡ true
  unfolding dbl_lt dbl_eq
  dbl_eq-lt h k = ground arith

pub dbl_lt_irrefl : (a : ℕ) → dbl_lt a a ≡ false
unfolding dbl_lt
dbl_lt_irrefl a = ground arith

pub dbl_eq_sym : (a b : ℕ) → dbl_eq a b ≡ dbl_eq b a
unfolding dbl_eq
dbl_eq_sym a b = ground arith

pub dbl_lt_total :
    (a b : ℕ)
    → is_nan a ≡ false
    → is_nan b ≡ false
    → dbl_eq a b ≡ false
    → dbl_lt a b ≡ false
    → dbl_lt b a ≡ true
unfolding dbl_lt dbl_eq
dbl_lt_total a b h k e f = ground arith

pub dbl_lt-ne : (a b : ℕ) → dbl_lt a b ≡ true → dbl_eq a b ≡ false
unfolding dbl_lt dbl_eq
dbl_lt-ne a b h = ground arith

pub dbl_eq_refl : (a : ℕ) → is_nan a ≡ false → dbl_eq a a ≡ true
unfolding dbl_eq
dbl_eq_refl a n = ground arith
