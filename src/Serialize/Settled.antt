-- ===== src/Serialize/Settled.antt =====
-- Printers that stay within the bytes, whatever stands behind them.
use mathlib.Core.Option.{some-injective}
use mini_redis.Base.{
  ℕ, zero, suc, ◌+◌, ◌≤◌, ◌≡◌, refl, ap, List, [], ◌∷◌, ◌++◌, false, ltb, ltb-false, Option, none,
  some, arith, Bytes, of_le, length, length-append, length-drop, take, drop, Bool-cases, inl, inr,
}
use mini_redis.Serialize.{Line, Printed, print_fixed, print_str, print_err}

pub drop-append : (p rest : Bytes) (i : ℕ) → i ≤ length p → drop i (p ++ rest) ≡ drop i p ++ rest
drop-append p rest zero h = refl
drop-append [] rest (suc i) h = absurd (omega arith)
drop-append (b ∷ p) rest (suc i) h = drop-append p rest i (omega arith)

take-append : (p rest : Bytes) (n : ℕ) → n ≤ length p → take n (p ++ rest) ≡ take n p
take-append p rest zero h = refl
take-append [] rest (suc n) h = absurd (omega arith)
take-append (b ∷ p) rest (suc n) h = ap (◌∷◌ b) (take-append p rest n (omega arith))

-- A field within the bytes is the same with more bytes behind.
pub field-append :
    (p rest : Bytes) (i n : ℕ) → i + n ≤ length p → take n (drop i (p ++ rest)) ≡ take n (drop i p)
field-append p rest i n h =
    rw (drop-append p rest i (omega arith))
      (take-append (drop i p) rest n (omega (arith, length-drop i p)))

-- Within `p`, and the same whatever stands behind `p`.
abbrev pub Settled : Bytes → (Bytes → Printed) → List Line → ℕ → Type 0
Settled p value lines u = (u ≤ length p) × ((rest : Bytes) → value (p ++ rest) ≡ (lines, some u))

-- Every run of `value` that succeeds settles that of `value'`.
pub record Extends (value value' : Bytes → Printed) : Type 0 where
  pub settles :
      (p : Bytes) (lines : List Line) (u : ℕ) → value p ≡ (lines, some u) → Settled p value' lines u

pub refused :
    (shown lines : List Line) (u : ℕ) → ◌≡◌ {A = Printed} (shown, none) (lines, some u) → ⊥
refused shown lines u e = let e' : ◌≡◌ {A = Option ℕ} none (some u) = ap (λ r. r.1) e in cc

pub consumed :
    (shown lines : List Line) (c u : ℕ) → ◌≡◌ {A = Printed} (shown, some c) (lines, some u) → c ≡ u
consumed shown lines c u e = some-injective c u (ap (λ r. r.1) e)

pub print_fixed-Settled :
    (line : Bytes → Line)
    → ((p rest : Bytes) → 9 ≤ length p → line (p ++ rest) ≡ line p)
    → Extends (λ p. print_fixed p (line p)) (λ p. print_fixed p (line p))
print_fixed-Settled line same = record {
  settles = λ p lines u e. elim (Bool-cases (ltb (length p) 9)) [
    | inl short ↦ absurd (refused [] lines u (rw short at e))
    | inr long ↦
        let e' = rw long at e in
        let size = ltb-false (length p) 9 long in
        (
          omega (arith, consumed _ lines 9 u e'),
          λ rest.
              let more : ltb (length (p ++ rest)) 9 ≡ false =
                ground (arith, length-append p rest) in
              rw (more, same p rest size) e',
        )
  ];
}

pub print_str-Settled : (depth : ℕ) → Extends (λ p. print_str p depth) (λ p. print_str p depth)
print_str-Settled depth = record {
  settles = λ p lines u e.
      let len = of_le (take 4 (drop 1 p)) in
      elim (Bool-cases (ltb (length p) 5)) [
        | inl short ↦ absurd (refused [] lines u (rw short at e))
        | inr long ↦ elim (Bool-cases (ltb (length p) (5 + len))) [
          | inl short ↦ absurd (refused [] lines u (rw (long, short) at e))
          | inr whole ↦
              let e' = rw (long, whole) at e in
              let size = ltb-false (length p) 5 long in
              let size' = ltb-false (length p) (5 + len) whole in
              (
                omega (arith, consumed _ lines (5 + len) u e'),
                λ rest.
                    let all = length-append p rest in
                    let more : ltb (length (p ++ rest)) 5 ≡ false = ground arith in
                    let more' : ltb (length (p ++ rest)) (5 + len) ≡ false = ground arith in
                    rw (field-append p rest 1 4 size, more, more', field-append p rest 5 len size')
                      e',
              )
        ]
      ];
}

pub print_err-Settled : (depth : ℕ) → Extends (λ p. print_err p depth) (λ p. print_err p depth)
print_err-Settled depth = record {
  settles = λ p lines u e.
      let len = of_le (take 4 (drop 5 p)) in
      elim (Bool-cases (ltb (length p) 9)) [
        | inl short ↦ absurd (refused [] lines u (rw short at e))
        | inr long ↦ elim (Bool-cases (ltb (length p) (9 + len))) [
          | inl short ↦ absurd (refused [] lines u (rw (long, short) at e))
          | inr whole ↦
              let e' = rw (long, whole) at e in
              let size = ltb-false (length p) 9 long in
              let size' = ltb-false (length p) (9 + len) whole in
              (
                omega (arith, consumed _ lines (9 + len) u e'),
                λ rest.
                    let all = length-append p rest in
                    let more : ltb (length (p ++ rest)) 9 ≡ false = ground arith in
                    let more' : ltb (length (p ++ rest)) (9 + len) ≡ false = ground arith in
                    rw
                      (
                        field-append p rest 1 4 (omega arith),
                        field-append p rest 5 4 size,
                        more,
                        more',
                        field-append p rest 9 len size',
                      )
                      e',
              )
        ]
      ];
}
