-- ===== src/Command/Decimal.antt =====
-- str2int of src/server/command.cpp reads what is written in decimal.
use native.Mathlib.Nat.{pow-suc}
use mini_redis.Base.{
  ℕ, suc, ◌+◌, ◌-◌, ◌*◌, ◌^◌, ◌<◌, ◌≡◌, refl, ap, ◌∙◌, true, false, List, [], ◌∷◌, some, Bytes, map,
  get_or, length, is_empty, leb, ◌==◌, if◌then◌else◌, arith, All,
}
use mini_redis.Base.Int.{pos, ◌-ℤ◌}
use mini_redis.Command.Numbers.{spaces, digits, saturate, strtoll, str2int, is_digit, is_space}

-- The number that decimal digits stand for, the highest first.
unfoldable pub decimal : List ℕ → ℕ
decimal [] = 0
decimal (d ∷ ds) = d * 10 ^ length ds + decimal ds

unfoldable pub characters : List ℕ → Bytes
characters ds = map (λ d. 48 + d) ds

unfoldable pub at_most : ℕ → ℕ → ℕ
at_most bound n = if leb n bound then n else bound

sum :
    (value d p r q : ℕ)
    → q ≡ p * 10
    → (value * 10 + (48 + d - 48)) * p + r ≡ value * q + (d * p + r)
sum value d p r q e = let cancel : 48 + d - 48 ≡ d = omega arith in rw (e, cancel) (grind arith)

digits-characters :
    (ds : List ℕ) (value : ℕ)
    → All (λ d. d < 10) ds
    → digits (characters ds) value ≡ (length ds, value * 10 ^ length ds + decimal ds)
unfolding digits characters decimal
digits-characters [] value h = ap (λ v. (0, v)) (omega arith)
digits-characters (d ∷ ds) value h =
    let is : is_digit (48 + d) ≡ true = ground (arith, h.0) in
    let rest = digits-characters ds (value * 10 + (48 + d - 48)) h.1 in
    rw (is, rest)
      (ap (λ v. (suc (length ds), v))
        (sum value d (10 ^ length ds) (decimal ds) (10 ^ suc (length ds)) (pow-suc 10 (length ds))))

get_or_end : (s : Bytes) → get_or s (length s) 0 ≡ 0
get_or_end [] = refl
get_or_end (c ∷ s) = get_or_end s

length-characters : (ds : List ℕ) → length (characters ds) ≡ length ds
unfolding characters
length-characters [] = refl
length-characters (d ∷ ds) = ap suc (length-characters ds)

end-characters : (ds : List ℕ) → get_or (characters ds) (length ds) 0 ≡ 0
end-characters ds = rw (length-characters ds) at (get_or_end (characters ds))

saturate-plus : (n : ℕ) → saturate false n ≡ pos (at_most (2 ^ 63 - 1) n)
unfolding at_most
saturate-plus n = ground arith

saturate-minus : (n : ℕ) → saturate true n ≡ pos 0 -ℤ pos (at_most (2 ^ 63) n)
unfolding at_most ◌-ℤ◌
saturate-minus n = ground arith

read_from_zero :
    (d : ℕ) (ds : List ℕ)
    → d < 10
    → All (λ d. d < 10) ds
    → digits (characters (d ∷ ds)) 0 ≡ (suc (length ds), decimal (d ∷ ds))
read_from_zero d ds low lows =
    digits-characters (d ∷ ds) 0 (low, lows) ∙ ap (λ v. (suc (length ds), v)) (omega arith)

strtoll-plain :
    (d : ℕ) (ds : List ℕ)
    → d < 10
    → All (λ d. d < 10) ds
    → strtoll (characters (d ∷ ds)) ≡ (saturate false (decimal (d ∷ ds)), length (d ∷ ds))
unfolding strtoll spaces characters
strtoll-plain d ds low lows =
    let no_space : is_space (48 + d) ≡ false = ground arith in
    let no_minus : (48 + d == 45) ≡ false = ground arith in
    let no_plus : (48 + d == 43) ≡ false = ground arith in
    let some_digit : (suc (length ds) == 0) ≡ false = ground arith in
    rw (no_space, no_minus, no_plus, read_from_zero d ds low lows, some_digit)
      (ap (λ n. (saturate false (decimal (d ∷ ds)), n)) (omega arith))

strtoll-minus :
    (d : ℕ) (ds : List ℕ)
    → d < 10
    → All (λ d. d < 10) ds
    → strtoll (45 ∷ characters (d ∷ ds)) ≡ (saturate true (decimal (d ∷ ds)), suc (length (d ∷ ds)))
unfolding strtoll spaces
strtoll-minus d ds low lows =
    let some_digit : (suc (length ds) == 0) ≡ false = ground arith in
    rw (read_from_zero d ds low lows, some_digit)
      (ap (λ n. (saturate true (decimal (d ∷ ds)), n)) (omega arith))

not_empty : (d : ℕ) (ds : List ℕ) → is_empty (characters (d ∷ ds)) ≡ false
unfolding characters
not_empty d ds = refl

-- str2int reads a number that is written in decimal, with or without a minus, however many digits it
-- has: as that number if it fits in 64 bits, and else as the greatest or the least that does.
pub str2int-decimal :
    (d : ℕ) (ds : List ℕ)
    → d < 10
    → All (λ d. d < 10) ds
    → (str2int (characters (d ∷ ds)) ≡ some (pos (at_most (2 ^ 63 - 1) (decimal (d ∷ ds)))))
      × (str2int (b'-' ∷ characters (d ∷ ds))
          ≡ some (pos 0 -ℤ pos (at_most (2 ^ 63) (decimal (d ∷ ds)))))
unfolding str2int
str2int-decimal d ds low lows = (
  rw
      (
        strtoll-plain d ds low lows,
        saturate-plus (decimal (d ∷ ds)),
        not_empty d ds,
        end-characters (d ∷ ds),
      )
      refl,
  rw (strtoll-minus d ds low lows, saturate-minus (decimal (d ∷ ds)), end-characters (d ∷ ds)) refl,
)
