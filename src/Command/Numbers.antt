-- ===== src/Command/Numbers.antt =====
-- The parsers of numbers in src/server/command.cpp (str2dbl, str2int), to_upper, and the equality
-- of strings. A string's terminator is read as the byte behind it, so that `*end` is the byte at a
-- position, or 0 there.
use mini_redis.Base.Int.{ℤ, pos, negsuc}
use mini_redis.Base.Double.{is_nan}
use mini_redis.Base.{
  ℕ, suc, ◌+◌, ◌-◌, ◌*◌, ◌^◌, Bool, true, false, ◌&&◌, ◌||◌, not, [], ◌∷◌, Option, none, some,
  Bytes, map, get_or, is_empty, drop, ltb, leb, ◌==◌, if◌then◌else◌,
}

-- `operator==` of two strings.
unfoldable pub bytes_eq : Bytes → Bytes → Bool
bytes_eq [] [] = true
bytes_eq [] (y ∷ b) = false
bytes_eq (x ∷ a) [] = false
bytes_eq (x ∷ a) (y ∷ b) = x == y && bytes_eq a b

-- `toupper` in the C locale.
abbrev pub to_upper_byte : ℕ → ℕ
to_upper_byte c = if leb b'a' c && leb c b'z' then c - 32 else c

unfoldable pub to_upper : Bytes → Bytes
to_upper s = map to_upper_byte s

-- `isspace` in the C locale.
abbrev pub is_space : ℕ → Bool
is_space c = c == 32 || (leb 9 c && leb c 13)

abbrev pub is_digit : ℕ → Bool
is_digit c = leb b'0' c && leb c b'9'

-- The number of spaces in front.
unfoldable pub spaces : Bytes → ℕ
spaces [] = 0
spaces (c ∷ s) = let n = spaces s in if is_space c then suc n else 0

-- The digits in front, with the number read before: their number, and the value.
unfoldable pub digits : Bytes → ℕ → ℕ × ℕ
digits [] value = (0, value)
digits (c ∷ s) value =
    let (n, value') = digits s (value * 10 + (c - b'0')) in
    if is_digit c then (suc n, value') else (0, value)

-- The least and the greatest long long.
abbrev pub saturate : Bool → ℕ → ℤ
saturate negative value =
    if negative
    then (if leb value (2 ^ 63)
        then (if value == 0 then pos 0 else negsuc (value - 1))
        else negsuc (2 ^ 63 - 1))
    else (if ltb value (2 ^ 63) then pos value else pos (2 ^ 63 - 1))

-- `strtoll` in base ten: the value, and the number of characters consumed, 0 if there is no digit.
unfoldable pub strtoll : Bytes → ℤ × ℕ
strtoll s =
    let start = spaces s in
    let sign = get_or s start 0 in
    let signed : ℕ = if sign == b'-' || sign == b'+' then 1 else 0 in
    let (n, value) = digits (drop (start + signed) s) 0 in
    if n == 0 then (pos 0, 0) else (saturate (sign == b'-') value, start + signed + n)

unfoldable pub str2int : Bytes → Option ℤ
unfolding strtoll
str2int s =
    let (value, consumed) = strtoll s in
    if is_empty s then none else if get_or s consumed 0 == 0 then some value else none

unfoldable pub str2dbl : (Bytes → ℕ × ℕ) → Bytes → Option ℕ
str2dbl strtod s =
    let (value, consumed) = strtod s in
    if is_empty s
    then none
    else if get_or s consumed 0 == 0 && not (is_nan value)
    then some value
    else none
