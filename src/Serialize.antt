-- ===== src/Serialize.antt =====
-- Replies: the appenders of include/protocol/serialize.h and src/protocol/serialize.cpp, and the
-- printer of replies in client/client.cpp (print_value).
-- A double is its pattern of 64 bits. What the client prints is a list of lines, one for each
-- statement that prints: the words of the line, its indent and the values in it, of which iostream
-- makes the text.
pub mod Values
pub mod Arrays
pub mod Printers
pub mod RoundTrip
pub mod Settled
pub mod Stable
mod Tests
use mini_redis.Base.Int.{ℤ, pos, negsuc}
use mini_redis.Base.{
  ◌>>=◌, ℕ, zero, suc, ◌+◌, ◌-◌, ◌%◌, ◌^◌, List, [], ◌∷◌, ◌++◌, Option, none, some, Bytes, le_bytes,
  of_le, length, get_elem?, take, drop, ltb, leb, ◌==◌, if◌then◌else◌, ◌&&◌,
}

abbrev pub ser_nil : ℕ
ser_nil = 0

abbrev pub ser_err : ℕ
ser_err = 1

abbrev pub ser_str : ℕ
ser_str = 2

abbrev pub ser_int : ℕ
ser_int = 3

abbrev pub ser_dbl : ℕ
ser_dbl = 4

abbrev pub ser_arr : ℕ
ser_arr = 5

-- `(uint32_t)code` and the bits of an int64_t.
unfoldable pub as_u32 : ℤ → ℕ
as_u32 (pos n) = n % 2 ^ 32
as_u32 (negsuc n) = 2 ^ 32 - 1 - n % 2 ^ 32

unfoldable pub as_u64 : ℤ → ℕ
as_u64 (pos n) = n % 2 ^ 64
as_u64 (negsuc n) = 2 ^ 64 - 1 - n % 2 ^ 64

-- The int64_t of these bits.
unfoldable pub as_i64 : ℕ → ℤ
as_i64 n = if ltb n (2 ^ 63) then pos n else negsuc (2 ^ 64 - 1 - n)

abbrev pub put_u8 : Bytes → ℕ → Bytes
put_u8 out v = out ++ v ∷ []

abbrev pub put_u32 : Bytes → ℕ → Bytes
put_u32 out v = out ++ le_bytes 4 v

abbrev pub put_i64 : Bytes → ℤ → Bytes
put_i64 out v = out ++ le_bytes 8 (as_u64 v)

abbrev pub put_f64 : Bytes → ℕ → Bytes
put_f64 out v = out ++ le_bytes 8 v

unfoldable pub out_nil : Bytes → Bytes
out_nil out = put_u8 out ser_nil

unfoldable pub out_str : Bytes → Bytes → Bytes
out_str out s = put_u32 (put_u8 out ser_str) (length s % 2 ^ 32) ++ s

unfoldable pub out_int : Bytes → ℤ → Bytes
out_int out x = put_i64 (put_u8 out ser_int) x

unfoldable pub out_dbl : Bytes → ℕ → Bytes
out_dbl out x = put_f64 (put_u8 out ser_dbl) x

unfoldable pub out_err : Bytes → ℤ → Bytes → Bytes
out_err out code msg =
    put_u32 (put_u32 (put_u8 out ser_err) (as_u32 code)) (length msg % 2 ^ 32) ++ msg

unfoldable pub out_arr : Bytes → ℕ → Bytes
out_arr out n = put_u32 (put_u8 out ser_arr) n

-- The buffer, and the offset of the placeholder for the count.
unfoldable pub out_begin_arr : Bytes → Bytes × ℕ
out_begin_arr out = let out' = put_u32 (put_u8 out ser_arr) 0 in (out', length out' - 4)

-- The assertion, and a write outside of the buffer, are faults.
unfoldable pub out_end_arr : Bytes → ℕ → ℕ → Option Bytes
out_end_arr out ctx n = get_elem? out ((ctx + 2 ^ 64 - 1) % 2 ^ 64) >>= λ tag.
    if tag == ser_arr && leb (ctx + 4) (length out)
    then some (take ctx out ++ le_bytes 4 n ++ drop (ctx + 4) out)
    else none

-- One line of output, with its depth where it is indented.
pub data Line : Type 0 where
  truncated_line : Line
  nil_line : ℕ → Line
  integer_line : ℕ → ℤ → Line
  double_line : ℕ → ℕ → Line
  string_line : ℕ → Bytes → Line
  error_line : ℕ → ℕ → Bytes → Line
  array_line : ℕ → ℕ → Line
  bad_tag_line : ℕ → Line

-- What was printed, and the bytes consumed; `none` is -1.
abbrev pub Printed : Type 0
Printed = List Line × Option ℕ

-- The rounds left of the loop over the elements of an array, printed by `value`, behind the first
-- `used` bytes of `p`.
pub print_elements : (Bytes → Printed) → ℕ → Bytes → ℕ → Printed
print_elements value zero p used = ([], some used)
print_elements value (suc rounds) p used =
    let (lines, c) = value (drop used p) in
    elim c [
      | none ↦ (lines, none)
      | some n ↦
          let (others, end) = print_elements value rounds p (used + n) in (lines ++ others, end)
    ]

-- The cases of the switch.
abbrev pub print_fixed : Bytes → Line → Printed
print_fixed p line = if ltb (length p) 9 then ([], none) else (line ∷ [], some 9)

abbrev pub print_str : Bytes → ℕ → Printed
print_str p depth =
    let len = of_le (take 4 (drop 1 p)) in
    if ltb (length p) 5
    then ([], none)
    else if ltb (length p) (5 + len)
    then ([], none)
    else (string_line depth (take len (drop 5 p)) ∷ [], some (5 + len))

abbrev pub print_err : Bytes → ℕ → Printed
print_err p depth =
    let code = of_le (take 4 (drop 1 p)) in
    let len = of_le (take 4 (drop 5 p)) in
    if ltb (length p) 9
    then ([], none)
    else if ltb (length p) (9 + len)
    then ([], none)
    else (error_line depth code (take len (drop 9 p)) ∷ [], some (9 + len))

abbrev pub print_arr : (Bytes → Printed) → Bytes → ℕ → Printed
print_arr value p depth =
    let cnt = of_le (take 4 (drop 1 p)) in
    let (lines, end) = print_elements value cnt p 5 in
    if ltb (length p) 5 then ([], none) else (array_line depth cnt ∷ lines, end)

pub print_tagged : ℕ → (Bytes → Printed) → Bytes → ℕ → Printed
print_tagged tag value p depth =
    if tag == ser_nil
    then (nil_line depth ∷ [], some 1)
    else if tag == ser_int
    then print_fixed p (integer_line depth (as_i64 (of_le (take 8 (drop 1 p)))))
    else if tag == ser_dbl
    then print_fixed p (double_line depth (of_le (take 8 (drop 1 p))))
    else if tag == ser_str
    then print_str p depth
    else if tag == ser_err
    then print_err p depth
    else if tag == ser_arr
    then print_arr value p depth
    else (bad_tag_line tag ∷ [], none)

-- Every array in an array takes bytes of its own, so that the fuel need not exceed their number.
pub print_loop : ℕ → Bytes → ℕ → Printed
print_loop zero p depth = ([], none)
print_loop (suc fuel) [] depth = (truncated_line ∷ [], none)
print_loop (suc fuel) (tag ∷ more) depth =
    print_tagged tag (λ q. print_loop fuel q (depth + 1)) (tag ∷ more) depth

unfoldable pub print_value : Bytes → ℕ → Printed
print_value p depth = print_loop (suc (length p)) p depth
