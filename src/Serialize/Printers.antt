-- ===== src/Serialize/Printers.antt =====
-- The printers of the client on what the server appended, with bytes behind it.
use mini_redis.Base.Int.{ℤ, pos, negsuc}
use mini_redis.Base.{
  ℕ, ◌+◌, ◌^◌, ◌<◌, ◌≡◌, refl, sym, ap, ◌∙◌, List, [], ◌∷◌, ◌++◌, false, ltb, Option, some, arith,
  Bytes, le_bytes, of_le, of_le-le_bytes, length-le_bytes, length, length-append, take, drop,
  take_left, drop_left,
}
use mini_redis.Serialize.{
  ser_err, ser_str, ser_arr, as_u32, as_u64, as_i64, Line, string_line, error_line, array_line,
  Printed, print_elements, print_fixed, print_str, print_err, print_arr,
}
use mini_redis.Serialize.Values.{InI64}

as_u32-lt : (x : ℤ) → as_u32 x < 2 ^ 32
unfolding as_u32
as_u32-lt x = ground arith

pub as_u64-lt : (x : ℤ) → as_u64 x < 2 ^ 64
unfolding as_u64
as_u64-lt x = ground arith

pub as_i64-as_u64 : (x : ℤ) → InI64 x → as_i64 (as_u64 x) ≡ x
unfolding as_i64 as_u64
as_i64-as_u64 (pos n) h = ground arith
as_i64-as_u64 (negsuc n) h = ground arith

module _ (w n : ℕ) (rest : Bytes) where
  take-le_bytes : take w (le_bytes w n ++ rest) ≡ le_bytes w n
  take-le_bytes =
      ap (λ k. take k (le_bytes w n ++ rest)) (sym (length-le_bytes w n))
      ∙ take_left (le_bytes w n) rest

  drop-le_bytes : drop w (le_bytes w n ++ rest) ≡ rest
  drop-le_bytes =
      ap (λ k. drop k (le_bytes w n ++ rest)) (sym (length-le_bytes w n))
      ∙ drop_left (le_bytes w n) rest

  pub field-le_bytes : n < 256 ^ w → of_le (take w (le_bytes w n ++ rest)) ≡ n
  field-le_bytes h = rw take-le_bytes (of_le-le_bytes w n h)

  pub length-field : length (le_bytes w n ++ rest) ≡ w + length rest
  length-field = omega (arith, length-append (le_bytes w n) rest, length-le_bytes w n)

drop_two : (a b : ℕ) (rest : Bytes) → drop 8 (le_bytes 4 a ++ (le_bytes 4 b ++ rest)) ≡ rest
unfolding le_bytes
drop_two a b rest = refl

-- The printer on each kind of value with bytes behind it.
module _ (depth : ℕ) (rest : Bytes) where
  pub print_fixed_lem :
      (tag n : ℕ) (line : Line)
      → print_fixed (tag ∷ (le_bytes 8 n ++ rest)) line ≡ (line ∷ [], some 9)
  print_fixed_lem tag n line =
      let test : ltb (length (tag ∷ (le_bytes 8 n ++ rest))) 9 ≡ false =
        ground (arith, length-field 8 n rest) in
      rw test

  pub print_str_lem :
      (s : Bytes)
      → length s < 2 ^ 32
      → print_str (ser_str ∷ (le_bytes 4 (length s) ++ (s ++ rest))) depth
        ≡ (string_line depth s ∷ [], some (5 + length s))
  print_str_lem s h =
      let p = ser_str ∷ (le_bytes 4 (length s) ++ (s ++ rest)) in
      let size = length-field 4 (length s) (s ++ rest) in
      let header : ltb (length p) 5 ≡ false = ground arith in
      let whole : ltb (length p) (5 + length s) ≡ false = ground (arith, length-append s rest) in
      let body : drop 5 p ≡ s ++ rest = drop-le_bytes 4 (length s) (s ++ rest) in
      rw (field-le_bytes 4 (length s) (s ++ rest) h, header, whole, body, take_left)

  pub print_err_lem :
      (code : ℤ) (msg : Bytes)
      → length msg < 2 ^ 32
      → print_err
          (ser_err ∷ (le_bytes 4 (as_u32 code) ++ (le_bytes 4 (length msg) ++ (msg ++ rest))))
          depth
        ≡ (error_line depth (as_u32 code) msg ∷ [], some (9 + length msg))
  print_err_lem code msg h =
      let behind = le_bytes 4 (length msg) ++ (msg ++ rest) in
      let p = ser_err ∷ (le_bytes 4 (as_u32 code) ++ behind) in
      let size = length-field 4 (as_u32 code) behind in
      let size' = length-field 4 (length msg) (msg ++ rest) in
      let second : of_le (take 4 (drop 5 p)) ≡ length msg =
        rw (drop-le_bytes 4 (as_u32 code) behind) (field-le_bytes 4 (length msg) (msg ++ rest) h) in
      let header : ltb (length p) 9 ≡ false = ground arith in
      let whole : ltb (length p) (9 + length msg) ≡ false =
        ground (arith, length-append msg rest) in
      let body : drop 9 p ≡ msg ++ rest = drop_two (as_u32 code) (length msg) (msg ++ rest) in
      rw (
        field-le_bytes 4 (as_u32 code) behind (as_u32-lt code),
        second,
        header,
        whole,
        body,
        take_left,
      )

  pub print_arr_lem :
      (value : Bytes → Printed) (n : ℕ)
      → n < 2 ^ 32
      → (lines : List Line) (end : Option ℕ)
      → print_elements value n (ser_arr ∷ (le_bytes 4 n ++ rest)) 5 ≡ (lines, end)
      → print_arr value (ser_arr ∷ (le_bytes 4 n ++ rest)) depth ≡ (array_line depth n ∷ lines, end)
  print_arr_lem value n h lines end inner =
      let p = ser_arr ∷ (le_bytes 4 n ++ rest) in
      let size = length-field 4 n rest in
      let header : ltb (length p) 5 ≡ false = ground arith in
      rw (field-le_bytes 4 n rest h, header, inner)
