-- ===== src/Serialize/Tests.antt =====
-- Runs of the appenders and the printer, and the instances of their theorems.
use mini_redis.Base.Int.{pos, negsuc}
use mini_redis.Base.{
  ◌+◌, ◌^◌, ◌<◌, ◌≡◌, refl, [], ◌∷◌, ◌++◌, none, some, arith, Bytes, le_bytes, of_le, length, take,
}
use mini_redis.Serialize.{
  as_u32, as_u64, as_i64, out_nil, out_str, out_int, out_dbl, out_err, out_arr, out_begin_arr,
  out_end_arr, nil_line, integer_line, string_line, error_line, array_line, print_elements,
  print_tagged, print_loop, print_value,
}
use mini_redis.Serialize.Values.{
  Value, nil, str, int, err, arr, Values, done, next, count, all_bytes, out_value, out_values,
  lines_of,
}
use mini_redis.Serialize.Arrays.{out_end_arr-out_begin_arr}
use mini_redis.Serialize.RoundTrip.{print_value-out_value}
use mini_redis.Serialize.Stable.{print_value-cut}

program : Unit {0}
unfolding le_bytes of_le as_u32 as_u64 as_i64 out_nil out_str out_int out_dbl out_err out_arr
    out_begin_arr out_end_arr print_elements print_tagged print_loop print_value
program = tt

-- A string, a number below zero and a null in an array.
abbrev elements : Values
elements = next (str (104 ∷ 105 ∷ [])) (next (int (negsuc 0)) (next nil done))

abbrev reply : Value
reply = arr elements

out_value-reply :
    out_value reply []
    ≡ 5 ∷ 3 ∷ 0 ∷ 0 ∷ 0 ∷ 2 ∷ 2 ∷ 0 ∷ 0 ∷ 0 ∷ 104 ∷ 105 ∷ 3 ∷ 255 ∷ 255 ∷ 255 ∷ 255 ∷ 255 ∷ 255
      ∷ 255 ∷ 255 ∷ 0 ∷ []
unfolding program
out_value-reply = refl

print_value-reply : print_value (out_value reply []) 0 ≡ (
  array_line 0 3 ∷ string_line 1 (104 ∷ 105 ∷ []) ∷ integer_line 1 (negsuc 0) ∷ nil_line 1 ∷ [],
  some 22,
)
unfolding program
print_value-reply = refl

print_value-error :
    print_value (out_value (err (pos 2) (63 ∷ [])) []) 0 ≡ (error_line 0 2 (63 ∷ []) ∷ [], some 10)
unfolding program
print_value-error = refl

abbrev begun : Bytes
begun = 7 ∷ []

room : length begun + length (all_bytes elements) + 5 < 2 ^ 64
unfolding program
room = omega arith

out_end_arr-out_begin_arr_example :
    let (started, ctx) = out_begin_arr begun in
    out_end_arr (out_values elements started) ctx (count elements) ≡ some (out_value reply begun)
out_end_arr-out_begin_arr_example =
    out_end_arr-out_begin_arr elements begun (omega arith, (omega arith, (tt, tt))) room

print_value-out_value_example :
    print_value (out_value reply [] ++ (9 ∷ [])) 0
    ≡ (lines_of 0 reply, some (length (out_value reply [])))
print_value-out_value_example =
    print_value-out_value reply (9 ∷ []) 0 (omega arith, (omega arith, (omega arith, (tt, tt))))

abbrev nothing : Bytes
nothing = 0 ∷ []

print_value-nothing : print_value nothing 0 ≡ (nil_line 0 ∷ [], some 1)
unfolding program
print_value-nothing = refl

reply-long : 10 < length (out_value reply [])
unfolding program
reply-long = omega arith

print_value-cut_example : (print_value (take 10 (out_value reply [])) 0).1 ≡ none
print_value-cut_example =
    print_value-cut reply 0 10 (omega arith, (omega arith, (omega arith, (tt, tt)))) reply-long
