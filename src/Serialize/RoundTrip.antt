-- ===== src/Serialize/RoundTrip.antt =====
-- The client prints what the server appended.
use mathlib.Core.List.{append_assoc}
use mini_redis.Base.{
  ℕ, zero, suc, ◌+◌, ◌≤◌, ◌≡◌, refl, ap, ◌∙◌, List, [], ◌∷◌, ◌++◌, Option, some, arith, Bytes,
  le_bytes, length-le_bytes, length, length-append, drop, drop_left,
}
use mini_redis.Serialize.{
  ser_arr, as_u32, as_u64, Line, string_line, error_line, array_line, Printed, print_elements,
  print_tagged, print_loop, print_value,
}
use mini_redis.Serialize.Values.{
  Value, nil, str, int, dbl, err, arr, Values, done, next, count, bytes_of, all_bytes, Fits, AllFit,
  lines_of, all_lines, out_value, out_value-bytes_of,
}
use mini_redis.Serialize.Printers.{
  as_u64-lt, as_i64-as_u64, field-le_bytes, length-field, print_fixed_lem, print_str_lem,
  print_err_lem, print_arr_lem,
}

abbrev mutual
  -- The fuel that a value needs.
  pub levels : Value → ℕ
  levels nil = 1
  levels (str s) = 1
  levels (int x) = 1
  levels (dbl x) = 1
  levels (err code msg) = 1
  levels (arr vs) = 1 + all_levels vs

  pub all_levels : Values → ℕ
  all_levels done = 0
  all_levels (next v vs) = levels v + all_levels vs

levels-pos : (v : Value) → 1 ≤ levels v
levels-pos nil = omega arith
levels-pos (str s) = omega arith
levels-pos (int x) = omega arith
levels-pos (dbl x) = omega arith
levels-pos (err code msg) = omega arith
levels-pos (arr vs) = omega arith

-- A run on enough fuel to start is a run on a successor.
started :
    (fuel : ℕ) (p : Bytes) (depth : ℕ) (result : Printed)
    → 1 ≤ fuel
    → ((k : ℕ) → fuel ≡ suc k → print_loop (suc k) p depth ≡ result)
    → print_loop fuel p depth ≡ result
started zero p depth result h f = absurd (omega arith)
started (suc k) p depth result h f = f k refl

pub print_elements_step :
    (value : Bytes → Printed) (rounds : ℕ) (p : Bytes) (used n : ℕ) (lines others : List Line)
    (end : Option ℕ)
    → value (drop used p) ≡ (lines, some n)
    → print_elements value rounds p (used + n) ≡ (others, end)
    → print_elements value (suc rounds) p used ≡ (lines ++ others, end)
unfolding print_elements
print_elements_step value rounds p used n lines others end e e' =
    let shown : (value (drop used p)).0 ≡ lines = ap (λ r. r.0) e in
    let used_by : (value (drop used p)).1 ≡ some n = ap (λ r. r.1) e in
    rw (print_elements, used_by, e', shown)

mutual
  unfolding print_loop print_tagged print_elements

  print_loop-bytes_of :
      (v : Value) (fuel : ℕ) (rest : Bytes) (depth : ℕ)
      → Fits v
      → levels v ≤ suc fuel
      → print_loop (suc fuel) (bytes_of v ++ rest) depth
        ≡ (lines_of depth v, some (length (bytes_of v)))
  print_loop-bytes_of nil fuel rest depth h enough = refl
  print_loop-bytes_of (str s) fuel rest depth h enough =
      let run = print_str_lem depth rest s h in
      let size = length-field 4 (length s) s in
      rw (append_assoc (le_bytes 4 (length s)) s rest, run, size)
        (ap (λ n. (string_line depth s ∷ [], some n)) (omega arith))
  print_loop-bytes_of (int x) fuel rest depth h enough = rw (
    print_fixed_lem depth rest,
    field-le_bytes 8 (as_u64 x) rest (as_u64-lt x),
    as_i64-as_u64 x h,
    length-le_bytes 8 (as_u64 x),
  )
  print_loop-bytes_of (dbl x) fuel rest depth h enough =
      rw (print_fixed_lem depth rest, field-le_bytes 8 x rest h, length-le_bytes 8 x)
  print_loop-bytes_of (err code msg) fuel rest depth h enough =
      let tail = le_bytes 4 (length msg) ++ msg in
      let run = print_err_lem depth rest code msg h in
      let size = length-field 4 (as_u32 code) tail in
      let size' = length-field 4 (length msg) msg in
      rw
        (
          append_assoc (le_bytes 4 (as_u32 code)) tail rest,
          append_assoc (le_bytes 4 (length msg)) msg rest,
          run,
        )
        (ap (λ n. (error_line depth (as_u32 code) msg ∷ [], some n)) (omega arith))
  print_loop-bytes_of (arr vs) fuel rest depth h enough =
      let front = ser_arr ∷ le_bytes 4 (count vs) in
      let five = length-le_bytes 4 (count vs) in
      let size = length-field 4 (count vs) (all_bytes vs) in
      let inner = print_elements-all_bytes vs fuel front rest (depth + 1) h.1 (omega arith) in
      rw
        (
          append_assoc (le_bytes 4 (count vs)) (all_bytes vs) rest,
          print_arr_lem depth (all_bytes vs ++ rest) (λ q. print_loop fuel q (depth + 1)) (count vs)
              h.0 _ _ (rw five at inner),
          size,
        )
        (ap (λ n. (array_line depth (count vs) ∷ all_lines (depth + 1) vs, some n)) (omega arith))

  print_elements-all_bytes :
      (vs : Values) (fuel : ℕ) (front rest : Bytes) (depth : ℕ)
      → AllFit vs
      → all_levels vs ≤ fuel
      → print_elements
          (λ q. print_loop fuel q depth)
          (count vs)
          (front ++ (all_bytes vs ++ rest))
          (length front)
        ≡ (all_lines depth vs, some (length front + length (all_bytes vs)))
  print_elements-all_bytes done fuel front rest depth h enough =
      ap (λ n. ([], some n)) (omega arith)
  print_elements-all_bytes (next v vs) fuel front rest depth h enough =
      let more = all_bytes vs ++ rest in
      let here =
        started fuel (bytes_of v ++ more) depth (lines_of depth v, some (length (bytes_of v)))
          (omega (arith, levels-pos v))
          (λ k e. print_loop-bytes_of v k more depth h.0 (omega arith)) in
      let further =
        print_elements-all_bytes vs fuel (front ++ bytes_of v) rest depth h.1 (omega arith) in
      let behind : print_elements (λ q. print_loop fuel q depth) (count vs)
            (front ++ (bytes_of v ++ more)) (length front + length (bytes_of v))
          ≡ (
            all_lines depth vs,
            some (length front + length (bytes_of v) + length (all_bytes vs)),
          ) =
        rw (append_assoc front (bytes_of v) more, length-append front (bytes_of v)) at further in
      let at : print_loop fuel (drop (length front) (front ++ (bytes_of v ++ more))) depth
          ≡ (lines_of depth v, some (length (bytes_of v))) =
        rw (drop_left front (bytes_of v ++ more)) here in
      rw (append_assoc (bytes_of v) (all_bytes vs) rest) (
        print_elements_step (λ q. print_loop fuel q depth) (count vs)
          (front ++ (bytes_of v ++ more)) (length front) (length (bytes_of v)) (lines_of depth v)
          (all_lines depth vs) _ at behind
        ∙ ap (λ n. (lines_of depth v ++ all_lines depth vs, some n))
            (omega (arith, length-append (bytes_of v) (all_bytes vs))))

mutual
  levels-bytes_of : (v : Value) → levels v ≤ length (bytes_of v)
  levels-bytes_of nil = omega arith
  levels-bytes_of (str s) = omega arith
  levels-bytes_of (int x) = omega arith
  levels-bytes_of (dbl x) = omega arith
  levels-bytes_of (err code msg) = omega arith
  levels-bytes_of (arr vs) =
      omega (arith, levels-all_bytes vs, length-append (le_bytes 4 (count vs)) (all_bytes vs))

  levels-all_bytes : (vs : Values) → all_levels vs ≤ length (all_bytes vs)
  levels-all_bytes done = omega arith
  levels-all_bytes (next v vs) =
      omega
        (arith, levels-bytes_of v, levels-all_bytes vs, length-append (bytes_of v) (all_bytes vs))

-- What the server appends for a value, with the array headers and the elements in them, the client
-- prints as that value, and it consumes exactly those bytes whatever stands behind them; the fuel
-- is enough.
pub print_value-out_value :
    (v : Value) (rest : Bytes) (depth : ℕ)
    → Fits v
    → print_value (out_value v [] ++ rest) depth
      ≡ (lines_of depth v, some (length (out_value v [])))
unfolding print_value
print_value-out_value v rest depth h = rw (out_value-bytes_of v [] h) (
    print_loop-bytes_of v (length (bytes_of v ++ rest)) rest depth h
      (omega (arith, levels-bytes_of v, length-append (bytes_of v) rest)))
