-- ===== src/Serialize/Values.antt =====
-- Reply values as trees, the bytes of the format that include/protocol/serialize.h documents, and
-- that the appenders produce them.
use mathlib.Core.List.{append-nil, append_assoc}
use mini_redis.Base.Int.{ℤ, pos, negsuc}
use mini_redis.Base.{
  ℕ, suc, ◌+◌, ◌%◌, ◌^◌, ◌<◌, ◌≡◌, refl, sym, ◌∙◌, List, [], ◌∷◌, ◌++◌, arith, Bytes, le_bytes,
  length,
}
use mini_redis.Serialize.{
  ser_nil, ser_err, ser_str, ser_int, ser_dbl, ser_arr, as_u32, as_u64, out_nil, out_str, out_int,
  out_dbl, out_err, out_arr, Line, nil_line, integer_line, double_line, string_line, error_line,
  array_line,
}

mutual
  pub data Value : Type 0 where
    nil : Value
    str : Bytes → Value
    int : ℤ → Value
    dbl : ℕ → Value
    err : ℤ → Bytes → Value
    arr : Values → Value

  pub data Values : Type 0 where
    done : Values
    next : Value → Values → Values

abbrev pub count : Values → ℕ
count done = 0
count (next v vs) = suc (count vs)

abbrev mutual
  -- A value appended as the server does it: an array is its header and then its elements.
  pub out_value : Value → Bytes → Bytes
  out_value nil out = out_nil out
  out_value (str s) out = out_str out s
  out_value (int x) out = out_int out x
  out_value (dbl x) out = out_dbl out x
  out_value (err code msg) out = out_err out code msg
  out_value (arr vs) out = out_values vs (out_arr out (count vs))

  pub out_values : Values → Bytes → Bytes
  out_values done out = out
  out_values (next v vs) out = out_values vs (out_value v out)

abbrev mutual
  -- The documented bytes.
  pub bytes_of : Value → Bytes
  bytes_of nil = ser_nil ∷ []
  bytes_of (str s) = ser_str ∷ (le_bytes 4 (length s) ++ s)
  bytes_of (int x) = ser_int ∷ le_bytes 8 (as_u64 x)
  bytes_of (dbl x) = ser_dbl ∷ le_bytes 8 x
  bytes_of (err code msg) = ser_err ∷ (le_bytes 4 (as_u32 code) ++ (le_bytes 4 (length msg) ++ msg))
  bytes_of (arr vs) = ser_arr ∷ (le_bytes 4 (count vs) ++ all_bytes vs)

  pub all_bytes : Values → Bytes
  all_bytes done = []
  all_bytes (next v vs) = bytes_of v ++ all_bytes vs

abbrev pub InI64 : ℤ → Type 0
InI64 (pos n) = n < 2 ^ 63
InI64 (negsuc n) = n < 2 ^ 63

abbrev mutual
  -- The lengths and counts have 32 bits, and numbers 64.
  pub Fits : Value → Type 0
  Fits nil = Unit
  Fits (str s) = length s < 2 ^ 32
  Fits (int x) = InI64 x
  Fits (dbl x) = x < 2 ^ 64
  Fits (err code msg) = length msg < 2 ^ 32
  Fits (arr vs) = (count vs < 2 ^ 32) × AllFit vs

  pub AllFit : Values → Type 0
  AllFit done = Unit
  AllFit (next v vs) = Fits v × AllFit vs

abbrev mutual
  -- What a reader of the value sees: strings and numbers as they were given, arrays one level deeper.
  pub lines_of : ℕ → Value → List Line
  lines_of depth nil = nil_line depth ∷ []
  lines_of depth (str s) = string_line depth s ∷ []
  lines_of depth (int x) = integer_line depth x ∷ []
  lines_of depth (dbl x) = double_line depth x ∷ []
  lines_of depth (err code msg) = error_line depth (as_u32 code) msg ∷ []
  lines_of depth (arr vs) = array_line depth (count vs) ∷ all_lines (depth + 1) vs

  pub all_lines : ℕ → Values → List Line
  all_lines depth done = []
  all_lines depth (next v vs) = lines_of depth v ++ all_lines depth vs

mutual
  unfolding out_nil out_str out_int out_dbl out_err out_arr

  pub out_value-bytes_of : (v : Value) (out : Bytes) → Fits v → out_value v out ≡ out ++ bytes_of v
  out_value-bytes_of nil out h = refl
  out_value-bytes_of (str s) out h =
      let small : length s % 2 ^ 32 ≡ length s = omega arith in rw small (simp append_assoc)
  out_value-bytes_of (int x) out h = append_assoc out (3 ∷ []) (le_bytes 8 (as_u64 x))
  out_value-bytes_of (dbl x) out h = append_assoc out (4 ∷ []) (le_bytes 8 x)
  out_value-bytes_of (err code msg) out h =
      let small : length msg % 2 ^ 32 ≡ length msg = omega arith in rw small (simp append_assoc)
  out_value-bytes_of (arr vs) out h =
      out_values-all_bytes vs (out_arr out (count vs)) h.1 ∙ simp append_assoc

  pub out_values-all_bytes :
      (vs : Values) (out : Bytes) → AllFit vs → out_values vs out ≡ out ++ all_bytes vs
  out_values-all_bytes done out h = sym (append-nil out)
  out_values-all_bytes (next v vs) out h =
      rw (out_value-bytes_of v out h.0, out_values-all_bytes vs (out ++ bytes_of v) h.1)
        (append_assoc out (bytes_of v) (all_bytes vs))
