-- ===== src/Wire/RoundTrip.antt =====
-- The parser of requests inverts the client's encoder, and accepts nothing else.
use mathlib.Core.List.{append_assoc, append-nil}
use mini_redis.Base.{
  ℕ, ◌+◌, ◌-◌, ◌*◌, ◌%◌, ◌^◌, ◌≤◌, ◌<◌, ◌≡◌, refl, List, [], ◌∷◌, ◌++◌, none, some, Bytes, All,
  AreBytes, le_bytes, length, drop, is_empty, if◌then◌else◌, arith, length-append, length-le_bytes,
  of_le-le_bytes, take_left, drop_left, le_bytes-AreBytes, All-append,
}
use mini_redis.Wire.{
  k_max_args, max_msg, read_u32, write_u32, parse_args, all_consumed, parse_req, put, put_args,
  encode_body,
}

-- The arguments, each behind its length.
abbrev pub args_bytes : List Bytes → Bytes
args_bytes [] = []
args_bytes (a ∷ args) = write_u32 (length a) ++ (a ++ args_bytes args)

-- The length of each argument fits its four bytes.
abbrev pub AreShort : List Bytes → Type 0
AreShort = All (λ a. length a < 2 ^ 32)

module _ (v : ℕ) (rest : Bytes) where
  pub read_u32-write_u32 : v < 2 ^ 32 → read_u32 (write_u32 v ++ rest) ≡ v
  unfolding read_u32 write_u32 le_bytes
  read_u32-write_u32 h = of_le-le_bytes 4 v h

  pub drop-write_u32 : drop 4 (write_u32 v ++ rest) ≡ rest
  unfolding write_u32 le_bytes
  drop-write_u32 = refl

  pub length-write_u32 : length (write_u32 v ++ rest) ≡ length rest + 4
  unfolding write_u32 le_bytes
  length-write_u32 = omega arith

-- What is behind the arguments is left over.
parse_args-args_bytes :
    (args : List Bytes) (rest : Bytes) (out : List Bytes)
    → AreShort args
    → parse_args (length args) (args_bytes args ++ rest) out ≡ some (rest, out ++ args)
unfolding parse_args
parse_args-args_bytes [] rest out h = rw append-nil
parse_args-args_bytes (a ∷ args) rest out h =
    let behind = args_bytes args ++ rest in
    let bytes : args_bytes (a ∷ args) ++ rest ≡ write_u32 (length a) ++ (a ++ behind) =
      simp append_assoc in
    rw
      (
        bytes,
        length-write_u32,
        read_u32-write_u32 (length a) (a ++ behind) h.0,
        drop-write_u32,
        length-append,
        drop_left,
        take_left,
        parse_args-args_bytes args rest (out ++ a ∷ []) h.1,
      )
      (ground (arith, append_assoc out (a ∷ []) args))

put_args-args_bytes :
    (args : List Bytes) (body : Bytes)
    → AreShort args
    → put_args args body ≡ body ++ args_bytes args
unfolding put_args put
put_args-args_bytes [] body h = rw append-nil
put_args-args_bytes (a ∷ args) body h =
    let fits : length a % 2 ^ 32 ≡ length a = omega arith in
    rw (fits, put_args-args_bytes args ((body ++ write_u32 (length a)) ++ a) h.1)
      (simp append_assoc)

-- The whole body, when the counts fit their four bytes.
pub encode_body-args_bytes :
    (args : List Bytes)
    → AreShort args
    → length args < 2 ^ 32
    → encode_body args ≡ write_u32 (length args) ++ args_bytes args
unfolding encode_body put
encode_body-args_bytes args h n =
    let fits : length args % 2 ^ 32 ≡ length args = omega arith in
    rw (fits, put_args-args_bytes args (write_u32 (length args)) h)

-- The parser on an encoded body with more bytes behind it.
pub parse_req-behind :
    (args : List Bytes) (rest : Bytes)
    → AreShort args
    → length args ≤ k_max_args
    → parse_req ((write_u32 (length args) ++ args_bytes args) ++ rest) []
      ≡ (if is_empty rest then some args else none)
unfolding parse_req all_consumed
parse_req-behind args rest h n =
    let behind = args_bytes args ++ rest in
    let bytes : (write_u32 (length args) ++ args_bytes args) ++ rest
        ≡ write_u32 (length args) ++ behind =
      append_assoc (write_u32 (length args)) _ rest in
    let none_before : length args - 0 ≡ length args = omega arith in
    rw
      (
        bytes,
        length-write_u32,
        read_u32-write_u32 (length args) behind (omega arith),
        drop-write_u32,
        none_before,
        parse_args-args_bytes args rest [] h,
      )
      (ground arith)

pub args_bytes-AreBytes : (args : List Bytes) → All AreBytes args → AreBytes (args_bytes args)
unfolding write_u32
args_bytes-AreBytes [] h = tt
args_bytes-AreBytes (a ∷ args) h =
    All-append (λ b. b < 256) (write_u32 (length a)) (a ++ args_bytes args)
      (le_bytes-AreBytes 4 (length a))
      (All-append (λ b. b < 256) a (args_bytes args) h.0 (args_bytes-AreBytes args h.1))

pub put_args-size :
    (args : List Bytes) (body : Bytes)
    → (4 * length args + length body ≤ length (put_args args body))
      × (length (put_args args body) ≤ max_msg → AreShort args)
unfolding put_args put write_u32
put_args-size [] body = (omega arith, λ h. tt)
put_args-size (a ∷ args) body =
    let word = le_bytes 4 (length a % 2 ^ 32) in
    let later = put_args-size args ((body ++ word) ++ a) in
    let size : length ((body ++ word) ++ a) ≡ length body + 4 + length a = omega (
      arith,
      length-append (body ++ word) a,
      length-append body word,
      length-le_bytes 4 (length a % 2 ^ 32),
    ) in
    (omega arith, λ h. (omega arith, later.1 h))
