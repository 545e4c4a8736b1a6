-- ===== src/Wire.antt =====
-- The request format: include/protocol/wire.h, src/protocol/wire.cpp, and the encoder of requests
-- in client/client.cpp. The cursor `cursor` of the parser is the list of the bytes from it to `end`.
-- The parser is given an `out` of its caller and appends to it; `none` is its -1.
pub mod RoundTrip
pub mod Accepts
mod Tests
use mini_redis.Base.{
  ℕ, zero, suc, ◌+◌, ◌-◌, ◌*◌, ◌%◌, ◌^◌, List, [], ◌∷◌, ◌++◌, Option, none, some, Bytes, le_bytes,
  of_le, length, take, drop, is_empty, ltb, if◌then◌else◌,
}

-- The largest payload of a frame, in bytes.
abbrev pub max_msg : ℕ
max_msg = 32 * 1024

abbrev pub k_max_args : ℕ
k_max_args = 200 * 1000

unfoldable pub read_u32 : Bytes → ℕ
read_u32 p = of_le (take 4 p)

unfoldable pub write_u32 : ℕ → Bytes
write_u32 v = le_bytes 4 v

-- The rounds left of `while (out.size() < nstr)`, each of which appends one argument.
unfoldable pub parse_args : ℕ → Bytes → List Bytes → Option (Bytes × List Bytes)
parse_args zero cursor out = some (cursor, out)
parse_args (suc rounds) cursor out =
    let len = read_u32 cursor in
    let rest = drop 4 cursor in
    let more = parse_args rounds (drop len rest) (out ++ take len rest ∷ []) in
    if ltb (length cursor) 4 then none else if ltb (length rest) len then none else more

unfoldable pub all_consumed : Option (Bytes × List Bytes) → Option (List Bytes)
all_consumed none = none
all_consumed (some (cursor, out)) = if is_empty cursor then some out else none

unfoldable pub parse_req : Bytes → List Bytes → Option (List Bytes)
parse_req cursor out =
    let nstr = read_u32 cursor in
    if ltb (length cursor) 4
    then none
    else if ltb k_max_args nstr
    then none
    else all_consumed (parse_args (nstr - length out) (drop 4 cursor) out)

-- `put` of the client's encoder: append a number of four bytes.
pub put : Bytes → ℕ → Bytes
put body v = body ++ write_u32 v

pub put_args : List Bytes → Bytes → Bytes
put_args [] body = body
put_args (a ∷ args) body = put_args args (put body (length a % 2 ^ 32) ++ a)

-- The request body that `send_command` builds.
unfoldable pub encode_body : List Bytes → Bytes
encode_body args = put_args args (put [] (length args % 2 ^ 32))

-- What `send_command` writes to the socket, header and body; `none` is "command too long".
unfoldable pub encode_request : List Bytes → Option Bytes
encode_request args =
    let body = encode_body args in
    if ltb max_msg (length body) then none else some (write_u32 (length body % 2 ^ 32) ++ body)
