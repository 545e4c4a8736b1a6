-- ===== src/Wire/Tests.antt =====
-- Runs of the request parser and the instances of its theorems.
use mini_redis.Base.{
  List, [], ◌∷◌, ◌≡◌, refl, some, none, Bytes, le_bytes, of_le, ℕ, ◌<◌, ◌≤◌, ◌++◌, length, take,
  arith,
}
use mini_redis.Wire.{
  read_u32, write_u32, parse_args, all_consumed, parse_req, put, put_args, encode_body,
  encode_request, max_msg, k_max_args,
}
use mini_redis.Wire.Accepts.{parse_req-encode_request, encode_body-parse_req, parse_req-cut}

abbrev get_foo : List Bytes
get_foo = (b'g' ∷ b'e' ∷ b't' ∷ []) ∷ (b'f' ∷ b'o' ∷ b'o' ∷ []) ∷ []

program : Unit {0}
unfolding read_u32 write_u32 parse_args all_consumed parse_req put put_args encode_body
    encode_request le_bytes of_le
program = tt

parse_req-get_foo : parse_req (encode_body get_foo) [] ≡ some get_foo
unfolding program
parse_req-get_foo = refl

parse_req-short : parse_req (1 ∷ 0 ∷ 0 ∷ 0 ∷ 9 ∷ 0 ∷ 0 ∷ 0 ∷ b'x' ∷ []) [] ≡ none
unfolding program
parse_req-short = refl

parse_req-encode_request_example :
    let body = encode_body get_foo in
    (le_bytes 4 18 ++ body ≡ write_u32 (length body) ++ body)
    × (length body ≤ max_msg)
    × (parse_req body [] ≡ some get_foo)
parse_req-encode_request_example =
    parse_req-encode_request get_foo (le_bytes 4 18 ++ encode_body get_foo) (unfold program in refl)

abbrev ping : Bytes
ping = 1 ∷ 0 ∷ 0 ∷ 0 ∷ 2 ∷ 0 ∷ 0 ∷ 0 ∷ b'o' ∷ b'k' ∷ []

abbrev ping_args : List Bytes
ping_args = (b'o' ∷ b'k' ∷ []) ∷ []

encode_body-parse_req_example : (encode_body ping_args ≡ ping) × (length ping_args ≤ k_max_args)
encode_body-parse_req_example =
    encode_body-parse_req ping ping_args (omega arith) (unfold program in refl)

parse_req-cut_example :
    ((n : ℕ) → n < length ping → parse_req (take n ping) [] ≡ none)
    × ((x : ℕ) (more : Bytes) → parse_req (ping ++ x ∷ more) [] ≡ none)
parse_req-cut_example = parse_req-cut ping ping_args (omega arith) (unfold program in refl)
