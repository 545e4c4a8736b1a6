-- ===== src/Wire/Accepts.antt =====
-- What the request parser accepts: the encoding of its result, and nothing else.
use mathlib.Core.List.{append_assoc, append-nil}
use mini_redis.Base.{
  Option-cases, inl, inr, ℕ, zero, suc, ◌-◌, ◌%◌, ◌^◌, ◌≤◌, ◌<◌, ◌≡◌, refl, sym, ap, ◌∙◌, List, [],
  ◌∷◌, ◌++◌, Option, none, some, Bytes, AreBytes, length, take, drop, arith, le_bytes-of_le,
  of_le-lt, length-take, take-append-drop, AreBytes-drop, AreBytes-take, length-drop, inl, inr,
}
use mini_redis.Wire.{
  k_max_args, max_msg, read_u32, write_u32, parse_args, all_consumed, parse_req, put, encode_body,
  encode_request,
}
use mini_redis.Wire.RoundTrip.{
  args_bytes, AreShort, encode_body-args_bytes, parse_req-behind, put_args-size,
}

-- A word of four bytes is what `write_u32` makes of the number that it is read as.
cut_u32 :
    (cursor : Bytes)
    → AreBytes cursor
    → 4 ≤ length cursor
    → (write_u32 (read_u32 cursor) ++ drop 4 cursor ≡ cursor)
      × (read_u32 cursor < 2 ^ 32)
      × AreBytes (drop 4 cursor)
unfolding read_u32 write_u32
cut_u32 (a ∷ b ∷ c ∷ d ∷ rest) h n =
    let word = a ∷ b ∷ c ∷ d ∷ [] in
    let small : AreBytes word = (h.0, (h.1.0, (h.1.1.0, (h.1.1.1.0, tt)))) in
    (ap (λ w. w ++ rest) (le_bytes-of_le word small), of_le-lt word small, h.1.1.1.1)
cut_u32 _ h n = absurd (omega arith)

-- What `parse_args` read, when it succeeded.
pub record Reads (cursor : Bytes) (before : List Bytes) (rest : Bytes) (out : List Bytes)
    : Type 0 where
  pub args : List Bytes
  pub bytes : cursor ≡ args_bytes args ++ rest
  pub appended : out ≡ before ++ args
  pub short : AreShort args

read_one :
    (len : ℕ) (behind rest : Bytes) (args : List Bytes)
    → length (take len behind) ≡ len
    → take len behind ++ drop len behind ≡ behind
    → drop len behind ≡ args_bytes args ++ rest
    → write_u32 len ++ behind ≡ args_bytes (take len behind ∷ args) ++ rest
read_one len behind rest args size whole later = rw size (
    ap (λ t. write_u32 len ++ t) (sym whole ∙ ap (λ t. take len behind ++ t) later)
    ∙ simp append_assoc)

parse_args-Reads :
    (rounds : ℕ) (cursor rest : Bytes) (before out : List Bytes)
    → AreBytes cursor
    → parse_args rounds cursor before ≡ some (rest, out)
    → (r : Reads cursor before rest out) × (length r.args ≡ rounds)
unfolding parse_args
parse_args-Reads zero cursor rest before out small e = (
  record {
    args = [];
    bytes = ground arith;
    appended = ground (arith, append-nil before);
    short = tt;
  },
  refl,
)
parse_args-Reads (suc rounds) cursor rest before out small e =
    let len = read_u32 cursor in
    let behind = drop 4 cursor in
    let (header, small_len, small_behind) = cut_u32 cursor small (ground arith) in
    let enough : len ≤ length behind = ground arith in
    let whole : take len behind ++ drop len behind ≡ behind = take-append-drop len behind in
    let size : length (take len behind) ≡ len = omega (arith, length-take len behind) in
    let later =
      parse_args-Reads rounds (drop len behind) rest (before ++ take len behind ∷ []) out
        (AreBytes-drop len behind small_behind) (ground arith) in
    (
      record {
        args = take len behind ∷ later.0.args;
        bytes = sym header ∙ read_one len behind rest later.0.args size whole later.0.bytes;
        appended = later.0.appended ∙ append_assoc before _ _;
        short = (omega arith, later.0.short);
      },
      ap suc later.1,
    )

accepted :
    (o : Option (Bytes × List Bytes)) (args : List Bytes)
    → all_consumed o ≡ some args
    → o ≡ some ([], args)
unfolding all_consumed
accepted none args e = cc
accepted (some ([], out)) args e = ground arith
accepted (some (x ∷ rest, out)) args e = cc

-- What `parse_req` accepts: an encoded body and nothing behind it.
parse_req-Reads :
    (cursor : Bytes) (args : List Bytes)
    → AreBytes cursor
    → parse_req cursor [] ≡ some args
    → (cursor ≡ write_u32 (length args) ++ args_bytes args)
      × AreShort args
      × (length args ≤ k_max_args)
unfolding parse_req all_consumed
parse_req-Reads cursor args small e =
    let nstr = read_u32 cursor in
    let (header, _, small_behind) = cut_u32 cursor small (ground arith) in
    let run = accepted (parse_args (nstr - 0) (drop 4 cursor) []) args (ground arith) in
    let (r, rounds) = parse_args-Reads (nstr - 0) (drop 4 cursor) [] [] args small_behind run in
    let count : length args ≡ nstr = rw r.appended (omega arith) in
    (
      rw (count, r.appended)
          (sym header ∙ ap (λ t. write_u32 nstr ++ t) (rw append-nil at r.bytes)),
      rw r.appended r.short,
      ground arith,
    )

fitting :
    (args : List Bytes)
    → length (encode_body args) ≤ max_msg
    → AreShort args × (length args ≤ k_max_args)
unfolding encode_body
fitting args fits =
    let size = put_args-size args (put [] (length args % 2 ^ 32)) in (size.1 fits, omega arith)

-- Within the limit, the counts fit their four bytes and there are not too many arguments.
parse_req-fitting :
    (args : List Bytes)
    → length (encode_body args) ≤ max_msg
    → parse_req (encode_body args) [] ≡ some args
parse_req-fitting args fits =
    let (short, count) = fitting args fits in
    let body = write_u32 (length args) ++ args_bytes args in
    rw (encode_body-args_bytes args short (omega arith))
      (rw (append-nil body) at (parse_req-behind args [] short count))

-- The client's frame is a header with the size of the body and then the body, which is within the
-- limit that the server checks, and which the server's parser reads back as the same arguments.
pub parse_req-encode_request :
    (args : List Bytes) (frame : Bytes)
    → encode_request args ≡ some frame
    → let body = encode_body args in
      (frame ≡ write_u32 (length body) ++ body)
      × (length body ≤ max_msg)
      × (parse_req body [] ≡ some args)
unfolding encode_request
parse_req-encode_request args frame e =
    let body = encode_body args in
    let fits : length body ≤ max_msg = ground arith in
    let small : length body % 2 ^ 32 ≡ length body = omega arith in
    let header : frame ≡ write_u32 (length body % 2 ^ 32) ++ body = ground arith in
    (rw small at header, fits, parse_req-fitting args fits)

-- A body that the parser accepts is the encoding of the arguments that it returns, of which there
-- are no more than the limit: the parser accepts one spelling of each command.
pub encode_body-parse_req :
    (body : Bytes) (args : List Bytes)
    → AreBytes body
    → parse_req body [] ≡ some args
    → (encode_body args ≡ body) × (length args ≤ k_max_args)
encode_body-parse_req body args small e =
    let (bytes, short, count) = parse_req-Reads body args small e in
    (encode_body-args_bytes args short (omega arith) ∙ sym bytes, count)

parse_req-longer :
    (front rest : Bytes) (args : List Bytes)
    → AreBytes front
    → parse_req front [] ≡ some args
    → 0 < length rest
    → parse_req (front ++ rest) [] ≡ none
parse_req-longer front [] args small e h = absurd (omega arith)
parse_req-longer front (x ∷ more) args small e h =
    let (bytes, short, count) = parse_req-Reads front args small e in
    rw bytes (parse_req-behind args (x ∷ more) short count)

-- A body that the parser accepts is refused when it is cut short anywhere, and when any bytes
-- stand behind it.
pub parse_req-cut :
    (body : Bytes) (args : List Bytes)
    → AreBytes body
    → parse_req body [] ≡ some args
    → ((n : ℕ) → n < length body → parse_req (take n body) [] ≡ none)
      × ((x : ℕ) (more : Bytes) → parse_req (body ++ x ∷ more) [] ≡ none)
parse_req-cut body args small e = (
  λ n shorter. elim (Option-cases (parse_req (take n body) [])) [
    | inl refused ↦ refused
    | inr (others, accepts) ↦
        let longer =
          parse_req-longer (take n body) (drop n body) others (AreBytes-take n body small) accepts
            (omega (arith, length-drop n body)) in
        let whole : parse_req body [] ≡ none = rw (take-append-drop n body) at longer in absurd (cc)
  ],
  λ x more. parse_req-longer body (x ∷ more) args small e (omega arith),
)
