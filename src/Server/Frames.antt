-- ===== src/Server/Frames.antt =====
-- The drain loop answers the requests that are there, one after the other.
use mathlib.Core.List.{append-nil, append_assoc}
use mathlib.Core.Path.{subst}
use mini_redis.Base.{
  ℕ, zero, suc, ◌+◌, ◌%◌, ◌^◌, ◌≤◌, ◌<◌, ◌≡◌, refl, sym, ap, ◌∙◌, Bool, true, false, List, [], ◌∷◌,
  ◌++◌, some, arith, Bytes, length, length-append, take, drop, take_left, drop_left, All, is_empty,
  ltb, if◌then◌else◌,
}
use mini_redis.Wire.{max_msg, read_u32, write_u32}
use mini_redis.Wire.RoundTrip.{read_u32-write_u32, drop-write_u32, length-write_u32}
use mini_redis.Server.{Conn, buf_append, buf_consume, respond, try_one_request, drain, handle_bytes}

-- The requests as the client frames them.
abbrev pub frames : List Bytes → Bytes
frames [] = []
frames (body ∷ bodies) = write_u32 (length body) ++ (body ++ frames bodies)

-- What stands behind the last complete request: the beginning of another one, or a header that
-- claims more than the limit.
pub data IsTail (tail : Bytes) : Bool → Type 0 where
  no_header : length tail < 4 → IsTail tail false
  no_body :
      4 ≤ length tail
      → read_u32 tail ≤ max_msg
      → length tail < 4 + read_u32 tail
      → IsTail tail false
  oversized : 4 ≤ length tail → max_msg < read_u32 tail → IsTail tail true

abbrev pub closing : Bool → Conn → Conn
closing true c = record c { want_close = true }
closing false c = c

frame_gone :
    (body rest : Bytes) → drop (4 + length body) (write_u32 (length body) ++ (body ++ rest)) ≡ rest
frame_gone body rest =
    let front = write_u32 (length body) ++ body in
    let size : 4 + length body ≡ length front =
      omega (arith, length-write_u32 (length body) body) in
    rw (sym (append_assoc (write_u32 (length body)) body rest), size) (drop_left front rest)

reframed :
    (body : Bytes) (bodies : List Bytes) (tail : Bytes)
    → frames (body ∷ bodies) ++ tail ≡ write_u32 (length body) ++ (body ++ (frames bodies ++ tail))
reframed body bodies tail =
    append_assoc (write_u32 (length body)) (body ++ frames bodies) tail
    ∙ ap (◌++◌ (write_u32 (length body))) (append_assoc body (frames bodies) tail)

count-frames : (bodies : List Bytes) → length bodies ≤ length (frames bodies)
count-frames [] = omega arith
count-frames (body ∷ bodies) = omega (
  arith,
  count-frames bodies,
  length-write_u32 (length body) (body ++ frames bodies),
  length-append body (frames bodies),
)

-- What `handle_read` does with the flags when the requests are drained.
abbrev pub flagged : Conn → Conn
flagged c = if is_empty c.outgoing then c else record c { want_read = false; want_write = true }

module _ {ℓ} {D : Type ℓ} (do_request : List Bytes → D → D × Bytes) where
  -- The requests answered one by one: the keyspace after them and the framed replies.
  abbrev pub answers : List Bytes → D → D × Bytes
  answers [] db = (db, [])
  answers (body ∷ bodies) db =
      let (db₁, resp) = respond do_request body db in
      let (db₂, later) = answers bodies db₁ in
      (db₂, write_u32 (length resp % 2 ^ 32) ++ (resp ++ later))

  try_frame :
      (c : Conn) (db : D) (body rest : Bytes)
      → length body ≤ max_msg
      → c.incoming ≡ write_u32 (length body) ++ (body ++ rest)
      → let (db', resp) = respond do_request body db in
        try_one_request do_request c db ≡ (
          true,
          record c {
            incoming = rest;
            outgoing = (c.outgoing ++ write_u32 (length resp % 2 ^ 32)) ++ resp;
          },
          db',
        )
  unfolding try_one_request buf_append buf_consume
  try_frame c db body rest short e =
      let n = length body in
      let whole = write_u32 n ++ (body ++ rest) in
      let len : read_u32 whole ≡ n = read_u32-write_u32 n (body ++ rest) (omega arith) in
      let size : length whole ≡ n + length rest + 4 =
        omega (arith, length-write_u32 n (body ++ rest), length-append body rest) in
      let t : ltb (length whole) 4 ≡ false = ground arith in
      let t' : ltb max_msg n ≡ false = ground arith in
      let t'' : ltb (length whole) (4 + n) ≡ false = ground arith in
      let taken : take n (drop 4 whole) ≡ body =
        ap (take n) (drop-write_u32 n (body ++ rest)) ∙ take_left body rest in
      rw (e, len, t, t', t'', taken, frame_gone body rest)

  try_tail :
      (c : Conn) (db : D) (close : Bool)
      → IsTail c.incoming close
      → try_one_request do_request c db ≡ (false, closing close c, db)
  unfolding try_one_request
  try_tail c db close (no_header h) =
      let t : ltb (length c.incoming) 4 ≡ true = ground arith in rw t
  try_tail c db close (no_body h k m) =
      let t : ltb (length c.incoming) 4 ≡ false = ground arith in
      let t' : ltb max_msg (read_u32 c.incoming) ≡ false = ground arith in
      let t'' : ltb (length c.incoming) (4 + read_u32 c.incoming) ≡ true = ground arith in
      rw (t, t', t'')
  try_tail c db close (oversized h k) =
      let t : ltb (length c.incoming) 4 ≡ false = ground arith in
      let t' : ltb max_msg (read_u32 c.incoming) ≡ true = ground arith in rw (t, t')

  drain_lem :
      (fuel : ℕ) (c : Conn) (db : D) (bodies : List Bytes) (tail : Bytes) (close : Bool)
      → length bodies < fuel
      → All (λ b. length b ≤ max_msg) bodies
      → IsTail tail close
      → c.incoming ≡ frames bodies ++ tail
      → let (db', replies) = answers bodies db in
        drain do_request fuel c db
        ≡ some (closing close (record c { incoming = tail; outgoing = c.outgoing ++ replies }), db')
  unfolding drain
  drain_lem zero c db bodies tail close enough short end e = absurd (omega arith)
  drain_lem (suc fuel) c db [] tail close enough short end e =
      rw (try_tail c db close (subst (λ bs. IsTail bs close) (sym e) end)) (
        ap (λ d. some (closing close d, db))
          (λ i. record c { incoming = e i; outgoing = sym (append-nil c.outgoing) i }))
  drain_lem (suc fuel) c db (body ∷ bodies) tail close enough short end e =
      let (db₁, resp) = respond do_request body db in
      let header = write_u32 (length resp % 2 ^ 32) in
      let (db₂, later) = answers bodies db₁ in
      let c₁ = record c {
        incoming = frames bodies ++ tail;
        outgoing = (c.outgoing ++ header) ++ resp;
      } in
      let order =
        append_assoc (c.outgoing ++ header) resp later
        ∙ append_assoc c.outgoing header (resp ++ later) in
      rw (try_frame c db body (frames bodies ++ tail) short.0 (e ∙ reframed body bodies tail)) (
        drain_lem fuel c₁ db₁ bodies tail close (omega arith) short.1 end refl
        ∙ ap (λ out. some (closing close (record c { incoming = tail; outgoing = out }), db₂))
            order)

  -- However the bytes of the requests arrive: once the bytes there and those just read are some
  -- complete requests within the limit and a tail, each request is answered once, in order, its
  -- framed reply behind the replies that wait to be sent; the tail stays for later, and the
  -- connection is to be closed if the tail starts with a header over the limit. The loop ends.
  pub handle_bytes-answers :
      (c : Conn) (buf : Bytes) (db : D) (bodies : List Bytes) (tail : Bytes) (close : Bool)
      → All (λ b. length b ≤ max_msg) bodies
      → IsTail tail close
      → c.incoming ++ buf ≡ frames bodies ++ tail
      → let (db', replies) = answers bodies db in
        handle_bytes do_request c buf db
        ≡ some (
          flagged (closing close (record c { incoming = tail; outgoing = c.outgoing ++ replies })),
          db',
        )
  unfolding handle_bytes buf_append
  handle_bytes-answers c buf db bodies tail close short end e =
      let c₁ = record c { incoming = c.incoming ++ buf } in
      let total = length-append (frames bodies) tail in
      let same : length (c.incoming ++ buf) ≡ length (frames bodies ++ tail) = ap length e in
      let (db', replies) = answers bodies db in
      let c₂ = closing close (record c { incoming = tail; outgoing = c.outgoing ++ replies }) in
      let run =
        drain_lem (suc (length (c.incoming ++ buf))) c₁ db bodies tail close
          (omega (arith, count-frames bodies)) short end e in
      rw (handle_bytes, run)
