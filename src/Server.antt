-- ===== src/Server.antt =====
-- Of src/server/server.cpp and include/server/conn.h: the framing of requests (try_one_request and
-- the loop of handle_read) and next_timer_ms. The execution of a command, do_request, is a
-- parameter: it works on the state of the keyspace and gives the reply that it appends to an empty
-- buffer.
-- A buffer is erased from its front, so that each request is read at the front of `incoming`.
pub mod Frames
pub mod Timers
pub mod Held
pub mod Reaper
pub mod Writes
pub mod Loop
pub mod Idle
pub mod Closing
mod Tests
mod TimerTests
use mini_redis.Base.Int.{ℤ, pos, negsuc}
use mini_redis.Base.{
  ◌>>=◌, ℕ, zero, suc, ◌+◌, ◌-◌, ◌%◌, ◌^◌, Bool, true, false, List, [], ◌∷◌, ◌++◌, Option, none,
  some, Bytes, length, take, drop, is_empty, ltb, leb, ◌==◌, if◌then◌else◌,
}
use mini_redis.Wire.{max_msg, read_u32, write_u32, parse_req}
use mini_redis.Heap.{HeapItem}
use mini_redis.Serialize.{out_err}

pub record Conn : Type 0 where
  pub want_read : Bool
  pub want_write : Bool
  pub want_close : Bool
  pub incoming : Bytes
  pub outgoing : Bytes

abbrev pub err_arg : ℕ
err_arg = 2

-- The bytes of "bad request".
abbrev pub bad_request : Bytes
bad_request = 98 ∷ 97 ∷ 100 ∷ 32 ∷ 114 ∷ 101 ∷ 113 ∷ 117 ∷ 101 ∷ 115 ∷ 116 ∷ []

unfoldable pub buf_append : Bytes → Bytes → Bytes
buf_append buf bytes = buf ++ bytes

unfoldable pub buf_consume : Bytes → ℕ → Bytes
buf_consume buf n = drop n buf

module _ {ℓ} {D : Type ℓ} (do_request : List Bytes → D → D × Bytes) where
  -- The reply to a request body: `do_request`, or an error if it does not parse.
  pub respond : Bytes → D → D × Bytes
  respond body db = elim (parse_req body []) [
    | none ↦ (db, out_err [] (pos err_arg) bad_request)
    | some cmd ↦ do_request cmd db
  ]

  -- Whether a request was processed, the connection and the keyspace.
  unfoldable pub try_one_request : Conn → D → Bool × Conn × D
  try_one_request c db =
      let len = read_u32 c.incoming in
      let (db', resp) = respond (take len (drop 4 c.incoming)) db in
      let outgoing = buf_append (buf_append c.outgoing (write_u32 (length resp % 2 ^ 32))) resp in
      let answered = record c {
        incoming = buf_consume c.incoming (4 + len);
        outgoing = outgoing;
      } in
      if ltb (length c.incoming) 4
      then (false, c, db)
      else if ltb max_msg len
      then (false, record c { want_close = true }, db)
      else if ltb (length c.incoming) (4 + len)
      then (false, c, db)
      else (true, answered, db')

  -- `while (try_one_request(c)) {}`; every request takes four bytes at least.
  pub drain : ℕ → Conn → D → Option (Conn × D)
  drain zero c db = none
  drain (suc fuel) c db =
      let (more, c', db') = try_one_request c db in
      let rest = drain fuel c' db' in if more then rest else some (c', db')

  -- The part of `handle_read` behind a read that gave bytes.
  unfoldable pub handle_bytes : Conn → Bytes → D → Option (Conn × D)
  handle_bytes c buf db =
      let c₁ = record c { incoming = buf_append c.incoming buf } in
      drain (suc (length c₁.incoming)) c₁ db >>= λ (c₂, db').
      some (
        if is_empty c₂.outgoing then c₂ else record c₂ { want_read = false; want_write = true },
        db',
      )

-- What the system answers to a read: EAGAIN, an error or the end, or bytes.
pub data ReadResult : Type 0 where
  read_again : ReadResult
  read_ended : ReadResult
  read_bytes : Bytes → ReadResult

-- And to a write: EAGAIN, an error, or how many bytes it took.
pub data WriteResult : Type 0 where
  write_again : WriteResult
  write_failed : WriteResult
  written : ℕ → WriteResult

unfoldable pub handle_read {ℓ} :
    {D : Type ℓ} → (List Bytes → D → D × Bytes) → Conn → ReadResult → D → Option (Conn × D)
unfolding handle_bytes
handle_read do_request c read_again db = some (c, db)
handle_read do_request c read_ended db = some (record c { want_close = true }, db)
handle_read do_request c (read_bytes buf) db = handle_bytes do_request c buf db

-- The part of `handle_write` behind the write.
pub after_write : Conn → WriteResult → Conn
after_write c write_again = c
after_write c write_failed = record c { want_close = true }
after_write c (written n) =
    let outgoing = buf_consume c.outgoing n in
    let c' = record c { outgoing = outgoing } in
    if is_empty outgoing then record c' { want_read = true; want_write = false } else c'

unfoldable pub handle_write : Conn → WriteResult → Conn
unfolding after_write
handle_write c rv = if is_empty c.outgoing then c else after_write c rv

-- `(int32_t)` of a 64-bit number.
unfoldable pub as_i32 : ℕ → ℤ
as_i32 n = let low = n % 2 ^ 32 in if ltb low (2 ^ 31) then pos low else negsuc (2 ^ 32 - 1 - low)

-- The nearest deadline of the idle list, whose connections were last active at the times
-- `last_active`, the front first, and of the timer heap; 2 ^ 64 - 1 if there is none.
unfoldable pub next_deadline : List ℕ → ℕ → List HeapItem → ℕ
next_deadline last_active idle_timeout_ms ttl =
    let idle : ℕ = elim last_active [
      | [] ↦ 2 ^ 64 - 1
      | t ∷ later ↦ (t + idle_timeout_ms) % 2 ^ 64
    ] in
    elim ttl [ [] ↦ idle | root ∷ items ↦ if ltb root.val idle then root.val else idle ]

-- The clock's reading is `now_ms`.
unfoldable pub next_timer_ms : List ℕ → ℕ → List HeapItem → ℕ → ℤ
next_timer_ms last_active idle_timeout_ms ttl now_ms =
    let next_ms = next_deadline last_active idle_timeout_ms ttl in
    if next_ms == 2 ^ 64 - 1
    then negsuc 0
    else if leb next_ms now_ms
    then pos 0
    else as_i32 ((next_ms + 2 ^ 64 - now_ms) % 2 ^ 64)
