-- ===== src/Server/Loop.antt =====
-- The connections of the event loop in src/server/server.cpp and include/server/conn.h: the table by
-- descriptor and the idle list, accept_new behind its system calls, what run does for a ready
-- descriptor, and the idle loop of process_timers. The idle list is the list of the descriptors of
-- its connections, of which dlist_detach takes one out and dlist_insert_before at the head of the ring
-- puts one at the back.
use mini_redis.Base.{
  ◌>>=◌, ℕ, ◌+◌, ◌%◌, ◌^◌, ◌≤◌, ◌≡◌, Bool, true, false, ◌||◌, List, [], ◌∷◌, ◌++◌, Option, none,
  some, Bytes, ltb, ◌==◌, if◌then◌else◌,
}
use mini_redis.Server.{Conn, ReadResult, WriteResult, handle_read, handle_write}

pub record Loop {ℓ} (D : Type ℓ) : Type ℓ where
  pub conns : ℕ → Option Conn
  pub last_active : ℕ → ℕ
  pub idle : List ℕ
  pub db : D

-- A descriptor out of the list, and the value of a function at one argument.
unfoldable pub detach : ℕ → List ℕ → List ℕ
detach fd [] = []
detach fd (x ∷ xs) = let rest = detach fd xs in if x == fd then xs else x ∷ rest

abbrev pub write_at {ℓ} : {A : Type ℓ} → (ℕ → A) → ℕ → A → ℕ → A
write_at f x a y = if y == x then a else f y

-- `Conn{}` with want_read.
abbrev pub new_conn : Conn
new_conn = record {
  want_read = true;
  want_write = false;
  want_close = false;
  incoming = [];
  outgoing = [];
}

-- What poll says of a descriptor: POLLIN, POLLOUT, POLLERR or POLLHUP; and what the system answers
-- to the read and the write.
pub record Ready : Type 0 where
  pub readable : Bool
  pub writable : Bool
  pub broken : Bool
  pub read : ReadResult
  pub write : WriteResult

module _ {ℓ} {D : Type ℓ} where
  unfoldable pub accept_new : Loop D → ℕ → ℕ → Loop D
  accept_new s fd now = record s {
    conns = write_at s.conns fd (some new_conn);
    last_active = write_at s.last_active fd now;
    idle = s.idle ++ fd ∷ [];
  }

  -- `conns_[fd].reset()`
  unfoldable pub reset_conn : Loop D → ℕ → Loop D
  reset_conn s fd = record s { conns = write_at s.conns fd none; idle = detach fd s.idle }

  unfoldable pub refresh : Loop D → ℕ → ℕ → Loop D
  refresh s fd now = record s {
    last_active = write_at s.last_active fd now;
    idle = detach fd s.idle ++ fd ∷ [];
  }

  -- The connection and the keyspace after the reads and writes of one descriptor.
  unfoldable pub serve : (List Bytes → D → D × Bytes) → Ready → Conn → D → Option (Conn × D)
  serve do_request ready c db =
      (if ready.readable then handle_read do_request c ready.read db else some (c, db))
      >>= λ (c', db'). some (if ready.writable then handle_write c' ready.write else c', db')

  -- What run does for a descriptor with events.
  unfoldable pub handle_event :
      (List Bytes → D → D × Bytes) → Loop D → ℕ → ℕ → Ready → Option (Loop D)
  unfolding refresh reset_conn
  handle_event do_request s fd now ready = elim (s.conns fd) [
    | none ↦ some s
    | some c ↦ serve do_request ready c s.db >>= λ (c', db').
        let s' = record (refresh s fd now) { conns = write_at s.conns fd (some c'); db = db' } in
        some (if c'.want_close || ready.broken then reset_conn s' fd else s')
  ]

  -- The idle loop, over the list from its front.
  unfoldable pub close_front : ℕ → ℕ → List ℕ → Loop D → Loop D
  unfolding reset_conn
  close_front idle_timeout_ms now [] s = s
  close_front idle_timeout_ms now (fd ∷ later) s =
      let rest = close_front idle_timeout_ms now later (reset_conn s fd) in
      if ltb now ((s.last_active fd + idle_timeout_ms) % 2 ^ 64) then s else rest

  unfoldable pub close_idle : ℕ → ℕ → Loop D → Loop D
  unfolding close_front
  close_idle idle_timeout_ms now s = close_front idle_timeout_ms now s.idle s

  -- The timers: the connections, then the keys, whose reaping is a parameter here.
  unfoldable pub process_timers : (ℕ → D → D) → ℕ → ℕ → Loop D → Loop D
  unfolding close_idle
  process_timers reap idle_timeout_ms now s =
      let s' = close_idle idle_timeout_ms now s in record s' { db = reap now s'.db }

  -- The steps of the loop, at times that do not go back. A descriptor that accept gives is not open.
  pub data Step (do_request : List Bytes → D → D × Bytes) (reap : ℕ → D → D) (idle_timeout_ms : ℕ)
      : ℕ → Loop D → ℕ → Loop D → Type ℓ where
    accepts :
        (now now' : ℕ) (s : Loop D) (fd : ℕ)
        → now ≤ now'
        → s.conns fd ≡ none
        → Step do_request reap idle_timeout_ms now s now' (accept_new s fd now')
    handles :
        (now now' : ℕ) (s s' : Loop D) (fd : ℕ) (ready : Ready)
        → now ≤ now'
        → handle_event do_request s fd now' ready ≡ some s'
        → Step do_request reap idle_timeout_ms now s now' s'
    timers :
        (now now' : ℕ) (s : Loop D)
        → now ≤ now'
        → Step do_request reap idle_timeout_ms now s now'
            (process_timers reap idle_timeout_ms now' s)

  -- The states reached from the start.
  pub data Reached (do_request : List Bytes → D → D × Bytes) (reap : ℕ → D → D)
      (idle_timeout_ms : ℕ) : ℕ → Loop D → Type ℓ where
    start :
        (now : ℕ) (s : Loop D)
        → s.idle ≡ []
        → ((fd : ℕ) → s.conns fd ≡ none)
        → Reached do_request reap idle_timeout_ms now s
    further :
        (now now' : ℕ) (s s' : Loop D)
        → Reached do_request reap idle_timeout_ms now s
        → Step do_request reap idle_timeout_ms now s now' s'
        → Reached do_request reap idle_timeout_ms now' s'
