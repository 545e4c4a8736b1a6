-- ===== src/Server/Tests.antt =====
-- A connection in the middle of a request, and the instances of the theorems.
use mini_redis.Base.{
  ℕ, suc, ◌≡◌, refl, true, false, List, [], ◌∷◌, ◌++◌, some, arith, Bytes, le_bytes, of_le,
}
use mathlib.Core.Path.{subst}
use mini_redis.Base.Int.{pos, negsuc}
use mini_redis.Base.{◌+◌, ◌<◌, ◌-◌, ◌^◌, ◌≤◌, zero, ap, get_or, All}
use mini_redis.Heap.{HeapItem}
use mini_redis.Heap.Order.{IsHeap}
use mini_redis.Server.{as_i32, next_deadline, next_timer_ms}
use mini_redis.Server.Timers.{IsTimely, IsNear, Sleeps, next_timer_ms-Sleeps}
use mini_redis.Wire.{read_u32, write_u32, parse_args, all_consumed, parse_req}
use mini_redis.Serialize.{as_u32, out_err}
use mini_redis.Server.{Conn, buf_append, buf_consume, respond, try_one_request, drain, handle_bytes}
use mini_redis.Command.Sample
use mini_redis.Server.{written, write_again, write_failed, handle_write}
use mini_redis.Server.Writes.{writes, writes-outgoing}
use mini_redis.Server.Reaper.{k_max_works, reap_keys, Reaps, reap_keys-Reaps}
use mini_redis.Server.Frames.{frames, no_header, answers, closing, flagged, handle_bytes-answers}

program : Unit {0}
unfolding le_bytes of_le read_u32 write_u32 parse_args all_consumed parse_req as_u32 out_err
    buf_append buf_consume respond try_one_request drain handle_bytes
program = tt

-- The keyspace counts the commands, and the reply to each is the byte 0.
abbrev count_commands : List Bytes → ℕ → ℕ × Bytes
count_commands cmd n = (suc n, 0 ∷ [])

abbrev halfway : Conn
halfway = record {
  want_read = true;
  want_write = false;
  want_close = false;
  incoming = 4 ∷ 0 ∷ 0 ∷ 0 ∷ 0 ∷ 0 ∷ [];
  outgoing = [];
}

abbrev answered : Conn
answered = record {
  want_read = false;
  want_write = true;
  want_close = false;
  incoming = [];
  outgoing = 1 ∷ 2 ∷ 3 ∷ 4 ∷ 5 ∷ [];
}

-- The rest of a command without arguments, a body that does not parse, and half of a header.
abbrev arrived : Bytes
arrived = 0 ∷ 0 ∷ 1 ∷ 0 ∷ 0 ∷ 0 ∷ 7 ∷ 9 ∷ 0 ∷ []

abbrev bodies : List Bytes
bodies = (0 ∷ 0 ∷ 0 ∷ 0 ∷ []) ∷ (7 ∷ []) ∷ []

handle_bytes-halfway :
    handle_bytes count_commands halfway arrived 5
    ≡ some (
      record {
        want_read = false;
        want_write = true;
        want_close = false;
        incoming = 9 ∷ 0 ∷ [];
        outgoing =
            1 ∷ 0 ∷ 0 ∷ 0 ∷ 0 ∷ 20 ∷ 0 ∷ 0 ∷ 0 ∷ 1 ∷ 2 ∷ 0 ∷ 0 ∷ 0 ∷ 11 ∷ 0 ∷ 0 ∷ 0 ∷ 98 ∷ 97 ∷ 100
            ∷ 32 ∷ 114 ∷ 101 ∷ 113 ∷ 117 ∷ 101 ∷ 115 ∷ 116 ∷ [];
      },
      6,
    )
unfolding program
handle_bytes-halfway = refl

arrived-frames : halfway.incoming ++ arrived ≡ frames bodies ++ (9 ∷ 0 ∷ [])
unfolding program
arrived-frames = refl

handle_bytes-answers_example :
    handle_bytes count_commands halfway arrived 5
    ≡ some (
      flagged (
          closing false (record halfway {
            incoming = 9 ∷ 0 ∷ [];
            outgoing = (answers count_commands bodies 5).1;
          })),
      (answers count_commands bodies 5).0,
    )
handle_bytes-answers_example =
    handle_bytes-answers count_commands halfway arrived 5 bodies (9 ∷ 0 ∷ []) false
      (omega arith, (omega arith, tt)) (no_header (omega arith)) arrived-frames

-- The last is due in thirty days.
abbrev expiring : List HeapItem
expiring =
    record { val = 900; ref = 1 }
    ∷ record { val = 950; ref = 2 }
    ∷ record { val = 2592000600; ref = 3 }
    ∷ []

timely_front :
    (a : ℕ) (later : List ℕ)
    → 400 ∷ 500 ∷ [] ≡ a ∷ later
    → (a + 1000 < 2 ^ 64) × All (λ b. a ≤ b) (a ∷ later)
timely_front a later e =
    subst (λ xs. (a + 1000 < 2 ^ 64) × All (λ b. a ≤ b) xs) e
      (subst (λ z. (z + 1000 < 2 ^ 64) × All (λ b. z ≤ b) (400 ∷ 500 ∷ [])) (head_eq e)
        (omega arith, (omega arith, (omega arith, tt))))
  where
    head_eq : 400 ∷ 500 ∷ [] ≡ a ∷ later → 400 ≡ a
    head_eq q = ap (λ xs. get_or xs 0 0) q

expiring-IsHeap : IsHeap expiring
expiring-IsHeap zero q r = absurd (omega arith)
expiring-IsHeap (suc zero) q r = omega arith
expiring-IsHeap (suc (suc zero)) q r = omega arith
expiring-IsHeap (suc (suc (suc c))) q r = absurd (omega arith)

expiring-IsTimely : IsTimely (400 ∷ 500 ∷ []) 1000 expiring
expiring-IsTimely = record { front_first = timely_front; heap = expiring-IsHeap }

-- The nearest is not after the first key.
nearest : IsNear (400 ∷ 500 ∷ []) 1000 expiring (600 + 2 ^ 31)
nearest t deadline bound = let first = bound.keys 0 (omega arith) in omega arith

next_timer_ms-expiry : next_timer_ms (400 ∷ 500 ∷ []) 1000 expiring 600 ≡ pos 300
unfolding next_timer_ms next_deadline as_i32
next_timer_ms-expiry = refl

next_timer_ms-Sleeps_example :
    Sleeps (400 ∷ 500 ∷ []) 1000 expiring 600 (next_timer_ms (400 ∷ 500 ∷ []) 1000 expiring 600)
next_timer_ms-Sleeps_example =
    next_timer_ms-Sleeps (400 ∷ 500 ∷ []) 1000 expiring 600 expiring-IsTimely (omega arith) nearest

-- A key that is due in 2 ^ 31 milliseconds makes poll wait without a limit.
next_timer_ms-far :
    next_timer_ms [] 1000 (record { val = 2 ^ 31 + 600; ref = 1 } ∷ []) 600 ≡ negsuc (2 ^ 31 - 1)
unfolding next_timer_ms next_deadline as_i32
next_timer_ms-far = refl

-- At the time of its deadline the string is reaped.
reap_keys-Reaps_example :
    Reaps k_max_works 5000 Sample.sample (reap_keys k_max_works 5000 Sample.sample)
reap_keys-Reaps_example = reap_keys-Reaps k_max_works 5000 Sample.sample Sample.sample-IsValid

-- Two bytes go, then none, then the rest, and a write that fails.
writes-outgoing_example :
    (writes answered (written 2 ∷ write_again ∷ written 3 ∷ write_failed ∷ [])).1
      ++ (writes answered (written 2 ∷ write_again ∷ written 3 ∷ write_failed ∷ [])).0.outgoing
    ≡ 1 ∷ 2 ∷ 3 ∷ 4 ∷ 5 ∷ []
writes-outgoing_example =
    writes-outgoing answered (written 2 ∷ write_again ∷ written 3 ∷ write_failed ∷ [])

-- When the last byte is gone, the connection reads again.
handle_write-turns : (handle_write answered (written 5)).want_read ≡ true
unfolding buf_consume handle_write
handle_write-turns = refl
