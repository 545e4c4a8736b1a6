-- ===== src/Server/TimerTests.antt =====
-- Two connections, of which the timers close the one that is idle for too long.
use mini_redis.Base.{◌>>=◌, ℕ, suc, ◌≡◌, refl, true, false, List, [], ◌∷◌, none, some, Bytes, arith}
use mini_redis.Server.{write_failed, read_ended}
use mini_redis.Server.Loop.{
  Loop, Ready, accept_new, reset_conn, refresh, serve, handle_event, process_timers, Reached,
  accepts, start, further, detach,
}
use mini_redis.Server.Closing.{process_timers-closes}

abbrev count_commands : List Bytes → ℕ → ℕ × Bytes
count_commands cmd n = (suc n, 0 ∷ [])

abbrev begun : Loop ℕ
begun = record { conns = λ fd. none; last_active = λ fd. 0; idle = []; db = 0 }

abbrev two : Loop ℕ
two = accept_new (accept_new begun 5 10) 6 20

two-Reached : Reached count_commands (λ now n. n) 30000 20 two
unfolding accept_new
two-Reached =
    further 10 20 (accept_new begun 5 10) two
      (further 0 10 begun (accept_new begun 5 10) (start 0 begun refl (λ fd. refl))
        (accepts 0 10 begun 5 (omega arith) refl))
      (accepts 10 20 (accept_new begun 5 10) 6 (omega arith) refl)

process_timers-closes_example : (process_timers (λ now n. n) 30000 30010 two).conns 5 ≡ none
unfolding accept_new
process_timers-closes_example =
    process_timers-closes count_commands (λ now n. n) 30000 20 30010 two two-Reached (omega arith)
      (omega arith) 5

-- The socket of one breaks, and the other stays.
broken : Ready
broken = record {
  readable = false;
  writable = false;
  broken = true;
  read = read_ended;
  write = write_failed;
}

breaks :
    ((handle_event count_commands two 5 40 broken >>= λ s. some s.idle) ≡ some (6 ∷ []))
    × ((handle_event count_commands two 5 40 broken >>= λ s. s.conns 5) ≡ none)
unfolding accept_new reset_conn refresh serve handle_event broken detach
breaks = (refl, refl)
