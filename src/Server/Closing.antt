-- ===== src/Server/Closing.antt =====
-- The steps of the event loop of src/server/server.cpp keep the idle list in order, so that the loop
-- over its front closes just the connections that are idle for too long.
use mathlib.Core.Option.{some-injective}
use mathlib.Core.Path.{subst}
use mini_redis.Base.{
  ℕ, ◌+◌, ◌%◌, ◌^◌, ◌≤◌, ◌<◌, ◌≡◌, ◌≢◌, refl, ap, ◌∙◌, Bool, true, false, ◌||◌, List, [], ◌∷◌,
  Option, none, some, Bytes, arith, ltb, All, ◌==◌, ==_iff, Bool-cases, Option-cases, inl, inr,
  if◌then◌else◌,
}
use mini_redis.Server.{Conn}
use mini_redis.SortedSet.Sorted.{All-map}
use mini_redis.Server.Loop.{
  Loop, detach, write_at, Ready, reset_conn, refresh, serve, handle_event, close_front, close_idle,
  process_timers, Step, accepts, handles, timers, Reached, start, further,
}
use mini_redis.Server.Idle.{
  IsOrdered, later-IsOrdered, reset_conn-IsOrdered, accept_new-IsOrdered, touched-IsOrdered,
  settled-IsOrdered, close_front-IsOrdered, write_at-other,
}

module _ {ℓ} {D : Type ℓ} (do_request : List Bytes → D → D × Bytes) where
  handle_event-IsOrdered :
      (now : ℕ) (s s' : Loop D) (fd : ℕ) (ready : Ready)
      → handle_event do_request s fd now ready ≡ some s'
      → IsOrdered now s
      → IsOrdered now s'
  unfolding handle_event
  handle_event-IsOrdered now s s' fd ready run v = elim (Option-cases (s.conns fd)) [
    | inl e ↦
        let same = some-injective s s' (rw (handle_event, e) at run) in subst (IsOrdered now) same v
    | inr (c, e) ↦ elim (Option-cases (serve do_request ready c s.db)) [
      | inl f ↦ let clash = rw (handle_event, e, f) at run in absurd cc
      | inr ((c', db'), f) ↦
          let t = record (refresh s fd now) { conns = write_at s.conns fd (some c'); db = db' } in
          let same : (if c'.want_close || ready.broken then reset_conn t fd else t) ≡ s' =
            some-injective _ s' (rw (handle_event, e, f) at run) in
          subst (IsOrdered now) same (
            settled-IsOrdered now t fd (c'.want_close || ready.broken)
              (touched-IsOrdered now s fd c' db' v))
    ]
  ]

  module _ (reap : ℕ → D → D) (idle_timeout_ms : ℕ) where
    process_timers-IsOrdered :
        (now : ℕ) (s : Loop D)
        → IsOrdered now s
        → IsOrdered now (process_timers reap idle_timeout_ms now s)
    unfolding process_timers close_idle
    process_timers-IsOrdered now s v =
        let w = close_front-IsOrdered idle_timeout_ms now s.idle s v in
        record {
          once = w.once;
          sorted = w.sorted;
          past = w.past;
          open_ones = w.open_ones;
          listed = w.listed;
        }

    Step-IsOrdered :
        (now now' : ℕ) (s s' : Loop D)
        → Step do_request reap idle_timeout_ms now s now' s'
        → IsOrdered now s
        → IsOrdered now' s'
    Step-IsOrdered _ _ _ _ (accepts now now' s fd le closed) v =
        accept_new-IsOrdered now' s fd closed (later-IsOrdered now now' s le v)
    Step-IsOrdered _ _ _ _ (handles now now' s s' fd ready le run) v =
        handle_event-IsOrdered now' s s' fd ready run (later-IsOrdered now now' s le v)
    Step-IsOrdered _ _ _ _ (timers now now' s le) v =
        process_timers-IsOrdered now' s (later-IsOrdered now now' s le v)

    Reached-IsOrdered :
        (now : ℕ) (s : Loop D) → Reached do_request reap idle_timeout_ms now s → IsOrdered now s
    Reached-IsOrdered _ _ (start now s none_idle none_open) = record {
      once = rw none_idle tt;
      sorted = rw none_idle tt;
      past = rw none_idle tt;
      open_ones = rw none_idle tt;
      listed = λ fd h. none_open fd;
    }
    Reached-IsOrdered _ _ (further now now' s s' reach step) =
        Step-IsOrdered now now' s s' step (Reached-IsOrdered now s reach)

detach-front : (fd : ℕ) (later : List ℕ) → detach fd (fd ∷ later) ≡ later
unfolding detach
detach-front fd later = let e : (fd == fd) ≡ true = (==_iff fd fd).1 refl in rw e refl

kept : (b : Bool) (c : Option Conn) → (b ≡ false → c ≡ none) → c ≡ (if b then c else none)
kept true c h = refl
kept false c h = h refl

module _ {ℓ} {D : Type ℓ} (idle_timeout_ms now : ℕ) (no_wrap : now + idle_timeout_ms < 2 ^ 64) where
  -- Whether a connection is not yet idle for too long.
  is_alive : Loop D → ℕ → Bool
  is_alive s fd = ltb now (s.last_active fd + idle_timeout_ms)

  Closed : Loop D → List ℕ → Type 0
  Closed s fds =
      (y : ℕ)
      → (close_front idle_timeout_ms now fds s).conns y ≡ (if is_alive s y then s.conns y else none)

  -- If the first is alive, all are.
  stops :
      (s : Loop D) (fd : ℕ) (later : List ℕ)
      → s.idle ≡ fd ∷ later
      → IsOrdered now s
      → is_alive s fd ≡ true
      → (y : ℕ) → s.conns y ≡ (if is_alive s y then s.conns y else none)
  unfolding is_alive
  stops s fd later same v first y = kept (is_alive s y) (s.conns y) (λ over.
      let in_order : All (λ z. s.last_active fd ≤ s.last_active z) later =
        (rw same at v.sorted).0 in
      v.listed y (
        rw same (
          λ e. let q = ap s.last_active e in ground arith,
          All-map later (λ z le e. let q = ap s.last_active e in ground arith) in_order,
        )))

  -- The first is not alive, and its connection is closed.
  closed_off :
      (s : Loop D) (fd y : ℕ)
      → is_alive s fd ≡ false
      → (if is_alive s y then (reset_conn s fd).conns y else none)
        ≡ (if is_alive s y then s.conns y else none)
  unfolding reset_conn
  closed_off s fd y over = elim (Bool-cases (is_alive s y)) [
    | inl alive ↦
        let ne : y ≢ fd = λ e. let clash = rw e at alive in absurd cc in
        ap (λ c. if is_alive s y then c else none) (write_at-other s.conns fd y none ne)
    | inr dead ↦ rw dead refl
  ]

  close_front-Closed : (fds : List ℕ) (s : Loop D) → s.idle ≡ fds → IsOrdered now s → Closed s fds
  unfolding close_front Closed is_alive
  close_front-Closed [] s same v y =
      kept (is_alive s y) (s.conns y) (λ over. v.listed y (rw same tt))
  close_front-Closed (fd ∷ later) s same v y =
      let within : s.last_active fd ≤ now = (rw same at v.past).0 in
      elim (Bool-cases (ltb now ((s.last_active fd + idle_timeout_ms) % 2 ^ 64))) [
        | inl e ↦ rw e (stops s fd later same v (ground arith) y)
        | inr e ↦
            let front : detach fd s.idle ≡ later = ap (detach fd) same ∙ detach-front fd later in
            let rest =
              close_front-Closed later (reset_conn s fd) front (reset_conn-IsOrdered now s fd v)
                y in
            rw e (rest ∙ closed_off s fd y (ground arith))
      ]

module _ {ℓ} {D : Type ℓ} (do_request : List Bytes → D → D × Bytes) (reap : ℕ → D → D) where
  -- In every state that the event loop reaches, if the present plus the timeout fits in 64 bits, the
  -- timers close just the connections whose last activity is the timeout or more ago, whatever they
  -- were doing, and leave the others, and their buffers, as they are.
  pub process_timers-closes :
      (idle_timeout_ms now now' : ℕ) (s : Loop D)
      → Reached do_request reap idle_timeout_ms now s
      → now ≤ now'
      → now' + idle_timeout_ms < 2 ^ 64
      → (fd : ℕ)
      → (process_timers reap idle_timeout_ms now' s).conns fd
        ≡ (if ltb now' (s.last_active fd + idle_timeout_ms) then s.conns fd else none)
  unfolding process_timers close_idle Closed is_alive
  process_timers-closes idle_timeout_ms now now' s reach le no_wrap fd =
      let v = Reached-IsOrdered do_request reap idle_timeout_ms now s reach in
      close_front-Closed idle_timeout_ms now' no_wrap s.idle s refl
        (later-IsOrdered now now' s le v) fd
