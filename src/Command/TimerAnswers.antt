-- ===== src/Command/TimerAnswers.antt =====
-- The handlers on timers answer with one value and keep the keyspace valid.
use mini_redis.Base.Int.{ℤ, pos, negsuc, leb_ℤ, pos_part}
use mini_redis.Base.{
  ℕ, ◌≡◌, refl, Bool, true, [], ◌∷◌, Option, none, some, Bytes, arith, ◌==◌, Bool-cases, inl, inr,
}
use mini_redis.Heap.Items.{item, load-item}
use mini_redis.Serialize.Values.{int, err}
use mini_redis.Keyspace.{Database, no_timer}
use mini_redis.Keyspace.Timers.{untimed, timed, AreTimed-Timer}
use mini_redis.Keyspace.Ttl.{entry_set_ttl-unset, entry_set_ttl-set}
use mini_redis.Keyspace.Valid.{members, IsValid, ttl-IsValid}
use mini_redis.Command.{Clock, err_arg, not_integer_msg, lookup_entry}
use mini_redis.Command.Numbers.{str2int}
use mini_redis.Command.Timers.{do_expire, expire_in, do_ttl, do_persist, clamp_ms, remaining}
use mini_redis.Command.Forget.{unlink_entry-Forgets}
use mini_redis.Command.Lookup.{Seen, lookup_entry-Seen}
use mini_redis.Command.Answers.{HasRoom, Answers, Seen-found, Seen-HasRoom}

module _ (clock : Clock) (db : Database) (out : Bytes) (v : IsValid db) (room : HasRoom db)
    (verb key : Bytes) where
  pub do_expire-Answers :
      (arg : Bytes) (unit_ms : ℕ)
      → Answers out (do_expire clock (verb ∷ key ∷ arg ∷ []) db out unit_ms)
  unfolding do_expire expire_in
  do_expire-Answers arg unit_ms =
      let (db', r, run, v', seen) = lookup_entry-Seen clock.at_lookup db key v in
      of_number (str2int arg) db' v' r run seen refl
    where
      of_number :
          (number : Option ℤ) (db' : Database)
          → IsValid db'
          → (r : Option ℕ) → lookup_entry clock.at_lookup db key ≡ some (db', r)
          → Seen clock.at_lookup db key db' r
          → str2int arg ≡ number
          → Answers out (do_expire clock (verb ∷ key ∷ arg ∷ []) db out unit_ms)
      of_number none db' v' r run seen e = (db, err err_arg not_integer_msg, rw e refl, v)
      of_number (some n) db' v' none run seen e = (db', int (pos 0), rw (e, run) refl, v')
      of_number (some n) db' v' (some x) run seen e =
          let inside = (Seen-found clock.at_lookup db key seen).0 in
          elim (Bool-cases (leb_ℤ n (pos 0))) [
            | inl t ↦
                let f = unlink_entry-Forgets clock.later db' x v' inside in
                (f.rest, int (pos 1), rw (e, run, t, f.unlink, f.delete) refl, f.valid)
            | inr t ↦
                let room' = Seen-HasRoom clock.at_lookup db key seen room in
                let s =
                  entry_set_ttl-set clock.later db' (members db') x v'.timers inside
                    (clamp_ms (pos_part n) unit_ms) room'.timers in
                (
                  record db' { ttl = s.ttl; heap_idx = s.heap_idx },
                  int (pos 1),
                  rw (e, run, t, s.run) refl,
                  ttl-IsValid db' s.ttl s.heap_idx v' s.valid,
                )
          ]

  pub do_ttl-Answers : (in_ms : Bool) → Answers out (do_ttl clock (verb ∷ key ∷ []) db out in_ms)
  unfolding do_ttl
  do_ttl-Answers in_ms =
      let (db', r, run, v', seen) = lookup_entry-Seen clock.at_lookup db key v in
      of_found db' v' r run seen
    where
      of_found :
          (db' : Database)
          → IsValid db'
          → (r : Option ℕ) → lookup_entry clock.at_lookup db key ≡ some (db', r)
          → Seen clock.at_lookup db key db' r
          → Answers out (do_ttl clock (verb ∷ key ∷ []) db out in_ms)
      of_found db' v' none run seen = (db', int (negsuc 1), rw run refl, v')
      of_found db' v' (some x) run seen =
          let inside = (Seen-found clock.at_lookup db key seen).0 in
          elim (AreTimed-Timer db'.ttl db'.heap_idx (members db') x v'.timers inside) [
            | untimed idle apart ↦
                let t : (db'.heap_idx x == no_timer) ≡ true = ground arith in
                (db', int (negsuc 0), rw (run, t) refl, v')
            | timed t within owns ↦ (
              db',
              int (remaining clock.later (item db'.ttl (db'.heap_idx x)).val in_ms),
              rw (run, t, load-item db'.ttl (db'.heap_idx x) within) refl,
              v',
            )
          ]

  pub do_persist-Answers : Answers out (do_persist clock (verb ∷ key ∷ []) db out)
  unfolding do_persist
  do_persist-Answers =
      let (db', r, run, v', seen) = lookup_entry-Seen clock.at_lookup db key v in
      of_found db' v' r run seen
    where
      of_found :
          (db' : Database)
          → IsValid db'
          → (r : Option ℕ) → lookup_entry clock.at_lookup db key ≡ some (db', r)
          → Seen clock.at_lookup db key db' r
          → Answers out (do_persist clock (verb ∷ key ∷ []) db out)
      of_found db' v' none run seen = (db', int (pos 0), rw run refl, v')
      of_found db' v' (some x) run seen =
          let inside = (Seen-found clock.at_lookup db key seen).0 in
          let s = entry_set_ttl-unset clock.later db' (members db') x v'.timers inside 0 in
          elim (Bool-cases (db'.heap_idx x == no_timer)) [
            | inl t ↦ (db', int (pos 0), rw (run, t) refl, v')
            | inr t ↦ (
              record db' { ttl = s.ttl; heap_idx = s.heap_idx },
              int (pos 1),
              rw (run, t, s.run) refl,
              ttl-IsValid db' s.ttl s.heap_idx v' s.valid,
            )
          ]
