-- ===== src/Command/Timers.antt =====
-- The commands on timers in src/server/command.cpp: do_expire, do_ttl and do_persist.
use mini_redis.Base.Int.{ℤ, pos, negsuc, leb_ℤ, pos_part}
use mini_redis.Base.{
  ◌>>=◌, ℕ, ◌+◌, ◌-◌, ◌*◌, ◌/◌, ◌%◌, ◌^◌, Bool, List, Option, none, some, Bytes, get_elem?, ltb,
  ◌==◌, if◌then◌else◌,
}
use mini_redis.Serialize.{out_int, out_err, as_i64}
use mini_redis.Keyspace.{Database, no_timer, entry_set_ttl, entry_del}
use mini_redis.Command.{
  Clock, Outcome, err_arg, not_integer_msg, unlink_entry, deadline, lookup_entry,
}
use mini_redis.Command.Numbers.{str2int}

-- The time to live in milliseconds, below 2 ^ 63.
abbrev pub clamp_ms : ℕ → ℕ → ℕ
clamp_ms n unit_ms =
    let limit = (2 ^ 63 - 1) / unit_ms in (if ltb limit n then limit else n) * unit_ms

-- do_expire behind the parse of the number.
unfoldable pub expire_in : Clock → List Bytes → Database → Bytes → ℕ → Option ℤ → Outcome
expire_in clock cmd db out unit_ms none = some (db, out_err out err_arg not_integer_msg)
expire_in clock cmd db out unit_ms (some n) = get_elem? cmd 1 >>= λ key.
    lookup_entry clock.at_lookup db key >>= λ (db, found). elim found [
      | none ↦ some (db, out_int out (pos 0))
      | some ent ↦
          let due : Outcome = unlink_entry db ent >>= λ db₁.
          entry_del clock.later db₁ ent >>= λ db₂. some (db₂, out_int out (pos 1)) in
          let timed : Outcome =
            entry_set_ttl clock.later db ent (pos (clamp_ms (pos_part n) unit_ms)) >>= λ db'.
            some (db', out_int out (pos 1)) in
          if leb_ℤ n (pos 0) then due else timed
    ]

unfoldable pub do_expire : Clock → List Bytes → Database → Bytes → ℕ → Outcome
unfolding expire_in
do_expire clock cmd db out unit_ms =
    get_elem? cmd 2 >>= λ arg. expire_in clock cmd db out unit_ms (str2int arg)

-- What do_ttl answers for a deadline `due` at the time `now`.
abbrev pub remaining : ℕ → ℕ → Bool → ℤ
remaining now due in_ms =
    let rem = if ltb now due then due - now else 0 in
    as_i64 (if in_ms then rem else (rem + 999) % 2 ^ 64 / 1000)

unfoldable pub do_ttl : Clock → List Bytes → Database → Bytes → Bool → Outcome
do_ttl clock cmd db out in_ms = get_elem? cmd 1 >>= λ key.
    lookup_entry clock.at_lookup db key >>= λ (db, found). elim found [
      | none ↦ some (db, out_int out (negsuc 1))
      | some ent ↦
          let timed : Outcome =
            deadline db ent >>= λ due. some (db, out_int out (remaining clock.later due in_ms)) in
          if db.heap_idx ent == no_timer then some (db, out_int out (negsuc 0)) else timed
    ]

unfoldable pub do_persist : Clock → List Bytes → Database → Bytes → Outcome
do_persist clock cmd db out = get_elem? cmd 1 >>= λ key.
    lookup_entry clock.at_lookup db key >>= λ (db, found). elim found [
      | none ↦ some (db, out_int out (pos 0))
      | some ent ↦
          let removed : Outcome = entry_set_ttl clock.later db ent (negsuc 0) >>= λ db'.
          some (db', out_int out (pos 1)) in
          if db.heap_idx ent == no_timer then some (db, out_int out (pos 0)) else removed
    ]
