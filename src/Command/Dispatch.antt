-- ===== src/Command/Dispatch.antt =====
-- do_request of src/server/command.cpp: which handler a command goes to.
use mini_redis.Base.{
  ℕ, Bool, true, false, ◌&&◌, List, [], ◌∷◌, some, Bytes, length, ◌==◌, if◌then◌else◌,
}
use mini_redis.Serialize.{out_err}
use mini_redis.Keyspace.{Database}
use mini_redis.Command.{
  Clock, Outcome, err_arg, err_unknown, empty_command_msg, unknown_command_msg, do_get, do_set,
  do_del, do_keys,
}
use mini_redis.Command.Numbers.{bytes_eq, to_upper}
use mini_redis.Command.Timers.{do_expire, do_ttl, do_persist}
use mini_redis.Command.Sets.{do_zadd, do_zrem, do_zscore, do_zquery}

-- `op == name && cmd.size() == arity`
abbrev pub is_call : List Bytes → Bytes → Bytes → ℕ → Bool
is_call cmd op name arity = bytes_eq op name && length cmd == arity

-- The verbs.
abbrev pub get_verb : Bytes
get_verb = b'G' ∷ b'E' ∷ b'T' ∷ []

abbrev pub set_verb : Bytes
set_verb = b'S' ∷ b'E' ∷ b'T' ∷ []

abbrev pub del_verb : Bytes
del_verb = b'D' ∷ b'E' ∷ b'L' ∷ []

abbrev pub keys_verb : Bytes
keys_verb = b'K' ∷ b'E' ∷ b'Y' ∷ b'S' ∷ []

abbrev pub expire_verb : Bytes
expire_verb = b'E' ∷ b'X' ∷ b'P' ∷ b'I' ∷ b'R' ∷ b'E' ∷ []

abbrev pub pexpire_verb : Bytes
pexpire_verb = b'P' ∷ b'E' ∷ b'X' ∷ b'P' ∷ b'I' ∷ b'R' ∷ b'E' ∷ []

abbrev pub ttl_verb : Bytes
ttl_verb = b'T' ∷ b'T' ∷ b'L' ∷ []

abbrev pub pttl_verb : Bytes
pttl_verb = b'P' ∷ b'T' ∷ b'T' ∷ b'L' ∷ []

abbrev pub persist_verb : Bytes
persist_verb = b'P' ∷ b'E' ∷ b'R' ∷ b'S' ∷ b'I' ∷ b'S' ∷ b'T' ∷ []

abbrev pub zadd_verb : Bytes
zadd_verb = b'Z' ∷ b'A' ∷ b'D' ∷ b'D' ∷ []

abbrev pub zrem_verb : Bytes
zrem_verb = b'Z' ∷ b'R' ∷ b'E' ∷ b'M' ∷ []

abbrev pub zscore_verb : Bytes
zscore_verb = b'Z' ∷ b'S' ∷ b'C' ∷ b'O' ∷ b'R' ∷ b'E' ∷ []

abbrev pub zquery_verb : Bytes
zquery_verb = b'Z' ∷ b'Q' ∷ b'U' ∷ b'E' ∷ b'R' ∷ b'Y' ∷ []

unfoldable pub do_request : (Bytes → ℕ × ℕ) → Clock → List Bytes → Database → Bytes → Outcome
do_request strtod clock [] db out = some (db, out_err out err_arg empty_command_msg)
do_request strtod clock (verb ∷ args) db out =
    let cmd = verb ∷ args in
    let op = to_upper verb in
    if is_call cmd op get_verb 2
    then do_get clock cmd db out
    else if is_call cmd op set_verb 3
    then do_set clock cmd db out
    else if is_call cmd op del_verb 2
    then do_del clock cmd db out
    else if is_call cmd op keys_verb 1
    then do_keys db out
    else if is_call cmd op expire_verb 3
    then do_expire clock cmd db out 1000
    else if is_call cmd op pexpire_verb 3
    then do_expire clock cmd db out 1
    else if is_call cmd op ttl_verb 2
    then do_ttl clock cmd db out false
    else if is_call cmd op pttl_verb 2
    then do_ttl clock cmd db out true
    else if is_call cmd op persist_verb 2
    then do_persist clock cmd db out
    else if is_call cmd op zadd_verb 4
    then do_zadd strtod clock cmd db out
    else if is_call cmd op zrem_verb 3
    then do_zrem clock cmd db out
    else if is_call cmd op zscore_verb 3
    then do_zscore clock cmd db out
    else if is_call cmd op zquery_verb 6
    then do_zquery strtod clock cmd db out
    else some (db, out_err out err_unknown unknown_command_msg)
