-- ===== src/Command/Sets.antt =====
-- The commands on sorted sets in src/server/command.cpp: do_zadd, do_zrem, do_zscore and do_zquery.
use mini_redis.Base.Int.{ℤ, pos, leb_ℤ, pos_part}
use mini_redis.Base.{
  ◌>>=◌, ℕ, zero, suc, ◌+◌, ◌%◌, ◌^◌, List, [], Option, none, some, Bytes, get_elem?, ltb,
  if◌then◌else◌,
}
use mini_redis.SortedSet.{ZSet, zset_lookup, zset_insert, zset_delete, zset_seekge, znode_offset}
use mini_redis.Serialize.{
  out_nil, out_str, out_int, out_dbl, out_err, out_arr, out_begin_arr, out_end_arr,
}
use mini_redis.Keyspace.{t_zset, Database, write_entry, is_str}
use mini_redis.Command.{
  Clock, Outcome, err_arg, err_type, wrongtype_msg, not_integer_msg, not_float_msg, lookup_entry,
  create_entry,
}
use mini_redis.Command.Numbers.{str2int, str2dbl}

-- What expect_zset gives: an entry with a sorted set, no entry, `*missing`, or an error sent.
pub data Expected : Type 0 where
  a_zset : ℕ → Expected
  missing_key : Expected
  wrong_type : Bytes → Expected

unfoldable pub expect_zset : ℕ → Database → Bytes → Bytes → Option (Database × Expected)
expect_zset now db key out = lookup_entry now db key >>= λ (db, found). elim found [
  | none ↦ some (db, missing_key)
  | some ent ↦ some (
    db,
    if is_str (db.entries ent).type
        then wrong_type (out_err out err_type wrongtype_msg)
        else a_zset ent,
  )
]

-- The sorted set of an entry, and a new one in its place.
abbrev pub zset_of : Database → ℕ → ZSet
zset_of db ent = (db.entries ent).zset

abbrev pub with_zset : Database → ℕ → ZSet → Database
with_zset db ent zset = record db {
  entries = write_entry db.entries ent (record (db.entries ent) { zset = zset });
}

-- `zset_insert(&ent->zset, cmd[3], score)` and the reply.
unfoldable pub add_pair : Database → ℕ → Bytes → ℕ → Bytes → Outcome
add_pair db ent name score out = zset_insert (zset_of db ent) name score >>= λ (zset, added).
    some (with_zset db ent zset, out_int out (pos (if added then 1 else 0)))

-- do_zadd behind the parse of the score.
unfoldable pub add_scored : Clock → List Bytes → Database → Bytes → Option ℕ → Outcome
unfolding add_pair
add_scored clock cmd db out none = some (db, out_err out err_arg not_float_msg)
add_scored clock cmd db out (some score) = get_elem? cmd 1 >>= λ key. get_elem? cmd 3 >>= λ name.
    expect_zset clock.at_lookup db key out >>= λ (db, expected). elim expected [
      | wrong_type reply ↦ some (db, reply)
      | missing_key ↦
          create_entry db key t_zset [] >>= λ (db', ent). add_pair db' ent name score out
      | a_zset ent ↦ add_pair db ent name score out
    ]

unfoldable pub do_zadd : (Bytes → ℕ × ℕ) → Clock → List Bytes → Database → Bytes → Outcome
unfolding add_scored
do_zadd strtod clock cmd db out =
    get_elem? cmd 2 >>= λ arg. add_scored clock cmd db out (str2dbl strtod arg)

unfoldable pub do_zrem : Clock → List Bytes → Database → Bytes → Outcome
do_zrem clock cmd db out = get_elem? cmd 1 >>= λ key. get_elem? cmd 2 >>= λ name.
    expect_zset clock.at_lookup db key out >>= λ (db, expected). elim expected [
      | wrong_type reply ↦ some (db, reply)
      | missing_key ↦ some (db, out_int out (pos 0))
      | a_zset ent ↦ zset_lookup (zset_of db ent) name >>= λ (zset, found). elim found [
        | none ↦ some (with_zset db ent zset, out_int out (pos 0))
        | some znode ↦
            zset_delete zset znode >>= λ zset'. some (with_zset db ent zset', out_int out (pos 1))
      ]
    ]

unfoldable pub do_zscore : Clock → List Bytes → Database → Bytes → Outcome
do_zscore clock cmd db out = get_elem? cmd 1 >>= λ key. get_elem? cmd 2 >>= λ name.
    expect_zset clock.at_lookup db key out >>= λ (db, expected). elim expected [
      | wrong_type reply ↦ some (db, reply)
      | missing_key ↦ some (db, out_nil out)
      | a_zset ent ↦ zset_lookup (zset_of db ent) name >>= λ (zset, found). elim found [
        | none ↦ some (with_zset db ent zset, out_nil out)
        | some znode ↦ some (with_zset db ent zset, out_dbl out (zset.pairs znode).score)
      ]
    ]

-- The loop of do_zquery: the reply, and the number of elements. It passes each pair once, since it
-- walks forward.
unfoldable pub query_loop : ℕ → ZSet → Option ℕ → ℕ → ℕ → Bytes → Option (Bytes × ℕ)
query_loop zero zset znode n limit out = none
query_loop (suc fuel) zset none n limit out = some (out, n)
query_loop (suc fuel) zset (some znode) n limit out =
    let p = zset.pairs znode in
    let round : Option (Bytes × ℕ) = znode_offset zset (some znode) (pos 1) >>= λ further.
    query_loop fuel zset further (n + 2) limit (out_dbl (out_str out p.name) p.score) in
    if ltb n limit then round else some (out, n)

-- Each round takes two elements, and stops at the limit.
unfoldable pub emit_pairs : ZSet → Option ℕ → ℕ → Bytes → Option Bytes
unfolding query_loop
emit_pairs zset znode limit out =
    let (out', ctx) = out_begin_arr out in
    query_loop (limit + 1) zset znode 0 limit out' >>= λ (out'', n).
    out_end_arr out'' ctx (n % 2 ^ 32)

-- do_zquery behind the parse of the three numbers.
unfoldable pub query_from :
    Clock → List Bytes → Database → Bytes → Option ℕ → Option ℤ → Option ℤ → Outcome
unfolding emit_pairs
query_from clock cmd db out none offset limit = some (db, out_err out err_arg not_float_msg)
query_from clock cmd db out (some score) none limit = some (db, out_err out err_arg not_integer_msg)
query_from clock cmd db out (some score) (some offset) none =
    some (db, out_err out err_arg not_integer_msg)
query_from clock cmd db out (some score) (some offset) (some limit) = get_elem? cmd 1 >>= λ key.
    get_elem? cmd 3 >>= λ name. expect_zset clock.at_lookup db key out >>= λ (db, expected).
    elim expected [
      | wrong_type reply ↦ some (db, reply)
      | missing_key ↦ some (db, out_arr out 0)
      | a_zset ent ↦
          let zset = zset_of db ent in
          let pairs : Outcome = znode_offset zset (zset_seekge zset score name) offset >>= λ znode.
          emit_pairs zset znode (pos_part limit) out >>= λ out'. some (db, out') in
          if leb_ℤ limit (pos 0) then some (db, out_arr out 0) else pairs
    ]

unfoldable pub do_zquery : (Bytes → ℕ × ℕ) → Clock → List Bytes → Database → Bytes → Outcome
unfolding query_from
do_zquery strtod clock cmd db out = get_elem? cmd 2 >>= λ score_arg.
    get_elem? cmd 4 >>= λ offset_arg. get_elem? cmd 5 >>= λ limit_arg.
    query_from clock cmd db out (str2dbl strtod score_arg) (str2int offset_arg) (str2int limit_arg)
