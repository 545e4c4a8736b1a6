-- ===== src/Command.antt =====
-- The commands of include/server/command.h and src/server/command.cpp.
-- A handler takes the arguments, the database and the reply so far. The clock is read in
-- lookup_entry and, by some handlers, once more: the two readings are the record Clock. The function
-- strtod of the C library, which gives the bits of a double and the number of characters that it
-- consumed, is a parameter. An argument out of range is a fault, `none`.
pub mod Numbers
pub mod Decimal
pub mod Timers
pub mod Sets
pub mod Dispatch
pub mod Forget
pub mod Lookup
pub mod Create
pub mod Answers
pub mod TimerAnswers
pub mod SetAnswers
pub mod Query
pub mod QueryAnswers
pub mod Total
pub mod Effects
pub mod RoundTrip
pub mod Reaped
pub mod Expiry
pub mod Sample
mod Tests
use mini_redis.Base.Int.{ℤ, pos, negsuc, leb_ℤ, ltb_ℤ, pos_part}
use mini_redis.Base.{
  ◌>>=◌, ℕ, zero, suc, ◌+◌, ◌-◌, ◌*◌, ◌/◌, ◌%◌, ◌^◌, Bool, true, false, ◌&&◌, not, List, [], ◌∷◌,
  ◌++◌, Option, none, some, Bytes, length, get_elem?, is_empty, ltb, leb, ◌==◌, if◌then◌else◌,
}
use mini_redis.Hash.{str_hash}
use mini_redis.Heap.{HeapItem, load}
use mini_redis.HashTable.{HNode, HMap, hm_lookup, hm_insert, hm_delete, hm_size, hm_foreach}
use mini_redis.SortedSet.{
  ZNode, ZSet, probe, zset_lookup, zset_insert, zset_delete, zset_seekge, znode_offset,
}
use mini_redis.Serialize.{
  out_nil, out_str, out_int, out_dbl, out_err, out_arr, out_begin_arr, out_end_arr,
}
use mini_redis.Keyspace.{
  EntryType, t_str, t_zset, Entry, Database, no_timer, new_entry, write_entry, is_str,
  entry_set_ttl, entry_del,
}
use mini_redis.Command.Numbers.{bytes_eq, to_upper, str2int, str2dbl}

-- The readings of the clock in lookup_entry, and behind it.
pub record Clock : Type 0 where
  pub at_lookup : ℕ
  pub later : ℕ

abbrev pub err_unknown : ℤ
err_unknown = pos 1

abbrev pub err_arg : ℤ
err_arg = pos 2

abbrev pub err_type : ℤ
err_type = pos 3

-- WRONGTYPE Operation against a key holding the wrong kind of value
abbrev pub wrongtype_msg : Bytes
wrongtype_msg =
    b'W' ∷ b'R' ∷ b'O' ∷ b'N' ∷ b'G' ∷ b'T' ∷ b'Y' ∷ b'P' ∷ b'E' ∷ b' ' ∷ b'O' ∷ b'p' ∷ b'e' ∷ b'r'
    ∷ b'a' ∷ b't' ∷ b'i' ∷ b'o' ∷ b'n' ∷ b' ' ∷ b'a' ∷ b'g' ∷ b'a' ∷ b'i' ∷ b'n' ∷ b's' ∷ b't'
    ∷ b' ' ∷ b'a' ∷ b' ' ∷ b'k' ∷ b'e' ∷ b'y' ∷ b' ' ∷ b'h' ∷ b'o' ∷ b'l' ∷ b'd' ∷ b'i' ∷ b'n'
    ∷ b'g' ∷ b' ' ∷ b't' ∷ b'h' ∷ b'e' ∷ b' ' ∷ b'w' ∷ b'r' ∷ b'o' ∷ b'n' ∷ b'g' ∷ b' ' ∷ b'k'
    ∷ b'i' ∷ b'n' ∷ b'd' ∷ b' ' ∷ b'o' ∷ b'f' ∷ b' ' ∷ b'v' ∷ b'a' ∷ b'l' ∷ b'u' ∷ b'e' ∷ []

-- value is not an integer
abbrev pub not_integer_msg : Bytes
not_integer_msg =
    b'v' ∷ b'a' ∷ b'l' ∷ b'u' ∷ b'e' ∷ b' ' ∷ b'i' ∷ b's' ∷ b' ' ∷ b'n' ∷ b'o' ∷ b't' ∷ b' ' ∷ b'a'
    ∷ b'n' ∷ b' ' ∷ b'i' ∷ b'n' ∷ b't' ∷ b'e' ∷ b'g' ∷ b'e' ∷ b'r' ∷ []

-- value is not a valid float
abbrev pub not_float_msg : Bytes
not_float_msg =
    b'v' ∷ b'a' ∷ b'l' ∷ b'u' ∷ b'e' ∷ b' ' ∷ b'i' ∷ b's' ∷ b' ' ∷ b'n' ∷ b'o' ∷ b't' ∷ b' ' ∷ b'a'
    ∷ b' ' ∷ b'v' ∷ b'a' ∷ b'l' ∷ b'i' ∷ b'd' ∷ b' ' ∷ b'f' ∷ b'l' ∷ b'o' ∷ b'a' ∷ b't' ∷ []

-- empty command
abbrev pub empty_command_msg : Bytes
empty_command_msg =
    b'e' ∷ b'm' ∷ b'p' ∷ b't' ∷ b'y' ∷ b' ' ∷ b'c' ∷ b'o' ∷ b'm' ∷ b'm' ∷ b'a' ∷ b'n' ∷ b'd' ∷ []

-- unknown command
abbrev pub unknown_command_msg : Bytes
unknown_command_msg =
    b'u' ∷ b'n' ∷ b'k' ∷ b'n' ∷ b'o' ∷ b'w' ∷ b'n' ∷ b' ' ∷ b'c' ∷ b'o' ∷ b'm' ∷ b'm' ∷ b'a' ∷ b'n'
    ∷ b'd' ∷ []

-- `entry_eq`, for the entry that is sought.
abbrev pub entry_eq : (ℕ → Entry) → Bytes → HNode ℕ → HNode ℕ → Bool
entry_eq entries key a b = bytes_eq (entries a.owner).key key

-- The probe of make_probe has the hash code of its key.
abbrev pub make_probe : Bytes → HNode ℕ
make_probe key = probe (str_hash key)

-- `hm_delete(&db.map, &ent->node, &entry_eq)`
unfoldable pub unlink_entry : Database → ℕ → Option Database
unlink_entry db ent =
    let e = db.entries ent in
    hm_delete db.map (probe e.hcode) (entry_eq db.entries e.key) >>= λ (map, _).
    some (record db { map = map })

-- `db.ttl[ent->heap_idx].val`
abbrev pub deadline : Database → ℕ → Option ℕ
deadline db ent = load db.ttl (db.heap_idx ent) >>= λ item. some item.val

-- The database after it, and the entry.
unfoldable pub lookup_entry : ℕ → Database → Bytes → Option (Database × Option ℕ)
unfolding unlink_entry
lookup_entry now db key =
    hm_lookup db.map (make_probe key) (entry_eq db.entries key) >>= λ (map, found).
    let db' = record db { map = map } in
    elim found [
      | none ↦ some (db', none)
      | some hnode ↦
          let ent = hnode.owner in
          let timed : Option (Database × Option ℕ) = deadline db' ent >>= λ due.
          if leb due now
          then (unlink_entry db' ent >>= λ db₁. entry_del now db₁ ent >>= λ db₂. some (db₂, none))
          else some (db', some ent) in
          if db'.heap_idx ent == no_timer then some (db', some ent) else timed
    ]

-- A new entry with the key, linked into the map: the database, and its address.
unfoldable pub create_entry : Database → Bytes → EntryType → Bytes → Option (Database × ℕ)
create_entry db key type str =
    let ent = db.next in
    let e : Entry = record new_entry { hcode = str_hash key; key = key; type = type; str = str } in
    hm_insert db.map (record { hcode = e.hcode; owner = ent }) >>= λ map. some (
      record db {
        map = map;
        entries = write_entry db.entries ent e;
        heap_idx = λ (x : ℕ). if x == ent then no_timer else db.heap_idx x;
        next = ent + 1;
      },
      ent,
    )

-- What a handler gives: the database and the reply.
abbrev pub Outcome : Type 0
Outcome = Option (Database × Bytes)

unfoldable pub do_get : Clock → List Bytes → Database → Bytes → Outcome
do_get clock cmd db out = get_elem? cmd 1 >>= λ key.
    lookup_entry clock.at_lookup db key >>= λ (db, found). elim found [
      | none ↦ some (db, out_nil out)
      | some ent ↦
          let e = db.entries ent in
          some (
            db,
            if not (is_str e.type) then out_err out err_type wrongtype_msg else out_str out e.str,
          )
    ]

unfoldable pub do_set : Clock → List Bytes → Database → Bytes → Outcome
do_set clock cmd db out = get_elem? cmd 1 >>= λ key. get_elem? cmd 2 >>= λ value.
    lookup_entry clock.at_lookup db key >>= λ (db, found). elim found [
      | some ent ↦
          let e = db.entries ent in
          let db' = record db { entries = write_entry db.entries ent (record e { str = value }) } in
          let overwritten : Outcome =
            entry_set_ttl clock.later db' ent (negsuc 0) >>= λ db''. some (db'', out_nil out) in
          if not (is_str e.type) then some (db, out_err out err_type wrongtype_msg) else overwritten
      | none ↦ create_entry db key t_str value >>= λ (db', _). some (db', out_nil out)
    ]

unfoldable pub do_del : Clock → List Bytes → Database → Bytes → Outcome
do_del clock cmd db out = get_elem? cmd 1 >>= λ key.
    lookup_entry clock.at_lookup db key >>= λ (db, found). elim found [
      | some ent ↦ unlink_entry db ent >>= λ db₁.
          entry_del clock.later db₁ ent >>= λ db₂. some (db₂, out_int out (pos 1))
      | none ↦ some (db, out_int out (pos 0))
    ]

abbrev pub keys_cb : (ℕ → Entry) → HNode ℕ → Bytes → Bool × Bytes
keys_cb entries node out = (true, out_str out (entries node.owner).key)

unfoldable pub do_keys : Database → Bytes → Outcome
do_keys db out =
    hm_foreach db.map (keys_cb db.entries) (out_arr out (hm_size db.map % 2 ^ 32)) >>= λ out'.
    some (db, out')
