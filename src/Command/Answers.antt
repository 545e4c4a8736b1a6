-- ===== src/Command/Answers.antt =====
-- The handlers on strings and keys answer with one value and keep the keyspace valid.
use mathlib.Core.List.{Perm}
use mathlib.Core.List.Perm
use mini_redis.Base.Int.{pos, negsuc}
use mini_redis.Base.{
  ℕ, suc, ◌+◌, ◌%◌, ◌^◌, ◌<◌, ◌≡◌, ◌≢◌, refl, sym, ap, not, List, [], ◌∷◌, Option, none, some,
  Bytes, arith, length, length-perm, length-append, length-map, map, All, All-perm, Bool-cases, inl,
  inr, if◌then◌else◌,
}
use mini_redis.HashTable.{HNode, HMap, hm_size, walk_chain}
use mini_redis.HashTable.Rehash.{nodes}
use mini_redis.HashTable.Visit.{hm_foreach_lem}
use mini_redis.HashTable.Delete.{hm_size-nodes}
use mini_redis.SortedSet
use mini_redis.SortedSet.{ZNode}
use mini_redis.Serialize.{out_arr, out_str}
use mini_redis.Serialize.Values.{
  Value, nil, str, int, err, arr, Values, done, next, count, out_value, out_values,
}
use mini_redis.Keyspace.{Entry, Database, t_str, write_entry, is_str, entry_set_ttl}
use mini_redis.Keyspace.Members.{Inside, Inside-perm, Inside-tail}
use mini_redis.Keyspace.Ttl.{Retimed, entry_set_ttl-unset}
use mini_redis.Keyspace.Valid.{
  owner_of, members, IsValid, write_entry-IsValid, ttl-IsValid, IsEntry,
}
use mini_redis.Command.{
  Clock, Outcome, wrongtype_msg, err_type, lookup_entry, keys_cb, do_get, do_set, do_del, do_keys,
}
use mini_redis.Command.Forget.{unlink_entry-Forgets}
use mini_redis.Command.Lookup.{Seen, live, no_entry, expired, lookup_entry-Seen}
use mini_redis.Command.Create.{create_entry-Creates}

-- A pair that memory and the format of replies hold.
pub record IsSmall (p : ZNode) : Type 0 where
  pub name : length p.name < 2 ^ 31
  pub score : p.score < 2 ^ 64

-- Fewer keys, timers and pairs than the counters hold, after one more, and pairs that are small.
pub record HasRoom (db : Database) : Type 0 where
  pub keys : length (members db) + 1 < 2 ^ 32
  pub timers : length db.ttl + 1 < 2 ^ 59
  pub sets :
      (x : ℕ)
      → Inside x (members db)
      → length (SortedSet.Valid.members (db.entries x).zset) + 1 < 2 ^ 31
  pub pairs :
      (x : ℕ)
      → Inside x (members db)
      → All
          (λ y. IsSmall ((db.entries x).zset.pairs y))
          (SortedSet.Valid.members (db.entries x).zset)

-- The reply so far gets one value more, and the keyspace is valid.
abbrev pub Answers : Bytes → Outcome → Type 0
Answers out result =
    (db' : Database) × (value : Value) × (result ≡ some (db', out_value value out)) × IsValid db'

map-HasRoom :
    (db : Database) (m : HMap ℕ)
    → Perm (nodes m) (nodes db.map)
    → HasRoom db
    → HasRoom (record db { map = m })
map-HasRoom db m p room =
    let q = Perm.map owner_of p in
    record {
      keys = omega (arith, length-perm q, room.keys);
      timers = room.timers;
      sets = λ x h. room.sets x (Inside-perm x q h);
      pairs = λ x h. room.pairs x (Inside-perm x q h);
    }

-- The entry that was found is in the map, with the key.
pub Seen-found :
    (now : ℕ) (db : Database) (key : Bytes) {db' : Database} {x : ℕ}
    → Seen now db key db' (some x)
    → Inside x (members db') × ((db'.entries x).key ≡ key)
Seen-found now db key (live m x p inside named l) =
    (Inside-perm x (Perm.map owner_of (Perm.symm p)) inside, named)

-- Without one, no entry has the key.
pub Seen-none :
    (now : ℕ) (db : Database) (key : Bytes) {db' : Database}
    → Seen now db key db' none
    → All (λ y. (db'.entries y).key ≢ key) (members db')
Seen-none now db key (no_entry m p others) =
    All-perm (λ y. (db.entries y).key ≢ key) (λ y. hlevel) (members db) (map owner_of (nodes m))
      (Perm.map owner_of (Perm.symm p)) others
Seen-none now db key (expired db' x inside named due p same timers apart others) = others

pub Seen-HasRoom :
    (now : ℕ) (db : Database) (key : Bytes) {db' : Database} {r : Option ℕ}
    → Seen now db key db' r
    → HasRoom db
    → HasRoom db'
Seen-HasRoom now db key (live m x p inside named l) room = map-HasRoom db m p room
Seen-HasRoom now db key (no_entry m p others) room = map-HasRoom db m p room
Seen-HasRoom now db key (expired db' x inside named due p same timers apart others) room = record {
  keys = omega (arith, length-perm p, room.keys);
  timers = omega (
    arith,
    length-perm timers.was,
    length-perm timers.is,
    length-append timers.before timers.others,
    room.timers,
  );
  sets = λ y h.
      let ne : y ≢ x = λ e. h (rw (sym e) at apart) in
      rw (same y ne) (room.sets y (Inside-perm y p (Inside-tail y x (members db') h)));
  pairs = λ y h.
      let ne : y ≢ x = λ e. h (rw (sym e) at apart) in
      rw (same y ne) (room.pairs y (Inside-perm y p (Inside-tail y x (members db') h)));
}

-- The value of an entry is overwritten, and its timer is dropped.
pub overwrite-IsValid :
    (now : ℕ) (db : Database) (x : ℕ) (value : Bytes)
    → IsValid db
    → Inside x (members db)
    → let e = db.entries x in
      Retimed
        (record db { entries = write_entry db.entries x (record e { str = value }) })
        (members db)
        x
        []
        (entry_set_ttl now
          (record db { entries = write_entry db.entries x (record e { str = value }) })
          x
          (negsuc 0))
overwrite-IsValid now db x value v inside =
    let e = db.entries x in
    entry_set_ttl-unset now
      (record db { entries = write_entry db.entries x (record e { str = value }) }) (members db) x
      v.timers inside 0

module _ (clock : Clock) (db : Database) (out : Bytes) (v : IsValid db) (room : HasRoom db)
    (verb key : Bytes) where
  pub do_get-Answers : Answers out (do_get clock (verb ∷ key ∷ []) db out)
  unfolding do_get
  do_get-Answers =
      let (db', r, run, v', seen) = lookup_entry-Seen clock.at_lookup db key v in
      rw run (of_found db' v' r)
    where
      of_found :
          (db' : Database)
          → IsValid db'
          → (r : Option ℕ)
          → Answers out (elim r [
            | none ↦ some (db', out_value nil out)
            | some ent ↦
                let e = db'.entries ent in
                some (
                  db',
                  if not (is_str e.type)
                      then out_value (err err_type wrongtype_msg) out
                      else out_value (str e.str) out,
                )
          ])
      of_found db' v' none = (db', nil, refl, v')
      of_found db' v' (some x) = elim (Bool-cases (is_str (db'.entries x).type)) [
        | inl t ↦ (db', str (db'.entries x).str, rw t refl, v')
        | inr t ↦ (db', err err_type wrongtype_msg, rw t refl, v')
      ]

  pub do_del-Answers : Answers out (do_del clock (verb ∷ key ∷ []) db out)
  unfolding do_del
  do_del-Answers =
      let (db', r, run, v', seen) = lookup_entry-Seen clock.at_lookup db key v in
      of_found db' v' r run seen
    where
      of_found :
          (db' : Database)
          → IsValid db'
          → (r : Option ℕ) → lookup_entry clock.at_lookup db key ≡ some (db', r)
          → Seen clock.at_lookup db key db' r
          → Answers out (do_del clock (verb ∷ key ∷ []) db out)
      of_found db' v' none run seen = (db', int (pos 0), rw run refl, v')
      of_found db' v' (some x) run seen =
          let f =
            unlink_entry-Forgets clock.later db' x v' (Seen-found clock.at_lookup db key seen).0 in
          (f.rest, int (pos 1), rw (run, f.unlink, f.delete) refl, f.valid)

  pub do_set-Answers : (value : Bytes) → Answers out (do_set clock (verb ∷ key ∷ value ∷ []) db out)
  unfolding do_set
  do_set-Answers value =
      let (db', r, run, v', seen) = lookup_entry-Seen clock.at_lookup db key v in
      of_found db' v' r run seen
    where
      of_found :
          (db' : Database)
          → IsValid db'
          → (r : Option ℕ) → lookup_entry clock.at_lookup db key ≡ some (db', r)
          → Seen clock.at_lookup db key db' r
          → Answers out (do_set clock (verb ∷ key ∷ value ∷ []) db out)
      of_found db' v' none run seen =
          let room' = Seen-HasRoom clock.at_lookup db key seen room in
          let c =
            create_entry-Creates db' key t_str value v' (Seen-none clock.at_lookup db key seen)
              (omega (arith, room'.keys)) in
          (_, nil, rw (run, c.run) refl, c.valid)
      of_found db' v' (some x) run seen =
          let inside = (Seen-found clock.at_lookup db key seen).0 in
          let e = db'.entries x in
          let t = overwrite-IsValid clock.later db' x value v' inside in
          let e' : Entry = record e { str = value } in
          let old = v'.entries x inside in
          let same : IsEntry e' = record { hashed = old.hashed; zset = old.zset } in
          let written = write_entry-IsValid db' x e' v' refl same in
          elim (Bool-cases (is_str e.type)) [
            | inr wrong ↦ (db', err err_type wrongtype_msg, rw (run, wrong) refl, v')
            | inl right ↦ (
              record db' {
                entries = write_entry db'.entries x e';
                ttl = t.ttl;
                heap_idx = t.heap_idx;
              },
              nil,
              rw (run, right, t.run) refl,
              ttl-IsValid _ t.ttl t.heap_idx written t.valid,
            )
          ]

keys_values : (ℕ → Entry) → List (HNode ℕ) → Values
keys_values entries [] = done
keys_values entries (n ∷ ns) = next (str (entries n.owner).key) (keys_values entries ns)

keys_loop :
    (entries : ℕ → Entry) (ns : List (HNode ℕ)) (out : Bytes)
    → (walk_chain ns (keys_cb entries) out).1 ≡ out_values (keys_values entries ns) out
unfolding keys_values walk_chain
keys_loop entries [] out = refl
keys_loop entries (n ∷ ns) out = keys_loop entries ns (out_str out (entries n.owner).key)

count-keys_values :
    (entries : ℕ → Entry) (ns : List (HNode ℕ)) → count (keys_values entries ns) ≡ length ns
unfolding keys_values
count-keys_values entries [] = refl
count-keys_values entries (n ∷ ns) = ap suc (count-keys_values entries ns)

pub do_keys-Answers :
    (db : Database) (out : Bytes) → IsValid db → HasRoom db → Answers out (do_keys db out)
unfolding do_keys
do_keys-Answers db out v room =
    let size : hm_size db.map % 2 ^ 32 ≡ count (keys_values db.entries (nodes db.map)) = omega (
      arith,
      hm_size-nodes db.map v.map,
      count-keys_values db.entries (nodes db.map),
      length-map (nodes db.map) owner_of,
      room.keys,
    ) in
    (
      db,
      arr (keys_values db.entries (nodes db.map)),
      rw
          (
            hm_foreach_lem (keys_cb db.entries) db.map (out_arr out (hm_size db.map % 2 ^ 32))
                v.map,
            keys_loop db.entries (nodes db.map) (out_arr out (hm_size db.map % 2 ^ 32)),
            size,
          )
          refl,
      v,
    )
