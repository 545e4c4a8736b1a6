-- ===== src/Command/SetAnswers.antt =====
-- The handlers on sorted sets, do_zquery apart, answer with one value and keep the keyspace valid.
use mathlib.Core.List.Perm
use mini_redis.Base.Double.{is_nan}
use mini_redis.Base.Int.{pos}
use mini_redis.Base.{
  ℕ, ◌+◌, ◌^◌, ◌<◌, ◌≡◌, ◌≢◌, refl, false, [], ◌∷◌, Option, none, some, Bytes, arith, length, All,
  Bool-cases, inl, inr, if◌then◌else◌,
}
use mini_redis.SortedSet
use mini_redis.SortedSet.{ZSet, empty_zset, zset_lookup, zset_insert, zset_delete}
use mini_redis.SortedSet.Valid.{Search, here, nowhere, zset_lookup-Search}
use mini_redis.SortedSet.Insert.{zset_insert-Upsert}
use mini_redis.SortedSet.Delete.{zset_delete-Removal}
use mini_redis.Serialize.Values.{Value, nil, int, dbl, err, out_value}
use mini_redis.Keyspace.{Entry, Database, t_zset, write_entry, is_str}
use mini_redis.Keyspace.Members.{Inside, Inside-perm, Inside-head}
use mini_redis.Keyspace.Valid.{members, IsValid, write_entry-IsValid, write_entry_self}
use mini_redis.Command.{Clock, err_arg, err_type, wrongtype_msg, not_float_msg, lookup_entry}
use mini_redis.Command.Numbers.{str2dbl}
use mini_redis.Command.Sets.{
  Expected, a_zset, missing_key, wrong_type, expect_zset, zset_of, with_zset, add_pair, add_scored,
  do_zadd, do_zrem, do_zscore,
}
use mini_redis.Command.Lookup.{Seen, lookup_entry-Seen}
use mini_redis.Command.Create.{entry_for, create_entry-Creates}
use mini_redis.Command.Answers.{HasRoom, Answers, Seen-found, Seen-none, Seen-HasRoom}

-- What expect_zset gives: an entry of the map, no entry with the key, or one value as the reply.
pub data Expects (db : Database) (key out : Bytes) : Expected → Type 0 where
  has_zset : (x : ℕ) → Inside x (members db) → Expects db key out (a_zset x)
  has_none : All (λ y. (db.entries y).key ≢ key) (members db) → Expects db key out missing_key
  has_error :
      (value : Value) (reply : Bytes)
      → reply ≡ out_value value out
      → Expects db key out (wrong_type reply)

pub expect_zset-Expects :
    (now : ℕ) (db : Database) (key out : Bytes)
    → IsValid db
    → HasRoom db
    → (db' : Database) × (expected : Expected) × (expect_zset now db key out ≡ some (db', expected))
      × IsValid db'
      × HasRoom db'
      × Expects db' key out expected
unfolding expect_zset
expect_zset-Expects now db key out v room =
    let (db', r, run, v', seen) = lookup_entry-Seen now db key v in of_found db' r run v' seen
  where
    of_found :
        (db' : Database) (r : Option ℕ)
        → lookup_entry now db key ≡ some (db', r)
        → IsValid db'
        → Seen now db key db' r
        → (db' : Database) × (expected : Expected) × (expect_zset now db key out
            ≡ some (db', expected))
          × IsValid db'
          × HasRoom db'
          × Expects db' key out expected
    of_found db' none run v' seen = (
      db',
      missing_key,
      rw run refl,
      v',
      Seen-HasRoom now db key seen room,
      has_none (Seen-none now db key seen),
    )
    of_found db' (some x) run v' seen = elim (Bool-cases (is_str (db'.entries x).type)) [
      | inl t ↦ (
        db',
        wrong_type (out_value (err err_type wrongtype_msg) out),
        rw (run, t) refl,
        v',
        Seen-HasRoom now db key seen room,
        has_error (err err_type wrongtype_msg) _ refl,
      )
      | inr t ↦ (
        db',
        a_zset x,
        rw (run, t) refl,
        v',
        Seen-HasRoom now db key seen room,
        has_zset x (Seen-found now db key seen).0,
      )
    ]

-- Another sorted set of an entry.
pub with_zset-IsValid :
    (db : Database) (x : ℕ) (zset : ZSet)
    → IsValid db
    → Inside x (members db)
    → SortedSet.Valid.IsValid zset
    → IsValid (with_zset db x zset)
with_zset-IsValid db x zset v inside w =
    write_entry-IsValid db x (record (db.entries x) { zset = zset }) v refl
      (record { hashed = (v.entries x inside).hashed; zset = w })

add_pair-Answers :
    (db : Database) (x : ℕ) (name : Bytes) (score : ℕ) (out : Bytes)
    → IsValid db
    → Inside x (members db)
    → is_nan score ≡ false
    → length (SortedSet.Valid.members (zset_of db x)) + 1 < 2 ^ 32
    → Answers out (add_pair db x name score out)
unfolding add_pair
add_pair-Answers db x name score out v inside number small =
    let (zset, is_new, run, w, change) =
      zset_insert-Upsert (zset_of db x) name score (v.entries x inside).zset number small in
    (
      with_zset db x zset,
      int (pos (if is_new then 1 else 0)),
      rw run refl,
      with_zset-IsValid db x zset v inside w,
    )

-- The set of a new entry is empty.
new_small :
    (entries : ℕ → Entry) (x : ℕ) (key : Bytes)
    → length (SortedSet.Valid.members (write_entry entries x (entry_for key t_zset []) x).zset) + 1
      < 2 ^ 32
new_small entries x key = rw (write_entry_self entries x (entry_for key t_zset [])) (omega arith)

-- A score that is accepted is a number.
str2dbl-number :
    (strtod : Bytes → ℕ × ℕ) (arg : Bytes) (score : ℕ)
    → str2dbl strtod arg ≡ some score
    → is_nan score ≡ false
unfolding str2dbl
str2dbl-number strtod arg score e = ground arith

module _ (clock : Clock) (db : Database) (out : Bytes) (v : IsValid db) (room : HasRoom db)
    (verb key : Bytes) where
  pub do_zadd-Answers :
      (strtod : Bytes → ℕ × ℕ) (arg name : Bytes)
      → Answers out (do_zadd strtod clock (verb ∷ key ∷ arg ∷ name ∷ []) db out)
  unfolding do_zadd add_scored
  do_zadd-Answers strtod arg name =
      let (db', expected, run, v', room', expects) =
        expect_zset-Expects clock.at_lookup db key out v room in
      of_score (str2dbl strtod arg) db' expected v' room' run expects refl
    where
      of_score :
          (r : Option ℕ) (db' : Database) (expected : Expected)
          → IsValid db'
          → HasRoom db'
          → expect_zset clock.at_lookup db key out ≡ some (db', expected)
          → Expects db' key out expected
          → str2dbl strtod arg ≡ r
          → Answers out (do_zadd strtod clock (verb ∷ key ∷ arg ∷ name ∷ []) db out)
      of_score none db' expected v' room' run expects e =
          (db, err err_arg not_float_msg, rw e refl, v)
      of_score (some score) db' (wrong_type _) v' room' run (has_error value reply same) e =
          (db', value, rw (e, run, same) refl, v')
      of_score (some score) db' (a_zset _) v' room' run (has_zset x inside) e =
          rw (e, run)
            (add_pair-Answers db' x name score out v' inside (str2dbl-number strtod arg score e)
              (omega (arith, room'.sets x inside)))
      of_score (some score) db' missing_key v' room' run (has_none fresh) e =
          let c = create_entry-Creates db' key t_zset [] v' fresh (omega (arith, room'.keys)) in
          let inside =
            Inside-perm db'.next (Perm.symm c.more) (Inside-head db'.next (members db')) in
          rw (e, run, c.run)
            (add_pair-Answers _ db'.next name score out c.valid inside
              (str2dbl-number strtod arg score e) (new_small db'.entries db'.next key))

  pub do_zrem-Answers : (name : Bytes) → Answers out (do_zrem clock (verb ∷ key ∷ name ∷ []) db out)
  unfolding do_zrem
  do_zrem-Answers name =
      let (db', expected, run, v', room', expects) =
        expect_zset-Expects clock.at_lookup db key out v room in
      of_expected db' expected v' room' run expects
    where
      of_search :
          (db' : Database) (x : ℕ) (zset : ZSet) (r : Option ℕ)
          → IsValid db'
          → HasRoom db'
          → Inside x (members db')
          → expect_zset clock.at_lookup db key out ≡ some (db', a_zset x)
          → zset_lookup (zset_of db' x) name ≡ some (zset, r)
          → SortedSet.Valid.IsValid zset
          → length (SortedSet.Valid.members zset) < 2 ^ 32
          → Search zset.pairs name (SortedSet.Valid.members zset) r
          → Answers out (do_zrem clock (verb ∷ key ∷ name ∷ []) db out)
      of_search db' x zset (some _) v' room' inside run found w small (here y front back s named) =
          let (zset', delete, w', less) = zset_delete-Removal zset y front back w s small in
          (
            with_zset db' x zset',
            int (pos 1),
            rw (run, found, delete) refl,
            with_zset-IsValid db' x zset' v' inside w',
          )
      of_search db' x zset none v' room' inside run found w small (nowhere others) = (
        with_zset db' x zset,
        int (pos 0),
        rw (run, found) refl,
        with_zset-IsValid db' x zset v' inside w,
      )

      of_expected :
          (db' : Database) (expected : Expected)
          → IsValid db'
          → HasRoom db'
          → expect_zset clock.at_lookup db key out ≡ some (db', expected)
          → Expects db' key out expected
          → Answers out (do_zrem clock (verb ∷ key ∷ name ∷ []) db out)
      of_expected db' (wrong_type _) v' room' run (has_error value reply same) =
          (db', value, rw (run, same) refl, v')
      of_expected db' missing_key v' room' run (has_none fresh) =
          (db', int (pos 0), rw run refl, v')
      of_expected db' (a_zset _) v' room' run (has_zset x inside) =
          let (hmap, r, found, w, search) =
            zset_lookup-Search (zset_of db' x) (v'.entries x inside).zset name in
          of_search db' x (record (zset_of db' x) { hmap = hmap }) r v' room' inside run found w
            (omega (arith, room'.sets x inside)) search

  pub do_zscore-Answers :
      (name : Bytes) → Answers out (do_zscore clock (verb ∷ key ∷ name ∷ []) db out)
  unfolding do_zscore
  do_zscore-Answers name =
      let (db', expected, run, v', room', expects) =
        expect_zset-Expects clock.at_lookup db key out v room in
      of_expected db' expected v' run expects
    where
      of_search :
          (db' : Database) (x : ℕ) (zset : ZSet) (r : Option ℕ)
          → expect_zset clock.at_lookup db key out ≡ some (db', a_zset x)
          → zset_lookup (zset_of db' x) name ≡ some (zset, r)
          → IsValid (with_zset db' x zset)
          → Answers out (do_zscore clock (verb ∷ key ∷ name ∷ []) db out)
      of_search db' x zset none run found w = (with_zset db' x zset, nil, rw (run, found) refl, w)
      of_search db' x zset (some y) run found w =
          (with_zset db' x zset, dbl (zset.pairs y).score, rw (run, found) refl, w)

      of_expected :
          (db' : Database) (expected : Expected)
          → IsValid db'
          → expect_zset clock.at_lookup db key out ≡ some (db', expected)
          → Expects db' key out expected
          → Answers out (do_zscore clock (verb ∷ key ∷ name ∷ []) db out)
      of_expected db' (wrong_type _) v' run (has_error value reply same) =
          (db', value, rw (run, same) refl, v')
      of_expected db' missing_key v' run (has_none fresh) = (db', nil, rw run refl, v')
      of_expected db' (a_zset _) v' run (has_zset x inside) =
          let (hmap, r, found, w, search) =
            zset_lookup-Search (zset_of db' x) (v'.entries x inside).zset name in
          of_search db' x (record (zset_of db' x) { hmap = hmap }) r run found
            (with_zset-IsValid db' x (record (zset_of db' x) { hmap = hmap }) v' inside w)
