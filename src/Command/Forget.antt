-- ===== src/Command/Forget.antt =====
-- unlink_entry and entry_del, which the handlers call one after the other: an entry leaves the
-- keyspace.
use mathlib.Core.List.{Perm}
use mathlib.Core.List.Perm
use mini_redis.Base.{
  ℕ, ◌≡◌, ◌≢◌, refl, ap, [], ◌∷◌, Option, none, some, Bytes, arith, map, All, true, false,
}
use mini_redis.Hash.{str_hash}
use mini_redis.HashTable.{HNode, HMap, hm_delete}
use mini_redis.HashTable.Rehash.{nodes}
use mini_redis.HashTable.Rehash
use mini_redis.HashTable.Table.{matches, NoMatch}
use mini_redis.HashTable.Delete.{Removal, removed, absent, hm_delete-removes}
use mini_redis.SortedSet.{probe}
use mini_redis.SortedSet.Sorted.{Apart, both}
use mini_redis.SortedSet.Valid.{All-map_iff}
use mini_redis.Keyspace.{Database, entry_del}
use mini_redis.Keyspace.Members.{Inside, Inside-perm, Inside-head, Inside-All}
use mini_redis.Keyspace.Timers.{Retimes}
use mini_redis.Keyspace.Valid.{owner_of, members, IsHashed, IsValid}
use mini_redis.Command.{entry_eq, unlink_entry}
use mini_redis.Command.Numbers.{bytes_eq}
use mini_redis.Keyspace.Delete.{Detached, entry_del-Forgot}

pub bytes_eq-same : (a b : Bytes) → bytes_eq a b ≡ true → a ≡ b
unfolding bytes_eq
bytes_eq-same [] [] h = refl
bytes_eq-same [] (y ∷ b) h = absurd (ground arith)
bytes_eq-same (x ∷ a) [] h = absurd (ground arith)
bytes_eq-same (x ∷ a) (y ∷ b) h =
    let same : x ≡ y = ground arith in
    let rest : bytes_eq a b ≡ true = ground arith in rw (same, bytes_eq-same a b rest)

pub bytes_eq_refl : (a : Bytes) → bytes_eq a a ≡ true
unfolding bytes_eq
bytes_eq_refl [] = refl
bytes_eq_refl (x ∷ a) = ground (arith, bytes_eq_refl a)

-- If no node passes the test for a key, no entry has the key.
pub NoMatch-keys :
    (db : Database) (v : IsValid db) (key : Bytes)
    → NoMatch (probe (str_hash key)) (entry_eq db.entries key) (nodes db.map)
    → All (λ y. (db.entries y).key ≢ key) (members db)
NoMatch-keys db v key none_matches =
    All-map_iff owner_of (λ y. (db.entries y).key ≢ key) (nodes db.map)
      (both (nodes db.map) other v.hashed none_matches)
  where
    other :
        (n : HNode ℕ)
        → IsHashed db.entries n
        → matches (probe (str_hash key)) (entry_eq db.entries key) n ≡ false
        → (db.entries n.owner).key ≢ key
    other n hashed fails e =
        let passes : bytes_eq (db.entries n.owner).key key ≡ true = rw e (bytes_eq_refl key) in
        absurd (ground (arith, ap str_hash e))

-- The deletion from the map finds the entry.
record Unlinked (db : Database) (x : ℕ) : Type 0 where
  map : HMap ℕ
  run : unlink_entry db x ≡ some (record db { map = map })
  detached : Detached db x map

unlink_entry-Unlinked : (db : Database) (x : ℕ) → IsValid db → Inside x (members db) → Unlinked db x
unfolding unlink_entry
unlink_entry-Unlinked db x v inside =
    let e = db.entries x in
    let (m, r, run, valid, removal) =
      hm_delete-removes db.map v.map (probe e.hcode) (entry_eq db.entries e.key) in
    of_removal m r run valid removal
  where
    of_removal :
        (m : HMap ℕ) (r : Option (HNode ℕ))
        → hm_delete db.map (probe (db.entries x).hcode) (entry_eq db.entries (db.entries x).key)
          ≡ some (m, r)
        → Rehash.IsValid m
        → Removal
            (probe (db.entries x).hcode)
            (entry_eq db.entries (db.entries x).key)
            (nodes db.map)
            (nodes m)
            r
        → Unlinked db x
    of_removal m (some _) run valid (removed n passes p) =
        let member =
          Inside-perm n.owner (Perm.map owner_of p)
            (Inside-head n.owner (map owner_of (nodes m))) in
        let same = bytes_eq-same (db.entries n.owner).key (db.entries x).key (ground arith) in
        record {
          map = m;
          run = rw run refl;
          detached = record {
            hnode = n;
            valid = valid;
            owner = v.keys n.owner x member inside same;
            less = p;
          };
        }
    of_removal m none run valid (absent none_matches p) =
        let hashed = (v.entries x inside).hashed in
        let others = NoMatch-keys db v (db.entries x).key (rw hashed at none_matches) in
        absurd (
          Inside-All (λ y. (db.entries y).key ≢ (db.entries x).key) (members db) others x inside
            refl)

-- What it leaves when the entry `x` is unlinked and deleted: a valid keyspace of the other entries,
-- which are as they were, with their timers.
pub record Forgets (now : ℕ) (db : Database) (x : ℕ) : Type 0 where
  pub unlinked : Database
  pub rest : Database
  pub unlink : unlink_entry db x ≡ some unlinked
  pub delete : entry_del now unlinked x ≡ some rest
  pub valid : IsValid rest
  pub less : Perm (x ∷ members rest) (members db)
  pub entries : (y : ℕ) → y ≢ x → rest.entries y ≡ db.entries y
  pub timers : Retimes x [] db.ttl rest.ttl
  pub apart : Apart x (members rest)

module _ (now : ℕ) (db : Database) (x : ℕ) (v : IsValid db) (inside : Inside x (members db)) where
  -- An entry of a valid keyspace can be unlinked and deleted. The keyspace stays valid and loses
  -- this entry and its timer; the other entries and all their timers are as they were.
  pub unlink_entry-Forgets : Forgets now db x
  unlink_entry-Forgets =
      let u = unlink_entry-Unlinked db x v inside in
      let f = entry_del-Forgot now db x v inside u.map u.detached in
      record {
        unlinked = record db { map = u.map };
        rest = f.rest;
        unlink = u.run;
        delete = f.delete;
        valid = f.valid;
        less = f.less;
        entries = f.entries;
        timers = f.timers;
        apart = f.apart;
      }
