-- ===== src/Keyspace/Valid.antt =====
-- The invariant of the keyspace, and the changes that keep it: of the map's tables, of the timers,
-- and of the value of an entry.
use mathlib.Core.List.{Perm}
use mathlib.Core.List.Perm
use mini_redis.Base.{
  ℕ, ◌<◌, ◌≡◌, ◌≢◌, refl, sym, ap, ◌∙◌, List, ◌++◌, Option, none, some, arith, length, length-perm,
  map, All, All-perm, ◌==◌, ==_iff, Bool-cases, inl, inr, true, false,
}
use native.Mathlib.Bridge.{le_prop}
use mini_redis.Hash.{str_hash}
use mini_redis.Heap.{HeapItem, Refs}
use mini_redis.HashTable.{HNode, HMap}
use mini_redis.HashTable.Rehash.{nodes}
use mini_redis.HashTable.Rehash
use mini_redis.SortedSet
use mini_redis.SortedSet.Sorted.{All-map}
use mini_redis.Keyspace.{Entry, Database, write_entry}
use mini_redis.Keyspace.Members.{Inside, Inside-perm, Distinct, Distinct-perm}
use mini_redis.Keyspace.Timers.{AreTimed}

-- The addresses of the entries in the map.
abbrev pub owner_of : HNode ℕ → ℕ
owner_of n = n.owner

abbrev pub members : Database → List ℕ
members db = map owner_of (nodes db.map)

-- The entries that a worker is to free, and those that are freed.
abbrev pub gone_from : Option (List ℕ) → List ℕ → List ℕ
gone_from none freed = freed
gone_from (some tasks) freed = tasks ++ freed

abbrev pub gone : Database → List ℕ
gone db = gone_from db.pool db.freed

-- An entry is hashed by its key, and its sorted set is in order.
pub record IsEntry (e : Entry) : Type 0 where
  pub hashed : e.hcode ≡ str_hash e.key
  pub zset : SortedSet.Valid.IsValid e.zset

-- The node of the map has the hash code of its entry.
abbrev pub IsHashed : (ℕ → Entry) → HNode ℕ → Type 0
IsHashed entries n = n.hcode ≡ str_hash (entries n.owner).key

-- The map is in order and finds each entry by its key, no two entries have the same key, the timers
-- belong to entries of the map, and every entry that was made is in the map, with a worker or freed,
-- and that once.
pub record IsValid (db : Database) : Type 0 where
  pub map : Rehash.IsValid db.map
  pub hashed : All (IsHashed db.entries) (nodes db.map)
  pub entries : (x : ℕ) → Inside x (members db) → IsEntry (db.entries x)
  pub keys :
      (x y : ℕ)
      → Inside x (members db)
      → Inside y (members db)
      → (db.entries x).key ≡ (db.entries y).key
      → x ≡ y
  pub timers : AreTimed db.ttl db.heap_idx (members db)
  pub once : Distinct (members db ++ gone db)
  pub used : All (λ x. x < db.next) (members db ++ gone db)
  pub complete : length (members db ++ gone db) ≡ db.next

pub AreTimed-perm :
    (ttl : List HeapItem) (heap_idx : Refs) (xs ys : List ℕ)
    → Perm xs ys
    → AreTimed ttl heap_idx xs
    → AreTimed ttl heap_idx ys
AreTimed-perm ttl heap_idx xs ys p v = record {
  heap = v.heap;
  inside = λ x h. Inside-perm x p (v.inside x h);
  idle = λ x h. v.idle x (Inside-perm x (Perm.symm p) h);
}

-- Another map with the same nodes.
pub map-IsValid :
    (db : Database) (m : HMap ℕ)
    → IsValid db
    → Rehash.IsValid m
    → Perm (nodes m) (nodes db.map)
    → IsValid (record db { map = m })
map-IsValid db m v w p =
    let owners = Perm.map owner_of p in
    let all = Perm.append owners (Perm.refl (gone db)) in
    record {
      map = w;
      hashed =
          All-perm (IsHashed db.entries) (λ n. hlevel) (nodes db.map) (nodes m) (Perm.symm p)
            v.hashed;
      entries = λ x h. v.entries x (Inside-perm x owners h);
      keys = λ x y h k. v.keys x y (Inside-perm x owners h) (Inside-perm y owners k);
      timers =
          AreTimed-perm db.ttl db.heap_idx (members db) (map owner_of (nodes m)) (Perm.symm owners)
            v.timers;
      once = Distinct-perm _ _ (Perm.symm all) v.once;
      used = All-perm (λ x. x < db.next) (λ x. le_prop) _ _ (Perm.symm all) v.used;
      complete = omega (arith, length-perm all, v.complete);
    }

-- Other timers of the same entries.
pub ttl-IsValid :
    (db : Database) (ttl : List HeapItem) (heap_idx : Refs)
    → IsValid db
    → AreTimed ttl heap_idx (members db)
    → IsValid (record db { ttl = ttl; heap_idx = heap_idx })
ttl-IsValid db ttl heap_idx v t = record {
  map = v.map;
  hashed = v.hashed;
  entries = v.entries;
  keys = v.keys;
  timers = t;
  once = v.once;
  used = v.used;
  complete = v.complete;
}

module _ (entries : ℕ → Entry) (x : ℕ) (e : Entry) where
  pub write_entry_self : write_entry entries x e x ≡ e
  write_entry_self = let t : (x == x) ≡ true = ground arith in rw t

  pub write_entry_ne : (y : ℕ) → y ≢ x → write_entry entries x e y ≡ entries y
  write_entry_ne y ne = let t : (y == x) ≡ false = ground arith in rw t

  -- A write that keeps the key keeps all the keys.
  pub write_entry-key :
      e.key ≡ (entries x).key → (y : ℕ) → (write_entry entries x e y).key ≡ (entries y).key
  write_entry-key same y = elim (Bool-cases (y == x)) [
    | inl t ↦ rw t (same ∙ ap (λ z. (entries z).key) (sym ((==_iff y x).0 t)))
    | inr t ↦ rw t refl
  ]

-- Another value of an entry.
pub write_entry-IsValid :
    (db : Database) (x : ℕ) (e : Entry)
    → IsValid db
    → e.key ≡ (db.entries x).key
    → IsEntry e
    → IsValid (record db { entries = write_entry db.entries x e })
write_entry-IsValid db x e v same w =
    let at = write_entry-key db.entries x e same in
    record {
      map = v.map;
      hashed = All-map (nodes db.map) (λ n h. rw (at n.owner) h) v.hashed;
      entries = λ y h. elim (Bool-cases (y == x)) [ inl t ↦ rw t w | inr t ↦ rw t (v.entries y h) ];
      keys = λ y z h k q. v.keys y z h k (sym (at y) ∙ q ∙ at z);
      timers = v.timers;
      once = v.once;
      used = v.used;
      complete = v.complete;
    }
