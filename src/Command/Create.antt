-- ===== src/Command/Create.antt =====
-- create_entry: a new key.
use mathlib.Core.List.{Perm}
use mathlib.Core.List.Perm
use mini_redis.Base.{
  ℕ, ◌+◌, ◌^◌, ◌<◌, ◌≡◌, ◌≢◌, refl, sym, ap, ◌∙◌, List, ◌∷◌, ◌++◌, some, Bytes, arith, length,
  length-perm, map, All, All-left, All-perm, ◌==◌, if◌then◌else◌, inl, inr, suc, true, false,
  length-map,
}
use mini_redis.Hash.{str_hash}
use mini_redis.HashTable.{HNode, HMap}
use mini_redis.HashTable.Rehash.{nodes}
use mini_redis.HashTable.Insert.{hm_insert-adds}
use mini_redis.SortedSet.Sorted.{Apart, All-map, both}
use mini_redis.SortedSet.Valid.{All-unmap}
use mini_redis.SortedSet.Clear.{empty-IsValid}
use mini_redis.Keyspace.{EntryType, Entry, Database, no_timer, new_entry, write_entry}
use mini_redis.SortedSet.{empty_zset}
use mini_redis.Heap.Items.{item}
use native.Mathlib.Bridge.{le_prop}
use mini_redis.Keyspace.Members.{
  Inside, Inside-perm, Inside-cons, Inside-tail, Inside-All, Distinct-perm, Distinct-cons,
}
use mini_redis.Keyspace.Timers.{AreTimed, owners_of, Apart-OwnsNone}
use mini_redis.Keyspace.Valid.{
  owner_of, members, gone, IsHashed, IsValid, write_entry_self, write_entry_ne,
}
use mini_redis.Command.{create_entry}

abbrev pub entry_for : Bytes → EntryType → Bytes → Entry
entry_for key type str = record new_entry {
  hcode = str_hash key;
  key = key;
  type = type;
  str = str;
}

-- The keyspace with the new entry in it.
abbrev pub with_entry : Database → Bytes → EntryType → Bytes → HMap ℕ → Database
with_entry db key type str map = record db {
  map = map;
  entries = write_entry db.entries db.next (entry_for key type str);
  heap_idx = λ (x : ℕ). if x == db.next then no_timer else db.heap_idx x;
  next = db.next + 1;
}

pub record Creates (db : Database) (key : Bytes) (type : EntryType) (str : Bytes) : Type 0 where
  pub map : HMap ℕ
  pub run : create_entry db key type str ≡ some (with_entry db key type str map, db.next)
  pub valid : IsValid (with_entry db key type str map)
  pub more : Perm (members (with_entry db key type str map)) (db.next ∷ members db)

module _ (db : Database) (key : Bytes) (type : EntryType) (str : Bytes) (v : IsValid db)
    (fresh : All (λ y. (db.entries y).key ≢ key) (members db))
    (room : length (members db) + 1 < 2 ^ 60) where
  abbrev e : Entry
  e = entry_for key type str

  fresh_all : Apart db.next (members db ++ gone db)
  fresh_all = All-map (members db ++ gone db) (λ y h q. absurd (omega (arith, h, ap suc q))) v.used

  fresh_address : Apart db.next (members db)
  fresh_address = All-left (λ y. y ≢ db.next) (members db) (gone db) fresh_all

  away : (y : ℕ) → Inside y (members db) → y ≢ db.next
  away = Inside-All (λ y. y ≢ db.next) (members db) fresh_address

  -- The new entry has no timer, and the others have theirs.
  new-AreTimed :
      (xs : List ℕ)
      → Perm xs (db.next ∷ members db)
      → AreTimed db.ttl (λ (x : ℕ). if x == db.next then no_timer else db.heap_idx x) xs
  new-AreTimed xs p = record {
    heap = record {
      order = v.timers.heap.order;
      sync = λ i h.
          let owner = (item db.ttl i).ref in
          let owned : Inside owner (owners_of db.ttl) =
            λ apart. Apart-OwnsNone db.ttl owner apart i h refl in
          let t : (owner == db.next) ≡ false = ==_ne (away owner (v.timers.inside owner owned)) in
          rw t (v.timers.heap.sync i h);
      small = v.timers.heap.small;
    };
    inside = λ y h.
        Inside-perm y (Perm.symm p) (Inside-tail y db.next (members db) (v.timers.inside y h));
    idle = λ y h none. elim (Inside-cons y db.next (members db) (Inside-perm y p h)) [
      | inl q ↦ let t : (y == db.next) ≡ true = ground (arith, q) in rw t refl
      | inr old ↦
          let t : (y == db.next) ≡ false = ==_ne (away y old) in rw t (v.timers.idle y old none)
    ];
  }
    where
      ==_ne : {a b : ℕ} → a ≢ b → (a == b) ≡ false
      ==_ne ne = ground arith

  -- A key that no entry has can be given to a new entry, without a timer.
  pub create_entry-Creates : Creates db key type str
  unfolding create_entry
  create_entry-Creates =
      let node : HNode ℕ = record { hcode = str_hash key; owner = db.next } in
      let (map, run, table, p) =
        hm_insert-adds db.map v.map node
          (omega (arith, ap length {x = nodes db.map} refl, length-map (nodes db.map) owner_of)) in
      let db' = with_entry db key type str map in
      let more : Perm (members db') (db.next ∷ members db) = Perm.map owner_of p in
      let all : Perm (members db' ++ gone db') (db.next ∷ (members db ++ gone db)) =
        Perm.append more (Perm.refl (gone db)) in
      let at = write_entry_self db.entries db.next e in
      let other : (y : ℕ) → Inside y (members db) → db'.entries y ≡ db.entries y =
        λ y h. write_entry_ne db.entries db.next e y (away y h) in
      let new_key : (y : ℕ) → Inside y (members db) → (db.entries y).key ≢ key =
        Inside-All (λ y. (db.entries y).key ≢ key) (members db) fresh in
      let hashed : All (IsHashed db'.entries) (node ∷ nodes db.map) = (
        rw at refl,
        both (nodes db.map) (λ n ne h. rw (write_entry_ne db.entries db.next e n.owner ne) h)
            (All-unmap owner_of (λ y. y ≢ db.next) (nodes db.map) fresh_address) v.hashed,
      ) in
      record {
        map = map;
        run = rw run refl;
        valid = record {
          map = table;
          hashed =
              All-perm (IsHashed db'.entries) (λ n. hlevel) (node ∷ nodes db.map) (nodes map)
                (Perm.symm p) hashed;
          entries = λ y h. elim (Inside-cons y db.next (members db) (Inside-perm y more h)) [
            | inl q ↦
                rw (sym q, at) (record { hashed = refl; zset = empty-IsValid empty_zset refl refl })
            | inr old ↦ rw (other y old) (v.entries y old)
          ];
          keys = λ y z h k q. elim (Inside-cons y db.next (members db) (Inside-perm y more h)) [
            | inl a ↦ elim (Inside-cons z db.next (members db) (Inside-perm z more k)) [
              | inl b ↦ sym a ∙ b
              | inr b ↦ absurd (new_key z b (sym (rw (sym a, at, other z b) at q)))
            ]
            | inr a ↦ elim (Inside-cons z db.next (members db) (Inside-perm z more k)) [
              | inl b ↦ absurd (new_key y a (rw (sym b, at, other y a) at q))
              | inr b ↦ v.keys y z a b (rw (other y a, other z b) at q)
            ]
          ];
          timers = new-AreTimed (members db') more;
          once =
              Distinct-perm _ _ (Perm.symm all)
                (Distinct-cons db.next (members db ++ gone db) fresh_all v.once);
          used =
              All-perm (λ y. y < db.next + 1) (λ y. le_prop) _ _ (Perm.symm all)
                (omega arith, All-map (members db ++ gone db) (λ y h. omega arith) v.used);
          complete = omega (arith, length-perm all, v.complete);
        };
        more = more;
      }
