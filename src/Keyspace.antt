-- ===== src/Keyspace.antt =====
-- The keyspace of include/store/entry.h, include/store/database.h and src/store/database.cpp.
-- An entry is known by its address. The hash map holds addresses, and `entries` is the memory of the
-- entries, of which only the addresses in use count; `next` is the address that `new` gives next.
-- The field `heap_idx` of all entries is the function that the timer heap writes to. What `delete`
-- was called on is in `freed`, and the tasks that the pool was given are in `pool`. The clock's
-- reading is an argument.
pub mod Members
pub mod Timers
pub mod Ttl
pub mod Valid
pub mod Remove
pub mod Delete
use mini_redis.Base.Int.{ℤ, pos, negsuc}
use mini_redis.Base.{
  ◌>>=◌, ℕ, ◌+◌, ◌-◌, ◌%◌, ◌^◌, Bool, true, false, ◌&&◌, List, [], ◌∷◌, ◌++◌, Option, none, some,
  Bytes, ltb, ◌==◌, if◌then◌else◌,
}
use mini_redis.Heap.{HeapItem, Refs, write_ref, heap_upsert, heap_delete}
use mini_redis.HashTable.{HMap, no_map, hm_size}
use mini_redis.SortedSet.{ZSet, empty_zset, zset_clear}

pub data EntryType : Type 0 where
  t_str : EntryType
  t_zset : EntryType

-- The link of the hash map is in the hash map.
pub record Entry : Type 0 where
  pub hcode : ℕ
  pub key : Bytes
  pub type : EntryType
  pub str : Bytes
  pub zset : ZSet

pub record Database : Type 0 where
  pub map : HMap ℕ
  pub ttl : List HeapItem
  pub pool : Option (List ℕ)
  pub entries : ℕ → Entry
  pub heap_idx : Refs
  pub next : ℕ
  pub freed : List ℕ

-- `(size_t)-1`
abbrev pub no_timer : ℕ
no_timer = 2 ^ 64 - 1

-- `Entry{}`
abbrev pub new_entry : Entry
new_entry = record { hcode = 0; key = []; type = t_str; str = []; zset = empty_zset }

abbrev pub empty_database : Option (List ℕ) → Database
empty_database pool = record {
  map = no_map;
  ttl = [];
  pool = pool;
  entries = λ x. new_entry;
  heap_idx = λ x. no_timer;
  next = 0;
  freed = [];
}

-- `*ent = e`
abbrev pub write_entry : (ℕ → Entry) → ℕ → Entry → ℕ → Entry
write_entry entries ent e x = if x == ent then e else entries x

abbrev pub is_str : EntryType → Bool
is_str t_str = true
is_str t_zset = false

-- A negative time to live removes the timer.
unfoldable pub entry_set_ttl : ℕ → Database → ℕ → ℤ → Option Database
entry_set_ttl now db ent (negsuc n) =
    if db.heap_idx ent == no_timer
    then some db
    else heap_delete db.ttl db.heap_idx (db.heap_idx ent) >>= λ (ttl, heap_idx).
        some (record db { ttl = ttl; heap_idx = write_ref heap_idx ent no_timer })
entry_set_ttl now db ent (pos ttl_ms) =
    let expire_at = (now + ttl_ms) % 2 ^ 64 in
    heap_upsert db.ttl db.heap_idx (db.heap_idx ent) (record { val = expire_at; ref = ent })
    >>= λ (ttl, heap_idx). some (record db { ttl = ttl; heap_idx = heap_idx })

pub entry_del_sync : Database → ℕ → Database
entry_del_sync db ent =
    let e = db.entries ent in
    let cleared = record db {
      entries = write_entry db.entries ent (record e { zset = (zset_clear e.zset).0 });
    } in
    let db' = if is_str e.type then db else cleared in record db' { freed = ent ∷ db'.freed }

abbrev pub k_large_container_size : ℕ
k_large_container_size = 1000

-- The task given to the pool is entry_del_task on the entry.
unfoldable pub entry_del : ℕ → Database → ℕ → Option Database
unfolding entry_del_sync
entry_del now db ent = entry_set_ttl now db ent (negsuc 0) >>= λ db'.
    let e = db'.entries ent in
    let set_size = if is_str e.type then 0 else hm_size e.zset.hmap in
    elim db'.pool [
      | none ↦ some (entry_del_sync db' ent)
      | some tasks ↦ some (
          if ltb k_large_container_size set_size
          then record db' { pool = some (tasks ++ ent ∷ []) }
          else entry_del_sync db' ent)
    ]
