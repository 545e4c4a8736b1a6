-- ===== src/Keyspace/Remove.antt =====
-- entry_del of an entry that the map has let go.
use mathlib.Core.List.{Perm, perm_middle, append_assoc}
use mathlib.Core.List.Perm
use mini_redis.Base.{
  ℕ, ◌≡◌, ◌≢◌, refl, List, [], ◌∷◌, ◌++◌, Option, none, some, ltb, Bool-cases, inl, inr,
  if◌then◌else◌,
}
use mini_redis.HashTable.{hm_size}
use mini_redis.Keyspace.{Database, is_str, entry_del_sync, entry_del, k_large_container_size}
use mini_redis.Keyspace.Members.{Inside}
use mini_redis.Keyspace.Timers.{AreTimed}
use mini_redis.Keyspace.Ttl.{entry_set_ttl-unset}
use mini_redis.Keyspace.Valid.{gone_from, gone, write_entry_ne}

-- What the teardown of `x` leaves: the map, the timers and the other entries as they are, and `x`
-- among those that are gone, or are to go.
pub record TornDown (db : Database) (x : ℕ) (db' : Database) : Type 0 where
  pub map : db'.map ≡ db.map
  pub ttl : db'.ttl ≡ db.ttl
  pub heap_idx : db'.heap_idx ≡ db.heap_idx
  pub next : db'.next ≡ db.next
  pub entries : (y : ℕ) → y ≢ x → db'.entries y ≡ db.entries y
  pub gone_too : Perm (gone db') (x ∷ gone db)

gone_from_freed :
    (pool : Option (List ℕ)) (freed : List ℕ) (x : ℕ)
    → Perm (gone_from pool (x ∷ freed)) (x ∷ gone_from pool freed)
gone_from_freed none freed x = Perm.refl _
gone_from_freed (some tasks) freed x = perm_middle tasks freed

sync-TornDown : (db : Database) (x : ℕ) → TornDown db x (entry_del_sync db x)
unfolding entry_del_sync
sync-TornDown db x = elim (Bool-cases (is_str (db.entries x).type)) [
  | inl e ↦ rw e (record {
    map = refl;
    ttl = refl;
    heap_idx = refl;
    next = refl;
    entries = λ y ne. refl;
    gone_too = gone_from_freed db.pool db.freed x;
  })
  | inr e ↦ rw e (record {
    map = refl;
    ttl = refl;
    heap_idx = refl;
    next = refl;
    entries = λ y ne. write_entry_ne db.entries x _ y ne;
    gone_too = gone_from_freed db.pool db.freed x;
  })
]

queued-TornDown :
    (db : Database) (x : ℕ) (tasks : List ℕ)
    → db.pool ≡ some tasks
    → TornDown db x (record db { pool = some (tasks ++ x ∷ []) })
queued-TornDown db x tasks e = record {
  map = refl;
  ttl = refl;
  heap_idx = refl;
  next = refl;
  entries = λ y ne. refl;
  gone_too = rw e (rw (append_assoc) (perm_middle tasks db.freed));
}

-- entry_del removes the timer of the entry, and frees the entry, or hands it to a worker.
pub entry_del-TornDown :
    (now : ℕ) (db : Database) (xs : List ℕ) (x : ℕ) (v : AreTimed db.ttl db.heap_idx xs)
    (member : Inside x xs)
    → let r = entry_set_ttl-unset now db xs x v member 0 in
      (db' : Database) × (entry_del now db x ≡ some db')
      × TornDown (record db { ttl = r.ttl; heap_idx = r.heap_idx }) x db'
unfolding entry_del
entry_del-TornDown now db xs x v member =
    let r = entry_set_ttl-unset now db xs x v member 0 in
    rw r.run (by_pool (record db { ttl = r.ttl; heap_idx = r.heap_idx }) db.pool refl)
  where
    by_pool :
        (db : Database) (pool : Option (List ℕ))
        → db.pool ≡ pool
        → let e = db.entries x in
          let set_size = if is_str e.type then 0 else hm_size e.zset.hmap in
          (db' : Database) × ((elim pool [
            | none ↦ some (entry_del_sync db x)
            | some tasks ↦ some (
                if ltb k_large_container_size set_size
                then record db { pool = some (tasks ++ x ∷ []) }
                else entry_del_sync db x)
          ])
            ≡ some db')
          × TornDown db x db'
    by_pool db none e = (entry_del_sync db x, refl, sync-TornDown db x)
    by_pool db (some tasks) e =
        let set_size = if is_str (db.entries x).type then 0 else hm_size (db.entries x).zset.hmap in
        elim (Bool-cases (ltb k_large_container_size set_size)) [
          | inl t ↦
              (record db { pool = some (tasks ++ x ∷ []) }, rw t refl, queued-TornDown db x tasks e)
          | inr t ↦ (entry_del_sync db x, rw t refl, sync-TornDown db x)
        ]
