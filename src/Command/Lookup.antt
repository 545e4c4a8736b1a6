-- ===== src/Command/Lookup.antt =====
-- lookup_entry: what is found at a time, with the expiry of an overdue key.
use mathlib.Core.List.{Perm}
use mathlib.Core.List.Perm
use mathlib.Core.Path.{subst}
use mini_redis.Base.{
  ◌>>=◌, ℕ, ◌≤◌, ◌<◌, ◌≡◌, ◌≢◌, refl, sym, ap, ◌∙◌, [], ◌∷◌, Option, none, some, Bytes, arith,
  length, leb, map, All, true, ◌==◌, Bool-cases, ◌⊎◌, inl, inr, if◌then◌else◌,
}
use mini_redis.Heap.Items.{item, load-item}
use mini_redis.HashTable.{HNode, HMap}
use mini_redis.HashTable.Rehash.{nodes}
use mini_redis.HashTable.Rehash
use mini_redis.HashTable.Find.{Answer, found, missing, hm_lookup-answers}
use mini_redis.SortedSet.Sorted.{Apart}
use mini_redis.Keyspace.{Entry, Database, no_timer, entry_del}
use mini_redis.Keyspace.Members.{Inside, Inside-perm, Inside-head, Inside-tail, All-Inside}
use mini_redis.Keyspace.Timers.{untimed, timed, AreTimed-Timer, Retimes}
use mini_redis.Keyspace.Valid.{owner_of, members, IsValid, map-IsValid}
use mini_redis.Command.{entry_eq, make_probe, unlink_entry, deadline, lookup_entry}
use mini_redis.Command.Forget.{bytes_eq-same, NoMatch-keys, Forgets, unlink_entry-Forgets}

-- The deadline of the entry is not past, if it has one, or it is.
abbrev pub IsLive : ℕ → Database → ℕ → Type 0
IsLive now db x =
    (db.heap_idx x ≡ no_timer)
    ⊎ ((db.heap_idx x < length db.ttl) × (now < (item db.ttl (db.heap_idx x)).val))

abbrev pub IsDue : ℕ → Database → ℕ → Type 0
IsDue now db x = (db.heap_idx x < length db.ttl) × ((item db.ttl (db.heap_idx x)).val ≤ now)

-- What a lookup of a key finds: an entry with the key that is live, or none, and then there is no
-- entry with the key, or there was one that was overdue and is deleted. The rest stays as it is.
pub data Seen (now : ℕ) (db : Database) (key : Bytes) : Database → Option ℕ → Type 0 where
  live :
      (m : HMap ℕ) (x : ℕ)
      → Perm (nodes m) (nodes db.map)
      → Inside x (members db)
      → (db.entries x).key ≡ key
      → IsLive now db x
      → Seen now db key (record db { map = m }) (some x)
  no_entry :
      (m : HMap ℕ)
      → Perm (nodes m) (nodes db.map)
      → All (λ y. (db.entries y).key ≢ key) (members db)
      → Seen now db key (record db { map = m }) none
  expired :
      (db' : Database) (x : ℕ)
      → Inside x (members db)
      → (db.entries x).key ≡ key
      → IsDue now db x
      → Perm (x ∷ members db') (members db)
      → ((y : ℕ) → y ≢ x → db'.entries y ≡ db.entries y)
      → Retimes x [] db.ttl db'.ttl
      → Apart x (members db')
      → All (λ y. (db'.entries y).key ≢ key) (members db')
      → Seen now db key db' none

abbrev Looks : ℕ → Database → Bytes → Option (Database × Option ℕ) → Type 0
Looks now db key result =
    (db' : Database) × (r : Option ℕ) × (result ≡ some (db', r))
    × IsValid db'
    × Seen now db key db' r

abbrev expiry : ℕ → Database → ℕ → Option (Database × Option ℕ)
expiry now db x = deadline db x >>= λ due.
    if leb due now
    then (unlink_entry db x >>= λ db₁. entry_del now db₁ x >>= λ db₂. some (db₂, none))
    else some (db, some x)

-- No other entry has the key of the one that is deleted.
pub Forgets-keys :
    (now : ℕ) (db : Database) (key : Bytes) (x : ℕ)
    → IsValid db
    → Inside x (members db)
    → (db.entries x).key ≡ key
    → (f : Forgets now db x) → All (λ y. (f.rest.entries y).key ≢ key) (members f.rest)
Forgets-keys now db key x v inside named f =
    All-Inside (λ y. (f.rest.entries y).key ≢ key) (members f.rest)
      (λ y h e.
        let away : y ≢ x = λ q. h (subst (λ z. Apart z (members f.rest)) (sym q) f.apart) in
        let old = Inside-perm y f.less (Inside-tail y x (members f.rest) h) in
        away (
          v.keys y x old inside
            (ap (λ (n : Entry). n.key) (sym (f.entries y away)) ∙ e ∙ sym named)))

-- The test of the deadline, for an entry that is found.
module _ (now : ℕ) (db : Database) (key : Bytes) (v : IsValid db) (m : HMap ℕ)
    (table : Rehash.IsValid m) (same : Perm (nodes m) (nodes db.map)) (x : ℕ)
    (inside : Inside x (members db)) (named : (db.entries x).key ≡ key) where
  abbrev mid : Database
  mid = record db { map = m }

  expiry-Looks :
      Looks now db key (if db.heap_idx x == no_timer then some (mid, some x) else expiry now mid x)
  expiry-Looks =
      let valid = map-IsValid db m v table same in
      elim (AreTimed-Timer db.ttl db.heap_idx (members db) x v.timers inside) [
        | untimed none_set apart ↦
            let e : (db.heap_idx x == no_timer) ≡ true = ground arith in
            (mid, some x, rw e refl, valid, live m x same inside named (inl none_set))
        | timed e within owns ↦
            let due = item db.ttl (db.heap_idx x) in
            let at = load-item db.ttl (db.heap_idx x) within in
            elim (Bool-cases (leb due.val now)) [
              | inr t ↦ (
                mid,
                some x,
                rw (e, at, t) refl,
                valid,
                live m x same inside named (inr (within, ground arith)),
              )
              | inl t ↦
                  let member = Inside-perm x (Perm.map owner_of (Perm.symm same)) inside in
                  let f = unlink_entry-Forgets now mid x valid member in
                  (
                    f.rest,
                    none,
                    rw (e, at, t, f.unlink, f.delete) refl,
                    f.valid,
                    expired f.rest x inside named (within, ground arith)
                        (Perm.trans f.less (Perm.map owner_of same)) f.entries f.timers f.apart
                        (Forgets-keys now mid key x valid member named f),
                  )
            ]
      ]

-- From a valid keyspace a lookup succeeds and leaves a valid one, and it finds the live entry with
-- the key. It finds none if there is none, or if its deadline is not after the clock's reading, and
-- then it has deleted this entry with its timer. The other entries and their timers are as they were.
pub lookup_entry-Seen :
    (now : ℕ) (db : Database) (key : Bytes)
    → IsValid db
    → (db' : Database) × (r : Option ℕ) × (lookup_entry now db key ≡ some (db', r))
      × IsValid db'
      × Seen now db key db' r
unfolding lookup_entry
lookup_entry-Seen now db key v =
    let (m, r, run, table, same, answer) =
      hm_lookup-answers db.map v.map (make_probe key) (entry_eq db.entries key) in
    rw run (of_answer m r table same answer)
  where
    of_answer :
        (m : HMap ℕ) (r : Option (HNode ℕ))
        → Rehash.IsValid m
        → Perm (nodes m) (nodes db.map)
        → Answer (make_probe key) (entry_eq db.entries key) (nodes db.map) r
        → Looks now db key (elim r [
          | none ↦ some (record db { map = m }, none)
          | some hnode ↦
              if db.heap_idx hnode.owner == no_timer
              then some (record db { map = m }, some hnode.owner)
              else expiry now (record db { map = m }) hnode.owner
        ])
    of_answer m (some _) table same (found n rest passes p) =
        let inside =
          Inside-perm n.owner (Perm.map owner_of p) (Inside-head n.owner (map owner_of rest)) in
        expiry-Looks now db key v m table same n.owner inside
          (bytes_eq-same (db.entries n.owner).key key (ground arith))
    of_answer m none table same (missing none_matches) = (
      record db { map = m },
      none,
      refl,
      map-IsValid db m v table same,
      no_entry m same (NoMatch-keys db v key none_matches),
    )
