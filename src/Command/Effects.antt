-- ===== src/Command/Effects.antt =====
-- What a command does to the commands after it.
use mathlib.Core.List.{Perm}
use mini_redis.Base.{
  ℕ, ◌≡◌, ◌≢◌, refl, ap, ◌∙◌, true, [], ◌∷◌, Option, none, some, Bytes, arith, All, inl, inr,
}
use mini_redis.HashTable.{HMap}
use mini_redis.HashTable.Rehash.{nodes}
use mini_redis.Serialize.{out_nil, out_str}
use mini_redis.Keyspace.{Database, is_str}
use mini_redis.Keyspace.Members.{Inside, Inside-All}
use mini_redis.Keyspace.Valid.{members, IsValid}
use mini_redis.Command.{Clock, lookup_entry, do_get}
use mini_redis.Command.Lookup.{IsLive, IsDue, Seen, live, no_entry, expired, lookup_entry-Seen}

-- A deadline is not both past and to come.
pub live-not_due :
    (now : ℕ) (db : Database) (x : ℕ) → IsValid db → IsLive now db x → IsDue now db x → ⊥
live-not_due now db x v (inl none_set) (within, past) = absurd (omega (arith, v.timers.heap.small))
live-not_due now db x v (inr (within, coming)) (_, past) = absurd (omega arith)

-- A lookup finds the entry with the key while it is live, and none once it is due.
module _ (now : ℕ) (db : Database) (v : IsValid db) (x : ℕ) (inside : Inside x (members db)) where
  abbrev Finds : Type 0
  Finds =
      (m : HMap ℕ) × (lookup_entry now db (db.entries x).key ≡ some (record db { map = m }, some x))
      × IsValid (record db { map = m })
      × Perm (nodes m) (nodes db.map)

  pub lookup_live : IsLive now db x → Finds
  lookup_live alive =
      let (db', r, run, v', seen) = lookup_entry-Seen now db (db.entries x).key v in
      of_seen db' r run v' seen
    where
      of_seen :
          (db' : Database) (r : Option ℕ)
          → lookup_entry now db (db.entries x).key ≡ some (db', r)
          → IsValid db'
          → Seen now db (db.entries x).key db' r
          → Finds
      of_seen _ (some _) run v' (live m y p member named l) = (
        m,
        run ∙ ap (λ z. some (record db { map = m }, some z)) (v.keys y x member inside named),
        v',
        p,
      )
      of_seen _ none run v' (no_entry m p others) = absurd (
          Inside-All (λ y. (db.entries y).key ≢ (db.entries x).key) (members db) others x inside
            refl)
      of_seen _ none run v' (expired db' y member named due p same timers apart others) =
          absurd (live-not_due now db x v alive (rw (v.keys y x member inside named) at due))

  pub lookup_due :
      IsDue now db x
      → (db' : Database) × (lookup_entry now db (db.entries x).key ≡ some (db', none))
  lookup_due due =
      let (db', r, run, v', seen) = lookup_entry-Seen now db (db.entries x).key v in
      of_seen db' r run seen
    where
      of_seen :
          (db' : Database) (r : Option ℕ)
          → lookup_entry now db (db.entries x).key ≡ some (db', r)
          → Seen now db (db.entries x).key db' r
          → (db' : Database) × (lookup_entry now db (db.entries x).key ≡ some (db', none))
      of_seen _ (some _) run (live m y p member named l) =
          absurd (live-not_due now db x v (rw (v.keys y x member inside named) at l) due)
      of_seen _ none run (no_entry m p others) = (record db { map = m }, run)
      of_seen _ none run (expired db' y member named d p same timers apart others) = (db', run)

  -- GET of a live string, and of a key that is due.
  module _ (clock : Clock) (verb out : Bytes) (time : clock.at_lookup ≡ now) where
    pub do_get_live :
        (key value : Bytes)
        → (db.entries x).key ≡ key
        → (db.entries x).str ≡ value
        → IsLive now db x
        → is_str (db.entries x).type ≡ true
        → (db' : Database) × (do_get clock (verb ∷ key ∷ []) db out ≡ some (db', out_str out value))
    unfolding do_get
    do_get_live key value named valued alive string =
        let (m, run, _, _) = lookup_live alive in
        let run' = rw named at run in (record db { map = m }, rw (time, run', string, valued) refl)

    pub do_get_due :
        (key : Bytes)
        → (db.entries x).key ≡ key
        → IsDue now db x
        → (db' : Database) × (do_get clock (verb ∷ key ∷ []) db out ≡ some (db', out_nil out))
    unfolding do_get
    do_get_due key named due =
        let (db', run) = lookup_due due in let run' = rw named at run in (db', rw (time, run') refl)

-- GET of a key that no entry has.
pub do_get_none :
    (clock : Clock) (verb key out : Bytes) (db : Database)
    → IsValid db
    → All (λ y. (db.entries y).key ≢ key) (members db)
    → (db' : Database) × (do_get clock (verb ∷ key ∷ []) db out ≡ some (db', out_nil out))
unfolding do_get
do_get_none clock verb key out db v others =
    let (db', r, run, v', seen) = lookup_entry-Seen clock.at_lookup db key v in
    of_seen db' r run seen
  where
    of_seen :
        (db' : Database) (r : Option ℕ)
        → lookup_entry clock.at_lookup db key ≡ some (db', r)
        → Seen clock.at_lookup db key db' r
        → (db' : Database) × (do_get clock (verb ∷ key ∷ []) db out ≡ some (db', out_nil out))
    of_seen db' none run seen = (db', rw run refl)
    of_seen _ (some _) run (live m y p member named l) =
        absurd (Inside-All (λ y. (db.entries y).key ≢ key) (members db) others y member named)
