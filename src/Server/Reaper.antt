-- ===== src/Server/Reaper.antt =====
-- The part of process_timers in src/server/server.cpp that deletes the overdue keys, from the root
-- of the timer heap, at most k_max_works of them.
use mathlib.Core.List.{Perm}
use mathlib.Core.List.Perm
use mini_redis.Base.{
  ◌>>=◌, ℕ, zero, suc, ◌≤◌, ◌<◌, ◌≡◌, ◌≢◌, refl, sym, ap, ◌∙◌, true, false, List, [], ◌∷◌, ◌++◌,
  Option, some, arith, length, leb, map, All, All-right, Bool-cases, ◌⊎◌, inl, inr, if◌then◌else◌,
}
use mathlib.Core.Path.{subst}
use mini_redis.Heap.{HeapItem}
use mini_redis.Heap.Items.{item}
use mini_redis.Heap.Order.{root_least}
use mini_redis.HashTable.{hm_delete}
use mini_redis.SortedSet.Sorted.{both}
use mini_redis.Keyspace.{Database, entry_del}
use mini_redis.Keyspace.Members.{Inside, Inside-head, Apart-perm}
use mini_redis.Keyspace.Timers.{owners_of, IsValid-Distinct}
use mini_redis.Keyspace.Delete.{entry_del-Forgot}
use mini_redis.Keyspace.Valid.{members, IsValid}
use mini_redis.Server.Held.{hnode_same, node_of, held-Detaches, from-index, fired_first}

abbrev pub k_max_works : ℕ
k_max_works = 2000

-- The loop, with the works that are left.
unfoldable pub reap_keys : ℕ → ℕ → Database → Option Database
reap_keys zero now db = some db
reap_keys (suc works) now db = elim db.ttl [
  | [] ↦ some db
  | root ∷ items ↦
      let ent = root.ref in
      let reaped : Option Database = hm_delete db.map (node_of db ent) hnode_same >>= λ (map, _).
      entry_del now (record db { map = map }) ent >>= λ db'. reap_keys works now db' in
      if leb root.val now then reaped else some db
]

abbrev by_root : ℕ → ℕ → Database → List HeapItem → Option Database
by_root works now db [] = some db
by_root works now db (root ∷ items) =
    let ent = root.ref in
    let reaped : Option Database = hm_delete db.map (node_of db ent) hnode_same >>= λ (map, _).
    entry_del now (record db { map = map }) ent >>= λ db'. reap_keys works now db' in
    if leb root.val now then reaped else some db

-- What a reaping of at most `works` keys does: the timers in `fired` are gone, which all were
-- overdue, and with them their keys, the other timers and keys are as they were, and no timer is
-- overdue now, unless that many keys are gone.
pub record Reaps (works now : ℕ) (db : Database) (result : Option Database) : Type 0 where
  pub rest : Database
  pub fired : List HeapItem
  pub run : result ≡ some rest
  pub valid : IsValid rest
  pub timers : Perm (fired ++ rest.ttl) db.ttl
  pub overdue : All (λ (t : HeapItem). t.val ≤ now) fired
  pub less : Perm (owners_of fired ++ members rest) (members db)
  pub same : All (λ y. rest.entries y ≡ db.entries y) (members rest)
  pub over :
      (length fired ≡ works)
      ⊎ ((length fired ≤ works) × All (λ (t : HeapItem). now < t.val) rest.ttl)

All-refl : (db : Database) (ys : List ℕ) → All (λ y. db.entries y ≡ db.entries y) ys
All-refl db [] = tt
All-refl db (y ∷ ys) = (refl, All-refl db ys)

reap_step :
    (works now : ℕ) (db : Database)
    → IsValid db
    → ((db' : Database) → IsValid db' → Reaps works now db' (reap_keys works now db'))
    → Reaps (suc works) now db (reap_keys (suc works) now db)
unfolding reap_keys
reap_step works now db v again = by_timers db.ttl refl
  where
    stays :
        reap_keys (suc works) now db ≡ some db
        → All (λ (t : HeapItem). now < t.val) db.ttl
        → Reaps (suc works) now db (reap_keys (suc works) now db)
    stays run h = record {
      rest = db;
      fired = [];
      run = run;
      valid = v;
      timers = Perm.refl _;
      overdue = tt;
      less = Perm.refl _;
      same = All-refl db (members db);
      over = inr (omega arith, h);
    }

    reaps :
        (root : HeapItem) (items : List HeapItem)
        → db.ttl ≡ root ∷ items
        → leb root.val now ≡ true
        → Reaps (suc works) now db (reap_keys (suc works) now db)
    reaps root items e t =
        let ent = root.ref in
        let owned : Inside ent (owners_of db.ttl) =
          subst (λ l. Inside ent (owners_of l)) (sym e) (Inside-head ent (owners_of items)) in
        let inside = v.timers.inside ent owned in
        let d = held-Detaches db ent v inside in
        let f = entry_del-Forgot now db ent v inside d.map d.detached in
        let r = again f.rest f.valid in
        let distinct = IsValid-Distinct db.ttl db.heap_idx v.timers.heap in
        let late : root.val ≤ now = ground arith in
        let (gone, mine, due, same) =
          fired_first now root items db.ttl f.rest.ttl e distinct late f.timers in
        let apart =
          All-right (λ y. y ≢ ent) (owners_of r.fired) (members r.rest)
            (Apart-perm ent (Perm.symm r.less) f.apart) in
        record {
          rest = r.rest;
          fired = gone ∷ r.fired;
          run = ap (by_root works now db) e ∙ rw (t, d.run, f.delete, r.run) refl;
          valid = r.valid;
          timers = Perm.trans (Perm.cons gone r.timers) same;
          overdue = (due, r.overdue);
          less = rw mine (Perm.trans (Perm.cons ent r.less) f.less);
          same = both (members r.rest) (λ y ne q. q ∙ f.entries y ne) apart r.same;
          over = elim r.over [ inl q ↦ inl (ap suc q) | inr (few, h) ↦ inr (omega arith, h) ];
        }

    later : (a b c : ℕ) → leb a now ≡ false → c ≡ a → c ≤ b → now < b
    later a b c t e h = ground arith

    by_timers :
        (ttl : List HeapItem)
        → db.ttl ≡ ttl
        → Reaps (suc works) now db (reap_keys (suc works) now db)
    by_timers [] e =
        stays (ap (by_root works now db) e)
          (subst (λ l. All (λ (t : HeapItem). now < t.val) l) (sym e) tt)
    by_timers (root ∷ items) e = elim (Bool-cases (leb root.val now)) [
      | inl t ↦ reaps root items e t
      | inr t ↦
          let first : (item db.ttl 0).val ≡ root.val = ap (λ l. (item l 0).val) e in
          stays (ap (by_root works now db) e ∙ rw t refl) (
            from-index (λ u. now < u.val) db.ttl
              (λ i within.
                later root.val (item db.ttl i).val (item db.ttl 0).val t first
                  (root_least db.ttl i v.timers.heap.order within)))
    ]

-- A reaping ends and follows no null pointer. From a valid keyspace it leaves a valid one. At most
-- `works` timers are gone, and all were overdue; gone are the keys that they belong to, and no other
-- keys or timers; and if fewer than `works` are gone, no timer that is left is overdue.
pub reap_keys-Reaps :
    (works now : ℕ) (db : Database) → IsValid db → Reaps works now db (reap_keys works now db)
unfolding reap_keys
reap_keys-Reaps zero now db v = record {
  rest = db;
  fired = [];
  run = refl;
  valid = v;
  timers = Perm.refl _;
  overdue = tt;
  less = Perm.refl _;
  same = All-refl db (members db);
  over = inl refl;
}
reap_keys-Reaps (suc works) now db v =
    reap_step works now db v (λ db' v'. reap_keys-Reaps works now db' v')
