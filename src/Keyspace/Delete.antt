-- ===== src/Keyspace/Delete.antt =====
-- entry_del: an entry that has left the map leaves the keyspace.
use mathlib.Core.List.{Perm, perm_middle}
use mathlib.Core.List.Perm
use mathlib.Core.Path.{subst}
use native.Mathlib.Bridge.{le_prop}
use mini_redis.Base.{
  ℕ, ◌<◌, ◌≡◌, ◌≢◌, sym, ◌∙◌, [], ◌∷◌, ◌++◌, some, length-perm, map, All-perm, inl, inr,
}
use mini_redis.Heap.{HeapItem}
use mini_redis.HashTable.{HNode, HMap}
use mini_redis.HashTable.Rehash.{nodes}
use mini_redis.HashTable.Rehash
use mini_redis.SortedSet.Sorted.{Apart, both, Pairwise-left}
use mini_redis.SortedSet.Valid.{All-unmap}
use mini_redis.Keyspace.{Database, entry_del}
use mini_redis.Keyspace.Members.{
  Inside, Inside-perm, Inside-cons, Inside-tail, Distinct-perm, Distinct-head, Apart-perm,
}
use mini_redis.Keyspace.Timers.{owners_of, Retimes}
use mini_redis.Keyspace.Ttl.{entry_set_ttl-unset}
use mini_redis.Keyspace.Remove.{entry_del-TornDown}
use mini_redis.Keyspace.Valid.{owner_of, members, gone, IsHashed, IsValid}

-- The map has let the entry go.
pub record Detached (db : Database) (x : ℕ) (map : HMap ℕ) : Type 0 where
  pub hnode : HNode ℕ
  pub valid : Rehash.IsValid map
  pub owner : hnode.owner ≡ x
  pub less : Perm (hnode ∷ nodes map) (nodes db.map)

-- What it leaves when the entry `x` is deleted that the map has let go: a valid keyspace of the other entries,
-- which are as they were, with their timers.
pub record Forgot (now : ℕ) (db : Database) (x : ℕ) (map : HMap ℕ) : Type 0 where
  pub rest : Database
  pub delete : entry_del now (record db { map = map }) x ≡ some rest
  pub valid : IsValid rest
  pub less : Perm (x ∷ members rest) (members db)
  pub entries : (y : ℕ) → y ≢ x → rest.entries y ≡ db.entries y
  pub timers : Retimes x [] db.ttl rest.ttl
  pub apart : Apart x (members rest)

module _ (now : ℕ) (db : Database) (x : ℕ) (v : IsValid db) (inside : Inside x (members db)) where
  pub entry_del-Forgot : (m : HMap ℕ) → Detached db x m → Forgot now db x m
  entry_del-Forgot m u =
      let mid = record db { map = m } in
      let left = map owner_of (nodes m) in
      let t = entry_set_ttl-unset now mid (members db) x v.timers inside 0 in
      let (rest, delete, torn) = entry_del-TornDown now mid (members db) x v.timers inside in
      let less : Perm (x ∷ left) (members db) = rw u.owner at (Perm.map owner_of u.less) in
      let apart : Apart x left = Distinct-head x left (
        Distinct-perm (members db) (x ∷ left) (Perm.symm less)
          (Pairwise-left (λ a b. a ≢ b) (members db) (gone db) v.once)) in
      let away : (y : ℕ) → Inside y left → y ≢ x =
        λ y h e. h (subst (λ z. Apart z left) (sym e) apart) in
      let old : (y : ℕ) → Inside y left → Inside y (members db) =
        λ y h. Inside-perm y less (Inside-tail y x left h) in
      let all : Perm (members rest ++ gone rest) (members db ++ gone db) = rw torn.map (
        Perm.trans (Perm.append (Perm.refl left) torn.gone_too)
          (Perm.trans (perm_middle left (gone db)) (Perm.append less (Perm.refl (gone db))))) in
      let unowned : Apart x (owners_of t.ttl) =
        Apart-perm x (Perm.symm (Perm.map (λ (i : HeapItem). i.ref) t.change.is)) t.change.apart in
      let hashed =
        All-perm (IsHashed db.entries) (λ n. hlevel) (nodes db.map) (u.hnode ∷ nodes m)
          (Perm.symm u.less) v.hashed in
      record {
        rest = rest;
        delete = delete;
        valid = record {
          map = rw torn.map u.valid;
          hashed = rw torn.map (
              both (nodes m) (λ n ne h. rw (torn.entries n.owner ne) h)
                (All-unmap owner_of (λ y. y ≢ x) (nodes m) apart) hashed.1);
          entries = λ y h.
              let h' : Inside y left = rw torn.map at h in
              rw (torn.entries y (away y h')) (v.entries y (old y h'));
          keys = λ y z h k e.
              let h' : Inside y left = rw torn.map at h in
              let k' : Inside z left = rw torn.map at k in
              v.keys y z (old y h') (old z k')
                (rw (torn.entries y (away y h'), torn.entries z (away z k')) at e);
          timers =
              rw (torn.ttl, torn.heap_idx, torn.map)
                (record {
                  heap = t.valid.heap;
                  inside = λ y h.
                      elim (Inside-cons y x left
                        (Inside-perm y (Perm.symm less) (t.valid.inside y h))) [
                          | inl e ↦ absurd (h (rw e at unowned))
                          | inr further ↦ further
                        ];
                  idle = λ y h none. t.valid.idle y (old y h) none;
                });
          once = Distinct-perm _ _ (Perm.symm all) v.once;
          used =
              rw torn.next (All-perm (λ y. y < db.next) (λ y. le_prop) _ _ (Perm.symm all) v.used);
          complete = length-perm all ∙ v.complete ∙ sym torn.next;
        };
        less = rw torn.map less;
        entries = torn.entries;
        timers = rw torn.ttl t.change;
        apart = rw torn.map apart;
      }
