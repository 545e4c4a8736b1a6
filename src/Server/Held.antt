-- ===== src/Server/Held.antt =====
-- Of process_timers in src/server/server.cpp, the deletion from the map of the node of the entry whose
-- timer is at the root of the heap.
use mathlib.Core.List.{Perm}
use mathlib.Core.List.Perm
use mini_redis.Base.{
  ℕ, suc, ◌≤◌, ◌<◌, ◌≡◌, ◌≢◌, sym, ap, ◌∙◌, Bool, false, List, [], ◌∷◌, ◌++◌, Option, none, some,
  arith, length, All, All-perm, ◌==◌, ◌&&◌,
}
use mathlib.Core.Path.{subst}
use native.Mathlib.Bridge.{le_prop}
use mini_redis.Hash.{str_hash}
use mini_redis.Heap.{HeapItem}
use mini_redis.Heap.Items.{item}
use mini_redis.HashTable.{HNode, HMap, hm_delete}
use mini_redis.HashTable.Rehash
use mini_redis.HashTable.Rehash.{nodes}
use mini_redis.HashTable.Delete.{Removal, removed, absent, hm_delete-removes}
use mini_redis.SortedSet.Sorted.{Apart, both}
use mini_redis.SortedSet.Valid.{All-map_iff}
use mini_redis.Keyspace.{Database}
use mini_redis.Keyspace.Members.{
  Inside, Inside-head, Distinct, Distinct-perm, Distinct-head, Inside-perm,
}
use mini_redis.Keyspace.Timers.{owners_of, Retimes}
use mini_redis.Keyspace.Delete.{Detached}
use mini_redis.Keyspace.Valid.{owner_of, members, IsHashed, IsValid}

-- The identity of the node that is held.
abbrev pub hnode_same : HNode ℕ → HNode ℕ → Bool
hnode_same a b = a.owner == b.owner

abbrev pub node_of : Database → ℕ → HNode ℕ
node_of db ent = record { hcode = (db.entries ent).hcode; owner = ent }

-- The node that is held is found by its identity.
pub record Detaches (db : Database) (x : ℕ) : Type 0 where
  pub map : HMap ℕ
  pub hnode : Option (HNode ℕ)
  pub run : hm_delete db.map (node_of db x) hnode_same ≡ some (map, hnode)
  pub detached : Detached db x map

pub held-Detaches : (db : Database) (x : ℕ) → IsValid db → Inside x (members db) → Detaches db x
held-Detaches db x v inside =
    let (m, r, run, valid, removal) = hm_delete-removes db.map v.map (node_of db x) hnode_same in
    of_removal m r run valid removal
  where
    of_removal :
        (m : HMap ℕ) (r : Option (HNode ℕ))
        → hm_delete db.map (node_of db x) hnode_same ≡ some (m, r)
        → Rehash.IsValid m
        → Removal (node_of db x) hnode_same (nodes db.map) (nodes m) r
        → Detaches db x
    of_removal m (some _) run valid (removed n passes p) = record {
      map = m;
      hnode = some n;
      run = run;
      detached = record { hnode = n; valid = valid; owner = ground arith; less = p };
    }
    of_removal m none run valid (absent none_matches p) =
        let others =
          All-map_iff owner_of (λ y. y ≢ x) (nodes db.map)
            (both (nodes db.map) (λ n h fails e. absurd (apart n h fails e)) v.hashed
              none_matches) in
        absurd (inside others)
      where
        apart :
            (n : HNode ℕ)
            → IsHashed db.entries n
            → ((n.hcode == (db.entries x).hcode) && hnode_same n (node_of db x)) ≡ false
            → n.owner ≢ x
        apart n h fails e =
            let same : n.hcode ≡ (db.entries x).hcode =
              h ∙ ap (λ z. str_hash (db.entries z).key) e ∙ sym (v.entries x inside).hashed in
            absurd (ground arith)

pub from-index :
    (P : HeapItem → Type 0) (a : List HeapItem) → ((i : ℕ) → i < length a → P (item a i)) → All P a
from-index P [] h = tt
from-index P (t ∷ a) h = (h 0 (omega arith), from-index P a (λ i within. h (suc i) (omega arith)))

-- The entry at the root has no other timer, so that just this one goes.
pub fired_first :
    (now : ℕ) (root : HeapItem) (items ttl ttl' : List HeapItem)
    → ttl ≡ root ∷ items
    → Distinct (owners_of ttl)
    → root.val ≤ now
    → Retimes root.ref [] ttl ttl'
    → (gone : HeapItem) × (gone.ref ≡ root.ref) × (gone.val ≤ now) × Perm (gone ∷ ttl') ttl
fired_first now root items ttl ttl' e distinct late c =
    by_before c.before c.mine
      (Distinct-perm _ _ (Perm.map (λ (t : HeapItem). t.ref) c.was) distinct) all_due c.was
  where
    Due : HeapItem → Type 0
    Due t = t.ref ≡ root.ref → t.val ≤ now

    others_Due : (a : List HeapItem) → Apart root.ref (owners_of a) → All Due a
    others_Due [] apart = tt
    others_Due (t ∷ a) apart = ((λ q. absurd (apart.0 q)), others_Due a apart.1)

    all_due : All Due (c.before ++ c.others)
    all_due =
        All-perm Due (λ t. hlevel le_prop) ttl (c.before ++ c.others) c.was
          (subst (All Due) (sym e) (
            (λ q. late),
            others_Due items (
                Distinct-head root.ref (owners_of items)
                  (subst (λ l. Distinct (owners_of l)) e distinct)),
          ))

    by_before :
        (before : List HeapItem)
        → All (λ (t : HeapItem). t.ref ≡ root.ref) before
        → Distinct (owners_of (before ++ c.others))
        → All Due (before ++ c.others)
        → Perm ttl (before ++ c.others)
        → (gone : HeapItem) × (gone.ref ≡ root.ref) × (gone.val ≤ now) × Perm (gone ∷ ttl') ttl
    by_before [] mine d due p = absurd (
        Inside-perm root.ref (Perm.map (λ (t : HeapItem). t.ref) p)
          (subst (λ l. Inside root.ref (owners_of l)) (sym e)
            (Inside-head root.ref (owners_of items)))
          c.apart)
    by_before (b ∷ []) mine d due p =
        (b, mine.0, due.0 mine.0, Perm.trans (Perm.cons b c.is) (Perm.symm p))
    by_before (b ∷ b' ∷ bs) mine d due p = absurd (d.0.0 (mine.0 ∙ sym mine.1.0))
