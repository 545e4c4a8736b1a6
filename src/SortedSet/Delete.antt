-- ===== src/SortedSet/Delete.antt =====
-- zset_delete, znode_offset and zset_clear.
use mathlib.Core.List.{Perm, perm_middle}
use mathlib.Core.List.Perm
use mathlib.Core.Bool.{Bool-set}
use mini_redis.Base.{
  Option, ℕ, ◌^◌, ◌<◌, ◌≡◌, ◌≢◌, refl, ap, false, List, [], ◌∷◌, ◌++◌, some, arith, Bytes, length,
  All, All-perm, map,
}
use mini_redis.Hash.{str_hash}
use mini_redis.HashTable.{HNode}
use mini_redis.HashTable.Rehash.{nodes}
use mini_redis.HashTable.Table.{matches}
use mini_redis.HashTable.Delete.{Removal, removed, absent, hm_delete-removes}
use mini_redis.SortedSet.{ZSet, hcmp, probe, zset_delete}
use mini_redis.SortedSet.Sorted.{IsBefore, Pairwise-remove}
use mini_redis.SortedSet.Remove.{tree_remove-Removes}
use mini_redis.SortedSet.Valid.{
  IsPair, entry, members, IsValid, contents, All-unmap, owner-member, hcmp-same, hcmp-found,
}
use mini_redis.SortedSet.Update.{All-outside, All-at, All-within, apart_names, member_inside}

module _ (zset : ZSet) (v : IsValid zset) (x : ℕ) (front back : List ℕ)
    (s : members zset ≡ front ++ x ∷ back) where
  abbrev name : Bytes
  name = (zset.pairs x).name

  abbrev key : HNode ℕ
  key = probe (zset.pairs x).hcode

  x-IsPair : IsPair zset.pairs zset.next x
  x-IsPair = All-at (IsPair zset.pairs zset.next) x front back (rw s at v.pairs)

  -- The name tells the member.
  same_member :
      (y : ℕ) (front' back' : List ℕ)
      → members zset ≡ front' ++ y ∷ back'
      → (zset.pairs y).name ≡ name
      → y ≡ x
  same_member y front' back' s' e =
      let only : All (λ y. (zset.pairs y).name ≡ name → y ≡ x) (members zset) = rw s (
        All-within (λ y. (zset.pairs y).name ≡ name → y ≡ x) x front back (λ _. refl)
          (both_absurd (front ++ back) (apart_names zset.pairs front x back (rw s at v.sorted)))) in
      All-at (λ y. (zset.pairs y).name ≡ name → y ≡ x) y front' back' (rw s' at only) e
    where
      both_absurd :
          (ys : List ℕ)
          → All (λ y. (zset.pairs y).name ≢ name) ys
          → All (λ y. (zset.pairs y).name ≡ name → y ≡ x) ys
      both_absurd [] h = tt
      both_absurd (y ∷ ys) h = (λ e. absurd (h.0 e), both_absurd ys h.1)

  -- The node that the name index gives up is that of the pair.
  deleted :
      (left : List (HNode ℕ)) (r : Option (HNode ℕ))
      → Removal key (hcmp zset.pairs name) (nodes zset.hmap) left r
      → (r ≡ some (entry zset.pairs x)) × Perm (entry zset.pairs x ∷ left) (nodes zset.hmap)
  deleted left r (removed n m p) =
      let (front', back', s') = owner-member zset v n left p in
      let named = hcmp-same zset.pairs name n key (ground arith) in
      let owner = same_member n.owner front' back' s' named in
      let hashed : n.hcode ≡ str_hash name = ground (arith, x-IsPair.hashed) in
      let same : n ≡ entry zset.pairs x = λ i. record { hcode = hashed i; owner = owner i } in
      (ap some same, rw same at p)
  deleted left r (absent none_matches kept) =
      let passes = matches key (hcmp zset.pairs name) in
      let others =
        All-unmap (entry zset.pairs) (λ n. passes n ≡ false) (members zset)
          (All-perm (λ n. passes n ≡ false) (λ n. Bool-set (passes n) false) (nodes zset.hmap)
            (map (entry zset.pairs) (members zset)) v.indexed none_matches) in
      let fails : passes (entry zset.pairs x) ≡ false =
        All-at (λ y. passes (entry zset.pairs y) ≡ false) x front back (rw s at others) in
      let found = hcmp-found zset.pairs name (entry zset.pairs x) key refl in
      absurd (ground (arith, x-IsPair.hashed))

-- From a valid set, the deletion of a pair of it succeeds: the assertion holds, the set stays
-- valid, and it has lost this pair and no other.
pub zset_delete-Removal :
    (zset : ZSet) (x : ℕ) (front back : List ℕ)
    → IsValid zset
    → members zset ≡ front ++ x ∷ back
    → length (members zset) < 2 ^ 32
    → (zset' : ZSet) × (zset_delete zset x ≡ some zset')
      × IsValid zset'
      × Perm (contents zset) (zset.pairs x ∷ contents zset')
unfolding zset_delete
zset_delete-Removal zset x front back v s small =
    let name = (zset.pairs x).name in
    let (hmap, r, run, table, removal) =
      hm_delete-removes zset.hmap v.table (probe (zset.pairs x).hcode) (hcmp zset.pairs name) in
    let (found, left) = deleted zset v x front back s (nodes hmap) r removal in
    let t =
      tree_remove-Removes (record zset { hmap = hmap }) x v.avl v.sorted small
        (member_inside x front back (members zset) s) in
    let others = t.front ++ t.back in
    let placed : Perm (members zset) (x ∷ others) = rw t.old_order (perm_middle t.front t.back) in
    (
      record zset { hmap = hmap; root = t.root },
      rw (run, found, t.run) refl,
      record {
        avl = t.avl;
        table = table;
        sorted = rw t.order (
            Pairwise-remove (λ y z. IsBefore (zset.pairs y) (zset.pairs z)) t.front x t.back
              (rw t.old_order at v.sorted));
        pairs = rw t.order (
            All-outside (IsPair zset.pairs zset.next) x t.front t.back (rw t.old_order at v.pairs));
        indexed = rw t.order (
            Perm.cons_inv
              (Perm.trans left (Perm.trans v.indexed (Perm.map (entry zset.pairs) placed))));
      },
      rw t.order (Perm.map zset.pairs placed),
    )
