-- ===== src/SortedSet/Insert.antt =====
-- zset_insert, with a new pair or with the update of one.
use mathlib.Core.List.Perm
use mini_redis.Base.Double.{is_nan}
use mini_redis.Base.{
  Option, ℕ, suc, ◌+◌, ◌^◌, ◌<◌, ◌≡◌, ◌≢◌, refl, ap, Bool, true, false, none, some, arith, Bytes,
  length, length-map, length-perm, All,
}
use mini_redis.Hash.{str_hash}
use mini_redis.HashTable.{HMap, hm_insert}
use mini_redis.HashTable.Insert.{hm_insert-adds}
use mini_redis.SortedSet.{ZNode, ZSet, znode_new, zset_lookup, zset_insert}
use mini_redis.SortedSet.Sorted.{
  Apart, All-map, write_pair_self, AreSorted-write_pair, map-write_pair,
}
use mini_redis.SortedSet.Valid.{
  entry, members, IsValid, contents, Search, here, nowhere, zset_lookup-Search, All-map_iff,
}
use mini_redis.SortedSet.Update.{
  IsLoose, tree_insert-IsValid, IsPair-write, entry-write, apart-write, Upsert, added,
  zset_update-Upsert,
}

-- The address of the next pair is not in use.
next-Apart : (zset : ZSet) → IsValid zset → Apart zset.next (members zset)
next-Apart zset v =
    All-map (members zset) (λ y q e. absurd (omega (arith, q.used, ap suc e))) v.pairs

-- The pair that znode_new makes, once in the name index, is loose.
znode_new-IsLoose :
    (zset : ZSet) (v : IsValid zset) (name : Bytes) (score : ℕ)
    → is_nan score ≡ false
    → All (λ y. (zset.pairs y).name ≢ name) (members zset)
    → length (members zset) + 1 < 2 ^ 32
    → (hmap : HMap ℕ) × (hm_insert
          (znode_new zset name score).0.hmap
          (record { hcode = str_hash name; owner = zset.next })
        ≡ some hmap)
      × IsLoose (record (znode_new zset name score).0 { hmap = hmap }) zset.next
unfolding znode_new
znode_new-IsLoose zset v name score number others small =
    let p : ZNode = record { hcode = str_hash name; score = score; name = name } in
    let apart = next-Apart zset v in
    let size = length-perm v.indexed in
    let (hmap, run, table, more) =
      hm_insert-adds zset.hmap v.table (record { hcode = str_hash name; owner = zset.next })
        (omega (arith, length-map (members zset) (entry zset.pairs))) in
    let same = write_pair_self zset.pairs zset.next p in
    (
      hmap,
      run,
      record {
        avl = v.avl;
        table = table;
        sorted = AreSorted-write_pair zset.pairs zset.next p (members zset) apart v.sorted;
        pairs =
            IsPair-write zset.pairs zset.next p (members zset) apart zset.next (zset.next + 1)
              (λ y h. omega arith) v.pairs;
        pair = record { number = rw same number; hashed = rw same refl; used = omega arith };
        apart = rw same (apart-write zset.pairs zset.next p (members zset) apart name others);
        indexed =
            rw (same, entry-write zset.pairs zset.next p (members zset) apart)
              (Perm.trans more (Perm.cons _ v.indexed));
      },
    )

-- From a valid set of fewer than 2 ^ 32 - 1 pairs and for a score that is a number, an insertion
-- succeeds and leaves a valid set: both indexes hold the same pairs, in the order of score and name.
-- It says true, and then no pair had the name and the set has gained one with the name and the
-- score, or false, and then of the pairs only the one with the name has changed, to a score that
-- equals the new one.
pub zset_insert-Upsert :
    (zset : ZSet) (name : Bytes) (score : ℕ)
    → IsValid zset
    → is_nan score ≡ false
    → length (members zset) + 1 < 2 ^ 32
    → (zset' : ZSet) × (is_new : Bool) × (zset_insert zset name score ≡ some (zset', is_new))
      × IsValid zset'
      × Upsert name score (contents zset) (contents zset') is_new
unfolding zset_insert znode_new
zset_insert-Upsert zset name score v number small =
    let (hmap, r, run, valid, search) = zset_lookup-Search zset v name in
    of_search hmap r run valid search
  where
    of_search :
        (hmap : HMap ℕ) (r : Option ℕ)
        → zset_lookup zset name ≡ some (record zset { hmap = hmap }, r)
        → IsValid (record zset { hmap = hmap })
        → Search zset.pairs name (members zset) r
        → (zset' : ZSet) × (is_new : Bool) × (zset_insert zset name score ≡ some (zset', is_new))
          × IsValid zset'
          × Upsert name score (contents zset) (contents zset') is_new
    of_search hmap (some _) run valid (here x front back s named) =
        let (zset', update, valid', changed) =
          zset_update-Upsert (record zset { hmap = hmap }) valid x front back s score number
            (omega arith) name named in
        (zset', false, rw (run, update) refl, valid', changed)
    of_search hmap none run valid (nowhere others) =
        let mid = record zset { hmap = hmap } in
        let (hmap', insert, loose) = znode_new-IsLoose mid valid name score number others small in
        let p : ZNode = record { hcode = str_hash name; score = score; name = name } in
        let same = write_pair_self zset.pairs zset.next p in
        let (zset', link, valid', perm) = tree_insert-IsValid _ zset.next loose small in
        let kept = map-write_pair zset.pairs zset.next p (members zset) (next-Apart zset v) in
        (
          zset',
          true,
          rw (run, same, insert, link) refl,
          valid',
          added p refl refl
              (All-map_iff zset.pairs (λ (q : ZNode). q.name ≢ name) (members zset) others)
              (rw (same, kept) at perm),
        )
