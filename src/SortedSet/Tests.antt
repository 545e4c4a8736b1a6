-- ===== src/SortedSet/Tests.antt =====
-- Runs of the sorted set and the instances of its theorems.
use mathlib.Core.List.{Perm}
use mini_redis.Base.Double.{is_nan, dbl_key, dbl_lt, dbl_eq}
use mini_redis.Base.Int.{pos, negsuc, ◌+ℤ◌, ◌-ℤ◌}
use mini_redis.Base.{◌>>=◌, map, ℕ, ◌≡◌, refl, Bool, List, [], ◌∷◌, Option, some, arith, Bytes}
use mini_redis.Hash.{str_hash, str_hash_loop}
use mini_redis.Avl.{
  avl_init, avl_update, rot_left, rot_right, avl_fix_left, avl_fix_right, rebalance, avl_fix,
  avl_del_easy, leftmost, transplant, avl_del, offset_loop, avl_offset,
}
use mini_redis.HashTable.{
  h_init, h_insert, find_place, h_lookup, deref, unlink, h_detach, help_loop, hm_help_rehashing,
  hm_trigger_rehashing, hm_lookup, with_table, is_full, hm_insert, hm_delete, hm_clear,
}
use mini_redis.SortedSet.{
  ZNode, ZSet, empty_zset, memcmp, zless, hcmp, zset_lookup, walk_down, tree_insert, locate,
  tree_remove, zset_update, znode_new, zset_insert, zset_delete, seek, zset_seekge, znode_offset,
  tree_dispose, zset_clear,
}
use mini_redis.SortedSet.Sample.{one, two, a, b, pairs, sample, two-number, sample-IsValid}
use mini_redis.SortedSet.Valid.{IsValid, contents}
use mini_redis.SortedSet.Update.{Upsert}
use mini_redis.SortedSet.Insert.{zset_insert-Upsert}
use mini_redis.SortedSet.Delete.{zset_delete-Removal}
use mini_redis.SortedSet.Seek.{First, zset_seekge-First}
use mini_redis.SortedSet.Offset.{Walked, znode_offset-Walked}

program : Unit {0}
unfolding is_nan dbl_key dbl_lt dbl_eq str_hash str_hash_loop avl_init avl_update rot_left rot_right
    avl_fix_left avl_fix_right rebalance avl_fix avl_del_easy leftmost transplant avl_del
    offset_loop avl_offset ◌+ℤ◌ ◌-ℤ◌ h_init h_insert find_place h_lookup deref unlink h_detach
    help_loop hm_help_rehashing hm_trigger_rehashing hm_lookup with_table is_full hm_insert
    hm_delete hm_clear memcmp zless hcmp zset_lookup walk_down tree_insert locate tree_remove
    zset_update znode_new zset_insert zset_delete seek zset_seekge znode_offset tree_dispose
    zset_clear
program = tt

-- The names in their order.
abbrev names : ZSet → List Bytes
names zset = map (λ (p : ZNode). p.name) (contents zset)

-- Two insertions, and a third that gives the second pair a score above that of the first.
zset_insert-reorders :
    (zset_insert empty_zset b two >>= λ (zset, _). zset_insert zset a one >>= λ (zset, _).
    zset_insert zset a 0x4008000000000000 >>= λ (zset, _). some (names zset))
    ≡ some (b ∷ a ∷ [])
unfolding program
zset_insert-reorders = refl

-- Without the first insertion, the order is that of the scores.
zset_insert-sorts :
    (zset_insert empty_zset b two >>= λ (zset, _).
    zset_insert zset a one >>= λ (zset, _). some (names zset))
    ≡ some (a ∷ b ∷ [])
unfolding program
zset_insert-sorts = refl

zset_delete-first : (zset_delete sample 0 >>= λ zset. some (names zset)) ≡ some (b ∷ [])
unfolding program
zset_delete-first = refl

-- A pair with the same score and a greater name is sought.
zset_seekge-between : zset_seekge sample one b ≡ some 1
unfolding program
zset_seekge-between = refl

znode_offset-back : znode_offset sample (some 1) (negsuc 0) ≡ some (some 0)
unfolding program
znode_offset-back = refl

zset_clear-both : (zset_clear sample).1 ≡ 1 ∷ 0 ∷ []
unfolding program
zset_clear-both = refl

zset_insert-Upsert_example :
    (zset : ZSet) × (is_new : Bool) × (zset_insert sample a two ≡ some (zset, is_new))
    × IsValid zset
    × Upsert a two (contents sample) (contents zset) is_new
zset_insert-Upsert_example = zset_insert-Upsert sample a two sample-IsValid two-number (omega arith)

zset_delete-Removal_example :
    (zset : ZSet) × (zset_delete sample 1 ≡ some zset)
    × IsValid zset
    × Perm (contents sample) (pairs 1 ∷ contents zset)
zset_delete-Removal_example =
    zset_delete-Removal sample 1 (0 ∷ []) [] sample-IsValid refl (omega arith)

zset_seekge-First_example :
    First (λ y. zless (pairs y) two a) (0 ∷ 1 ∷ []) (zset_seekge sample two a)
zset_seekge-First_example = zset_seekge-First sample two a sample-IsValid

znode_offset-Walked_example :
    (r : Option ℕ) × (znode_offset sample (some 0) (pos 1) ≡ some r)
    × Walked (0 ∷ 1 ∷ []) 0 (pos 1) r
znode_offset-Walked_example = znode_offset-Walked sample 0 [] (1 ∷ []) (pos 1) sample-IsValid refl
