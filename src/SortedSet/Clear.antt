-- ===== src/SortedSet/Clear.antt =====
-- The empty set, and zset_clear, which leaves it.
use mathlib.Core.List.{Perm, perm_middle, append-nil}
use mathlib.Core.List.Perm
use mini_redis.Base.{◌≡◌, refl, [], ◌∷◌, ◌++◌}
use mini_redis.Avl.{Tree, leaf, node}
use mini_redis.Avl.Shape.{to_list}
use mini_redis.HashTable.{no_map, hm_clear}
use mini_redis.HashTable.Rehash.{no_map-IsValid}
use mini_redis.SortedSet.{ZSet, tree_dispose, zset_clear}
use mini_redis.SortedSet.Valid.{members, IsValid}

pub empty-IsValid : (zset : ZSet) → zset.root ≡ leaf → zset.hmap ≡ no_map → IsValid zset
empty-IsValid zset bare no_nodes = record {
  avl = rw bare tt;
  table = no_map-IsValid zset.hmap no_nodes;
  sorted = rw bare tt;
  pairs = rw bare tt;
  indexed = rw (bare, no_nodes) (Perm.refl []);
}

dispose-perm : (t : Tree) → Perm (tree_dispose t) (to_list t)
unfolding tree_dispose
dispose-perm leaf = Perm.refl []
dispose-perm (node h c l y r) =
    let last : Perm (tree_dispose r ++ y ∷ []) (y ∷ to_list r) =
      Perm.trans (perm_middle (tree_dispose r) [])
        (rw (append-nil (tree_dispose r)) (Perm.cons y (dispose-perm r))) in
    Perm.append (dispose-perm l) last

-- Clearing a set frees each of its pairs, as often as it is in the tree, and leaves an empty set
-- that is valid.
pub zset_clear-frees :
    (zset : ZSet)
    → IsValid (zset_clear zset).0
      × (members (zset_clear zset).0 ≡ [])
      × Perm (zset_clear zset).1 (members zset)
unfolding zset_clear hm_clear
zset_clear-frees zset = (empty-IsValid _ refl refl, refl, dispose-perm zset.root)
