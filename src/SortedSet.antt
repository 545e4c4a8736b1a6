-- ===== src/SortedSet.antt =====
-- The sorted set of include/ds/zset.h and src/ds/zset.cpp.
-- A pair is a ZNode, known by its address; `pairs` of the set is the memory of the ZNodes, of which
-- only the addresses in the two indexes are in use, and `next` is the address that malloc gives
-- next. The AVL tree and the hash map hold addresses. A null pointer is `none`, and a fault is the
-- outer `none`.
pub mod Order
pub mod Sorted
pub mod Walk
pub mod Remove
pub mod Valid
pub mod Update
pub mod Insert
pub mod Delete
pub mod Seek
pub mod Offset
pub mod Clear
pub mod Sample
mod Tests
use Prim.Native.Nat.{min, Ordering, compare}
use mini_redis.Base.Int.{ℤ}
use mini_redis.Base.Double.{dbl_lt, dbl_eq}
use mini_redis.Base.{
  ◌>>=◌, ℕ, zero, suc, ◌+◌, Bool, true, false, ◌&&◌, List, [], ◌∷◌, ◌++◌, Option, none, some, Bytes,
  length, ltb, ◌==◌, if◌then◌else◌,
}
use mini_redis.Hash.{str_hash}
use mini_redis.Avl.{
  Tree, leaf, node, Frame, left_of, right_of, avl_init, avl_fix, avl_del, avl_offset,
}
use mini_redis.HashTable.{HNode, HMap, no_map, hm_lookup, hm_insert, hm_delete, hm_clear}

-- The links of the indexes are in the indexes.
pub record ZNode : Type 0 where
  pub hcode : ℕ
  pub score : ℕ
  pub name : Bytes

pub record ZSet : Type 0 where
  pub root : Tree
  pub hmap : HMap ℕ
  pub pairs : ℕ → ZNode
  pub next : ℕ

abbrev pub empty_zset : ZSet
empty_zset = record {
  root = leaf;
  hmap = no_map;
  pairs = λ x. record { hcode = 0; score = 0; name = [] };
  next = 0;
}

-- `*at = p`
abbrev pub write_pair : (ℕ → ZNode) → ℕ → ZNode → ℕ → ZNode
write_pair pairs x p y = if y == x then p else pairs y

-- `memcmp` of the first `n` bytes.
unfoldable pub memcmp : ℕ → Bytes → Bytes → Ordering
memcmp zero a b = Ordering.eq
memcmp (suc n) [] b = Ordering.eq
memcmp (suc n) (x ∷ a) [] = Ordering.eq
memcmp (suc n) (x ∷ a) (y ∷ b) =
    let rest = memcmp n a b in
    elim (compare x y) [
      | Ordering.lt ↦ Ordering.lt
      | Ordering.eq ↦ rest
      | Ordering.gt ↦ Ordering.gt
    ]

-- `zless` of a node and a score with a name.
unfoldable pub zless : ZNode → ℕ → Bytes → Bool
unfolding memcmp
zless zl score name =
    if dbl_eq zl.score score
    then (elim (memcmp (min (length zl.name) (length name)) zl.name name) [
      | Ordering.lt ↦ true
      | Ordering.gt ↦ false
      | Ordering.eq ↦ ltb (length zl.name) (length name)
    ])
    else dbl_lt zl.score score

-- `zless` of two nodes.
abbrev pub zless_nodes : ZNode → ZNode → Bool
zless_nodes lhs zr = zless lhs zr.score zr.name

-- `hcmp`, for the probe of a name.
unfoldable pub hcmp : (ℕ → ZNode) → Bytes → HNode ℕ → HNode ℕ → Bool
unfolding memcmp
hcmp pairs name hnode key =
    let znode = pairs hnode.owner in
    if length znode.name == length name
    then (elim (memcmp (length znode.name) znode.name name) [
      | Ordering.eq ↦ true
      | Ordering.lt ↦ false
      | Ordering.gt ↦ false
    ])
    else false

-- The key of a probe has no pair behind it.
abbrev pub probe : ℕ → HNode ℕ
probe hcode = record { hcode = hcode; owner = 0 }

abbrev pub is_leaf : Tree → Bool
is_leaf leaf = true
is_leaf (node h c l x r) = false

unfoldable pub zset_lookup : ZSet → Bytes → Option (ZSet × Option ℕ)
zset_lookup zset name =
    if is_leaf zset.root
    then some (zset, none)
    else hm_lookup zset.hmap (probe (str_hash name)) (hcmp zset.pairs name) >>= λ (hmap, found).
        some
          (record zset { hmap = hmap }, elim found [ none ↦ none | some hnode ↦ some hnode.owner ])

-- The walk of `tree_insert` down to an empty link, which is given by the frames above it.
pub walk_down : (ℕ → Bool) → Tree → List Frame → List Frame
walk_down goes_left leaf path = path
walk_down goes_left (node h c l y r) path =
    let left = walk_down goes_left l (left_of h c y r ∷ path) in
    let right = walk_down goes_left r (right_of h c l y ∷ path) in
    if goes_left y then left else right

unfoldable pub tree_insert : ZSet → ℕ → Option ZSet
unfolding walk_down
tree_insert zset x =
    let goes_left = λ (y : ℕ). zless_nodes (zset.pairs x) (zset.pairs y) in
    avl_fix (avl_init x) (walk_down goes_left zset.root []) >>= λ root.
    some (record zset { root = root })

-- Where a node stands in the tree: the pointer to it, from its address.
unfoldable pub locate : ℕ → Tree → List Frame → Option (Tree × List Frame)
locate x leaf path = none
locate x (node h c l y r) path =
    let left = locate x l (left_of h c y r ∷ path) in
    let right = locate x r (right_of h c l y ∷ path) in
    let below : Option (Tree × List Frame) = elim left [ none ↦ right | some found ↦ some found ] in
    if y == x then some (node h c l y r, path) else below

-- `zset->root = avl_del(&node->tree)`
pub tree_remove : ZSet → ℕ → Option ZSet
tree_remove zset x = locate x zset.root [] >>= λ (t, path).
    avl_del t path >>= λ root. some (record zset { root = root })

unfoldable pub zset_update : ZSet → ℕ → ℕ → Option ZSet
unfolding tree_remove
zset_update zset x score =
    let znode = zset.pairs x in
    if dbl_eq znode.score score
    then some zset
    else tree_remove zset x >>= λ zset'.
        tree_insert
          (record zset' { pairs = write_pair zset'.pairs x (record znode { score = score }) }) x

-- A new ZNode: the set with it in memory, and its address.
pub znode_new : ZSet → Bytes → ℕ → ZSet × ℕ
znode_new zset name score = (
  record zset {
    pairs =
        write_pair zset.pairs zset.next
          (record { hcode = str_hash name; score = score; name = name });
    next = zset.next + 1;
  },
  zset.next,
)

unfoldable pub zset_insert : ZSet → Bytes → ℕ → Option (ZSet × Bool)
unfolding znode_new
zset_insert zset name score = zset_lookup zset name >>= λ (zset₁, found). elim found [
  | some x ↦ zset_update zset₁ x score >>= λ zset₂. some (zset₂, false)
  | none ↦
      let (zset₂, x) = znode_new zset₁ name score in
      hm_insert zset₂.hmap (record { hcode = (zset₂.pairs x).hcode; owner = x }) >>= λ hmap.
      tree_insert (record zset₂ { hmap = hmap }) x >>= λ zset₃. some (zset₃, true)
]

-- The assertion is that the hash map has the node. The pair is freed: its address is in no index.
unfoldable pub zset_delete : ZSet → ℕ → Option ZSet
unfolding tree_remove
zset_delete zset x =
    let znode = zset.pairs x in
    hm_delete zset.hmap (probe znode.hcode) (hcmp zset.pairs znode.name) >>= λ (hmap, found).
    found >>= λ hnode. tree_remove (record zset { hmap = hmap }) x

-- The loop of `zset_seekge`, with the candidate found above.
pub seek : (ℕ → Bool) → Tree → Option ℕ → Option ℕ
seek is_less leaf found = found
seek is_less (node h c l y r) found =
    let right = seek is_less r found in
    let left = seek is_less l (some y) in if is_less y then right else left

unfoldable pub zset_seekge : ZSet → ℕ → Bytes → Option ℕ
unfolding seek
zset_seekge zset score name = seek (λ y. zless (zset.pairs y) score name) zset.root none

-- The address at a position.
abbrev pub address : Option (Tree × List Frame) → Option ℕ
address none = none
address (some (leaf, path)) = none
address (some (node h c l y r, path)) = some y

unfoldable pub znode_offset : ZSet → Option ℕ → ℤ → Option (Option ℕ)
znode_offset zset none offset = some none
znode_offset zset (some x) offset = locate x zset.root [] >>= λ (t, path).
    avl_offset t path offset >>= λ found. some (address found)

-- The nodes in the order in which they are freed.
unfoldable pub tree_dispose : Tree → List ℕ
tree_dispose leaf = []
tree_dispose (node h c l y r) = tree_dispose l ++ (tree_dispose r ++ y ∷ [])

-- The set after it, and the nodes freed.
unfoldable pub zset_clear : ZSet → ZSet × List ℕ
zset_clear zset = (record zset { hmap = hm_clear zset.hmap; root = leaf }, tree_dispose zset.root)
