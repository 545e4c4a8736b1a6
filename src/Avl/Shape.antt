-- ===== src/Avl/Shape.antt =====
-- What an AVL tree is: the order of its nodes, its stored heights and counts, and its balance.
use Prim.Native.Nat.{max}
use mini_redis.Base.{
  ℕ, ◌+◌, ◌*◌, ◌%◌, ◌^◌, ◌≤◌, ◌<◌, ◌≡◌, refl, List, [], ◌∷◌, ◌++◌, arith, length, length-append,
}
use mini_redis.Avl.{Tree, leaf, node, avl_height, avl_cnt, max_u32, avl_update}

-- The nodes in order.
abbrev pub to_list : Tree → List ℕ
to_list leaf = []
to_list (node h c l x r) = to_list l ++ x ∷ to_list r

-- Two subtrees whose stored heights differ by one at most.
pub record AreNear (l r : Tree) : Type 0 where
  pub left : avl_height l ≤ avl_height r + 1
  pub right : avl_height r ≤ avl_height l + 1

-- Every node stores the height and the count that its subtrees give, and they are near.
abbrev pub IsAvl : Tree → Type 0
IsAvl leaf = Unit
IsAvl (node h c l x r) =
    (h ≡ 1 + max (avl_height l) (avl_height r))
    × (c ≡ 1 + avl_cnt l + avl_cnt r)
    × AreNear l r
    × IsAvl l
    × IsAvl r

-- The stored counts are the numbers of nodes.
pub avl_cnt-length : (t : Tree) → IsAvl t → avl_cnt t ≡ length (to_list t)
avl_cnt-length leaf v = refl
avl_cnt-length (node h c l x r) v =
    omega
      (arith, length-append (to_list l) (x ∷ to_list r), avl_cnt-length l v.3, avl_cnt-length r v.4)

pub height-le-cnt : (t : Tree) → IsAvl t → avl_height t ≤ avl_cnt t
height-le-cnt leaf v = omega arith
height-le-cnt (node h c l x r) v = omega (arith, height-le-cnt l v.3, height-le-cnt r v.4)

-- A balanced tree is at most half as high, and two more, as it has nodes, so that a height and two
-- more fit 32 bits where the count does.
pub height-le-half : (t : Tree) → IsAvl t → 2 * avl_height t ≤ avl_cnt t + 2
height-le-half leaf v = omega arith
height-le-half (node h c l x r) v =
    omega
      (arith, height-le-half l v.3, height-le-half r v.4, height-le-cnt l v.3, height-le-cnt r v.4)

-- Within 32 bits, the aggregates do not wrap.
height_fits :
    (a b c d : ℕ) → a ≤ c → b ≤ d → c + d + 1 < 2 ^ 32 → (1 + max_u32 a b) % 2 ^ 32 ≡ 1 + max a b
height_fits a b c d p q small =
    let same : max_u32 a b ≡ max a b = ground arith in rw same (omega arith)

pub avl_update-fits :
    (l : Tree) (x : ℕ) (r : Tree)
    → IsAvl l
    → IsAvl r
    → avl_cnt l + avl_cnt r + 1 < 2 ^ 32
    → avl_update l x r
      ≡ node (1 + max (avl_height l) (avl_height r)) (1 + avl_cnt l + avl_cnt r) l x r
unfolding avl_update
avl_update-fits l x r vl vr small =
    let counted : (1 + avl_cnt l + avl_cnt r) % 2 ^ 32 ≡ 1 + avl_cnt l + avl_cnt r = omega arith in
    rw (height_fits _ _ _ _ (height-le-cnt l vl) (height-le-cnt r vr) small, counted)
