-- ===== src/Avl.antt =====
-- The AVL tree of include/ds/avl.h and src/ds/avl.cpp.
-- A node is known by its address. The tree is a value, and a pointer to a node together with the
-- chain of `parent` pointers above it is the subtree at the node and the list of the frames from
-- it to the root, so that each walk up and each write to a parent's child pointer is a step of the
-- model. Every pointer that the code follows without a test can be null: `none` is that fault.
pub mod Shape
pub mod Path
pub mod Rotate
pub mod Rebalance
pub mod Fix
pub mod Delete
pub mod Rank
pub mod Offset
mod Tests
use mini_redis.Base.Int.{ℤ, pos, ◌+ℤ◌, ◌-ℤ◌, ltb_ℤ, leb_ℤ, eqb_ℤ}
use mini_redis.Base.{
  ◌>>=◌, ◌&&◌, ℕ, zero, suc, ◌+◌, ◌%◌, ◌^◌, List, [], ◌∷◌, Option, none, some, ltb, ◌==◌,
  if◌then◌else◌,
}

-- Stored height, stored count, left subtree, address, right subtree.
pub data Tree : Type 0 where
  leaf : Tree
  node : ℕ → ℕ → Tree → ℕ → Tree → Tree

-- A parent without one of its subtrees: the child is on the left of it, or on the right.
pub data Frame : Type 0 where
  left_of : ℕ → ℕ → ℕ → Tree → Frame
  right_of : ℕ → ℕ → Tree → ℕ → Frame

-- A node that stands alone.
unfoldable pub avl_init : ℕ → Tree
avl_init x = node 1 1 leaf x leaf

abbrev pub avl_height : Tree → ℕ
avl_height leaf = 0
avl_height (node h c l x r) = h

abbrev pub avl_cnt : Tree → ℕ
avl_cnt leaf = 0
avl_cnt (node h c l x r) = c

abbrev pub max_u32 : ℕ → ℕ → ℕ
max_u32 a b = if ltb a b then b else a

-- The node with its aggregates recomputed, in 32 bits.
unfoldable pub avl_update : Tree → ℕ → Tree → Tree
avl_update l x r =
    node ((1 + max_u32 (avl_height l) (avl_height r)) % 2 ^ 32)
      ((1 + avl_cnt l + avl_cnt r) % 2 ^ 32) l x r

unfoldable pub rot_left : Tree → Option Tree
rot_left (node _ _ l x (node _ _ inner y r)) = some (avl_update (avl_update l x inner) y r)
rot_left _ = none

unfoldable pub rot_right : Tree → Option Tree
rot_right (node _ _ (node _ _ l y inner) x r) = some (avl_update l y (avl_update inner x r))
rot_right _ = none

unfoldable pub avl_fix_left : Tree → Option Tree
avl_fix_left (node h c (node hl cl ll y lr) x r) =
    let left = node hl cl ll y lr in
    let turned = rot_left left >>= λ left'. rot_right (node h c left' x r) in
    if ltb (avl_height ll) (avl_height lr) then turned else rot_right (node h c left x r)
avl_fix_left _ = none

unfoldable pub avl_fix_right : Tree → Option Tree
avl_fix_right (node h c l x (node hr cr rl y rr)) =
    let right = node hr cr rl y rr in
    let turned = rot_right right >>= λ right'. rot_left (node h c l x right') in
    if ltb (avl_height rr) (avl_height rl) then turned else rot_left (node h c l x right)
avl_fix_right _ = none

-- The body of the loop of `avl_fix`, at one node.
unfoldable pub rebalance : Tree → Option Tree
rebalance leaf = none
rebalance (node _ _ l x r) =
    let t = avl_update l x r in
    if avl_height l == (avl_height r + 2) % 2 ^ 32
    then avl_fix_left t
    else if (avl_height l + 2) % 2 ^ 32 == avl_height r
    then avl_fix_right t
    else some t

-- `*from = ...`: the parent with a new child.
abbrev pub relink : Frame → Tree → Tree
relink (left_of h c x r) t = node h c t x r
relink (right_of h c l x) t = node h c l x t

-- The loop goes up one frame at a time and returns the root.
unfoldable pub avl_fix : Tree → List Frame → Option Tree
avl_fix t [] = rebalance t
avl_fix t (f ∷ fs) = rebalance t >>= λ t'. avl_fix (relink f t') fs

-- `node->left ? node->left : node->right`
abbrev pub only_child : Tree → Tree → Tree
only_child leaf r = r
only_child l r = l

-- Splice out a node with at most one child.
unfoldable pub avl_del_easy : Tree → List Frame → Option Tree
avl_del_easy leaf fs = none
avl_del_easy (node _ _ l x r) [] = some (only_child l r)
avl_del_easy (node _ _ l x r) (f ∷ fs) = avl_fix (relink f (only_child l r)) fs

-- `while (victim->left) victim = victim->left`, from a node given by its fields: the address of
-- the node reached, its subtree and its frames.
unfoldable pub leftmost : ℕ → ℕ → Tree → ℕ → Tree → List Frame → ℕ × Tree × List Frame
leftmost h c leaf x r fs = (x, node h c leaf x r, fs)
leftmost h c (node hl cl ll y lr) x r fs = leftmost hl cl ll y lr (left_of h c x r ∷ fs)

-- `*victim = *node` and the writes after it: `victim` takes the links and aggregates of `x`.
unfoldable pub transplant : ℕ → ℕ → Tree → Tree
transplant x victim leaf = leaf
transplant x victim (node h c l y r) =
    node h c (transplant x victim l) (if y == x then victim else y) (transplant x victim r)

unfoldable pub avl_del : Tree → List Frame → Option Tree
avl_del leaf fs = none
avl_del (node h c leaf x r) fs = avl_del_easy (node h c leaf x r) fs
avl_del (node h c l x leaf) fs = avl_del_easy (node h c l x leaf) fs
avl_del (node h c l x (node hr cr rl y rr)) fs =
    let (victim, t, path) = leftmost hr cr rl y rr (right_of h c l x ∷ fs) in
    avl_del_easy t path >>= λ root. some (transplant x victim root)

-- `pos` and `offset` are 64-bit, and a count is below 2 ^ 32, so that no sum here wraps.
-- The answer of the walk: `none` inside is a null pointer; `none` outside is a null pointer that
-- was followed, or the end of the fuel.
abbrev pub Walk : Type 0
Walk = Option (Option (Tree × List Frame))

abbrev pub left_cnt : Tree → ℕ
left_cnt leaf = 0
left_cnt (node h c l x r) = avl_cnt l

abbrev pub right_cnt : Tree → ℕ
right_cnt leaf = 0
right_cnt (node h c l x r) = avl_cnt r

-- The loop of `avl_offset`.
unfoldable pub offset_loop : ℕ → Tree → List Frame → ℤ → ℤ → Walk
offset_loop zero t fs p offset = none
offset_loop (suc fuel) leaf fs p offset = none
offset_loop (suc fuel) (node h c l x r) fs p offset =
    let t = node h c l x r in
    let in_right = offset_loop fuel r (right_of h c l x ∷ fs) (p +ℤ pos (left_cnt r + 1)) offset in
    let in_left = offset_loop fuel l (left_of h c x r ∷ fs) (p -ℤ pos (right_cnt l + 1)) offset in
    let climbed : Walk = elim fs [
      | [] ↦ some none
      | f ∷ above ↦ elim f [
        | right_of hp cp lp y ↦
            offset_loop fuel (node hp cp lp y t) above (p -ℤ pos (avl_cnt l + 1)) offset
        | left_of hp cp y rp ↦
            offset_loop fuel (node hp cp t y rp) above (p +ℤ pos (avl_cnt r + 1)) offset
      ]
    ] in
    if eqb_ℤ p offset
    then some (some (t, fs))
    else if ltb_ℤ p offset && leb_ℤ offset (p +ℤ pos (avl_cnt r))
    then in_right
    else if ltb_ℤ offset p && leb_ℤ (p -ℤ pos (avl_cnt l)) offset
    then in_left
    else climbed

-- The nodes of a tree, and those of the frames, one by one: enough fuel to climb to the root and
-- to go down again.
abbrev pub size : Tree → ℕ
size leaf = 0
size (node h c l x r) = 1 + size l + size r

abbrev pub path_size : List Frame → ℕ
path_size [] = 0
path_size (left_of h c x r ∷ fs) = 2 + size r + path_size fs
path_size (right_of h c l x ∷ fs) = 2 + size l + path_size fs

unfoldable pub avl_offset : Tree → List Frame → ℤ → Walk
avl_offset t fs offset = offset_loop (1 + size t + path_size fs) t fs (pos 0) offset
