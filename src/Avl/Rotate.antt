-- ===== src/Avl/Rotate.antt =====
-- The rotations: what may stand for a node over two subtrees, and that one or two rotations make it.
use Prim.Native.Nat.{max}
use mathlib.Core.List.{append_assoc}
use mini_redis.Base.{ℕ, ◌+◌, ◌^◌, ◌≤◌, ◌<◌, ◌≡◌, refl, ◌∙◌, ◌∷◌, ◌++◌, some, arith}
use mini_redis.Avl.{Tree, node, avl_height, avl_cnt, avl_update, rot_left, rot_right}
use mini_redis.Avl.Shape.{to_list, AreNear, IsAvl, avl_update-fits}

-- `t` is an AVL tree that may stand for the node `x` over `l` and `r`.
pub record Joins (l : Tree) (x : ℕ) (r t : Tree) : Type 0 where
  pub avl : IsAvl t
  pub order : to_list t ≡ to_list l ++ x ∷ to_list r
  pub count : avl_cnt t ≡ 1 + avl_cnt l + avl_cnt r
  pub lower : max (avl_height l) (avl_height r) ≤ avl_height t
  pub upper : avl_height t ≤ 1 + max (avl_height l) (avl_height r)
  pub kept :
      avl_height l ≤ avl_height r + 1
      → avl_height r ≤ avl_height l + 1
      → avl_height t ≡ 1 + max (avl_height l) (avl_height r)

-- The subtrees are AVL trees and all the nodes can be counted in 32 bits.
pub record CanJoin (l r : Tree) : Type 0 where
  pub left : IsAvl l
  pub right : IsAvl r
  pub small : avl_cnt l + avl_cnt r + 1 < 2 ^ 32

pub avl_update-Joins :
    (l : Tree) (x : ℕ) (r : Tree) → CanJoin l r → AreNear l r → Joins l x r (avl_update l x r)
avl_update-Joins l x r v near = rw (avl_update-fits l x r v.left v.right v.small) (record {
  avl = (refl, refl, near, v.left, v.right);
  order = refl;
  count = refl;
  lower = omega arith;
  upper = omega arith;
  kept = λ _ _. refl;
})

-- A right rotation at `x` over `l` and `r`, where `l` is `y` over `ll` and `lr`.
pub rot_right-Joins :
    (h c hl cl : ℕ) (ll : Tree) (y : ℕ) (lr : Tree) (x : ℕ) (r : Tree)
    → let l = node hl cl ll y lr in
      IsAvl ll
      → IsAvl lr
      → IsAvl r
      → AreNear lr r
      → avl_cnt ll + avl_cnt lr + avl_cnt r + 2 < 2 ^ 32
      → avl_height ll ≤ 2 + max (avl_height lr) (avl_height r)
      → max (avl_height lr) (avl_height r) ≤ avl_height ll
      → (t : Tree) × (rot_right (node h c l x r) ≡ some t)
        × IsAvl t
        × (to_list t ≡ to_list l ++ x ∷ to_list r)
        × (avl_cnt t ≡ 2 + avl_cnt ll + avl_cnt lr + avl_cnt r)
        × (avl_height t ≡ 1 + max (avl_height ll) (1 + max (avl_height lr) (avl_height r)))
unfolding rot_right
rot_right-Joins h c hl cl ll y lr x r vll vlr vr near small low high =
    let inner =
      avl_update-Joins lr x r (record { left = vlr; right = vr; small = omega arith }) near in
    let height = inner.kept near.left near.right in
    let outer =
      avl_update-Joins ll y (avl_update lr x r)
        (record { left = vll; right = inner.avl; small = omega arith }) (omega arith) in
    (
      avl_update ll y (avl_update lr x r),
      refl,
      outer.avl,
      outer.order ∙ rw inner.order (simp append_assoc),
      omega arith,
      rw (← height) (outer.kept (omega arith) (omega arith)),
    )

-- A node that was just updated can be rotated.
pub rot_right-avl_update :
    (h c : ℕ) (l : Tree) (y : ℕ) (inner : Tree) (x : ℕ) (r : Tree)
    → rot_right (node h c (avl_update l y inner) x r) ≡ some (avl_update l y (avl_update inner x r))
unfolding rot_right avl_update
rot_right-avl_update h c l y inner x r = refl

-- The double rotation brings `z` up between `y` and `x`.
pub double-Joins :
    (ll : Tree) (y : ℕ) (kl : Tree) (z : ℕ) (kr : Tree) (x : ℕ) (r : Tree)
    → IsAvl ll
    → IsAvl kl
    → IsAvl kr
    → IsAvl r
    → avl_cnt ll + avl_cnt kl + avl_cnt kr + avl_cnt r + 3 < 2 ^ 32
    → AreNear ll kl
    → AreNear kr r
    → max (avl_height ll) (avl_height kl) ≡ max (avl_height kr) (avl_height r)
    → let t = avl_update (avl_update ll y kl) z (avl_update kr x r) in
      IsAvl t
      × (to_list t ≡ ((to_list ll ++ y ∷ to_list kl) ++ z ∷ to_list kr) ++ x ∷ to_list r)
      × (avl_cnt t ≡ 3 + avl_cnt ll + avl_cnt kl + avl_cnt kr + avl_cnt r)
      × (avl_height t ≡ 2 + max (avl_height ll) (avl_height kl))
double-Joins ll y kl z kr x r vll vkl vkr vr small nl nr level =
    let a = avl_update-Joins ll y kl (record { left = vll; right = vkl; small = omega arith }) nl in
    let b = avl_update-Joins kr x r (record { left = vkr; right = vr; small = omega arith }) nr in
    let ha = a.kept nl.left nl.right in
    let hb = b.kept nr.left nr.right in
    let near : AreNear (avl_update ll y kl) (avl_update kr x r) = omega arith in
    let outer =
      avl_update-Joins _ z _ (record { left = a.avl; right = b.avl; small = omega arith }) near in
    (
      outer.avl,
      outer.order ∙ rw (a.order, b.order) (simp append_assoc),
      omega arith,
      outer.kept near.left near.right ∙ omega arith,
    )

-- The mirror images.
pub rot_left-Joins :
    (h c : ℕ) (l : Tree) (x hr cr : ℕ) (rl : Tree) (y : ℕ) (rr : Tree)
    → let r = node hr cr rl y rr in
      IsAvl l
      → IsAvl rl
      → IsAvl rr
      → AreNear l rl
      → avl_cnt l + avl_cnt rl + avl_cnt rr + 2 < 2 ^ 32
      → avl_height rr ≤ 2 + max (avl_height l) (avl_height rl)
      → max (avl_height l) (avl_height rl) ≤ avl_height rr
      → (t : Tree) × (rot_left (node h c l x r) ≡ some t)
        × IsAvl t
        × (to_list t ≡ to_list l ++ x ∷ to_list r)
        × (avl_cnt t ≡ 2 + avl_cnt l + avl_cnt rl + avl_cnt rr)
        × (avl_height t ≡ 1 + max (1 + max (avl_height l) (avl_height rl)) (avl_height rr))
unfolding rot_left
rot_left-Joins h c l x hr cr rl y rr vl vrl vrr near small low high =
    let inner =
      avl_update-Joins l x rl (record { left = vl; right = vrl; small = omega arith }) near in
    let height = inner.kept near.left near.right in
    let outer =
      avl_update-Joins (avl_update l x rl) y rr
        (record { left = inner.avl; right = vrr; small = omega arith }) (omega arith) in
    (
      avl_update (avl_update l x rl) y rr,
      refl,
      outer.avl,
      outer.order ∙ rw inner.order (simp append_assoc),
      omega arith,
      rw (← height) (outer.kept (omega arith) (omega arith)),
    )

pub rot_left-avl_update :
    (h c : ℕ) (l : Tree) (x : ℕ) (inner : Tree) (y : ℕ) (r : Tree)
    → rot_left (node h c l x (avl_update inner y r)) ≡ some (avl_update (avl_update l x inner) y r)
unfolding rot_left avl_update
rot_left-avl_update h c l x inner y r = refl
