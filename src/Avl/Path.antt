-- ===== src/Avl/Path.antt =====
-- A position in a tree: the nodes before and after it, and what an AVL tree asks of its frames.
use Prim.Native.Nat.{max}
use mathlib.Core.List.{append_assoc, append-nil}
use mini_redis.Base.{ℕ, ◌+◌, ◌≤◌, ◌≡◌, sym, ◌∙◌, List, [], ◌∷◌, ◌++◌, arith, length, length-append}
use mini_redis.Avl.{Tree, node, Frame, left_of, right_of, avl_height, avl_cnt, relink}
use mini_redis.Avl.Shape.{to_list, IsAvl, avl_cnt-length}

-- The whole tree around a subtree.
abbrev pub unfocus : Tree → List Frame → Tree
unfocus t [] = t
unfocus t (f ∷ fs) = unfocus (relink f t) fs

abbrev pub before : List Frame → List ℕ
before [] = []
before (left_of h c x r ∷ fs) = before fs
before (right_of h c l x ∷ fs) = before fs ++ (to_list l ++ x ∷ [])

abbrev pub after : List Frame → List ℕ
after [] = []
after (left_of h c x r ∷ fs) = (x ∷ to_list r) ++ after fs
after (right_of h c l x ∷ fs) = after fs

-- The number of nodes in the frames.
abbrev pub path_cnt : List Frame → ℕ
path_cnt [] = 0
path_cnt (left_of h c x r ∷ fs) = 1 + avl_cnt r + path_cnt fs
path_cnt (right_of h c l x ∷ fs) = 1 + avl_cnt l + path_cnt fs

-- The frames make an AVL tree of an AVL subtree of height `k`.
abbrev pub Fits : ℕ → List Frame → Type 0
Fits k [] = Unit
Fits k (left_of h c x r ∷ fs) =
    IsAvl r × (k ≤ avl_height r + 1) × (avl_height r ≤ k + 1) × Fits (1 + max k (avl_height r)) fs
Fits k (right_of h c l x ∷ fs) =
    IsAvl l × (k ≤ avl_height l + 1) × (avl_height l ≤ k + 1) × Fits (1 + max (avl_height l) k) fs

pub to_list-unfocus :
    (t : Tree) (fs : List Frame) → to_list (unfocus t fs) ≡ before fs ++ (to_list t ++ after fs)
to_list-unfocus t [] = sym (append-nil (to_list t))
to_list-unfocus t (left_of h c x r ∷ fs) = to_list-unfocus (node h c t x r) fs ∙ simp append_assoc
to_list-unfocus t (right_of h c l x ∷ fs) = to_list-unfocus (node h c l x t) fs ∙ simp append_assoc

-- The subtree of an AVL tree is one, and its frames fit it.
pub unfocus-Fits :
    (t : Tree) (fs : List Frame) → IsAvl (unfocus t fs) → IsAvl t × Fits (avl_height t) fs
unfocus-Fits t [] v = (v, tt)
unfocus-Fits t (left_of h c x r ∷ fs) v =
    let (w, fits) = unfocus-Fits (node h c t x r) fs v in
    (w.3, (w.4, w.2.left, w.2.right, rw w.0 at fits))
unfocus-Fits t (right_of h c l x ∷ fs) v =
    let (w, fits) = unfocus-Fits (node h c l x t) fs v in
    (w.4, (w.3, w.2.right, w.2.left, rw w.0 at fits))

-- The count of the frames is that of the nodes before and after.
pub path_cnt-length :
    (k : ℕ) (fs : List Frame) → Fits k fs → path_cnt fs ≡ length (before fs) + length (after fs)
path_cnt-length k [] v = omega arith
path_cnt-length k (left_of h c x r ∷ fs) v = omega (
  arith,
  path_cnt-length (1 + max k (avl_height r)) fs v.3,
  avl_cnt-length r v.0,
  length-append (to_list r) (after fs),
)
path_cnt-length k (right_of h c l x ∷ fs) v = omega (
  arith,
  path_cnt-length (1 + max (avl_height l) k) fs v.3,
  avl_cnt-length l v.0,
  length-append (before fs) (to_list l ++ x ∷ []),
  length-append (to_list l) (x ∷ []),
)
