-- ===== src/Avl/Fix.antt =====
-- `avl_fix`: the loop from a changed subtree up to the root.
use Prim.Native.Nat.{max}
use mathlib.Core.List.{append_assoc, append-nil}
use native.Mathlib.Decide.{dec_le}
use mini_redis.Base.{
  ℕ, ◌+◌, ◌^◌, ◌≤◌, ◌<◌, ◌≡◌, sym, ap, ◌∙◌, List, [], ◌∷◌, ◌++◌, some, arith, length, length-append,
}
use mini_redis.Avl.{
  Tree, leaf, node, Frame, left_of, right_of, avl_init, avl_height, avl_cnt, rebalance, avl_fix,
}
use mini_redis.Avl.Shape.{to_list, IsAvl}
use mini_redis.Avl.Path.{
  unfocus, before, after, path_cnt, Fits, unfocus-Fits, path_cnt-length, to_list-unfocus,
}
use mini_redis.Avl.Rotate.{Joins}
use mini_redis.Avl.Rebalance.{rebalance-Joins}

-- `root` is an AVL tree of the nodes `xs` in order.
pub record Holds (xs : List ℕ) (root : Tree) : Type 0 where
  pub avl : IsAvl root
  pub order : to_list root ≡ xs

-- A subtree that is one off at most makes its parent one off at most.
step_height :
    (a b h k : ℕ)
    → max a b ≤ h
    → h ≤ 1 + max a b
    → (a ≤ b + 1 → b ≤ a + 1 → h ≡ 1 + max a b)
    → a ≤ k + 1
    → k ≤ a + 1
    → k ≤ b + 1
    → b ≤ k + 1
    → (h ≤ 1 + max k b + 1) × (1 + max k b ≤ h + 1)
step_height a b h k low high kept p q r s = elim (dec_le a (b + 1)) [
  | yes le ↦ elim (dec_le b (a + 1)) [
    | yes ge ↦ let same = kept le ge in omega arith
    | no gt ↦ omega arith
  ]
  | no gt ↦ omega arith
]

module _ (fs : List Frame) (l : Tree) (x : ℕ) (r : Tree) {t root : Tree} (j : Joins l x r t) where
  pub Holds-left :
      Holds (before fs ++ (to_list t ++ after fs)) root
      → Holds (before fs ++ (to_list l ++ ((x ∷ to_list r) ++ after fs))) root
  Holds-left held = record { avl = held.avl; order = held.order ∙ rw j.order (simp append_assoc) }

  pub Holds-right :
      Holds (before fs ++ (to_list t ++ after fs)) root
      → Holds ((before fs ++ (to_list l ++ x ∷ [])) ++ (to_list r ++ after fs)) root
  Holds-right held = record { avl = held.avl; order = held.order ∙ rw j.order (simp append_assoc) }

module _ (h c : ℕ) (t : Tree) (x : ℕ) (s : Tree) (k : ℕ) (v : IsAvl t) (vs : IsAvl s) where
  module _ (low : avl_height t ≤ k + 1) (high : k ≤ avl_height t + 1) (near : k ≤ avl_height s + 1)
      (near' : avl_height s ≤ k + 1) (small : avl_cnt t + avl_cnt s + 1 < 2 ^ 32) where
    pub step_left :
        (t' : Tree) × (rebalance (node h c t x s) ≡ some t')
        × Joins t x s t'
        × (avl_height t' ≤ 1 + max k (avl_height s) + 1)
        × (1 + max k (avl_height s) ≤ avl_height t' + 1)
    step_left =
        let (t', run, j) =
          rebalance-Joins h c t x s (record { left = v; right = vs; small = small }) (omega arith)
            (omega arith) in
        let (low', high') =
          step_height (avl_height t) (avl_height s) (avl_height t') k j.lower j.upper j.kept low
            high near near' in
        (t', run, j, low', high')

    pub step_right :
        (t' : Tree) × (rebalance (node h c s x t) ≡ some t')
        × Joins s x t t'
        × (avl_height t' ≤ 1 + max (avl_height s) k + 1)
        × (1 + max (avl_height s) k ≤ avl_height t' + 1)
    step_right =
        let (t', run, j) =
          rebalance-Joins h c s x t (record { left = vs; right = v; small = omega arith })
            (omega arith) (omega arith) in
        let (low', high') =
          step_height (avl_height t) (avl_height s) (avl_height t') k (omega arith) (omega arith)
            (λ p q. j.kept q p ∙ omega arith) low high near near' in
        (t', run, j, omega arith, omega arith)

-- The loop, from a subtree whose height is one off at most.
pub climb :
    (fs : List Frame) (t t' : Tree) (k : ℕ)
    → rebalance t ≡ some t'
    → IsAvl t'
    → avl_height t' ≤ k + 1
    → k ≤ avl_height t' + 1
    → Fits k fs
    → avl_cnt t' + path_cnt fs < 2 ^ 32
    → (root : Tree) × (avl_fix t fs ≡ some root)
      × Holds (before fs ++ (to_list t' ++ after fs)) root
unfolding avl_fix
climb [] t t' k run v low high fits small =
    (t', run, record { avl = v; order = sym (append-nil (to_list t')) })
climb (left_of h c x r ∷ fs) t t' k run v low high fits small =
    let (vr, near, near', above) = fits in
    let (t'', run', j, low', high') =
      step_left h c t' x r k v vr low high near near' (omega arith) in
    let (root, run'', held) =
      climb fs (node h c t' x r) t'' (1 + max k (avl_height r)) run' j.avl low' high' above
        (omega arith) in
    (root, rw run run'', Holds-left fs t' x r j held)
climb (right_of h c l x ∷ fs) t t' k run v low high fits small =
    let (vl, near, near', above) = fits in
    let (t'', run', j, low', high') =
      step_right h c t' x l k v vl low high near near' (omega arith) in
    let (root, run'', held) =
      climb fs (node h c l x t') t'' (1 + max (avl_height l) k) run' j.avl low' high' above
        (omega arith) in
    (root, rw run run'', Holds-right fs l x t' j held)

-- A node linked at an empty place of an AVL tree: `avl_fix` follows no null pointer and returns an
-- AVL tree in which the node stands at that place of the order and nothing else changed.
pub avl_fix-link :
    (x : ℕ) (fs : List Frame)
    → IsAvl (unfocus leaf fs)
    → length (to_list (unfocus leaf fs)) + 1 < 2 ^ 32
    → (root : Tree) × (avl_fix (avl_init x) fs ≡ some root)
      × IsAvl root
      × (to_list root ≡ before fs ++ x ∷ after fs)
      × (to_list (unfocus leaf fs) ≡ before fs ++ after fs)
unfolding avl_init
avl_fix-link x fs v small =
    let (_, fits) = unfocus-Fits leaf fs v in
    let (t, run, j) =
      rebalance-Joins 1 1 leaf x leaf (record { left = tt; right = tt; small = omega arith })
        (omega arith) (omega arith) in
    let size : path_cnt fs + 1 < 2 ^ 32 = omega (
      arith,
      path_cnt-length 0 fs fits,
      ap length (to_list-unfocus leaf fs),
      length-append (before fs) (after fs),
    ) in
    let (root, run', held) =
      climb fs (avl_init x) t 0 run j.avl (omega arith) (omega arith) fits (omega arith) in
    (root, run', held.avl, held.order ∙ rw j.order, to_list-unfocus leaf fs)
