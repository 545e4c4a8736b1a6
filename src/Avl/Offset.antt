-- ===== src/Avl/Offset.antt =====
-- `avl_offset`: the walk by rank finds the node that many places away, or finds that there is none.
use mini_redis.Base.Int.{
  ℤ, pos, negsuc, pos_part, neg_part, ◌+ℤ◌, ◌-ℤ◌, ◌≤ℤ◌, eq_of_parts, eqb_ℤ, +ℤ_parts, -ℤ_parts,
}
use mini_redis.Base.{
  ℕ, zero, suc, ◌+◌, ◌≤◌, ◌<◌, ◌≡◌, refl, ap, List, [], ◌∷◌, some, none, arith, length,
  length-append, false, ◌⊎◌, inl, inr,
}
use mini_redis.Avl.{
  Tree, leaf, node, Frame, left_of, right_of, avl_cnt, Walk, left_cnt, right_cnt, offset_loop, size,
  path_size, avl_offset,
}
use mini_redis.Avl.Shape.{to_list, IsAvl, avl_cnt-length}
use mini_redis.Avl.Path.{unfocus, unfocus-Fits}
use mini_redis.Avl.Rank.{
  rank, Lands, IsInside, goes_right, goes_left, choose, Lands-move, rank_right, inside_Lands, here,
  right, left, up,
}

-- No node is as far away: the place would be before the first or behind the last.
abbrev pub IsOut : Tree → List Frame → ℤ → ℤ → Type 0
IsOut t fs p offset =
    (rank t fs + pos_part offset + neg_part p < pos_part p + neg_part offset)
    ⊎ (length (to_list (unfocus t fs)) + pos_part p + neg_part offset
        ≤ rank t fs + pos_part offset + neg_part p)

abbrev Answers : Tree → List Frame → ℤ → ℤ → Walk → Type 0
Answers t fs p offset result =
    Lands t fs p offset result ⊎ ((result ≡ some none) × IsOut t fs p offset)

Answers-move :
    (t t' : Tree) (fs fs' : List Frame) (p p' offset : ℤ) {result : Walk}
    → unfocus t' fs' ≡ unfocus t fs
    → rank t' fs' + pos_part p + neg_part p' ≡ rank t fs + neg_part p + pos_part p'
    → Answers t' fs' p' offset result
    → Answers t fs p offset result
Answers-move t t' fs fs' p p' offset same moved (inl lands) =
    inl (Lands-move t t' fs fs' p p' offset same moved lands)
Answers-move t t' fs fs' p p' offset same moved (inr (run, out)) =
    inr (run, let size = ap (λ u. length (to_list u)) same in omega arith)

-- Where the walk stands, the target is in the subtree, or the loop goes up.
data Stands (t : Tree) (p offset : ℤ) : Type 0 where
  inside : IsInside t p offset → Stands t p offset
  outside :
      eqb_ℤ p offset ≡ false
      → goes_right p offset (left_cnt t) (right_cnt t) ≡ false
      → goes_left p offset (left_cnt t) (right_cnt t) ≡ false
      → (pos_part p + neg_part offset + right_cnt t < pos_part offset + neg_part p)
        ⊎ (pos_part offset + neg_part p + left_cnt t < pos_part p + neg_part offset)
      → Stands t p offset

stands : (t : Tree) (p offset : ℤ) → Stands t p offset
stands t p offset = elim (choose p offset (left_cnt t) (right_cnt t)) [
  | here e d ↦ inside (omega arith)
  | right e e' a b ↦ inside (omega arith)
  | left e e' e'' a b ↦ inside (omega arith)
  | up e e' e'' far ↦ outside e e' e'' far
]

-- The walk up; the loop goes down only when the target is in the subtree where it stands.
walk_Answers :
    (fuel : ℕ) (t : Tree) (fs : List Frame) (p offset : ℤ)
    → IsAvl (unfocus t fs)
    → size t + path_size fs < fuel
    → 0 < size t
    → Answers t fs p offset (offset_loop fuel t fs p offset)
unfolding offset_loop
walk_Answers zero t fs p offset v enough some_node = absurd (omega arith)
walk_Answers (suc fuel) leaf fs p offset v enough some_node = absurd (omega arith)
walk_Answers (suc fuel) (node h c l x r) [] p offset v enough some_node =
    elim (stands (node h c l x r) p offset) [
      | inside i ↦
          inl (inside_Lands (suc fuel) (node h c l x r) [] p offset v (omega arith) some_node i)
      | outside e e' e'' far ↦ inr (
        rw (e, e', e''),
        omega (
          arith,
          length-append (to_list l) (x ∷ to_list r),
          avl_cnt-length l v.3,
          avl_cnt-length r v.4,
        ),
      )
    ]
walk_Answers (suc fuel) (node h c l x r) (left_of hp cp y rp ∷ fs) p offset v enough some_node =
    let t = node h c l x r in
    let vt = (unfocus-Fits t (left_of hp cp y rp ∷ fs) v).0 in
    let p' = p +ℤ pos (avl_cnt r + 1) in
    let moved = +ℤ_parts p (pos (avl_cnt r + 1)) in
    elim (stands t p offset) [
      | inside i ↦ inl (
          inside_Lands (suc fuel) t (left_of hp cp y rp ∷ fs) p offset vt (omega arith) some_node i)
      | outside e e' e'' far ↦
          rw (e, e', e'')
            (Answers-move t (node hp cp t y rp) (left_of hp cp y rp ∷ fs) fs p p' offset refl
              (omega arith)
              (walk_Answers fuel (node hp cp t y rp) fs p' offset v (omega arith) (omega arith)))
    ]
walk_Answers (suc fuel) (node h c l x r) (right_of hp cp lp y ∷ fs) p offset v enough some_node =
    let t = node h c l x r in
    let (vt, fits) = unfocus-Fits t (right_of hp cp lp y ∷ fs) v in
    let p' = p -ℤ pos (avl_cnt l + 1) in
    let moved = -ℤ_parts p (pos (avl_cnt l + 1)) in
    elim (stands t p offset) [
      | inside i ↦ inl (
          inside_Lands (suc fuel) t (right_of hp cp lp y ∷ fs) p offset vt (omega arith) some_node
            i)
      | outside e e' e'' far ↦
          rw (e, e', e'')
            (Answers-move t (node hp cp lp y t) (right_of hp cp lp y ∷ fs) fs p p' offset refl
              (omega (arith, rank_right hp cp lp y t fs fits.0))
              (walk_Answers fuel (node hp cp lp y t) fs p' offset v (omega arith) (omega arith)))
    ]

-- From a node of an AVL tree, `avl_offset` follows no null pointer and ends. It returns a node of
-- the same tree whose place in the order is `offset` further, or a null pointer, and then that
-- place is before the first node or behind the last.
pub avl_offset-finds :
    (h c : ℕ) (l : Tree) (x : ℕ) (r : Tree) (fs : List Frame) (offset : ℤ)
    → let t = node h c l x r in
      IsAvl (unfocus t fs)
      → ((target : Tree) × (path : List Frame) × (avl_offset t fs offset
            ≡ some (some (target, path)))
          × (unfocus target path ≡ unfocus t fs)
          × (0 < size target)
          × (pos (rank target path) ≡ pos (rank t fs) +ℤ offset))
        ⊎ ((avl_offset t fs offset ≡ some none)
            × ((pos (rank t fs) +ℤ offset ≤ℤ negsuc 0)
                ⊎ (pos (length (to_list (unfocus t fs))) ≤ℤ pos (rank t fs) +ℤ offset)))
unfolding avl_offset
avl_offset-finds h c l x r fs offset v =
    let t = node h c l x r in
    let sum = +ℤ_parts (pos (rank t fs)) offset in
    elim (walk_Answers (1 + size t + path_size fs) t fs (pos 0) offset v (omega arith)
      (omega arith)) [
        | inl lands ↦ inl (
          lands.target,
          lands.path,
          lands.run,
          lands.same,
          lands.is_node,
          eq_of_parts _ _ (omega arith),
        )
        | inr (run, out) ↦ inr (run, omega arith)
      ]
