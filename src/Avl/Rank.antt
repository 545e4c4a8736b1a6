-- ===== src/Avl/Rank.antt =====
-- Places in the order, and the tests of the walk of `avl_offset`.
use mini_redis.Base.Int.{
  ℤ, pos, pos_part, neg_part, ◌+ℤ◌, ◌-ℤ◌, ltb_ℤ, leb_ℤ, eqb_ℤ, +ℤ_parts, -ℤ_parts,
}
use mini_redis.Base.{
  ℕ, zero, suc, ◌+◌, ◌≤◌, ◌<◌, ◌≡◌, refl, ◌∙◌, List, [], ◌∷◌, ◌++◌, some, arith, length,
  length-append, Bool, true, false, ◌&&◌, ◌⊎◌, inl, inr, Bool-cases, ==_iff,
}
use mini_redis.Avl.{
  Tree, leaf, node, Frame, left_of, right_of, avl_cnt, Walk, left_cnt, right_cnt, offset_loop, size,
}
use mini_redis.Avl.Shape.{to_list, IsAvl, avl_cnt-length}
use mini_redis.Avl.Path.{unfocus, before}

-- The place in the order of the node at the top of `t`.
abbrev pub rank : Tree → List Frame → ℕ
rank t fs = length (before fs) + left_cnt t

-- From the start at `t` in `fs`, which is reached with `p`, the walk ends at a node of the same
-- tree whose place in the order is as far away as `offset` is from `p`.
pub record Lands (t : Tree) (fs : List Frame) (p offset : ℤ) (result : Walk) : Type 0 where
  pub target : Tree
  pub path : List Frame
  pub run : result ≡ some (some (target, path))
  pub same : unfocus target path ≡ unfocus t fs
  pub is_node : 0 < size target
  pub distance :
      rank target path + pos_part p + neg_part offset ≡ rank t fs + neg_part p + pos_part offset

-- The target stands in the subtree `t`.
pub record IsInside (t : Tree) (p offset : ℤ) : Type 0 where
  pub low : pos_part p + neg_part offset ≤ pos_part offset + neg_part p + left_cnt t
  pub high : pos_part offset + neg_part p ≤ pos_part p + neg_part offset + right_cnt t

-- How the three tests of the loop come out, by the distance of the target.
module _ (p offset : ℤ) (l r : ℕ) where
  abbrev pub goes_right : Bool
  goes_right = ltb_ℤ p offset && leb_ℤ offset (p +ℤ pos r)

  abbrev pub goes_left : Bool
  goes_left = ltb_ℤ offset p && leb_ℤ (p -ℤ pos l) offset

  pub data Choice : Type 0 where
    here :
        eqb_ℤ p offset ≡ true → pos_part p + neg_part offset ≡ pos_part offset + neg_part p → Choice
    right :
        eqb_ℤ p offset ≡ false
        → goes_right ≡ true
        → pos_part p + neg_part offset < pos_part offset + neg_part p
        → pos_part offset + neg_part p ≤ pos_part p + neg_part offset + r
        → Choice
    left :
        eqb_ℤ p offset ≡ false
        → goes_right ≡ false
        → goes_left ≡ true
        → pos_part offset + neg_part p < pos_part p + neg_part offset
        → pos_part p + neg_part offset ≤ pos_part offset + neg_part p + l
        → Choice
    up :
        eqb_ℤ p offset ≡ false
        → goes_right ≡ false
        → goes_left ≡ false
        → (pos_part p + neg_part offset + r < pos_part offset + neg_part p)
          ⊎ (pos_part offset + neg_part p + l < pos_part p + neg_part offset)
        → Choice

  pub choose : Choice
  choose =
      let up_r = +ℤ_parts p (pos r) in
      let down_l = -ℤ_parts p (pos l) in
      elim (Bool-cases (eqb_ℤ p offset)) [
        | inl e ↦ here e ((==_iff _ _).0 e)
        | inr e ↦ elim (Bool-cases goes_right) [
          | inl e' ↦ right e e' (ground (arith, up_r)) (ground (arith, up_r))
          | inr e' ↦ elim (Bool-cases goes_left) [
            | inl e'' ↦ left e e' e'' (ground (arith, down_l)) (ground (arith, down_l))
            | inr e'' ↦ up e e' e'' (ground (arith, up_r, down_l))
          ]
        ]
      ]

-- The walk may start at another node of the tree, with `p` moved by the distance between the two.
pub Lands-move :
    (t t' : Tree) (fs fs' : List Frame) (p p' offset : ℤ) {result : Walk}
    → unfocus t' fs' ≡ unfocus t fs
    → rank t' fs' + pos_part p + neg_part p' ≡ rank t fs + neg_part p + pos_part p'
    → Lands t' fs' p' offset result
    → Lands t fs p offset result
Lands-move t t' fs fs' p p' offset same moved lands = record {
  target = lands.target;
  path = lands.path;
  run = lands.run;
  same = lands.same ∙ same;
  is_node = lands.is_node;
  distance = omega (arith, lands.distance);
}

cnt_split :
    (t : Tree) → IsAvl t → 0 < avl_cnt t → (avl_cnt t ≡ left_cnt t + 1 + right_cnt t) × (0 < size t)
cnt_split leaf v some_node = absurd (omega arith)
cnt_split (node h c l x r) v some_node = (omega arith, omega arith)

-- A step down or up a right edge, and a left edge.
pub rank_right :
    (h c : ℕ) (l : Tree) (x : ℕ) (r : Tree) (fs : List Frame)
    → IsAvl l
    → rank r (right_of h c l x ∷ fs) ≡ rank (node h c l x r) fs + (left_cnt r + 1)
rank_right h c l x r fs v = omega (
  arith,
  length-append (before fs) (to_list l ++ x ∷ []),
  length-append (to_list l) (x ∷ []),
  avl_cnt-length l v,
)

pub inside_Lands :
    (fuel : ℕ) (t : Tree) (fs : List Frame) (p offset : ℤ)
    → IsAvl t
    → size t ≤ fuel
    → 0 < size t
    → IsInside t p offset
    → Lands t fs p offset (offset_loop fuel t fs p offset)
unfolding offset_loop
inside_Lands fuel leaf fs p offset v enough some_node i = absurd (omega arith)
inside_Lands zero (node h c l x r) fs p offset v enough some_node i = absurd (omega arith)
inside_Lands (suc fuel) (node h c l x r) fs p offset v enough some_node i =
    elim (choose p offset (avl_cnt l) (avl_cnt r)) [
      | here e d ↦ record {
        target = node h c l x r;
        path = fs;
        run = rw e;
        same = refl;
        is_node = omega arith;
        distance = omega arith;
      }
      | right e e' a b ↦
          let p' = p +ℤ pos (left_cnt r + 1) in
          let moved = +ℤ_parts p (pos (left_cnt r + 1)) in
          let (split, inner) = cnt_split r v.4 (omega arith) in
          rw (e, e')
            (Lands-move (node h c l x r) r fs (right_of h c l x ∷ fs) p p' offset refl
              (omega (arith, rank_right h c l x r fs v.3))
              (inside_Lands fuel r (right_of h c l x ∷ fs) p' offset v.4 (omega arith) inner
                (record { low = omega arith; high = omega arith })))
      | left e e' e'' a b ↦
          let p' = p -ℤ pos (right_cnt l + 1) in
          let moved = -ℤ_parts p (pos (right_cnt l + 1)) in
          let (split, inner) = cnt_split l v.3 (omega arith) in
          rw (e, e', e'')
            (Lands-move (node h c l x r) l fs (left_of h c x r ∷ fs) p p' offset refl (omega arith)
              (inside_Lands fuel l (left_of h c x r ∷ fs) p' offset v.3 (omega arith) inner
                (record { low = omega arith; high = omega arith })))
      | up e e' e'' far ↦ absurd (omega arith)
    ]
