-- ===== src/Avl/Rebalance.antt =====
-- One step of `avl_fix`: the rotations turn a node whose subtrees differ by at most two levels into
-- an AVL tree of the same nodes in the same order.
use mathlib.Core.List.{append_assoc}
use mini_redis.Base.{
  ◌>>=◌, ℕ, ◌+◌, ◌%◌, ◌^◌, ◌≤◌, ◌<◌, ◌≡◌, ◌∙◌, some, arith, ltb, ◌==◌, Bool-cases, ltb→lt,
  ltb-false, ==_iff, ==-false, sym, inl, inr,
}
use mini_redis.Avl.{
  Tree, leaf, node, avl_height, avl_update, rot_left, rot_right, avl_fix_left, avl_fix_right,
  rebalance,
}
use mini_redis.Avl.Shape.{height-le-half}
use mini_redis.Avl.Rotate.{
  Joins, CanJoin, avl_update-Joins, rot_right-Joins, rot_right-avl_update, double-Joins,
  rot_left-Joins, rot_left-avl_update,
}

module _ (hl cl : ℕ) (ll : Tree) (y x : ℕ) (r : Tree) (tall : hl ≡ avl_height r + 2) (h c : ℕ) where
  turned_left :
      (k : Tree)
      → CanJoin (node hl cl ll y k) r
      → avl_height ll < avl_height k
      → (t : Tree) × ((rot_left (node hl cl ll y k) >>= λ left'. rot_right (node h c left' x r))
          ≡ some t)
        × Joins (node hl cl ll y k) x r t
  unfolding rot_left
  turned_left leaf w below = absurd (omega arith)
  turned_left (node hk ck kl z kr) w below =
      let (_, _, near, vll, (_, _, near_k, vkl, vkr)) = w.left in
      let (avl, order, count, height) =
        double-Joins ll y kl z kr x r vll vkl vkr w.right (omega arith) (omega arith) (omega arith)
          (omega arith) in
      (
        avl_update (avl_update ll y kl) z (avl_update kr x r),
        rot_right-avl_update h c (avl_update ll y kl) z kr x r,
        record {
          avl = avl;
          order = order ∙ simp append_assoc;
          count = omega arith;
          lower = omega arith;
          upper = omega arith;
          kept = λ p q. absurd (omega arith);
        },
      )

  fix_left-Joins :
      (lr : Tree)
      → CanJoin (node hl cl ll y lr) r
      → (t : Tree) × (avl_fix_left (node h c (node hl cl ll y lr) x r) ≡ some t)
        × Joins (node hl cl ll y lr) x r t
  unfolding avl_fix_left
  fix_left-Joins lr v = elim (Bool-cases (ltb (avl_height ll) (avl_height lr))) [
    | inl e ↦ rw e (turned_left lr v (ltb→lt _ _ e))
    | inr e ↦
        let (_, _, near, vll, vlr) = v.left in
        let outer = ltb-false _ _ e in
        let (t, run, avl, order, count, height) =
          rot_right-Joins h c hl cl ll y lr x r vll vlr v.right (omega arith) (omega arith)
            (omega arith) (omega arith) in
        (
          t,
          rw e run,
          record {
            avl = avl;
            order = order;
            count = omega arith;
            lower = omega arith;
            upper = omega arith;
            kept = λ p q. absurd (omega arith);
          },
        )
  ]

module _ (l : Tree) (x hr cr : ℕ) (y : ℕ) (rr : Tree) (tall : hr ≡ avl_height l + 2) (h c : ℕ) where
  turned_right :
      (k : Tree)
      → CanJoin l (node hr cr k y rr)
      → avl_height rr < avl_height k
      → (t : Tree) × ((rot_right (node hr cr k y rr) >>= λ right'. rot_left (node h c l x right'))
          ≡ some t)
        × Joins l x (node hr cr k y rr) t
  unfolding rot_right
  turned_right leaf w below = absurd (omega arith)
  turned_right (node hk ck kl z kr) w below =
      let (_, _, near, (_, _, near_k, vkl, vkr), vrr) = w.right in
      let (avl, order, count, height) =
        double-Joins l x kl z kr y rr w.left vkl vkr vrr (omega arith) (omega arith) (omega arith)
          (omega arith) in
      (
        avl_update (avl_update l x kl) z (avl_update kr y rr),
        rot_left-avl_update h c l x kl z (avl_update kr y rr),
        record {
          avl = avl;
          order = order ∙ simp append_assoc;
          count = omega arith;
          lower = omega arith;
          upper = omega arith;
          kept = λ p q. absurd (omega arith);
        },
      )

  fix_right-Joins :
      (rl : Tree)
      → CanJoin l (node hr cr rl y rr)
      → (t : Tree) × (avl_fix_right (node h c l x (node hr cr rl y rr)) ≡ some t)
        × Joins l x (node hr cr rl y rr) t
  unfolding avl_fix_right
  fix_right-Joins rl v = elim (Bool-cases (ltb (avl_height rr) (avl_height rl))) [
    | inl e ↦ rw e (turned_right rl v (ltb→lt _ _ e))
    | inr e ↦
        let (_, _, near, vrl, vrr) = v.right in
        let outer = ltb-false _ _ e in
        let (t, run, avl, order, count, height) =
          rot_left-Joins h c l x hr cr rl y rr v.left vrl vrr (omega arith) (omega arith)
            (omega arith) (omega arith) in
        (
          t,
          rw e run,
          record {
            avl = avl;
            order = order;
            count = omega arith;
            lower = omega arith;
            upper = omega arith;
            kept = λ p q. absurd (omega arith);
          },
        )
  ]

left_heavy :
    (h c : ℕ) (l : Tree) (x : ℕ) (r : Tree)
    → CanJoin l r
    → avl_height l ≡ avl_height r + 2
    → (t : Tree) × (avl_fix_left (node h c l x r) ≡ some t) × Joins l x r t
left_heavy h c leaf x r v tall = absurd (omega arith)
left_heavy h c (node hl cl ll y lr) x r v tall = fix_left-Joins hl cl ll y x r tall h c lr v

right_heavy :
    (h c : ℕ) (l : Tree) (x : ℕ) (r : Tree)
    → CanJoin l r
    → avl_height r ≡ avl_height l + 2
    → (t : Tree) × (avl_fix_right (node h c l x r) ≡ some t) × Joins l x r t
right_heavy h c l x leaf v tall = absurd (omega arith)
right_heavy h c l x (node hr cr rl y rr) v tall = fix_right-Joins l x hr cr y rr tall h c rl v

-- The loop body of `avl_fix` follows no null pointer and balances a node whose subtrees differ by
-- at most two levels, whatever height and count the node had stored.
pub rebalance-Joins :
    (h c : ℕ) (l : Tree) (x : ℕ) (r : Tree)
    → CanJoin l r
    → avl_height l ≤ avl_height r + 2
    → avl_height r ≤ avl_height l + 2
    → (t : Tree) × (rebalance (node h c l x r) ≡ some t) × Joins l x r t
unfolding rebalance avl_update
rebalance-Joins h c l x r v low high =
    let half_l = height-le-half l v.left in
    let half_r = height-le-half r v.right in
    let fits_r : (avl_height r + 2) % 2 ^ 32 ≡ avl_height r + 2 = omega arith in
    let fits_l : (avl_height l + 2) % 2 ^ 32 ≡ avl_height l + 2 = omega arith in
    rw (fits_r, fits_l)
      (elim (Bool-cases (avl_height l == avl_height r + 2)) [
        | inl e ↦ rw e (left_heavy _ _ l x r v ((==_iff _ _).0 e))
        | inr e ↦ elim (Bool-cases (avl_height l + 2 == avl_height r)) [
          | inl e' ↦ rw (e, e') (right_heavy _ _ l x r v (sym ((==_iff _ _).0 e')))
          | inr e' ↦
              let not_left = ==-false _ _ e in
              let not_right = ==-false _ _ e' in
              (avl_update l x r, rw (e, e'), avl_update-Joins l x r v (omega arith))
        ]
      ])
