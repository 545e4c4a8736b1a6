-- ===== src/SortedSet/Walk.antt =====
-- tree_insert: the walk finds the place of the new pair in the order.
use mini_redis.Base.{
  Option, ℕ, ◌+◌, ◌^◌, ◌<◌, ◌≡◌, ◌≢◌, refl, sym, ap, ◌∙◌, Bool, false, List, [], ◌∷◌, ◌++◌, some,
  length, All, All-append, All-left, All-right, Bool-cases, inl, inr,
}
use mini_redis.Base.Double.{is_nan}
use mini_redis.Avl.{Tree, leaf, node, Frame, left_of, right_of}
use mini_redis.Avl.Shape.{to_list, IsAvl}
use mini_redis.Avl.Path.{unfocus, before, after}
use mini_redis.Avl.Fix.{avl_fix-link}
use mini_redis.SortedSet.{ZNode, ZSet, zless_nodes, walk_down, tree_insert}
use mini_redis.SortedSet.Order.{zless_trans, zless_total}
use mini_redis.SortedSet.Sorted.{
  AreSorted, IsBefore, Pairwise-left, Pairwise-right, Pairwise-before, Pairwise-insert, both,
}

-- A pair can be told from `p` by the order: it has a score that is a number, and another name.
pub record IsOther (p q : ZNode) : Type 0 where
  pub number : is_nan q.score ≡ false
  pub name : q.name ≢ p.name

module _ (pairs : ℕ → ZNode) (p : ZNode) (number : is_nan p.score ≡ false) where
  abbrev goes_left : ℕ → Bool
  goes_left y = zless_nodes p (pairs y)

  -- The frames found are those of the tree, and the new pair belongs between their sides.
  record Parts (t : Tree) (fs found : List Frame) : Type 0 where
    same : unfocus leaf found ≡ unfocus t fs
    front : All (λ y. IsBefore (pairs y) p) (before found)
    back : All (λ y. IsBefore p (pairs y)) (after found)

  walk_down-Parts :
      (t : Tree) (fs : List Frame)
      → AreSorted pairs (to_list t)
      → All (λ y. IsOther p (pairs y)) (to_list t)
      → All (λ y. IsBefore (pairs y) p) (before fs)
      → All (λ y. IsBefore p (pairs y)) (after fs)
      → Parts t fs (walk_down goes_left t fs)
  unfolding walk_down
  walk_down-Parts leaf fs s o b a = record { same = refl; front = b; back = a }
  walk_down-Parts (node h c l y r) fs s o b a =
      let R = λ (x z : ℕ). IsBefore (pairs x) (pairs z) in
      let other = All-right (λ z. IsOther p (pairs z)) (to_list l) (y ∷ to_list r) o in
      let left_others = All-left (λ z. IsOther p (pairs z)) (to_list l) (y ∷ to_list r) o in
      let here = Pairwise-right R (to_list l) (y ∷ to_list r) s in
      elim (Bool-cases (goes_left y)) [
        | inl e ↦
            let first : IsBefore p (pairs y) = record {
              less = e;
              apart = λ q. other.0.name (sym q);
            } in
            let later =
              both (to_list r)
                (λ z k m. record {
                  less = zless_trans p (pairs y) (pairs z) e k.less;
                  apart = λ q. m.name (sym q);
                })
                here.0 other.1 in
            let found =
              walk_down-Parts l (left_of h c y r ∷ fs)
                (Pairwise-left R (to_list l) (y ∷ to_list r) s) left_others b
                (All-append (λ z. IsBefore p (pairs z)) (y ∷ to_list r) (after fs) (first, later)
                  a) in
            rw e (record { same = found.same; front = found.front; back = found.back })
        | inr e ↦
            let less =
              zless_total p (pairs y) number other.0.number (λ q. other.0.name (sym q)) e in
            let last : IsBefore (pairs y) p = record { less = less; apart = other.0.name } in
            let earlier =
              both (to_list l)
                (λ z k m. record {
                  less = zless_trans (pairs z) (pairs y) p k.less less;
                  apart = m.name;
                })
                (Pairwise-before R (to_list l) y (to_list r) s) left_others in
            let found =
              walk_down-Parts r (right_of h c l y ∷ fs) here.1 other.1
                (All-append (λ z. IsBefore (pairs z) p) (before fs) (to_list l ++ y ∷ []) b
                  (All-append (λ z. IsBefore (pairs z) p) (to_list l) (y ∷ []) earlier (last, tt)))
                a in
            rw e (record { same = found.same; front = found.front; back = found.back })
      ]

-- What tree_insert of `x` gives: the same set with a tree in which `x` stands at its place.
pub record Inserts (zset : ZSet) (x : ℕ) (result : Option ZSet) : Type 0 where
  pub root : Tree
  pub front : List ℕ
  pub back : List ℕ
  pub run : result ≡ some (record zset { root = root })
  pub avl : IsAvl root
  pub order : to_list root ≡ front ++ x ∷ back
  pub old_order : to_list zset.root ≡ front ++ back
  pub sorted : AreSorted zset.pairs (to_list root)

pub tree_insert-Inserts :
    (zset : ZSet) (x : ℕ)
    → IsAvl zset.root
    → AreSorted zset.pairs (to_list zset.root)
    → is_nan (zset.pairs x).score ≡ false
    → All (λ y. IsOther (zset.pairs x) (zset.pairs y)) (to_list zset.root)
    → length (to_list zset.root) + 1 < 2 ^ 32
    → Inserts zset x (tree_insert zset x)
unfolding tree_insert
tree_insert-Inserts zset x v s number others small =
    let p = zset.pairs x in
    let fs = walk_down (λ y. zless_nodes p (zset.pairs y)) zset.root [] in
    let parts = walk_down-Parts zset.pairs p number zset.root [] s others tt tt in
    let (root, run, avl, order, old_order) =
      avl_fix-link x fs (rw parts.same v) (rw parts.same small) in
    let old : to_list zset.root ≡ before fs ++ after fs = sym (ap to_list parts.same) ∙ old_order in
    record {
      root = root;
      front = before fs;
      back = after fs;
      run = rw run;
      avl = avl;
      order = order;
      old_order = old;
      sorted = rw order (
          Pairwise-insert (λ y z. IsBefore (zset.pairs y) (zset.pairs z)) (before fs) x (after fs)
            (rw old at s) parts.front parts.back);
    }
