-- ===== src/SortedSet/Remove.antt =====
-- The place of a node in the tree, and its removal from there.
use mathlib.Core.List.{append_assoc}
use mini_redis.Base.{
  Option, ℕ, ◌^◌, ◌<◌, ◌≡◌, ◌≢◌, refl, sym, ap, ◌∙◌, List, [], ◌∷◌, ◌++◌, none, some, length,
  All-append, ◌==◌, ==_iff, ==-false, Bool-cases, ◌⊎◌, inl, inr,
}
use mini_redis.Avl.{Tree, leaf, node, Frame, left_of, right_of}
use mini_redis.Avl.Shape.{to_list, IsAvl}
use mini_redis.Avl.Path.{unfocus, before, after, to_list-unfocus}
use mini_redis.Avl.Delete.{avl_del-removes}
use mini_redis.SortedSet.{ZSet, locate, tree_remove}
use mini_redis.SortedSet.Sorted.{AreSorted, Apart, AreSorted-front, AreSorted-back}

-- The position of the node `x`, in the tree around it.
pub record At (x : ℕ) (whole : Tree) (found : Option (Tree × List Frame)) : Type 0 where
  pub height : ℕ
  pub count : ℕ
  pub left : Tree
  pub right : Tree
  pub path : List Frame
  pub run : found ≡ some (node height count left x right, path)
  pub same : unfocus (node height count left x right) path ≡ whole

locate-At :
    (x : ℕ) (t : Tree) (fs : List Frame)
    → At x (unfocus t fs) (locate x t fs) ⊎ ((locate x t fs ≡ none) × Apart x (to_list t))
unfolding locate
locate-At x leaf fs = inr (refl, tt)
locate-At x (node h c l y r) fs = elim (Bool-cases (y == x)) [
  | inl e ↦
      let same : y ≡ x = (==_iff y x).0 e in
      inl (record {
        height = h;
        count = c;
        left = l;
        right = r;
        path = fs;
        run = rw e (ap (λ z. some (node h c l z r, fs)) same);
        same = ap (λ z. unfocus (node h c l z r) fs) (sym same);
      })
  | inr e ↦ elim (locate-At x l (left_of h c y r ∷ fs)) [
    | inl a ↦ inl (record {
      height = a.height;
      count = a.count;
      left = a.left;
      right = a.right;
      path = a.path;
      run = rw (e, a.run);
      same = a.same;
    })
    | inr (none_left, apart_left) ↦ elim (locate-At x r (right_of h c l y ∷ fs)) [
      | inl a ↦ inl (record {
        height = a.height;
        count = a.count;
        left = a.left;
        right = a.right;
        path = a.path;
        run = rw (e, none_left, a.run);
        same = a.same;
      })
      | inr (none_right, apart_right) ↦ inr (
        rw (e, none_left, none_right),
        All-append (λ z. z ≢ x) (to_list l) (y ∷ to_list r) apart_left
            (==-false y x e, apart_right),
      )
    ]
  ]
]

-- A node of the tree is found there.
pub locate-found : (x : ℕ) (t : Tree) → (Apart x (to_list t) → ⊥) → At x t (locate x t [])
locate-found x t inside = elim (locate-At x t []) [
  | inl a ↦ a
  | inr (_, apart) ↦ absurd (inside apart)
]

pub At-order :
    (x : ℕ) (t : Tree) (found : Option (Tree × List Frame)) (a : At x t found)
    → to_list t ≡ (before a.path ++ to_list a.left) ++ x ∷ (to_list a.right ++ after a.path)
At-order x t found a =
    ap to_list (sym a.same)
    ∙ to_list-unfocus (node a.height a.count a.left x a.right) a.path
    ∙ simp append_assoc

-- What tree_remove of `x` gives: the same set with a tree of the other nodes.
pub record Removes (zset : ZSet) (x : ℕ) (result : Option ZSet) : Type 0 where
  pub root : Tree
  pub front : List ℕ
  pub back : List ℕ
  pub run : result ≡ some (record zset { root = root })
  pub avl : IsAvl root
  pub order : to_list root ≡ front ++ back
  pub old_order : to_list zset.root ≡ front ++ x ∷ back

pub tree_remove-Removes :
    (zset : ZSet) (x : ℕ)
    → IsAvl zset.root
    → AreSorted zset.pairs (to_list zset.root)
    → length (to_list zset.root) < 2 ^ 32
    → (Apart x (to_list zset.root) → ⊥)
    → Removes zset x (tree_remove zset x)
unfolding tree_remove
tree_remove-Removes zset x v s small inside =
    let a = locate-found x zset.root inside in
    let order = At-order x zset.root (locate x zset.root []) a in
    let front = before a.path ++ to_list a.left in
    let back = to_list a.right ++ after a.path in
    let sorted : AreSorted zset.pairs (front ++ x ∷ back) = rw order at s in
    let (root, run, avl, order', _) =
      avl_del-removes a.height a.count a.left x a.right a.path (rw a.same v) (rw a.same small)
        (AreSorted-front zset.pairs front x back sorted)
        (AreSorted-back zset.pairs front x back sorted) in
    record {
      root = root;
      front = front;
      back = back;
      run = rw (a.run, run);
      avl = avl;
      order = order';
      old_order = order;
    }
