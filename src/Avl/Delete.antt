-- ===== src/Avl/Delete.antt =====
-- `avl_del_easy` and `avl_del`: a node is taken out of the tree, and the rest stays in order.
use Prim.Native.Nat.{max}
use mathlib.Core.List.{append_assoc, append-nil, map-append}
use mini_redis.Base.{
  ◌>>=◌, ℕ, ◌+◌, ◌^◌, ◌≤◌, ◌<◌, ◌≡◌, ◌≢◌, refl, sym, ap, ◌∙◌, List, [], ◌∷◌, ◌++◌, Option, some,
  ◌⊎◌, inl, inr, arith, length, length-append, All, ◌==◌, if◌then◌else◌, map,
}
use mini_redis.Avl.{
  Tree, leaf, node, Frame, left_of, right_of, avl_height, avl_cnt, only_child, relink, avl_del_easy,
  leftmost, transplant, avl_del, avl_fix,
}
use mini_redis.Avl.Shape.{to_list, IsAvl, avl_cnt-length}
use mini_redis.Avl.Path.{
  unfocus, before, after, path_cnt, Fits, unfocus-Fits, path_cnt-length, to_list-unfocus,
}
use mini_redis.Avl.Fix.{Holds, step_left, step_right, climb, Holds-left, Holds-right}

-- A subtree that lost a node, in the frames that fitted it.
shrunk :
    (f : Frame) (fs : List Frame) (t : Tree) (k : ℕ)
    → IsAvl t
    → avl_height t ≤ k + 1
    → k ≤ avl_height t + 1
    → Fits k (f ∷ fs)
    → avl_cnt t + path_cnt (f ∷ fs) < 2 ^ 32
    → (root : Tree) × (avl_fix (relink f t) fs ≡ some root)
      × Holds (before (f ∷ fs) ++ (to_list t ++ after (f ∷ fs))) root
shrunk (left_of h c x r) fs t k v low high fits small =
    let (vr, near, near', above) = fits in
    let (t', run, j, low', high') = step_left h c t x r k v vr low high near near' (omega arith) in
    let (root, run', held) =
      climb fs (node h c t x r) t' (1 + max k (avl_height r)) run j.avl low' high' above
        (omega arith) in
    (root, run', Holds-left fs t x r j held)
shrunk (right_of h c l x) fs t k v low high fits small =
    let (vl, near, near', above) = fits in
    let (t', run, j, low', high') = step_right h c t x l k v vl low high near near' (omega arith) in
    let (root, run', held) =
      climb fs (node h c l x t) t' (1 + max (avl_height l) k) run j.avl low' high' above
        (omega arith) in
    (root, run', Holds-right fs l x t j held)

-- The only child has all the nodes that are left, and is one level lower.
only_child_lem :
    (h c : ℕ) (l : Tree) (x : ℕ) (r : Tree)
    → IsAvl (node h c l x r)
    → (l ≡ leaf) ⊎ (r ≡ leaf)
    → let t = only_child l r in
      IsAvl t × (h ≡ avl_height t + 1) × (c ≡ avl_cnt t + 1) × (to_list t ≡ to_list l ++ to_list r)
only_child_lem h c leaf x r v e = (v.4, omega arith, omega arith, refl)
only_child_lem h c (node hl cl ll y lr) x leaf v e =
    (v.3, omega arith, omega arith, sym (append-nil (to_list (node hl cl ll y lr))))
only_child_lem h c (node hl cl ll y lr) x (node hr cr rl z rr) v (inl e) = cc
only_child_lem h c (node hl cl ll y lr) x (node hr cr rl z rr) v (inr e) = cc

-- What a deletion of a node with subtrees `l` and `r` leaves.
abbrev Leaves : List ℕ → List Frame → Option Tree → Type 0
Leaves xs fs result =
    (root : Tree) × (result ≡ some root) × Holds (before fs ++ (xs ++ after fs)) root

easy_Leaves :
    (h c : ℕ) (l : Tree) (x : ℕ) (r : Tree) (fs : List Frame)
    → (l ≡ leaf) ⊎ (r ≡ leaf)
    → IsAvl (node h c l x r)
    → Fits h fs
    → c + path_cnt fs < 2 ^ 32
    → Leaves (to_list l ++ to_list r) fs (avl_del_easy (node h c l x r) fs)
unfolding avl_del_easy
easy_Leaves h c l x r [] e v fits small =
    let (vt, height, count, order) = only_child_lem h c l x r v e in
    (only_child l r, refl, record { avl = vt; order = order ∙ sym (append-nil _) })
easy_Leaves h c l x r (f ∷ fs) e v fits small =
    let (vt, height, count, order) = only_child_lem h c l x r v e in
    rw (← order) (shrunk f fs (only_child l r) h vt (omega arith) (omega arith) fits (omega arith))

-- The leftmost node under `t`, which stands in the frames `fs`.
record IsFirst (t : Tree) (fs : List Frame) (found : ℕ × Tree × List Frame) : Type 0 where
  height : ℕ
  count : ℕ
  right : Tree
  shape : found.1 ≡ node height count leaf found.0 right
  avl : IsAvl (node height count leaf found.0 right)
  fits : Fits height found.2
  same_before : before found.2 ≡ before fs
  same_after : found.0 ∷ (to_list right ++ after found.2) ≡ to_list t ++ after fs
  total : count + path_cnt found.2 ≡ avl_cnt t + path_cnt fs

leftmost-IsFirst :
    (h c : ℕ) (l : Tree) (x : ℕ) (r : Tree) (fs : List Frame)
    → IsAvl (node h c l x r)
    → Fits h fs
    → IsFirst (node h c l x r) fs (leftmost h c l x r fs)
unfolding leftmost
leftmost-IsFirst h c leaf x r fs v fits = record {
  height = h;
  count = c;
  right = r;
  shape = refl;
  avl = v;
  fits = fits;
  same_before = refl;
  same_after = refl;
  total = refl;
}
leftmost-IsFirst h c (node hl cl ll y lr) x r fs v fits =
    let ih =
      leftmost-IsFirst hl cl ll y lr (left_of h c x r ∷ fs) v.3
        (v.4, v.2.left, v.2.right, rw (v.0) at fits) in
    record {
      height = ih.height;
      count = ih.count;
      right = ih.right;
      shape = ih.shape;
      avl = ih.avl;
      fits = ih.fits;
      same_before = ih.same_before;
      same_after = ih.same_after ∙ simp append_assoc;
      total = ih.total ∙ omega arith;
    }

-- `transplant` changes no shape and renames one node.
transplant-IsAvl :
    (x w : ℕ) (t : Tree)
    → IsAvl t
    → IsAvl (transplant x w t)
      × (avl_height (transplant x w t) ≡ avl_height t)
      × (avl_cnt (transplant x w t) ≡ avl_cnt t)
unfolding transplant
transplant-IsAvl x w leaf v = (tt, refl, refl)
transplant-IsAvl x w (node h c l y r) v =
    let (vl, hl, cl) = transplant-IsAvl x w l v.3 in
    let (vr, hr, cr) = transplant-IsAvl x w r v.4 in
    ((omega arith, omega arith, omega arith, vl, vr), refl, refl)

abbrev rename : ℕ → ℕ → ℕ → ℕ
rename x w y = if y == x then w else y

to_list-transplant :
    (x w : ℕ) (t : Tree) → to_list (transplant x w t) ≡ map (rename x w) (to_list t)
unfolding transplant
to_list-transplant x w leaf = refl
to_list-transplant x w (node h c l y r) =
    rw (to_list-transplant x w l, to_list-transplant x w r)
      (sym (map-append (rename x w) (to_list l) (y ∷ to_list r)))

-- No node of the list is `x`.
abbrev pub Avoids : ℕ → List ℕ → Type 0
Avoids x = All (λ y. y ≢ x)

map-rename : (x w : ℕ) (ys : List ℕ) → Avoids x ys → map (rename x w) ys ≡ ys
map-rename x w [] h = refl
map-rename x w (y ∷ ys) h = ground (arith, map-rename x w ys h.1)

map-rename_one :
    (x w : ℕ) (pre bs : List ℕ)
    → Avoids x pre
    → Avoids x bs
    → map (rename x w) (pre ++ x ∷ bs) ≡ pre ++ w ∷ bs
map-rename_one x w [] bs h k = ground (arith, map-rename x w bs k)
map-rename_one x w (a ∷ pre) bs h k = ground (arith, map-rename_one x w pre bs h.1 k)

-- The list around the renamed node: `w` comes out of the list behind `x` and takes its place.
renamed_order :
    (x w : ℕ) (front back front' ls rs back' : List ℕ)
    → front ≡ front' ++ (ls ++ x ∷ [])
    → w ∷ back ≡ rs ++ back'
    → Avoids x (front' ++ ls)
    → Avoids x (rs ++ back')
    → map (rename x w) (front ++ back) ≡ front' ++ ((ls ++ rs) ++ back')
renamed_order x w front back front' ls rs back' p q h k =
    let regroup : (front' ++ (ls ++ x ∷ [])) ++ back ≡ (front' ++ ls) ++ x ∷ back =
      simp append_assoc in
    let apart : Avoids x back = (rw (← q) at k).1 in
    rw (p, regroup, map-rename_one x w (front' ++ ls) back h apart, q) (simp append_assoc)

module _ (h c : ℕ) (l : Tree) (x hr cr : ℕ) (rl : Tree) (y : ℕ) (rr : Tree) (fs : List Frame)
    (v : IsAvl (node h c l x (node hr cr rl y rr))) (fits : Fits h fs)
    (small : c + path_cnt fs < 2 ^ 32) (front : Avoids x (before fs ++ to_list l))
    (back : Avoids x (to_list (node hr cr rl y rr) ++ after fs)) where
  -- The successor is spliced out and takes the place of `x`.
  successor_Leaves :
      let found = leftmost hr cr rl y rr (right_of h c l x ∷ fs) in
      Leaves
        (to_list l ++ to_list (node hr cr rl y rr))
        fs
        (avl_del_easy found.1 found.2 >>= λ root. some (transplant x found.0 root))
  successor_Leaves =
      let found = leftmost hr cr rl y rr (right_of h c l x ∷ fs) in
      let f =
        leftmost-IsFirst hr cr rl y rr (right_of h c l x ∷ fs) v.4
          (v.3, v.2.right, v.2.left, rw v.0 at fits) in
      let (root, run, held) =
        easy_Leaves f.height f.count leaf found.0 f.right found.2 (inl refl) f.avl f.fits
          (omega (arith, f.total)) in
      let (avl, _, _) = transplant-IsAvl x found.0 root held.avl in
      (
        transplant x found.0 root,
        rw (f.shape, run),
        record {
          avl = avl;
          order =
              to_list-transplant x found.0 root
              ∙ ap (map (rename x found.0)) held.order
              ∙ renamed_order x found.0 (before found.2) (to_list f.right ++ after found.2)
                  (before fs) (to_list l) (to_list (node hr cr rl y rr)) (after fs) f.same_before
                  f.same_after front back;
        },
      )

avl_del-Leaves :
    (h c : ℕ) (l : Tree) (x : ℕ) (r : Tree) (fs : List Frame)
    → IsAvl (node h c l x r)
    → Fits h fs
    → c + path_cnt fs < 2 ^ 32
    → Avoids x (before fs ++ to_list l)
    → Avoids x (to_list r ++ after fs)
    → Leaves (to_list l ++ to_list r) fs (avl_del (node h c l x r) fs)
unfolding avl_del
avl_del-Leaves h c leaf x r fs v fits small front back =
    easy_Leaves h c leaf x r fs (inl refl) v fits small
avl_del-Leaves h c (node hl cl ll z lr) x leaf fs v fits small front back =
    easy_Leaves h c (node hl cl ll z lr) x leaf fs (inr refl) v fits small
avl_del-Leaves h c (node hl cl ll z lr) x (node hr cr rl y rr) fs v fits small front back =
    successor_Leaves h c (node hl cl ll z lr) x hr cr rl y rr fs v fits small front back

-- A node taken out of an AVL tree in which its address stands once: `avl_del` follows no null
-- pointer and returns an AVL tree of the other nodes in their order.
pub avl_del-removes :
    (h c : ℕ) (l : Tree) (x : ℕ) (r : Tree) (fs : List Frame)
    → let t = unfocus (node h c l x r) fs in
      IsAvl t
      → length (to_list t) < 2 ^ 32
      → Avoids x (before fs ++ to_list l)
      → Avoids x (to_list r ++ after fs)
      → (root : Tree) × (avl_del (node h c l x r) fs ≡ some root)
        × IsAvl root
        × (to_list root ≡ (before fs ++ to_list l) ++ (to_list r ++ after fs))
        × (to_list t ≡ (before fs ++ to_list l) ++ x ∷ (to_list r ++ after fs))
avl_del-removes h c l x r fs v small front back =
    let (w, fits) = unfocus-Fits (node h c l x r) fs v in
    let whole = to_list-unfocus (node h c l x r) fs in
    let fewer : c + path_cnt fs < 2 ^ 32 = omega (
      arith,
      path_cnt-length h fs fits,
      avl_cnt-length (node h c l x r) w,
      ap length whole,
      length-append (before fs) (to_list (node h c l x r) ++ after fs),
      length-append (to_list (node h c l x r)) (after fs),
    ) in
    let (root, run, held) = avl_del-Leaves h c l x r fs w fits fewer front back in
    (root, run, held.avl, held.order ∙ simp append_assoc, whole ∙ simp append_assoc)
