-- ===== src/SortedSet/Offset.antt =====
-- znode_offset: the pair at a distance in the order.
use mathlib.Core.List.{append_assoc}
use mathlib.Core.List
use mini_redis.Base.Int.{ℤ, pos, negsuc, ◌+ℤ◌, ◌≤ℤ◌}
use mini_redis.Base.{
  Option, ℕ, suc, ◌<◌, ◌≡◌, refl, sym, ap, ◌∙◌, List, [], ◌∷◌, ◌++◌, none, some, arith, length,
  length-append, ◌⊎◌, inl, inr,
}
use mini_redis.Avl.{Tree, leaf, node, Frame, size}
use mini_redis.Avl.Shape.{to_list, IsAvl, avl_cnt-length}
use mini_redis.Avl.Path.{unfocus, before, after, to_list-unfocus, unfocus-Fits}
use mini_redis.Avl.Rank.{rank}
use mini_redis.Avl.Offset.{avl_offset-finds}
use mini_redis.SortedSet.{ZSet, address, locate, znode_offset}
use mini_redis.SortedSet.Sorted.{Apart, AreSorted-front}
use mini_redis.SortedSet.Remove.{At-order, locate-found}
use mini_redis.SortedSet.Valid.{IsValid, members}
use mini_redis.SortedSet.Update.{member_inside}

-- An element that is not among the earlier ones has one place.
same_place :
    (x : ℕ) (xs ys us vs : List ℕ)
    → Apart x xs
    → Apart x us
    → xs ++ x ∷ ys ≡ us ++ x ∷ vs
    → length xs ≡ length us
same_place x [] ys [] vs a b e = refl
same_place x [] ys (u ∷ us) vs a b e = absurd (b.0 (sym (List.head-eq_of_cons-eq e)))
same_place x (z ∷ xs) ys [] vs a b e = absurd (a.0 (List.head-eq_of_cons-eq e))
same_place x (z ∷ xs) ys (u ∷ us) vs a b e =
    ap suc (same_place x xs ys us vs a.1 b.1 (List.tail-eq_of_cons-eq e))

-- The rank of a node is the number of addresses before it.
rank-before :
    (h c : ℕ) (l : Tree) (x : ℕ) (r : Tree) (path : List Frame)
    → IsAvl (unfocus (node h c l x r) path)
    → rank (node h c l x r) path ≡ length (before path ++ to_list l)
rank-before h c l x r path v =
    let v' = (unfocus-Fits (node h c l x r) path v).0 in
    omega (arith, length-append (before path) (to_list l), avl_cnt-length l v'.3)

order :
    (h c : ℕ) (l : Tree) (x : ℕ) (r : Tree) (path : List Frame)
    → to_list (unfocus (node h c l x r) path)
      ≡ (before path ++ to_list l) ++ x ∷ (to_list r ++ after path)
order h c l x r path = to_list-unfocus (node h c l x r) path ∙ simp append_assoc

-- What a walk by rank finds from the place `from`: the member at that distance, or that there is
-- none there.
pub data Walked (xs : List ℕ) (from : ℕ) (offset : ℤ) : Option ℕ → Type 0 where
  reached :
      (y : ℕ) (front back : List ℕ)
      → xs ≡ front ++ y ∷ back
      → pos (length front) ≡ pos from +ℤ offset
      → Walked xs from offset (some y)
  outside :
      (pos from +ℤ offset ≤ℤ negsuc 0) ⊎ (pos (length xs) ≤ℤ pos from +ℤ offset)
      → Walked xs from offset none

walked :
    (whole target : Tree) (path : List Frame) (from : ℕ) (offset : ℤ)
    → IsAvl whole
    → unfocus target path ≡ whole
    → 0 < size target
    → pos (rank target path) ≡ pos from +ℤ offset
    → Walked (to_list whole) from offset (address (some (target, path)))
walked whole leaf path from offset v s some_node e = absurd (omega arith)
walked whole (node h c l y r) path from offset v s some_node e =
    reached y (before path ++ to_list l) (to_list r ++ after path)
      (ap to_list (sym s) ∙ order h c l y r path)
      (ap pos (sym (rank-before h c l y r path (rw s v))) ∙ e)

-- From a pair of a valid set, znode_offset reaches the pair that stands `offset` places further in
-- the order, backward if it is negative, or returns a null pointer, and then there is no such place.
pub znode_offset-Walked :
    (zset : ZSet) (x : ℕ) (front back : List ℕ) (offset : ℤ)
    → IsValid zset
    → members zset ≡ front ++ x ∷ back
    → (r : Option ℕ) × (znode_offset zset (some x) offset ≡ some r)
      × Walked (members zset) (length front) offset r
unfolding znode_offset
znode_offset-Walked zset x front back offset v s =
    let a = locate-found x zset.root (member_inside x front back (members zset) s) in
    let t = node a.height a.count a.left x a.right in
    let avl : IsAvl (unfocus t a.path) = rw a.same v.avl in
    let stands = At-order x zset.root (locate x zset.root []) a in
    let place : rank t a.path ≡ length front =
      rank-before a.height a.count a.left x a.right a.path avl
      ∙ same_place x (before a.path ++ to_list a.left) (to_list a.right ++ after a.path) front back
          (AreSorted-front zset.pairs (before a.path ++ to_list a.left) x
            (to_list a.right ++ after a.path) (rw stands at v.sorted))
          (AreSorted-front zset.pairs front x back (rw s at v.sorted)) (sym stands ∙ s) in
    elim (avl_offset-finds a.height a.count a.left x a.right a.path offset avl) [
      | inl (target, path, run, same, is_node, distance) ↦ (
        address (some (target, path)),
        rw (a.run, run) refl,
        walked zset.root target path (length front) offset v.avl (same ∙ a.same) is_node
            (rw place at distance),
      )
      | inr (run, out) ↦ (none, rw (a.run, run) refl, outside (rw (place, a.same) at out))
    ]
