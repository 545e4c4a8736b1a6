-- ===== src/Avl/Tests.antt =====
-- Runs of the tree operations and the instances of their theorems.
use mini_redis.Base.Int.{pos, negsuc, ◌+ℤ◌, ◌-ℤ◌}
use mini_redis.Base.{ℕ, ◌≡◌, refl, List, [], ◌∷◌, ◌++◌, none, some, arith}
use mini_redis.Avl.{
  Tree, leaf, node, Frame, left_of, right_of, avl_init, avl_update, rot_left, rot_right,
  avl_fix_left, avl_fix_right, rebalance, avl_fix, avl_del_easy, leftmost, transplant, avl_del,
  offset_loop, avl_offset,
}
use mini_redis.Avl.Shape.{to_list, IsAvl}
use mini_redis.Avl.Path.{unfocus, before, after}
use mini_redis.Avl.Fix.{avl_fix-link}
use mini_redis.Avl.Delete.{avl_del-removes}

abbrev alone : ℕ → Tree
alone x = node 1 1 leaf x leaf

abbrev three : Tree
three = node 2 3 (alone 10) 20 (alone 30)

program : Unit {0}
unfolding avl_init avl_update rot_left rot_right avl_fix_left avl_fix_right rebalance avl_fix
    avl_del_easy leftmost transplant avl_del offset_loop avl_offset ◌+ℤ◌ ◌-ℤ◌
program = tt

-- A third node in a row is balanced by a rotation.
abbrev in_a_row : List Frame
in_a_row = right_of 1 1 leaf 20 ∷ right_of 2 2 leaf 10 ∷ []

avl_fix-in_a_row : avl_fix (avl_init 30) in_a_row ≡ some three
unfolding program
avl_fix-in_a_row = refl

avl_del-three : avl_del three [] ≡ some (node 2 2 (alone 10) 30 leaf)
unfolding program
avl_del-three = refl

abbrev at_ten : List Frame
at_ten = left_of 2 3 20 (alone 30) ∷ []

avl_offset-at_ten :
    avl_offset (alone 10) at_ten (pos 2) ≡ some (some (alone 30, right_of 2 3 (alone 10) 20 ∷ []))
unfolding program
avl_offset-at_ten = refl

avl_offset-out : avl_offset (alone 10) at_ten (negsuc 0) ≡ some none
unfolding program
avl_offset-out = refl

avl_fix-link_example :
    (root : Tree) × (avl_fix (avl_init 30) in_a_row ≡ some root)
    × IsAvl root
    × (to_list root ≡ before in_a_row ++ 30 ∷ after in_a_row)
    × (to_list (unfocus leaf in_a_row) ≡ before in_a_row ++ after in_a_row)
avl_fix-link_example = avl_fix-link 30 in_a_row (omega arith) (omega arith)

avl_del-removes_example :
    (root : Tree) × (avl_del three [] ≡ some root)
    × IsAvl root
    × (to_list root ≡ ([] ++ 10 ∷ []) ++ (30 ∷ [] ++ []))
    × (to_list three ≡ ([] ++ 10 ∷ []) ++ 20 ∷ (30 ∷ [] ++ []))
avl_del-removes_example =
    avl_del-removes 2 3 (alone 10) 20 (alone 30) [] (omega arith) (omega arith) (omega arith)
      (omega arith)
