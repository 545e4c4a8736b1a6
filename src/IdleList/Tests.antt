-- ===== src/IdleList/Tests.antt =====
-- Runs of the list operations and the instances of their theorems.
use mini_redis.Base.{◌==◌, if◌then◌else◌, ◌≡◌, refl, true, [], ◌∷◌, none, some, arith}
use mini_redis.IdleList.{
  Store, set_next, set_prev, dlist_init, dlist_empty, dlist_detach, dlist_insert_before,
}
use mini_redis.IdleList.Ring.{IsRing}
use mini_redis.IdleList.Edits.{dlist_insert_before-appends, dlist_detach-removes}

program : Unit {0}
unfolding dlist_init dlist_empty dlist_detach dlist_insert_before
program = tt

abbrev unlinked : Store
unlinked x = record { prev = none; next = none }

-- The head 1, and the nodes 2 and 3.
abbrev two : Store
two x =
    if x == 1
    then record { prev = some 3; next = some 2 }
    else if x == 2
    then record { prev = some 1; next = some 3 }
    else if x == 3
    then record { prev = some 2; next = some 1 }
    else record { prev = none; next = none }

two-IsRing : IsRing two 1 (2 ∷ 3 ∷ [])
two-IsRing = record {
  chain = ((refl, refl), ((refl, refl), (refl, refl)));
  distinct = (
    ((λ e. absurd (omega arith)), ((λ e. absurd (omega arith)), tt)),
    (((λ e. absurd (omega arith)), tt), (tt, tt)),
  );
}

abbrev one : Store
one = set_prev (set_next unlinked 2 2) 2 2

one-IsRing : IsRing one 2 []
one-IsRing = record { chain = (refl, refl); distinct = (tt, tt) }

dlist_empty-init : dlist_empty (dlist_init unlinked 1) 1 ≡ true
unfolding program
dlist_empty-init = refl

dlist_insert_before-appends_example :
    (st' : Store) × (dlist_insert_before two 1 4 ≡ some st') × IsRing st' 1 (2 ∷ 3 ∷ 4 ∷ [])
dlist_insert_before-appends_example =
    dlist_insert_before-appends two 1 (2 ∷ 3 ∷ []) 4 two-IsRing (
      (λ e. absurd (omega arith)),
      ((λ e. absurd (omega arith)), ((λ e. absurd (omega arith)), tt)),
    )

dlist_detach-removes_example :
    (st' : Store) × (dlist_detach two 2 ≡ some st') × IsRing st' 1 (3 ∷ []) × IsRing st' 2 []
dlist_detach-removes_example = dlist_detach-removes two 1 [] 2 (3 ∷ []) two-IsRing
