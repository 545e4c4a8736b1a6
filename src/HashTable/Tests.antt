-- ===== src/HashTable/Tests.antt =====
-- Runs of the hash table and the instances of its theorems.
use mathlib.Core.List.{Perm}
use mini_redis.Base.{
  ℕ, zero, suc, ◌<◌, ◌≡◌, refl, Bool, List, [], ◌∷◌, Option, some, arith, get_or, ltb, ◌==◌,
}
use mini_redis.HashTable.{
  HNode, HMap, no_table, no_map, h_init, h_insert, find_place, h_lookup, deref, unlink, h_detach,
  help_loop, hm_help_rehashing, hm_trigger_rehashing, hm_lookup, with_table, is_full, hm_insert,
  hm_delete, hm_size, walk_chain, walk_slots, h_foreach, hm_foreach,
}
use mini_redis.HashTable.Table.{IsTable}
use mini_redis.HashTable.Rehash.{nodes, IsValid, Helps, hm_help_rehashing-Helps}
use mini_redis.HashTable.Insert.{hm_insert-adds}
use mini_redis.HashTable.Find.{Answer, hm_lookup-answers}
use mini_redis.HashTable.Delete.{Removal, hm_delete-removes}
use mini_redis.HashTable.Visit.{Visits, hm_foreach-Visits}

program : Unit {0}
unfolding h_init h_insert find_place h_lookup deref unlink h_detach help_loop hm_help_rehashing
    hm_trigger_rehashing hm_lookup with_table is_full hm_insert hm_delete hm_size walk_chain
    walk_slots h_foreach hm_foreach
program = tt

abbrev entry : ℕ → ℕ → HNode ℕ
entry hcode value = record { hcode = hcode; owner = value }

abbrev same_owner : HNode ℕ → HNode ℕ → Bool
same_owner a b = a.owner == b.owner

-- Four slots are being filled from two, of which the first is drained.
abbrev rehashing : HMap ℕ
rehashing = record {
  newer = record { tab = [] ∷ (entry 5 50 ∷ []) ∷ [] ∷ [] ∷ []; mask = 3; size = 1 };
  older = record { tab = [] ∷ (entry 7 70 ∷ entry 1 10 ∷ []) ∷ []; mask = 1; size = 2 };
  migrate_pos = 1;
}

newer-IsTable : IsTable (rehashing.newer)
newer-IsTable = record {
  counted = refl;
  placed = (tt, ((refl, tt), (tt, (tt, tt))));
  width = λ h. refl;
  power = λ h. (2, refl);
}

older-IsTable : IsTable (rehashing.older)
older-IsTable = record {
  counted = refl;
  placed = (tt, ((refl, (refl, tt)), tt));
  width = λ h. refl;
  power = λ h. (1, refl);
}

first_drained : (i : ℕ) → i < 1 → get_or (rehashing.older.tab) i [] ≡ []
first_drained zero h = refl
first_drained (suc i) h = absurd (omega arith)

rehashing-IsValid : IsValid rehashing
rehashing-IsValid = record {
  newer = newer-IsTable;
  older = older-IsTable;
  drained = first_drained;
  target = λ h. omega arith;
  narrow = omega arith;
  small = omega arith;
}

-- The first insertion makes the table of four slots.
hm_insert-first :
    hm_insert no_map (entry 6 60)
    ≡ some (record {
      newer = record { tab = [] ∷ [] ∷ (entry 6 60 ∷ []) ∷ [] ∷ []; mask = 3; size = 1 };
      older = no_table;
      migrate_pos = 0;
    })
unfolding program
hm_insert-first = refl

-- A lookup ends the rehashing and drops the old table.
hm_lookup-migrates :
    hm_lookup rehashing (entry 1 10) same_owner
    ≡ some (
      record {
        newer = record {
          tab = [] ∷ (entry 1 10 ∷ entry 5 50 ∷ []) ∷ [] ∷ (entry 7 70 ∷ []) ∷ [];
          mask = 3;
          size = 3;
        };
        older = no_table;
        migrate_pos = 1;
      },
      some (entry 1 10),
    )
unfolding program
hm_lookup-migrates = refl

-- The callback stops the walk at the first value that is not below 60.
abbrev until_60 : HNode ℕ → List ℕ → Bool × List ℕ
until_60 n seen = (ltb n.owner 60, n.owner ∷ seen)

hm_foreach-stops : hm_foreach rehashing until_60 [] ≡ some (70 ∷ 50 ∷ [])
unfolding program
hm_foreach-stops = refl

hm_help_rehashing-Helps_example : Helps rehashing (hm_help_rehashing rehashing)
hm_help_rehashing-Helps_example = hm_help_rehashing-Helps rehashing rehashing-IsValid

hm_insert-adds_example :
    (m' : HMap ℕ) × (hm_insert rehashing (entry 9 90) ≡ some m')
    × IsValid m'
    × Perm (nodes m') (entry 9 90 ∷ nodes rehashing)
hm_insert-adds_example = hm_insert-adds rehashing rehashing-IsValid (entry 9 90) (omega arith)

hm_lookup-answers_example :
    (m' : HMap ℕ) × (r : Option (HNode ℕ)) × (hm_lookup rehashing (entry 1 10) same_owner
      ≡ some (m', r))
    × IsValid m'
    × Perm (nodes m') (nodes rehashing)
    × Answer (entry 1 10) same_owner (nodes rehashing) r
hm_lookup-answers_example = hm_lookup-answers rehashing rehashing-IsValid (entry 1 10) same_owner

hm_delete-removes_example :
    (m' : HMap ℕ) × (r : Option (HNode ℕ)) × (hm_delete rehashing (entry 7 70) same_owner
      ≡ some (m', r))
    × IsValid m'
    × Removal (entry 7 70) same_owner (nodes rehashing) (nodes m') r
hm_delete-removes_example = hm_delete-removes rehashing rehashing-IsValid (entry 7 70) same_owner

hm_foreach-Visits_example :
    (s : List ℕ) × (hm_foreach rehashing until_60 [] ≡ some s)
    × Visits until_60 (nodes rehashing) [] s
hm_foreach-Visits_example = hm_foreach-Visits until_60 rehashing [] rehashing-IsValid
