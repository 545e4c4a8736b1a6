-- ===== src/HashTable/Insert.antt =====
-- `hm_insert` adds one node.
use mathlib.Core.List.{Perm}
use mathlib.Core.List.Perm
use mini_redis.Base.{
  ◌+◌, ◌*◌, ◌%◌, ◌^◌, ◌≤◌, ◌<◌, ◌≡◌, refl, sym, ap, ◌∙◌, true, ◌&&◌, ◌∷◌, ◌++◌, some, arith, length,
  length-append, length-perm, leb→le, is_empty, is_empty-eq_nil, is_empty-pos, Bool-cases, inl, inr,
}
use mini_redis.HashTable.{HNode, HTab, HMap, h_insert, with_table, is_full, hm_insert}
use mini_redis.HashTable.Slots.{nodes_of}
use mini_redis.HashTable.Table.{IsTable, h_insert_lem, h_init_lem}
use mini_redis.HashTable.Rehash.{
  nodes, IsValid, hm_help_rehashing-Helps, hm_trigger_rehashing-grows,
}

-- A full table is small enough to be doubled.
full_small {ℓ} :
    {A : Type ℓ} (t : HTab A)
    → IsTable t
    → 0 < length t.tab
    → length t.tab ≤ 2 ^ 58
    → length (nodes_of t.tab) < 2 ^ 60
    → is_full t ≡ true
    → length t.tab ≤ 2 ^ 57
unfolding is_full
full_small t v pos narrow small full =
    let width = v.width pos in
    let load : (t.mask + 1) % 2 ^ 64 * 8 % 2 ^ 64 ≤ t.size = leb→le _ _ full in
    omega (arith, v.counted)

module _ {ℓ} {A : Type ℓ} (m : HMap A) (v : IsValid m) where
  -- The first insertion makes a table of four slots.
  with_table-IsTable :
      (t : HTab A) × (with_table m.newer ≡ some t)
      × IsTable t
      × (nodes_of t.tab ≡ nodes_of m.newer.tab)
      × (0 < length t.tab)
      × (length t.tab ≤ 2 ^ 58)
  unfolding with_table
  with_table-IsTable = elim (Bool-cases (is_empty m.newer.tab)) [
    | inl e ↦
        let (t, run, valid, bare, size) = h_init_lem A 2 in
        (
          t,
          rw (e, run),
          valid,
          bare ∙ ap nodes_of (sym (is_empty-eq_nil m.newer.tab e)),
          omega arith,
          omega arith,
        )
    | inr e ↦ (m.newer, rw e, v.newer, refl, is_empty-pos m.newer.tab e, v.narrow)
  ]

  -- The insertion into the new table, before growth.
  record Inserts (node : HNode A) : Type ℓ where
    table : HTab A
    newer : HTab A
    ready : with_table m.newer ≡ some table
    insert : h_insert table node ≡ some newer
    valid : IsValid (record m { newer = newer })
    same : Perm (nodes (record m { newer = newer })) (node ∷ nodes m)
    filled : 0 < length newer.tab

  inserts : (node : HNode A) → length (nodes m) + 1 < 2 ^ 60 → Inserts node
  inserts node room =
      let (t, ready, valid, kept, pos, narrow) = with_table-IsTable in
      let sum = length-append (nodes_of m.newer.tab) (nodes_of m.older.tab) in
      let (newer, insert, valid', more, mask, size) =
        h_insert_lem t valid node pos (omega (arith, ap length kept)) in
      let same : Perm (nodes_of newer.tab ++ nodes_of m.older.tab) (node ∷ nodes m) =
        Perm.append (rw kept at more) (Perm.refl (nodes_of m.older.tab)) in
      record {
        table = t;
        newer = newer;
        ready = ready;
        insert = insert;
        valid = record {
          newer = valid';
          older = v.older;
          drained = v.drained;
          target = λ h. omega arith;
          narrow = omega arith;
          small = omega (arith, length-perm same);
        };
        same = same;
        filled = omega arith;
      }

  -- An insertion fails no assertion and no access. The map is valid and has one node more; what is
  -- in it already, equal to the new node or not, stays.
  pub hm_insert-adds :
      (node : HNode A)
      → length (nodes m) + 1 < 2 ^ 60
      → (m' : HMap A) × (hm_insert m node ≡ some m') × IsValid m' × Perm (nodes m') (node ∷ nodes m)
  unfolding hm_insert
  hm_insert-adds node room =
      let i = inserts node room in
      let m₁ = record m { newer = i.newer } in
      rw (i.ready, i.insert)
        (elim (Bool-cases (is_empty m.older.tab && is_full i.newer)) [
          | inr e ↦
              let h = hm_help_rehashing-Helps m₁ i.valid in
              rw (e, h.run) (h.map, refl, h.valid, Perm.trans h.same i.same)
          | inl e ↦
              let (m₂, run, valid, same, size) =
                hm_trigger_rehashing-grows m₁ i.valid (is_empty-eq_nil m.older.tab (ground arith))
                  i.filled
                  (full_small i.newer i.valid.newer i.filled i.valid.narrow
                    (omega (
                      arith,
                      ap length {x = nodes m₁} refl,
                      length-append (nodes_of i.newer.tab) (nodes_of m.older.tab),
                      i.valid.small,
                    ))
                    (ground arith)) in
              let h = hm_help_rehashing-Helps m₂ valid in
              rw (e, run, h.run) (h.map, refl, h.valid, Perm.trans h.same (Perm.trans same i.same))
        ])
