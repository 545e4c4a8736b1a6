-- ===== src/HashTable/Rehash.antt =====
-- The invariant of the map, and that progressive rehashing keeps it and its nodes.
use mathlib.Core.List.{Perm, perm_middle, append-nil}
use mathlib.Core.List.Perm
use mathlib.Core.Path.{subst}
use native.Mathlib.Nat.{pow-suc}
use mini_redis.Base.{
  ℕ, zero, suc, ◌+◌, ◌-◌, ◌*◌, ◌%◌, ◌^◌, ◌≤◌, ◌<◌, ◌≡◌, refl, sym, ap, ◌∙◌, false, ◌&&◌, List, [],
  ◌∷◌, ◌++◌, Option, some, arith, length, length-append, length-perm, length-eq_zero, get_or,
  get_or-set, set, is_empty, is_empty-eq_nil, ltb, ltb→lt, ltb-false, ◌==◌, ==_iff, ==-false,
  Bool-cases, inl, inr,
}
use mini_redis.HashTable.{
  HNode, HTab, HMap, no_table, no_map, k_rehashing_work, h_insert, unlink, h_detach, help_loop,
  hm_help_rehashing, hm_trigger_rehashing,
}
use mini_redis.HashTable.Slots.{nodes_of, get_elem?-within, nodes_of-drained}
use mini_redis.HashTable.Table.{IsTable, h_insert_lem, h_detach_lem, no_table-IsTable, h_init_lem}

abbrev work_left : ℕ → ℕ
work_left nwork = k_rehashing_work - nwork

module _ {ℓ} {A : Type ℓ} where
  -- All the nodes of the map.
  abbrev pub nodes : HMap A → List (HNode A)
  nodes m = nodes_of m.newer.tab ++ nodes_of m.older.tab

  -- The slots of the old table before `migrate_pos` are empty, there is no old table without a new
  -- one, and no number wraps. 2 ^ 60 nodes are more than memory holds.
  pub record IsValid (m : HMap A) : Type ℓ where
    pub newer : IsTable m.newer
    pub older : IsTable m.older
    pub drained : (i : ℕ) → i < m.migrate_pos → get_or m.older.tab i [] ≡ []
    pub target : 0 < length m.older.tab → 0 < length m.newer.tab
    pub narrow : length m.newer.tab ≤ 2 ^ 58
    pub small : length (nodes m) < 2 ^ 60

  pub no_map-IsValid : (m : HMap A) → m ≡ no_map → IsValid m
  no_map-IsValid m e =
      subst (λ w. IsValid w) (sym e)
        (record {
          newer = no_table-IsTable A;
          older = no_table-IsTable A;
          drained = λ i h. refl;
          target = λ h. absurd (omega arith);
          narrow = omega arith;
          small = omega arith;
        })

  -- A node goes over from the old table to the new one.
  crossing :
      (x : HNode A) {front front' bs bs' : List (HNode A)}
      → Perm front' (x ∷ front)
      → Perm (x ∷ bs') bs
      → Perm (front' ++ bs') (front ++ bs)
  crossing x {front} {front'} {bs} {bs'} p q =
      Perm.trans (Perm.append p (Perm.refl bs'))
        (Perm.trans (Perm.symm (perm_middle {a = x} front bs')) (Perm.append (Perm.refl front) q))

  -- What a run of the loop from `m` gives: a valid map of the same nodes, from which as many nodes
  -- went over as were left and as the limit allows.
  pub record Migrates (m : HMap A) (work : ℕ) (result : Option (HMap A)) : Type ℓ where
    pub map : HMap A
    pub run : result ≡ some map
    pub valid : IsValid map
    pub same : Perm (nodes map) (nodes m)
    pub progress : length (nodes_of map.older.tab) ≡ length (nodes_of m.older.tab) - work
    pub width : length map.older.tab ≡ length m.older.tab
    pub width_new : length map.newer.tab ≡ length m.newer.tab

  module _ (m : HMap A) (v : IsValid m) where
    -- While there is a node, the position is within the table.
    position : 0 < m.older.size → m.migrate_pos < length m.older.tab
    position pos = elim (Bool-cases (ltb m.migrate_pos (length m.older.tab))) [
      | inl e ↦ ltb→lt _ _ e
      | inr e ↦
          let past = ltb-false _ _ e in
          let empty = nodes_of-drained m.older.tab (λ i h. v.drained i (omega arith)) in
          absurd (omega (arith, v.older.counted, ap length empty))
    ]

    skipped-IsValid :
        get_or m.older.tab m.migrate_pos [] ≡ []
        → IsValid (record m { migrate_pos = m.migrate_pos + 1 })
    skipped-IsValid e = record {
      newer = v.newer;
      older = v.older;
      drained = λ i h. elim (Bool-cases (i == m.migrate_pos)) [
        | inl here ↦ rw ((==_iff _ _).0 here) e
        | inr before ↦ let ne = ==-false _ _ before in v.drained i (omega arith)
      ];
      target = v.target;
      narrow = v.narrow;
      small = v.small;
    }

    -- The first node of the slot goes over.
    record Crosses : Type ℓ where
      node : HNode A
      older : HTab A
      newer : HTab A
      detach : h_detach m.older (m.migrate_pos, 0) ≡ some (node, older)
      insert : h_insert m.newer node ≡ some newer
      valid : IsValid (record m { newer = newer; older = older })
      same : Perm (nodes_of newer.tab ++ nodes_of older.tab) (nodes m)
      fewer : length (nodes_of older.tab) + 1 ≡ length (nodes_of m.older.tab)
      width : length older.tab ≡ length m.older.tab
      width_new : length newer.tab ≡ length m.newer.tab

    crosses :
        (x : HNode A) (rest : List (HNode A))
        → m.migrate_pos < length m.older.tab
        → get_or m.older.tab m.migrate_pos [] ≡ x ∷ rest
        → Crosses
    crosses x rest inside e =
        let slot = m.migrate_pos in
        let size = length-append (nodes_of m.newer.tab) (nodes_of m.older.tab) in
        let small = v.small in
        let (detach, older_valid, less, width) =
          h_detach_lem m.older v.older slot 0 x inside (rw e) (omega arith) in
        let (newer, insert, newer_valid, more, mask, width_new) =
          h_insert_lem m.newer v.newer x (v.target (omega arith)) (omega arith) in
        let cross = crossing x more less in
        record {
          node = x;
          older = record m.older {
            tab = set m.older.tab slot (unlink (get_or m.older.tab slot []) 0);
            size = (m.older.size + 2 ^ 64 - 1) % 2 ^ 64;
          };
          newer = newer;
          detach = detach;
          insert = insert;
          valid = record {
            newer = newer_valid;
            older = older_valid;
            drained = λ i h.
                get_or-set m.older.tab slot i _ [] inside
                ∙ (let apart : slot == i ≡ false = ground arith in rw apart (v.drained i h));
            target = λ h. rw width_new (v.target (rw width at h));
            narrow = rw width_new v.narrow;
            small = rw (length-perm cross) v.small;
          };
          same = cross;
          fewer = omega (arith, length-perm less);
          width = width;
          width_new = width_new;
        }

  first_of_chain :
      (c : List (HNode A))
      → is_empty c ≡ false
      → (x : HNode A) × (rest : List (HNode A)) × (c ≡ x ∷ rest)
  first_of_chain [] e = cc
  first_of_chain (x ∷ rest) e = (x, rest, refl)

  stopped :
      (nwork : ℕ) (m : HMap A)
      → IsValid m
      → ltb nwork k_rehashing_work && ltb 0 m.older.size ≡ false
      → Migrates m (work_left nwork) (some m)
  stopped nwork m v e = record {
    map = m;
    run = refl;
    valid = v;
    same = Perm.refl (nodes m);
    progress = let count = v.older.counted in ground arith;
    width = refl;
    width_new = refl;
  }

  help_loop-Migrates :
      (fuel nwork : ℕ) (m : HMap A)
      → IsValid m
      → work_left nwork + (length m.older.tab - m.migrate_pos) < fuel
      → Migrates m (work_left nwork) (help_loop fuel nwork m)
  unfolding help_loop
  help_loop-Migrates zero nwork m v enough = absurd (omega arith)
  help_loop-Migrates (suc fuel) nwork m v enough =
      elim (Bool-cases (ltb nwork k_rehashing_work && ltb 0 m.older.size)) [
        | inr e ↦ rw e (stopped nwork m v e)
        | inl e ↦
            let chain = get_or m.older.tab m.migrate_pos [] in
            let inside = position m v (ground arith) in
            let busy : nwork < 128 = ground arith in
            rw (e, get_elem?-within m.older.tab m.migrate_pos inside)
              (elim (Bool-cases (is_empty chain)) [
                | inl gap ↦
                    let s =
                      help_loop-Migrates fuel nwork (record m { migrate_pos = m.migrate_pos + 1 })
                        (skipped-IsValid m v (is_empty-eq_nil chain gap)) (omega arith) in
                    rw gap (record {
                      map = s.map;
                      run = s.run;
                      valid = s.valid;
                      same = s.same;
                      progress = s.progress;
                      width = s.width;
                      width_new = s.width_new;
                    })
                | inr filled ↦
                    let (x, rest, shape) = first_of_chain chain filled in
                    let c = crosses m v x rest inside shape in
                    let s =
                      help_loop-Migrates fuel (nwork + 1)
                        (record m { newer = c.newer; older = c.older }) c.valid
                        (rw c.width (omega arith)) in
                    rw (filled, c.detach, c.insert)
                      (record {
                        map = s.map;
                        run = s.run;
                        valid = s.valid;
                        same = Perm.trans s.same c.same;
                        progress = s.progress ∙ omega (arith, c.fewer);
                        width = s.width ∙ c.width;
                        width_new = s.width_new ∙ c.width_new;
                      })
              ])
      ]

  -- What a call of `hm_help_rehashing` gives.
  pub record Helps (m : HMap A) (result : Option (HMap A)) : Type ℓ where
    pub map : HMap A
    pub run : result ≡ some map
    pub valid : IsValid map
    pub same : Perm (nodes map) (nodes m)
    pub progress :
        length (nodes_of map.older.tab) ≡ length (nodes_of m.older.tab) - k_rehashing_work
    pub closed : length (nodes_of map.older.tab) ≡ 0 → map.older.tab ≡ []
    pub width_new : length map.newer.tab ≡ length m.newer.tab

  -- `hm_help_rehashing` follows no null pointer, reads no slot out of range and ends. The map has
  -- the same nodes and is valid; 128 nodes went over to the new table, or all that were left, and
  -- once none is left the old table is gone.
  pub hm_help_rehashing-Helps : (m : HMap A) → IsValid m → Helps m (hm_help_rehashing m)
  unfolding hm_help_rehashing
  hm_help_rehashing-Helps m v =
      let s = help_loop-Migrates (k_rehashing_work + length m.older.tab + 1) 0 m v (omega arith) in
      let count = s.valid.older.counted in
      rw s.run (elim (Bool-cases (s.map.older.size == 0 && ltb 0 (length s.map.older.tab))) [
        | inl e ↦
            let empty = length-eq_zero (nodes_of s.map.older.tab) (ground arith) in
            rw e (record {
              map = record s.map { older = no_table };
              run = refl;
              valid = record {
                newer = s.valid.newer;
                older = no_table-IsTable A;
                drained = λ i h. refl;
                target = λ h. absurd (omega arith);
                narrow = s.valid.narrow;
                small =
                    subst (λ c. length (nodes_of s.map.newer.tab ++ c) < 2 ^ 60) empty
                      s.valid.small;
              };
              same = subst (λ c. Perm (nodes_of s.map.newer.tab ++ c) (nodes m)) empty s.same;
              progress = sym (ap length empty) ∙ s.progress;
              closed = λ h. refl;
              width_new = s.width_new;
            })
        | inr e ↦ rw e (record {
          map = s.map;
          run = refl;
          valid = s.valid;
          same = s.same;
          progress = s.progress;
          closed = λ h. length-eq_zero s.map.older.tab (ground arith);
          width_new = s.width_new;
        })
      ])

  -- Growth: the current table becomes the old one, and the new one has twice its slots.
  pub hm_trigger_rehashing-grows :
      (m : HMap A)
      → IsValid m
      → m.older.tab ≡ []
      → 0 < length m.newer.tab
      → length m.newer.tab ≤ 2 ^ 57
      → (m' : HMap A) × (hm_trigger_rehashing m ≡ some m')
        × IsValid m'
        × Perm (nodes m') (nodes m)
        × (length m'.newer.tab ≡ 2 * length m.newer.tab)
  unfolding hm_trigger_rehashing
  hm_trigger_rehashing-grows m v empty pos room =
      let (k, power) = v.newer.power pos in
      let width = v.newer.width pos in
      let twice : 2 ^ suc k ≡ 2 ^ k * 2 = pow-suc 2 k in
      let wide : (m.newer.mask + 1) % 2 ^ 64 * 2 % 2 ^ 64 ≡ 2 ^ suc k = omega arith in
      let (t, run, valid, bare, size) = h_init_lem A (suc k) in
      let same : nodes m ≡ nodes_of m.newer.tab =
        ap (λ tab. nodes_of m.newer.tab ++ nodes_of tab) empty ∙ append-nil _ in
      (
        record { newer = t; older = m.newer; migrate_pos = 0 },
        rw (empty, wide, run),
        record {
          newer = valid;
          older = v.newer;
          drained = λ i h. absurd (omega arith);
          target = λ h. omega arith;
          narrow = omega arith;
          small = rw bare (rw same at v.small);
        },
        rw (bare, same) (Perm.refl _),
        omega arith,
      )
