-- ===== src/HashTable/Delete.antt =====
-- `hm_delete` and `hm_size`.
use mathlib.Core.List.{Perm}
use mathlib.Core.List.Perm
use mini_redis.Base.{
  ℕ, ◌^◌, ◌<◌, ◌≡◌, ap, ◌∙◌, Bool, true, List, [], ◌∷◌, Option, none, some, arith, length,
  length-append, length-perm, get_or, get_or-set, set, All-append, ◌==◌, ==_iff, Bool-cases, inl,
  inr,
}
use mini_redis.HashTable.{HNode, HMap, unlink, hm_delete, hm_size}
use mini_redis.HashTable.Slots.{nodes_of}
use mini_redis.HashTable.Table.{matches, NoMatch, h_lookup_lem, h_detach_lem}
use mini_redis.HashTable.Rehash.{nodes, IsValid, hm_help_rehashing-Helps}
use mini_redis.HashTable.Find.{NoMatch-perm, from_older}

module _ {ℓ} {A : Type ℓ} where
  -- What a deletion leaves of the nodes `xs`: all but the matching node that it returns, or all,
  -- and then none matches.
  pub data Removal (key : HNode A) (eq : HNode A → HNode A → Bool) (xs left : List (HNode A))
      : Option (HNode A) → Type ℓ where
    removed :
        (x : HNode A)
        → matches key eq x ≡ true
        → Perm (x ∷ left) xs
        → Removal key eq xs left (some x)
    absent : NoMatch key eq xs → Perm left xs → Removal key eq xs left none

  fewer :
      (x : HNode A) {left : List (HNode A)} {xs : List (HNode A)}
      → Perm (x ∷ left) xs
      → length xs < 2 ^ 60
      → length left < 2 ^ 60
  fewer x p small = omega (arith, length-perm p)

  -- An empty slot is empty after a node is taken out of any slot.
  still_drained :
      (tab : List (List (HNode A))) (slot place i : ℕ)
      → slot < length tab
      → get_or tab i [] ≡ []
      → get_or (set tab slot (unlink (get_or tab slot []) place)) i [] ≡ []
  unfolding unlink
  still_drained tab slot place i inside e =
      let at = get_or-set tab slot i (unlink (get_or tab slot []) place) [] inside in
      elim (Bool-cases (slot == i)) [
        | inl same ↦
            let here : get_or tab slot [] ≡ [] =
              ap (λ j. get_or tab j []) ((==_iff slot i).0 same) ∙ e in
            rw (at, same, here)
        | inr other ↦ rw (at, other) e
      ]

  module _ (m : HMap A) (v : IsValid m) (key : HNode A) (eq : HNode A → HNode A → Bool) where
    -- A deletion fails no access. The map is valid; it has lost the node that is returned, which
    -- matches the key, and no other; a null pointer is returned only if no node matches, in either
    -- table, and then the nodes are the same.
    pub hm_delete-removes :
        (m' : HMap A) × (r : Option (HNode A)) × (hm_delete m key eq ≡ some (m', r))
        × IsValid m'
        × Removal key eq (nodes m) (nodes m') r
    unfolding hm_delete
    hm_delete-removes =
        let h = hm_help_rehashing-Helps m v in
        let w = h.map in
        let sum = length-append (nodes_of w.newer.tab) (nodes_of w.older.tab) in
        let room = h.valid.small in
        elim (h_lookup_lem w.newer h.valid.newer key eq) [
          | inl f ↦
              let (detach, table, less, size) =
                h_detach_lem w.newer h.valid.newer f.slot f.place f.node f.inside f.stands
                  (omega arith) in
              let perm = Perm.append less (Perm.refl (nodes_of w.older.tab)) in
              (
                record w { newer = _ },
                some f.node,
                rw (h.run, f.run, detach),
                record {
                  newer = table;
                  older = h.valid.older;
                  drained = h.valid.drained;
                  target = λ p. rw size (h.valid.target p);
                  narrow = rw size h.valid.narrow;
                  small = fewer f.node perm room;
                },
                removed f.node f.found (Perm.trans perm h.same),
              )
          | inr (run, none_newer) ↦ elim (h_lookup_lem w.older h.valid.older key eq) [
            | inl f ↦
                let (detach, table, less, size) =
                  h_detach_lem w.older h.valid.older f.slot f.place f.node f.inside f.stands
                    (omega arith) in
                let perm = from_older f.node (nodes_of w.newer.tab) less in
                (
                  record w { older = _ },
                  some f.node,
                  rw (h.run, run, f.run, detach),
                  record {
                    newer = h.valid.newer;
                    older = table;
                    drained = λ i p.
                        still_drained w.older.tab f.slot f.place i f.inside (h.valid.drained i p);
                    target = λ p. h.valid.target (rw size at p);
                    narrow = h.valid.narrow;
                    small = fewer f.node perm room;
                  },
                  removed f.node f.found (Perm.trans perm h.same),
                )
            | inr (run', none_older) ↦ (
              w,
              none,
              rw (h.run, run, run'),
              h.valid,
              absent
                  (NoMatch-perm key eq (nodes w) (nodes m) h.same (
                    All-append _ (nodes_of w.newer.tab) (nodes_of w.older.tab) none_newer
                      none_older))
                  h.same,
            )
          ]
        ]

  -- The size is the number of nodes in both tables.
  pub hm_size-nodes : (m : HMap A) → IsValid m → hm_size m ≡ length (nodes m)
  unfolding hm_size
  hm_size-nodes m v = omega (
    arith,
    v.newer.counted,
    v.older.counted,
    v.small,
    length-append (nodes_of m.newer.tab) (nodes_of m.older.tab),
  )
