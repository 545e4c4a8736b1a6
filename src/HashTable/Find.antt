-- ===== src/HashTable/Find.antt =====
-- `hm_lookup`, `hm_delete` and `hm_size`: what they answer of the nodes in both tables.
use mathlib.Core.List.{Perm, perm_middle}
use mathlib.Core.List.Perm
use mathlib.Core.Bool.{Bool-set}
use mini_redis.Base.{
  ◌≡◌, Bool, true, false, List, [], ◌∷◌, ◌++◌, Option, none, some, get_or, All-append, All-perm,
  inl, inr,
}
use mini_redis.HashTable.{HNode, HMap, unlink, hm_lookup}
use mini_redis.HashTable.Slots.{nodes_of, less-perm, unlink-perm}
use mini_redis.HashTable.Table.{matches, NoMatch, h_lookup_lem, deref_lem}
use mini_redis.HashTable.Rehash.{nodes, IsValid, hm_help_rehashing-Helps}

module _ {ℓ} {A : Type ℓ} where
  -- What a search among the nodes `xs` answers: one of them that matches, with the others, or that
  -- none does.
  pub data Answer (key : HNode A) (eq : HNode A → HNode A → Bool) (xs : List (HNode A))
      : Option (HNode A) → Type ℓ where
    found :
        (x : HNode A) (rest : List (HNode A))
        → matches key eq x ≡ true
        → Perm (x ∷ rest) xs
        → Answer key eq xs (some x)
    missing : NoMatch key eq xs → Answer key eq xs none

  pub NoMatch-perm :
      (key : HNode A) (eq : HNode A → HNode A → Bool) (xs ys : List (HNode A))
      → Perm xs ys
      → NoMatch key eq xs
      → NoMatch key eq ys
  NoMatch-perm key eq xs ys =
      All-perm (λ n. matches key eq n ≡ false) (λ n. Bool-set (matches key eq n) false) xs ys

  -- A node of the old table, taken to the front of all the nodes.
  pub from_older :
      (x : HNode A) (newer : List (HNode A)) {older rest : List (HNode A)}
      → Perm (x ∷ rest) older
      → Perm (x ∷ (newer ++ rest)) (newer ++ older)
  from_older x newer {older} {rest} p =
      Perm.trans (Perm.symm (perm_middle {a = x} newer rest)) (Perm.append (Perm.refl newer) p)

  module _ (m : HMap A) (v : IsValid m) (key : HNode A) (eq : HNode A → HNode A → Bool) where
    -- A lookup moves nodes between the tables and changes nothing else: the map is valid and has
    -- the same nodes. The node that it returns is one of them, with the hash code of the key and
    -- equal to it; it returns a null pointer only if there is none, in either table.
    pub hm_lookup-answers :
        (m' : HMap A) × (r : Option (HNode A)) × (hm_lookup m key eq ≡ some (m', r))
        × IsValid m'
        × Perm (nodes m') (nodes m)
        × Answer key eq (nodes m) r
    unfolding hm_lookup
    hm_lookup-answers =
        let h = hm_help_rehashing-Helps m v in
        let w = h.map in
        elim (h_lookup_lem w.newer h.valid.newer key eq) [
          | inl f ↦
              let chain = get_or w.newer.tab f.slot [] in
              let perm =
                less-perm f.node w.newer.tab f.slot (unlink chain f.place) f.inside
                  (unlink-perm chain f.place f.node f.stands) in
              (
                w,
                some f.node,
                rw (
                  h.run,
                  f.run,
                  deref_lem w.newer h.valid.newer f.slot f.place f.node f.inside f.stands,
                ),
                h.valid,
                h.same,
                found f.node _ f.found
                    (Perm.trans (Perm.append perm (Perm.refl (nodes_of w.older.tab))) h.same),
              )
          | inr (run, none_newer) ↦ elim (h_lookup_lem w.older h.valid.older key eq) [
            | inl f ↦
                let chain = get_or w.older.tab f.slot [] in
                let perm =
                  less-perm f.node w.older.tab f.slot (unlink chain f.place) f.inside
                    (unlink-perm chain f.place f.node f.stands) in
                (
                  w,
                  some f.node,
                  rw (
                    h.run,
                    run,
                    f.run,
                    deref_lem w.older h.valid.older f.slot f.place f.node f.inside f.stands,
                  ),
                  h.valid,
                  h.same,
                  found f.node _ f.found
                      (Perm.trans (from_older f.node (nodes_of w.newer.tab) perm) h.same),
                )
            | inr (run', none_older) ↦ (
              w,
              none,
              rw (h.run, run, run'),
              h.valid,
              h.same,
              missing (
                  NoMatch-perm key eq (nodes w) (nodes m) h.same (
                    All-append _ (nodes_of w.newer.tab) (nodes_of w.older.tab) none_newer
                      none_older)),
            )
          ]
        ]
