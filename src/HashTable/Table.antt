-- ===== src/HashTable/Table.antt =====
-- One table: its invariant, and what its operations do to its nodes.
use Prim.Native.Nat.{bit_and}
use mathlib.Core.List.{Perm}
use mathlib.Core.List.Perm
use mathlib.Core.Path.{subst}
use native.Mathlib.Nat.{one-le-pow}
use mini_redis.Base.Bits.{and-le, and-pow_pred}
use mini_redis.Base.{
  ℕ, zero, suc, ◌+◌, ◌-◌, ◌%◌, ◌^◌, ◌<◌, ◌≡◌, ◌≢◌, refl, sym, ap, Bool, true, false, ◌&&◌, List, [],
  ◌∷◌, Option, none, some, arith, length, length-set, length-replicate, length-perm, get_elem?,
  get_or, set, replicate, All, All-append, is_empty, is_empty-eq_nil, is_empty-pos, ◌==◌, lt→ltb,
  Bool-cases, inl, inr, ◌⊎◌,
}
use mini_redis.HashTable.{
  HNode, HTab, Link, no_table, h_init, h_insert, find_place, h_lookup, deref, unlink, h_detach,
}
use mini_redis.HashTable.Slots.{
  nodes_of, InSlot, ArePlaced, get_elem?-within, more-perm, less-perm, unlink-perm, All-unlink,
  ArePlaced-set, ArePlaced-get, nodes_of-replicate, ArePlaced-replicate,
}

module _ {ℓ} {A : Type ℓ} where
  -- The count is right, each node is in its slot, and the capacity is a power of two, unless there
  -- is no array.
  pub record IsTable (t : HTab A) : Type ℓ where
    pub counted : t.size ≡ length (nodes_of t.tab)
    pub placed : ArePlaced t.mask 0 t.tab
    pub width : 0 < length t.tab → t.mask + 1 ≡ length t.tab
    pub power : 0 < length t.tab → (k : ℕ) × (length t.tab ≡ 2 ^ k)

  -- The test of the walk along a chain.
  abbrev pub matches : HNode A → (HNode A → HNode A → Bool) → HNode A → Bool
  matches key eq n = n.hcode == key.hcode && eq n key

  abbrev pub NoMatch : HNode A → (HNode A → HNode A → Bool) → List (HNode A) → Type 0
  NoMatch key eq = All (λ (n : HNode A). matches key eq n ≡ false)

  module _ (t : HTab A) (v : IsTable t) where
    slot_within : (h : ℕ) → 0 < length t.tab → bit_and h t.mask < length t.tab
    slot_within h pos = omega (arith, and-le h t.mask, v.width pos)

    pub h_insert_lem :
        (node : HNode A)
        → 0 < length t.tab
        → length (nodes_of t.tab) + 1 < 2 ^ 64
        → (t' : HTab A) × (h_insert t node ≡ some t')
          × IsTable t'
          × Perm (nodes_of t'.tab) (node ∷ nodes_of t.tab)
          × (t'.mask ≡ t.mask)
          × (length t'.tab ≡ length t.tab)
    unfolding h_insert
    h_insert_lem node pos small =
        let slot = bit_and node.hcode t.mask in
        let inside = slot_within node.hcode pos in
        let chain = get_or t.tab slot [] in
        let perm = more-perm node t.tab slot (node ∷ chain) inside (Perm.refl _) in
        let size = length-set t.tab slot (node ∷ chain) in
        (
          record t { tab = set t.tab slot (node ∷ chain); size = (t.size + 1) % 2 ^ 64 },
          rw (get_elem?-within t.tab slot inside),
          record {
            counted = omega (arith, length-perm perm, v.counted);
            placed =
                ArePlaced-set t.mask 0 t.tab slot (node ∷ chain) v.placed
                  (omega arith, ArePlaced-get t.mask 0 t.tab slot v.placed);
            width = λ h. rw size (v.width pos);
            power = λ h. rw size (v.power pos);
          },
          perm,
          refl,
          size,
        )

  pub find_place_lem :
      (chain : List (HNode A)) (key : HNode A) (eq : HNode A → HNode A → Bool)
      → ((i : ℕ) × (x : HNode A) × (find_place chain key eq ≡ some i)
          × (get_elem? chain i ≡ some x)
          × (matches key eq x ≡ true))
        ⊎ ((find_place chain key eq ≡ none) × NoMatch key eq chain)
  unfolding find_place
  find_place_lem [] key eq = inr (refl, tt)
  find_place_lem (cur ∷ chain) key eq = elim (Bool-cases (matches key eq cur)) [
    | inl e ↦ inl (0, cur, rw e, refl, e)
    | inr e ↦ elim (find_place_lem chain key eq) [
      | inl (i, x, run, at, found) ↦ inl (suc i, x, rw (e, run), at, found)
      | inr (run, rest) ↦ inr (rw (e, run), (e, rest))
    ]
  ]

  -- No node matches if none does in the slot of the key.
  other_slot :
      (mask i : ℕ) (key : HNode A) (eq : HNode A → HNode A → Bool) (chain : List (HNode A))
      → InSlot mask i chain
      → bit_and key.hcode mask ≢ i
      → NoMatch key eq chain
  other_slot mask i key eq [] p ne = tt
  other_slot mask i key eq (n ∷ chain) p ne =
      let apart : n.hcode == key.hcode ≡ false =
        ground (arith, ap (λ h. bit_and h mask) {x = n.hcode} {y = key.hcode}) in
      (rw apart, other_slot mask i key eq chain p.1 ne)

  later_slots :
      (mask i : ℕ) (key : HNode A) (eq : HNode A → HNode A → Bool) (tab : List (List (HNode A)))
      → ArePlaced mask i tab
      → bit_and key.hcode mask < i
      → NoMatch key eq (nodes_of tab)
  later_slots mask i key eq [] p lt = tt
  later_slots mask i key eq (c ∷ tab) p lt =
      All-append (λ n. matches key eq n ≡ false) c (nodes_of tab)
        (other_slot mask i key eq c p.0 (omega arith))
        (later_slots mask (i + 1) key eq tab p.1 (omega arith))

  NoMatch-slot :
      (mask i : ℕ) (key : HNode A) (eq : HNode A → HNode A → Bool) (tab : List (List (HNode A)))
      (slot : ℕ)
      → ArePlaced mask i tab
      → bit_and key.hcode mask ≡ i + slot
      → NoMatch key eq (get_or tab slot [])
      → NoMatch key eq (nodes_of tab)
  NoMatch-slot mask i key eq [] slot p e h = tt
  NoMatch-slot mask i key eq (c ∷ tab) zero p e h =
      All-append (λ n. matches key eq n ≡ false) c (nodes_of tab) h
        (later_slots mask (i + 1) key eq tab p.1 (omega arith))
  NoMatch-slot mask i key eq (c ∷ tab) (suc slot) p e h =
      All-append (λ n. matches key eq n ≡ false) c (nodes_of tab)
        (other_slot mask i key eq c p.0 (omega arith))
        (NoMatch-slot mask (i + 1) key eq tab slot p.1 (omega arith) h)

  -- What a lookup finds: a matching node, by its slot and place.
  pub record Finds (t : HTab A) (key : HNode A) (eq : HNode A → HNode A → Bool)
      (result : Option (Option Link)) : Type ℓ where
    pub slot : ℕ
    pub place : ℕ
    pub node : HNode A
    pub run : result ≡ some (some (slot, place))
    pub inside : slot < length t.tab
    pub stands : get_elem? (get_or t.tab slot []) place ≡ some node
    pub found : matches key eq node ≡ true

  module _ (t : HTab A) (v : IsTable t) where
    nothing_found :
        (key : HNode A) (eq : HNode A → HNode A → Bool)
        → is_empty t.tab ≡ true
        → (h_lookup t key eq ≡ some none) × NoMatch key eq (nodes_of t.tab)
    unfolding h_lookup
    nothing_found key eq e =
        (rw e, subst (λ tab. NoMatch key eq (nodes_of tab)) (sym (is_empty-eq_nil t.tab e)) tt)

    -- A lookup finds a matching node, or there is none in the table.
    pub h_lookup_lem :
        (key : HNode A) (eq : HNode A → HNode A → Bool)
        → Finds t key eq (h_lookup t key eq)
          ⊎ ((h_lookup t key eq ≡ some none) × NoMatch key eq (nodes_of t.tab))
    unfolding h_lookup
    h_lookup_lem key eq = elim (Bool-cases (is_empty t.tab)) [
      | inl e ↦ inr (nothing_found key eq e)
      | inr e ↦
          let slot = bit_and key.hcode t.mask in
          let inside = slot_within t v key.hcode (is_empty-pos t.tab e) in
          elim (find_place_lem (get_or t.tab slot []) key eq) [
            | inl (i, x, run, at, found) ↦ inl (record {
              slot = slot;
              place = i;
              node = x;
              run = rw (e, get_elem?-within t.tab slot inside, run);
              inside = inside;
              stands = at;
              found = found;
            })
            | inr (run, rest) ↦ inr (
              rw (e, get_elem?-within t.tab slot inside, run),
              NoMatch-slot t.mask 0 key eq t.tab slot v.placed (omega arith) rest,
            )
          ]
    ]

    -- The node at a link is taken out.
    pub h_detach_lem :
        (slot i : ℕ) (x : HNode A)
        → slot < length t.tab
        → get_elem? (get_or t.tab slot []) i ≡ some x
        → length (nodes_of t.tab) < 2 ^ 64
        → let t' = record t {
          tab = set t.tab slot (unlink (get_or t.tab slot []) i);
          size = (t.size + 2 ^ 64 - 1) % 2 ^ 64;
        } in
          (h_detach t (slot, i) ≡ some (x, t'))
          × IsTable t'
          × Perm (x ∷ nodes_of t'.tab) (nodes_of t.tab)
          × (length t'.tab ≡ length t.tab)
    unfolding h_detach
    h_detach_lem slot i x inside stands small =
        let chain = get_or t.tab slot [] in
        let perm = less-perm x t.tab slot (unlink chain i) inside (unlink-perm chain i x stands) in
        let size = length-set t.tab slot (unlink chain i) in
        (
          rw (get_elem?-within t.tab slot inside, stands),
          record {
            counted = omega (arith, length-perm perm, v.counted);
            placed =
                ArePlaced-set t.mask 0 t.tab slot (unlink chain i) v.placed
                  (All-unlink _ chain i (ArePlaced-get t.mask 0 t.tab slot v.placed));
            width = λ h. rw size (v.width (rw size at h));
            power = λ h. rw size (v.power (rw size at h));
          },
          perm,
          size,
        )

    pub deref_lem :
        (slot i : ℕ) (x : HNode A)
        → slot < length t.tab
        → get_elem? (get_or t.tab slot []) i ≡ some x
        → deref t (slot, i) ≡ some x
    unfolding deref
    deref_lem slot i x inside stands = rw (get_elem?-within t.tab slot inside, stands)

pub no_table-IsTable {ℓ} : (A : Type ℓ) → IsTable {A = A} no_table
no_table-IsTable A = record {
  counted = refl;
  placed = tt;
  width = λ h. absurd (omega arith);
  power = λ h. absurd (omega arith);
}

-- A fresh table of a power of two slots.
pub h_init_lem {ℓ} :
    (A : Type ℓ) (k : ℕ)
    → (t : HTab A) × (h_init (2 ^ k) ≡ some t)
      × IsTable t
      × (nodes_of t.tab ≡ [])
      × (length t.tab ≡ 2 ^ k)
unfolding h_init
h_init_lem A k =
    let pos = one-le-pow k 2 (omega arith) in
    let n = 2 ^ k in
    let t : HTab A = record { tab = replicate n []; mask = n - 1; size = 0 } in
    let empty = nodes_of-replicate {A = A} n in
    let size = length-replicate {A = List (HNode A)} n [] in
    (
      t,
      rw (lt→ltb 0 n pos, and-pow_pred k),
      record {
        counted = rw empty;
        placed = ArePlaced-replicate A (n - 1) 0 n;
        width = λ h. rw size (omega arith);
        power = λ h. (k, size);
      },
      empty,
      size,
    )
