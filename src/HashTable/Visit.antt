-- ===== src/HashTable/Visit.antt =====
-- `hm_foreach`: the callback sees every node of both tables in turn, until it stops the walk.
use mathlib.Core.List.{append_assoc}
use mathlib.Core.Path.{subst}
use mini_redis.Base.{
  ℕ, ◌+◌, ◌≡◌, refl, ap, Bool, true, false, List, [], ◌∷◌, ◌++◌, some, arith, length, length-append,
  get_elem?, is_empty, is_empty-eq_nil, is_empty-pos, Bool-cases, inl, inr, if◌then◌else◌,
}
use mini_redis.HashTable.{HNode, HTab, HMap, walk_chain, walk_slots, h_foreach, hm_foreach}
use mini_redis.HashTable.Slots.{nodes_of}
use mini_redis.HashTable.Table.{IsTable}
use mini_redis.HashTable.Rehash.{nodes, IsValid}

module _ {ℓ κ} {A : Type ℓ} {S : Type κ} (f : HNode A → S → Bool × S) where
  -- The walk over one list, which goes on to another unless it was stopped.
  abbrev and_then : List (HNode A) → Bool × S → Bool × S
  and_then ys (more, s) = if more then walk_chain ys f s else (false, s)

  walk_chain-append :
      (xs ys : List (HNode A)) (s : S) → walk_chain (xs ++ ys) f s ≡ and_then ys (walk_chain xs f s)
  unfolding walk_chain
  walk_chain-append [] ys s = refl
  walk_chain-append (x ∷ xs) ys s = elim (Bool-cases (f x s).0) [
    | inl e ↦ rw e (walk_chain-append xs ys (f x s).1)
    | inr e ↦ rw e
  ]

  at_front :
      (front : List (List (HNode A))) (c : List (HNode A)) (tab : List (List (HNode A)))
      → get_elem? (front ++ c ∷ tab) (length front) ≡ some c
  at_front [] c tab = refl
  at_front (d ∷ front) c tab = at_front front c tab

  walk_slots_lem :
      (front tab : List (List (HNode A))) (i : ℕ) (s : S)
      → i ≡ length front
      → walk_slots (length tab) i (front ++ tab) f s ≡ some (walk_chain (nodes_of tab) f s)
  unfolding walk_slots walk_chain
  walk_slots_lem front [] i s e = refl
  walk_slots_lem front (c ∷ tab) i s e =
      let (more, s') = walk_chain c f s in
      let regroup = append_assoc front (c ∷ []) tab in
      let rest =
        walk_slots_lem (front ++ c ∷ []) tab (i + 1) s'
          (omega (arith, length-append front (c ∷ []))) in
      let further =
        subst
          (λ ts. walk_slots (length tab) (i + 1) ts f s' ≡ some (walk_chain (nodes_of tab) f s'))
          regroup rest in
      let here : get_elem? (front ++ c ∷ tab) i ≡ some c = rw e (at_front front c tab) in
      elim (Bool-cases more) [
        | inl e' ↦ rw (here, walk_chain-append c (nodes_of tab) s, e') further
        | inr e' ↦ rw (here, walk_chain-append c (nodes_of tab) s, e')
      ]

  h_foreach_lem :
      (t : HTab A) (s : S) → IsTable t → h_foreach t f s ≡ some (walk_chain (nodes_of t.tab) f s)
  unfolding h_foreach walk_chain
  h_foreach_lem t s v = elim (Bool-cases (is_empty t.tab)) [
    | inl e ↦ rw (e, is_empty-eq_nil t.tab e)
    | inr e ↦ rw (e, v.width (is_empty-pos t.tab e)) (walk_slots_lem [] t.tab 0 s refl)
  ]

  pub hm_foreach_lem :
      (m : HMap A) (s : S) → IsValid m → hm_foreach m f s ≡ some (walk_chain (nodes m) f s).1
  unfolding hm_foreach
  hm_foreach_lem m s v =
      let (more, s') = walk_chain (nodes_of m.newer.tab) f s in
      let join = walk_chain-append (nodes_of m.newer.tab) (nodes_of m.older.tab) s in
      let first = h_foreach_lem m.newer s v.newer in
      elim (Bool-cases more) [
        | inl e ↦ rw (first, join, e, h_foreach_lem m.older s' v.older)
        | inr e ↦ rw (first, join, e)
      ]

  -- The callback sees the nodes of a list from its front, each with the state that the one before
  -- left, up to the end or the first at which it answers false.
  pub data Visits : List (HNode A) → S → S → Type (ℓ ⊔ κ) where
    over : (s : S) → Visits [] s s
    stops :
        (n : HNode A) (ns : List (HNode A)) (s s' : S) → f n s ≡ (false, s') → Visits (n ∷ ns) s s'
    goes_on :
        (n : HNode A) (ns : List (HNode A)) (s s' s'' : S)
        → f n s ≡ (true, s')
        → Visits ns s' s''
        → Visits (n ∷ ns) s s''

  walk_chain-Visits : (ns : List (HNode A)) (s : S) → Visits ns s (walk_chain ns f s).1
  unfolding walk_chain
  walk_chain-Visits [] s = over s
  walk_chain-Visits (n ∷ ns) s = elim (Bool-cases (f n s).0) [
    | inl e ↦
        rw e
          (goes_on n ns s (f n s).1 _ (ap (λ b. (b, (f n s).1)) e) (walk_chain-Visits ns (f n s).1))
    | inr e ↦ rw e (stops n ns s (f n s).1 (ap (λ b. (b, (f n s).1)) e))
  ]

  -- On a valid map, no access fails, and the callback sees the nodes of both tables, those of the
  -- newer first, each with the state that the one before left, up to the last or the first at which
  -- it answers false, and none behind that one.
  pub hm_foreach-Visits :
      (m : HMap A) (s : S)
      → IsValid m
      → (s' : S) × (hm_foreach m f s ≡ some s') × Visits (nodes m) s s'
  hm_foreach-Visits m s v =
      ((walk_chain (nodes m) f s).1, hm_foreach_lem m s v, walk_chain-Visits (nodes m) s)
