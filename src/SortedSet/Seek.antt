-- ===== src/SortedSet/Seek.antt =====
-- zset_seekge: the first pair that is not before a score and a name.
use mini_redis.Base.{
  Option, ℕ, ◌≡◌, refl, sym, ap, Bool, true, false, List, [], ◌∷◌, ◌++◌, none, some, arith, Bytes,
  All, Bool-cases, inl, inr, if◌then◌else◌,
}
use mini_redis.Avl.{Tree, leaf, node}
use mini_redis.Avl.Shape.{to_list}
use mini_redis.SortedSet.{ZNode, ZSet, zless, seek, zset_seekge}
use mini_redis.SortedSet.Order.{zless_trans}
use mini_redis.SortedSet.Sorted.{
  AreSorted, Pairwise, Pairwise-left, Pairwise-right, Pairwise-before, All-map,
}
use mini_redis.SortedSet.Valid.{IsValid, members}

module _ (is_less : ℕ → Bool) where
  -- The answer of a search for the first element that is not less: those before it are, and those
  -- after it are not; without one, all are less.
  pub data First (xs : List ℕ) : Option ℕ → Type 0 where
    first :
        (x : ℕ) (front back : List ℕ)
        → xs ≡ front ++ x ∷ back
        → All (λ y. is_less y ≡ true) front
        → All (λ y. is_less y ≡ false) (x ∷ back)
        → First xs (some x)
    all_less : All (λ y. is_less y ≡ true) xs → First xs none

  -- What is before a lesser element is less.
  abbrev IsMonotone : List ℕ → Type 0
  IsMonotone = Pairwise (λ x y. is_less y ≡ true → is_less x ≡ true)

  -- The search in a list, with the answer for an empty one.
  abbrev search : List ℕ → Option ℕ → Option ℕ
  search [] found = found
  search (x ∷ xs) found = if is_less x then search xs found else some x

  search-append :
      (xs ys : List ℕ) (found : Option ℕ) → search (xs ++ ys) found ≡ search xs (search ys found)
  search-append [] ys found = refl
  search-append (x ∷ xs) ys found = rw (search-append xs ys found)

  search-less :
      (xs : List ℕ) (found : Option ℕ) → All (λ y. is_less y ≡ true) xs → search xs found ≡ found
  search-less [] found h = refl
  search-less (x ∷ xs) found h = rw (h.0, search-less xs found h.1)

  seek-search :
      (t : Tree) (found : Option ℕ)
      → IsMonotone (to_list t)
      → seek is_less t found ≡ search (to_list t) found
  unfolding seek
  seek-search leaf found m = refl
  seek-search (node h c l y r) found m =
      let R = λ (x z : ℕ). is_less z ≡ true → is_less x ≡ true in
      let left = seek-search l (some y) (Pairwise-left R (to_list l) (y ∷ to_list r) m) in
      let right = seek-search r found (Pairwise-right R (to_list l) (y ∷ to_list r) m).1 in
      let append = search-append (to_list l) (y ∷ to_list r) found in
      elim (Bool-cases (is_less y)) [
        | inl e ↦
            let before =
              All-map (to_list l) (λ z up. up e) (Pairwise-before R (to_list l) y (to_list r) m) in
            rw (append, e, right) (sym (search-less (to_list l) (search (to_list r) found) before))
        | inr e ↦ rw (append, e, left) refl
      ]

  search-First : (xs : List ℕ) → IsMonotone xs → First xs (search xs none)
  search-First [] m = all_less tt
  search-First (x ∷ xs) m = elim (Bool-cases (is_less x)) [
    | inl e ↦ rw e (further e (search xs none) (search-First xs m.1))
    | inr e ↦ rw e (
        first x [] xs refl tt (
          e,
          All-map xs
              (λ y up. elim (Bool-cases (is_less y)) [
                | inl h ↦ absurd (ground (arith, up h))
                | inr h ↦ h
              ])
              m.0,
        ))
  ]
    where
      further : is_less x ≡ true → (r : Option ℕ) → First xs r → First (x ∷ xs) r
      further e (some _) (first y front back s b a) =
          first y (x ∷ front) back (ap (◌∷◌ x) s) (e, b) a
      further e none (all_less b) = all_less (e, b)

-- In a valid set, the range query finds the first pair that is not before the score and the name:
-- all the pairs in front of it in the order are before them, and it and all behind it are not; it
-- returns a null pointer if all the pairs of the set are before them.
pub zset_seekge-First :
    (zset : ZSet) (score : ℕ) (name : Bytes)
    → IsValid zset
    → First (λ y. zless (zset.pairs y) score name) (members zset) (zset_seekge zset score name)
unfolding zset_seekge
zset_seekge-First zset score name v =
    let is_less = λ (y : ℕ). zless (zset.pairs y) score name in
    let m = monotone (members zset) v.sorted in
    rw (seek-search is_less zset.root none m) (search-First is_less (members zset) m)
  where
    key : ZNode
    key = record { hcode = 0; score = score; name = name }

    monotone :
        (xs : List ℕ)
        → AreSorted zset.pairs xs
        → Pairwise
            (λ x y. zless (zset.pairs y) score name ≡ true → zless (zset.pairs x) score name ≡ true)
            xs
    monotone [] s = tt
    monotone (x ∷ xs) s = (
      All-map xs (λ y b e. zless_trans (zset.pairs x) (zset.pairs y) key b.less e) s.0,
      monotone xs s.1,
    )
