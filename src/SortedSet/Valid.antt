-- ===== src/SortedSet/Valid.antt =====
-- The invariant of the sorted set, and zset_lookup, which reads it.
use mathlib.Core.List.{Perm}
use mathlib.Core.List.Perm
use mathlib.Core.Bool.{Bool-set}
use Prim.Native.Nat.{Ordering}
use mini_redis.Base.Double.{is_nan}
use mini_redis.Base.{
  Option, ℕ, ◌<◌, ◌≡◌, ◌≢◌, refl, ap, Bool, true, false, List, [], ◌∷◌, ◌++◌, none, some, arith,
  Bytes, length, All, All-perm, ◌==◌, ==_iff, ==-false, Bool-cases, ◌⊎◌, inl, inr, if◌then◌else◌,
  map,
}
use mini_redis.Hash.{str_hash}
use mini_redis.Avl.{Tree, leaf, node}
use mini_redis.Avl.Shape.{to_list, IsAvl}
use mini_redis.HashTable.{HNode, HMap}
use mini_redis.HashTable.Rehash.{nodes}
use mini_redis.HashTable.Rehash
use mini_redis.HashTable.Find.{Answer, found, missing, hm_lookup-answers}
use mini_redis.HashTable.Table.{matches}
use mini_redis.SortedSet.{ZNode, ZSet, memcmp, hcmp, probe, is_leaf, zset_lookup}
use mini_redis.SortedSet.Sorted.{AreSorted, Apart, All-map}

-- A pair in use: its score is a number, it is hashed by its name, and its address is taken.
pub record IsPair (pairs : ℕ → ZNode) (next x : ℕ) : Type 0 where
  pub number : is_nan (pairs x).score ≡ false
  pub hashed : (pairs x).hcode ≡ str_hash (pairs x).name
  pub used : x < next

-- The node of a pair in the name index.
abbrev pub entry : (ℕ → ZNode) → ℕ → HNode ℕ
entry pairs x = record { hcode = str_hash (pairs x).name; owner = x }

-- The addresses in the order of the tree.
abbrev pub members : ZSet → List ℕ
members zset = to_list zset.root

-- Both indexes are in order and hold the same pairs. The pairs are sorted and have different names.
pub record IsValid (zset : ZSet) : Type 0 where
  pub avl : IsAvl zset.root
  pub table : Rehash.IsValid zset.hmap
  pub sorted : AreSorted zset.pairs (members zset)
  pub pairs : All (IsPair zset.pairs zset.next) (members zset)
  pub indexed : Perm (nodes zset.hmap) (map (entry zset.pairs) (members zset))

-- The pairs in their order.
abbrev pub contents : ZSet → List ZNode
contents zset = map zset.pairs (members zset)

abbrev same_bytes : Bytes → Bytes → Bool
same_bytes a b =
    if length a == length b
    then (elim (memcmp (length a) a b) [
      | Ordering.eq ↦ true
      | Ordering.lt ↦ false
      | Ordering.gt ↦ false
    ])
    else false

same_bytes_iff : (a b : Bytes) → same_bytes a b ≡ true → a ≡ b
unfolding memcmp
same_bytes_iff [] [] h = refl
same_bytes_iff [] (y ∷ b) h = absurd (ground arith)
same_bytes_iff (x ∷ a) [] h = absurd (ground arith)
same_bytes_iff (x ∷ a) (y ∷ b) h =
    let same : x ≡ y = ground arith in
    let rest : same_bytes a b ≡ true = ground arith in rw (same, same_bytes_iff a b rest)

same_bytes_refl : (a : Bytes) → same_bytes a a ≡ true
unfolding memcmp
same_bytes_refl [] = refl
same_bytes_refl (x ∷ a) = ground (arith, same_bytes_refl a)

-- A node passes the test of the name index exactly if its name is the name looked for.
pub hcmp-same :
    (pairs : ℕ → ZNode) (name : Bytes) (n key : HNode ℕ)
    → hcmp pairs name n key ≡ true
    → (pairs n.owner).name ≡ name
unfolding hcmp
hcmp-same pairs name n key = same_bytes_iff (pairs n.owner).name name

pub hcmp-found :
    (pairs : ℕ → ZNode) (name : Bytes) (n key : HNode ℕ)
    → (pairs n.owner).name ≡ name
    → hcmp pairs name n key ≡ true
unfolding hcmp
hcmp-found pairs name n key e = rw e (same_bytes_refl name)

-- Where an address stands in a list.
pub split_at :
    (x : ℕ) (xs : List ℕ)
    → ((front : List ℕ) × (back : List ℕ) × (xs ≡ front ++ x ∷ back)) ⊎ Apart x xs
split_at x [] = inr tt
split_at x (y ∷ ys) = elim (Bool-cases (y == x)) [
  | inl e ↦ inl ([], ys, rw ((==_iff y x).0 e) refl)
  | inr e ↦ elim (split_at x ys) [
    | inl (front, back, s) ↦ inl (y ∷ front, back, ap (◌∷◌ y) s)
    | inr apart ↦ inr (==-false y x e, apart)
  ]
]

pub All-map_iff {κ} :
    {A : Type 0} {B : Type 0} (f : A → B) (P : B → Type κ) (xs : List A)
    → All (λ x. P (f x)) xs
    → All P (map f xs)
All-map_iff f P [] h = tt
All-map_iff f P (x ∷ xs) h = (h.0, All-map_iff f P xs h.1)

pub All-unmap {κ} :
    {A : Type 0} {B : Type 0} (f : A → B) (P : B → Type κ) (xs : List A)
    → All P (map f xs)
    → All (λ x. P (f x)) xs
All-unmap f P [] h = tt
All-unmap f P (x ∷ xs) h = (h.0, All-unmap f P xs h.1)

leaf-no_members : (t : Tree) → is_leaf t ≡ true → to_list t ≡ []
leaf-no_members leaf h = refl
leaf-no_members (node h c l x r) e = absurd (ground arith)

-- What a search for a name among the pairs finds: the address of the pair with the name, or that
-- there is none.
pub data Search (pairs : ℕ → ZNode) (name : Bytes) (xs : List ℕ) : Option ℕ → Type 0 where
  here :
      (x : ℕ) (front back : List ℕ)
      → xs ≡ front ++ x ∷ back
      → (pairs x).name ≡ name
      → Search pairs name xs (some x)
  nowhere : All (λ y. (pairs y).name ≢ name) xs → Search pairs name xs none

-- A node of the name index stands for a member.
pub owner-member :
    (zset : ZSet) (v : IsValid zset) (n : HNode ℕ) (rest : List (HNode ℕ))
    → Perm (n ∷ rest) (nodes zset.hmap)
    → (front : List ℕ) × (back : List ℕ) × (members zset ≡ front ++ n.owner ∷ back)
owner-member zset v n rest p = elim (split_at n.owner (members zset)) [
  | inl s ↦ s
  | inr apart ↦
      let other =
        All-perm (λ (m : HNode ℕ). m.owner ≢ n.owner) (λ m. hlevel)
          (map (entry zset.pairs) (members zset)) (n ∷ rest) (Perm.symm (Perm.trans p v.indexed))
          (All-map_iff (entry zset.pairs) (λ (m : HNode ℕ). m.owner ≢ n.owner) (members zset)
            apart) in
      absurd (other.0 refl)
]

module _ (zset : ZSet) (v : IsValid zset) (name : Bytes) where
  abbrev key : HNode ℕ
  key = probe (str_hash name)

  search :
      (r : Option (HNode ℕ))
      → Answer key (hcmp zset.pairs name) (nodes zset.hmap) r
      → Search zset.pairs name
          (members zset)
          (elim r [ none ↦ none | some hnode ↦ some hnode.owner ])
  search r (found n rest m p) =
      let (front, back, s) = owner-member zset v n rest p in
      here n.owner front back s (hcmp-same zset.pairs name n key (ground arith))
  search r (missing none_matches) =
      let passes = matches key (hcmp zset.pairs name) in
      let others =
        All-unmap (entry zset.pairs) (λ n. passes n ≡ false) (members zset)
          (All-perm (λ n. passes n ≡ false) (λ n. Bool-set (passes n) false) (nodes zset.hmap)
            (map (entry zset.pairs) (members zset)) v.indexed none_matches) in
      nowhere (All-map (members zset) (λ y fails. other y fails) others)
    where
      other :
          (y : ℕ)
          → matches key (hcmp zset.pairs name) (entry zset.pairs y) ≡ false
          → (zset.pairs y).name ≢ name
      other y fails e =
          let passes = hcmp-found zset.pairs name (entry zset.pairs y) key e in
          absurd (ground (arith, ap str_hash e))

  -- A lookup moves nodes of the name index and changes nothing else, and it finds the pair with the
  -- name if there is one.
  pub zset_lookup-Search :
      (hmap : HMap ℕ) × (found : Option ℕ) × (zset_lookup zset name
        ≡ some (record zset { hmap = hmap }, found))
      × IsValid (record zset { hmap = hmap })
      × Search zset.pairs name (members zset) found
  unfolding zset_lookup
  zset_lookup-Search = elim (Bool-cases (is_leaf zset.root)) [
    | inl e ↦ (zset.hmap, none, rw e refl, v, nowhere (rw (leaf-no_members zset.root e) tt))
    | inr e ↦
        let (hmap, r, run, table, same, answer) =
          hm_lookup-answers zset.hmap v.table key (hcmp zset.pairs name) in
        (
          hmap,
          elim r [ none ↦ none | some hnode ↦ some hnode.owner ],
          rw (e, run) refl,
          record {
            avl = v.avl;
            table = table;
            sorted = v.sorted;
            pairs = v.pairs;
            indexed = Perm.trans same v.indexed;
          },
          search r answer,
        )
  ]
