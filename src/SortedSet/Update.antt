-- ===== src/SortedSet/Update.antt =====
-- A pair that is in the name index and not in the tree, and zset_update, which has one for a while.
use mathlib.Core.List.{Perm, perm_middle}
use mathlib.Core.List.Perm
use mini_redis.Base.Double.{is_nan, dbl_eq, dbl_eq_refl}
use mini_redis.Base.{
  ℕ, ◌+◌, ◌^◌, ◌<◌, ◌≡◌, ◌≢◌, refl, sym, ap, Bool, true, false, List, [], ◌∷◌, ◌++◌, some, arith,
  Bytes, length, length-perm, All, All-append, All-left, All-right, Bool-cases, inl, inr, map,
}
use mini_redis.Avl.Shape.{to_list, IsAvl}
use mini_redis.HashTable.Rehash.{nodes}
use mini_redis.HashTable.Rehash
use mini_redis.SortedSet.{ZNode, ZSet, write_pair, tree_insert, zset_update}
use mini_redis.SortedSet.Sorted.{
  AreSorted, Apart, IsBefore, Pairwise-before, Pairwise-right, Pairwise-remove, AreSorted-front,
  AreSorted-back, both, All-map, write_pair_self, write_pair_ne, AreSorted-write_pair,
  map-write_pair,
}
use mini_redis.SortedSet.Walk.{tree_insert-Inserts}
use mini_redis.SortedSet.Remove.{tree_remove-Removes}
use mini_redis.SortedSet.Valid.{IsPair, entry, members, IsValid, contents}

module _ {κ} {A : Type 0} (P : A → Type κ) (x : A) where
  pub All-outside : (front back : List A) → All P (front ++ x ∷ back) → All P (front ++ back)
  All-outside front back h =
      All-append P front back (All-left P front (x ∷ back) h) (All-right P front (x ∷ back) h).1

  pub All-at : (front back : List A) → All P (front ++ x ∷ back) → P x
  All-at front back h = (All-right P front (x ∷ back) h).0

  pub All-within : (front back : List A) → P x → All P (front ++ back) → All P (front ++ x ∷ back)
  All-within front back p h =
      All-append P front (x ∷ back) (All-left P front back h) (p, All-right P front back h)

pub map-agree {κ} :
    {A : Type 0} {B : Type κ} (f g : A → B) (xs : List A)
    → All (λ x. f x ≡ g x) xs
    → map f xs ≡ map g xs
map-agree f g [] h = refl
map-agree f g (x ∷ xs) h = rw h.0 (ap (◌∷◌ (g x)) (map-agree f g xs h.1))

-- The pair `x` is in the name index and not in the tree.
pub record IsLoose (zset : ZSet) (x : ℕ) : Type 0 where
  pub avl : IsAvl zset.root
  pub table : Rehash.IsValid zset.hmap
  pub sorted : AreSorted zset.pairs (members zset)
  pub pairs : All (IsPair zset.pairs zset.next) (members zset)
  pub pair : IsPair zset.pairs zset.next x
  pub apart : All (λ y. (zset.pairs y).name ≢ (zset.pairs x).name) (members zset)
  pub indexed : Perm (nodes zset.hmap) (entry zset.pairs x ∷ map (entry zset.pairs) (members zset))

-- The insertion into the tree makes the set valid, with the pair added.
pub tree_insert-IsValid :
    (zset : ZSet) (x : ℕ)
    → IsLoose zset x
    → length (members zset) + 1 < 2 ^ 32
    → (zset' : ZSet) × (tree_insert zset x ≡ some zset')
      × IsValid zset'
      × Perm (contents zset') (zset.pairs x ∷ contents zset)
tree_insert-IsValid zset x v small =
    let others =
      both (members zset) (λ y p ne. record { number = p.number; name = ne }) v.pairs v.apart in
    let i = tree_insert-Inserts zset x v.avl v.sorted v.pair.number others small in
    let placed : Perm (to_list i.root) (x ∷ members zset) =
      rw (i.order, i.old_order) (perm_middle i.front i.back) in
    (
      record zset { root = i.root },
      i.run,
      record {
        avl = i.avl;
        table = v.table;
        sorted = i.sorted;
        pairs = rw i.order (
            All-within (IsPair zset.pairs zset.next) x i.front i.back v.pair
              (rw i.old_order at v.pairs));
        indexed = Perm.trans v.indexed (Perm.symm (Perm.map (entry zset.pairs) placed));
      },
      Perm.map zset.pairs placed,
    )

-- The pairs other than a member have other names.
pub apart_names :
    (pairs : ℕ → ZNode) (front : List ℕ) (x : ℕ) (back : List ℕ)
    → AreSorted pairs (front ++ x ∷ back)
    → All (λ y. (pairs y).name ≢ (pairs x).name) (front ++ back)
apart_names pairs front x back s =
    All-append (λ y. (pairs y).name ≢ (pairs x).name) front back
      (All-map front (λ y b. b.apart)
        (Pairwise-before (λ y z. IsBefore (pairs y) (pairs z)) front x back s))
      (All-map back (λ y b e. b.apart (sym e))
        (Pairwise-right (λ y z. IsBefore (pairs y) (pairs z)) front (x ∷ back) s).0)

pub Apart-others :
    (pairs : ℕ → ZNode) (front : List ℕ) (x : ℕ) (back : List ℕ)
    → AreSorted pairs (front ++ x ∷ back)
    → Apart x (front ++ back)
Apart-others pairs front x back s =
    All-append (λ y. y ≢ x) front back (AreSorted-front pairs front x back s)
      (AreSorted-back pairs front x back s)

-- A write to the address of a pair that is not in the tree.
module _ (pairs : ℕ → ZNode) (x : ℕ) (p : ZNode) (xs : List ℕ) (apart : Apart x xs) where
  pub IsPair-write :
      (next next' : ℕ)
      → ((y : ℕ) → y < next → y < next')
      → All (IsPair pairs next) xs
      → All (IsPair (write_pair pairs x p) next') xs
  IsPair-write next next' more =
      both xs
        (λ y ne q.
          let e = write_pair_ne pairs x p y ne in
          record { number = rw e q.number; hashed = rw e q.hashed; used = more y q.used })
        apart

  pub entry-write : map (entry (write_pair pairs x p)) xs ≡ map (entry pairs) xs
  entry-write =
      map-agree (entry (write_pair pairs x p)) (entry pairs) xs
        (All-map xs (λ y ne. let e = write_pair_ne pairs x p y ne in rw e refl) apart)

  pub apart-write :
      (name : Bytes)
      → All (λ y. (pairs y).name ≢ name) xs
      → All (λ y. (write_pair pairs x p y).name ≢ name) xs
  apart-write name = both xs (λ y ne q. rw (write_pair_ne pairs x p y ne) q) apart

-- What an insertion does to the pairs: it adds one if none has the name, and otherwise gives the
-- pair with the name a score that equals the new one.
pub data Upsert (name : Bytes) (score : ℕ) (old new : List ZNode) : Bool → Type 0 where
  added :
      (p : ZNode)
      → p.name ≡ name
      → p.score ≡ score
      → All (λ (q : ZNode). q.name ≢ name) old
      → Perm new (p ∷ old)
      → Upsert name score old new true
  updated :
      (p q : ZNode) (rest : List ZNode)
      → p.name ≡ name
      → q.name ≡ name
      → dbl_eq q.score score ≡ true
      → Perm old (p ∷ rest)
      → Perm new (q ∷ rest)
      → Upsert name score old new false

-- The address of a member is in its tree.
pub member_inside : (x : ℕ) (front back xs : List ℕ) → xs ≡ front ++ x ∷ back → Apart x xs → ⊥
member_inside x front back xs s apart =
    (All-right (λ y. y ≢ x) front (x ∷ back) (rw s at apart)).0 refl

-- After the removal from the tree and the write of the score, the pair is loose.
module _ (zset : ZSet) (v : IsValid zset) (x : ℕ) (front back : List ℕ)
    (s : members zset ≡ front ++ x ∷ back) (score : ℕ) (number : is_nan score ≡ false)
    (small : length (members zset) < 2 ^ 32) where
  abbrev rescored : ZNode
  rescored = record (zset.pairs x) { score = score }

  zset_update-moves :
      dbl_eq (zset.pairs x).score score ≡ false
      → (zset' : ZSet) × (zset_update zset x score ≡ some zset')
        × IsValid zset'
        × (rest : List ZNode) × Perm (contents zset) (zset.pairs x ∷ rest)
        × Perm (contents zset') (rescored ∷ rest)
  unfolding zset_update
  zset_update-moves e =
      let r =
        tree_remove-Removes zset x v.avl v.sorted small
          (member_inside x front back (members zset) s) in
      let sorted = rw r.old_order at v.sorted in
      let apart = Apart-others zset.pairs r.front x r.back sorted in
      let pairs = rw r.old_order at v.pairs in
      let pair = All-at (IsPair zset.pairs zset.next) x r.front r.back pairs in
      let others = r.front ++ r.back in
      let same = write_pair_self zset.pairs x rescored in
      let placed : Perm (members zset) (x ∷ others) = rw r.old_order (perm_middle r.front r.back) in
      let mid = record zset { root = r.root; pairs = write_pair zset.pairs x rescored } in
      let loose : IsLoose mid x = record {
        avl = r.avl;
        table = v.table;
        sorted = rw r.order (
            AreSorted-write_pair zset.pairs x rescored others apart (
              Pairwise-remove (λ y z. IsBefore (zset.pairs y) (zset.pairs z)) r.front x r.back
                sorted));
        pairs = rw r.order (
            IsPair-write zset.pairs x rescored others apart zset.next zset.next (λ y h. h)
              (All-outside (IsPair zset.pairs zset.next) x r.front r.back pairs));
        pair = record { number = rw same number; hashed = rw same pair.hashed; used = pair.used };
        apart =
            rw (r.order, same)
              (apart-write zset.pairs x rescored others apart (zset.pairs x).name
                (apart_names zset.pairs r.front x r.back sorted));
        indexed = Perm.trans v.indexed (
            rw (r.order, entry-write zset.pairs x rescored others apart, same)
              (Perm.map (entry zset.pairs) placed));
      } in
      let room : length (members mid) + 1 < 2 ^ 32 =
        rw r.order (omega (arith, length-perm placed)) in
      let (zset', run, valid, perm) = tree_insert-IsValid mid x loose room in
      let left = rw (same, r.order, map-write_pair zset.pairs x rescored others apart) at perm in
      (zset', rw (e, r.run, run), valid, map zset.pairs others, Perm.map zset.pairs placed, left)

  pub zset_update-Upsert :
      (name : Bytes)
      → (zset.pairs x).name ≡ name
      → (zset' : ZSet) × (zset_update zset x score ≡ some zset')
        × IsValid zset'
        × Upsert name score (contents zset) (contents zset') false
  unfolding zset_update
  zset_update-Upsert name named = elim (Bool-cases (dbl_eq (zset.pairs x).score score)) [
    | inl e ↦
        let placed : Perm (members zset) (x ∷ (front ++ back)) = rw s (perm_middle front back) in
        let perm = Perm.map zset.pairs placed in
        (zset, rw e refl, v, updated (zset.pairs x) (zset.pairs x) _ named named e perm perm)
    | inr e ↦
        let (zset', run, valid, rest, before, after) = zset_update-moves e in
        (
          zset',
          run,
          valid,
          updated (zset.pairs x) rescored rest named named (dbl_eq_refl score number) before after,
        )
  ]
