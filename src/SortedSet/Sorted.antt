-- ===== src/SortedSet/Sorted.antt =====
-- Lists of addresses in the order of their pairs.
use mini_redis.Base.{
  ℕ, ◌≡◌, ◌≢◌, refl, sym, ap, true, false, List, [], ◌∷◌, ◌++◌, arith, All, All-append, All-left,
  All-right, ◌==◌, map,
}
use mini_redis.SortedSet.{ZNode, zless_nodes, write_pair}

-- Every element is in the relation to every later one.
abbrev pub Pairwise {ℓ κ} : {A : Type ℓ} → (A → A → Type κ) → List A → Type κ
Pairwise R [] = Unit
Pairwise R (x ∷ xs) = All (R x) xs × Pairwise R xs

pub both {ℓ κ μ ν} :
    {A : Type ℓ} {P : A → Type κ} {Q : A → Type μ} {R : A → Type ν} (xs : List A)
    → ((x : A) → P x → Q x → R x)
    → All P xs
    → All Q xs
    → All R xs
both [] f h k = tt
both (x ∷ xs) f h k = (f x h.0 k.0, both xs f h.1 k.1)

pub All-map {ℓ κ μ} :
    {A : Type ℓ} {P : A → Type κ} {R : A → Type μ} (xs : List A)
    → ((x : A) → P x → R x)
    → All P xs
    → All R xs
All-map [] f h = tt
All-map (x ∷ xs) f h = (f x h.0, All-map xs f h.1)

module _ {ℓ κ} {A : Type ℓ} (R : A → A → Type κ) where
  pub Pairwise-left : (xs ys : List A) → Pairwise R (xs ++ ys) → Pairwise R xs
  Pairwise-left [] ys h = tt
  Pairwise-left (x ∷ xs) ys h = (All-left (R x) xs ys h.0, Pairwise-left xs ys h.1)

  pub Pairwise-right : (xs ys : List A) → Pairwise R (xs ++ ys) → Pairwise R ys
  Pairwise-right [] ys h = h
  Pairwise-right (x ∷ xs) ys h = Pairwise-right xs ys h.1

  -- The elements before one are in the relation to it.
  pub Pairwise-before :
      (xs : List A) (x : A) (ys : List A) → Pairwise R (xs ++ x ∷ ys) → All (λ y. R y x) xs
  Pairwise-before [] x ys h = tt
  Pairwise-before (z ∷ xs) x ys h =
      ((All-right (R z) xs (x ∷ ys) h.0).0, Pairwise-before xs x ys h.1)

  pub Pairwise-insert :
      (xs : List A) (x : A) (ys : List A)
      → Pairwise R (xs ++ ys)
      → All (λ y. R y x) xs
      → All (R x) ys
      → Pairwise R (xs ++ x ∷ ys)
  Pairwise-insert [] x ys h b a = (a, h)
  Pairwise-insert (z ∷ xs) x ys h b a = (
    All-append (R z) xs (x ∷ ys) (All-left (R z) xs ys h.0) (b.0, All-right (R z) xs ys h.0),
    Pairwise-insert xs x ys h.1 b.1 a,
  )

  pub Pairwise-remove :
      (xs : List A) (x : A) (ys : List A) → Pairwise R (xs ++ x ∷ ys) → Pairwise R (xs ++ ys)
  Pairwise-remove [] x ys h = h.1
  Pairwise-remove (z ∷ xs) x ys h = (
    All-append (R z) xs ys (All-left (R z) xs (x ∷ ys) h.0) (All-right (R z) xs (x ∷ ys) h.0).1,
    Pairwise-remove xs x ys h.1,
  )

-- A pair is before another in the order, and their names differ.
pub record IsBefore (p q : ZNode) : Type 0 where
  pub less : zless_nodes p q ≡ true
  pub apart : p.name ≢ q.name

abbrev pub AreSorted : (ℕ → ZNode) → List ℕ → Type 0
AreSorted pairs = Pairwise (λ x y. IsBefore (pairs x) (pairs y))

abbrev pub Apart : ℕ → List ℕ → Type 0
Apart x = All (λ y. y ≢ x)

-- Sorted addresses are distinct.
pub IsBefore-ne : (pairs : ℕ → ZNode) (x y : ℕ) → IsBefore (pairs x) (pairs y) → x ≢ y
IsBefore-ne pairs x y b e = b.apart (ap (λ z. (pairs z).name) e)

pub AreSorted-front :
    (pairs : ℕ → ZNode) (xs : List ℕ) (x : ℕ) (ys : List ℕ)
    → AreSorted pairs (xs ++ x ∷ ys)
    → Apart x xs
AreSorted-front pairs xs x ys s =
    All-map xs (λ y b. IsBefore-ne pairs y x b)
      (Pairwise-before (λ x y. IsBefore (pairs x) (pairs y)) xs x ys s)

pub AreSorted-back :
    (pairs : ℕ → ZNode) (xs : List ℕ) (x : ℕ) (ys : List ℕ)
    → AreSorted pairs (xs ++ x ∷ ys)
    → Apart x ys
AreSorted-back pairs xs x ys s =
    All-map ys (λ y b e. IsBefore-ne pairs x y b (sym e))
      (Pairwise-right (λ x y. IsBefore (pairs x) (pairs y)) xs (x ∷ ys) s).0

-- A write to an address changes no other pair.
module _ (pairs : ℕ → ZNode) (x : ℕ) (p : ZNode) where
  pub write_pair_self : write_pair pairs x p x ≡ p
  write_pair_self = let e : (x == x) ≡ true = ground arith in rw e

  pub write_pair_ne : (y : ℕ) → y ≢ x → write_pair pairs x p y ≡ pairs y
  write_pair_ne y ne = let e : (y == x) ≡ false = ground arith in rw e

  pub All-write_pair {κ} :
      (P : ZNode → Type κ) (ys : List ℕ)
      → Apart x ys
      → All (λ y. P (pairs y)) ys
      → All (λ y. P (write_pair pairs x p y)) ys
  All-write_pair P ys apart = both ys (λ y ne h. rw (write_pair_ne y ne) h) apart

  pub AreSorted-write_pair :
      (ys : List ℕ) → Apart x ys → AreSorted pairs ys → AreSorted (write_pair pairs x p) ys
  AreSorted-write_pair [] apart s = tt
  AreSorted-write_pair (y ∷ ys) apart s = (
    both ys (λ z ne b. rw (write_pair_ne y apart.0, write_pair_ne z ne) b) apart.1 s.0,
    AreSorted-write_pair ys apart.1 s.1,
  )

  pub map-write_pair : (ys : List ℕ) → Apart x ys → map (write_pair pairs x p) ys ≡ map pairs ys
  map-write_pair [] apart = refl
  map-write_pair (y ∷ ys) apart =
      rw (write_pair_ne y apart.0) (ap (◌∷◌ (pairs y)) (map-write_pair ys apart.1))
