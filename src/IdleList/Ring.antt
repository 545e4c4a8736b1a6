-- ===== src/IdleList/Ring.antt =====
-- The ring of a head and its nodes, and how it changes with its links.
use mini_redis.Base.{ℕ, ◌≡◌, ◌≢◌, sym, ◌∙◌, List, [], ◌∷◌, ◌++◌, some, All, All-left, All-right}
use mini_redis.IdleList.{Store}

abbrev pub IsLink : Store → ℕ → ℕ → Type 0
IsLink st a b = ((st a).next ≡ some b) × ((st b).prev ≡ some a)

-- From `a` the links lead through the nodes to `b`, and back.
abbrev pub IsChain : Store → ℕ → List ℕ → ℕ → Type 0
IsChain st a [] b = IsLink st a b
IsChain st a (x ∷ xs) b = IsLink st a x × IsChain st x xs b

abbrev pub Apart : ℕ → List ℕ → Type 0
Apart x = All (λ y. y ≢ x)

abbrev pub Distinct : List ℕ → Type 0
Distinct [] = Unit
Distinct (x ∷ xs) = Apart x xs × Distinct xs

-- The list of the head `head` holds the nodes `xs`, from the front to the back.
pub record IsRing (st : Store) (head : ℕ) (xs : List ℕ) : Type 0 where
  pub chain : IsChain st head xs head
  pub distinct : Distinct (head ∷ xs)

abbrev pub last : ℕ → List ℕ → ℕ
last a [] = a
last a (x ∷ xs) = last x xs

abbrev pub first : List ℕ → ℕ → ℕ
first [] b = b
first (x ∷ xs) b = x

pub last-All {κ} : (P : ℕ → Type κ) (a : ℕ) (xs : List ℕ) → P a → All P xs → P (last a xs)
last-All P a [] h k = h
last-All P a (x ∷ xs) h k = last-All P x xs k.0 k.1

pub first-All {κ} : (P : ℕ → Type κ) (xs : List ℕ) (b : ℕ) → P b → All P xs → P (first xs b)
first-All P [] b h k = h
first-All P (x ∷ xs) b h k = k.0

pub prev-last :
    (st : Store) (a : ℕ) (xs : List ℕ) (b : ℕ) → IsChain st a xs b → (st b).prev ≡ some (last a xs)
prev-last st a [] b h = h.1
prev-last st a (x ∷ xs) b h = prev-last st x xs b h.1

-- The neighbours of a node in a chain.
pub around :
    (st : Store) (a : ℕ) (xs : List ℕ) (x : ℕ) (ys : List ℕ) (b : ℕ)
    → IsChain st a (xs ++ x ∷ ys) b
    → ((st x).prev ≡ some (last a xs)) × ((st x).next ≡ some (first ys b))
around st a [] x [] b h = (h.0.1, h.1.0)
around st a [] x (y ∷ ys) b h = (h.0.1, h.1.0.0)
around st a (z ∷ xs) x ys b h = around st z xs x ys b h.1

both :
    {P Q R : ℕ → Type 0} (xs : List ℕ)
    → ((y : ℕ) → P y → Q y → R y)
    → All P xs
    → All Q xs
    → All R xs
both [] f h k = tt
both (x ∷ xs) f h k = (f x h.0 k.0, both xs f h.1 k.1)

module _ (st st' : Store) where
  abbrev pub SameNext : ℕ → Type 0
  SameNext y = (st' y).next ≡ (st y).next

  abbrev pub SamePrev : ℕ → Type 0
  SamePrev y = (st' y).prev ≡ (st y).prev

  carried :
      (a : ℕ) (xs : List ℕ) (b : ℕ)
      → SameNext a
      → All SameNext xs
      → All SamePrev xs
      → SamePrev b
      → IsChain st a xs b
      → IsChain st' a xs b
  carried a [] b na ns ps pb h = (na ∙ h.0, pb ∙ h.1)
  carried a (x ∷ xs) b na ns ps pb h =
      ((na ∙ h.0.0, ps.0 ∙ h.0.1), carried x xs b ns.0 ns.1 ps.1 pb h.1)

  -- A node put in front of the end `b`.
  pub extended :
      (a : ℕ) (xs : List ℕ) (b r : ℕ)
      → ((y : ℕ) → y ≢ last a xs → y ≢ r → SameNext y)
      → ((y : ℕ) → y ≢ b → y ≢ r → SamePrev y)
      → IsLink st' (last a xs) r
      → IsLink st' r b
      → Distinct (a ∷ xs)
      → Apart r (a ∷ xs)
      → Apart b xs
      → IsChain st a xs b
      → IsChain st' a (xs ++ r ∷ []) b
  extended a [] b r ns ps l m d e f h = (l, m)
  extended a (x ∷ xs) b r ns ps l m d e f h =
      let behind = last-All (λ y. y ≢ a) x xs d.0.0 d.0.1 in
      (
        (ns a (λ q. behind (sym q)) e.0 ∙ h.0.0, ps x f.0 e.1.0 ∙ h.0.1),
        extended x xs b r ns ps l m d.1 e.1 f.1 h.1,
      )

  -- A node taken out from between its neighbours.
  pub shortened :
      (a : ℕ) (xs : List ℕ) (x : ℕ) (ys : List ℕ) (b : ℕ)
      → ((y : ℕ) → y ≢ last a xs → y ≢ x → SameNext y)
      → ((y : ℕ) → y ≢ first ys b → y ≢ x → SamePrev y)
      → IsLink st' (last a xs) (first ys b)
      → Distinct (a ∷ (xs ++ x ∷ ys))
      → Apart b (xs ++ x ∷ ys)
      → IsChain st a (xs ++ x ∷ ys) b
      → IsChain st' a (xs ++ ys) b
  shortened a [] x [] b ns ps l d f h = l
  shortened a [] x (y ∷ ys) b ns ps l d f h = (
    l,
    carried y ys b (ns y d.0.1.0 d.1.0.0) (both ys ns d.0.1.1 d.1.0.1) (both ys ps d.1.1.0 d.1.0.1)
        (ps b (λ q. f.1.0 (sym q)) (λ q. f.0 (sym q))) h.1.1,
  )
  shortened a (z ∷ xs) x ys b ns ps l d f h =
      let behind = last-All (λ y. y ≢ a) z xs d.0.0 (All-left (λ y. y ≢ a) xs (x ∷ ys) d.0.1) in
      let from_a = All-right (λ y. y ≢ a) xs (x ∷ ys) d.0.1 in
      let from_z = All-right (λ y. y ≢ z) xs (x ∷ ys) d.1.0 in
      let ahead = first-All (λ y. y ≢ z) ys b (λ q. f.0 (sym q)) from_z.1 in
      (
        (
          ns a (λ q. behind (sym q)) (λ q. from_a.0 (sym q)) ∙ h.0.0,
          ps z (λ q. ahead (sym q)) (λ q. from_z.0 (sym q)) ∙ h.0.1,
        ),
        shortened z xs x ys b ns ps l d.1 f.1 h.1,
      )
