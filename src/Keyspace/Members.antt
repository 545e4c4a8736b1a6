-- ===== src/Keyspace/Members.antt =====
-- Addresses in lists: whether one is in it, and lists in which each stands once.
use mathlib.Core.List.{Perm, Permᴰ}
use mathlib.Core.List.Perm
use mathlib.Core.Path.{subst}
use mathlib.Core.Logic.{∥∥₁_elim}
use mathlib.Core.HLevel.{×_prop, Unit-prop}
use mini_redis.Base.{
  ℕ, ◌≡◌, ◌≢◌, refl, sym, List, [], ◌∷◌, All, All-perm, All-prop, ◌∙◌, ◌==◌, ==_iff, ==-false,
  Bool-cases, ◌⊎◌, inl, inr,
}
use mini_redis.SortedSet.Sorted.{Apart, Pairwise, All-map}

-- `x` is in the list.
abbrev pub Inside : ℕ → List ℕ → Type 0
Inside x xs = Apart x xs → ⊥

pub Apart-perm : (x : ℕ) {xs ys : List ℕ} → Perm xs ys → Apart x xs → Apart x ys
Apart-perm x {xs} {ys} p = All-perm (λ y. y ≢ x) (λ y. hlevel) xs ys p

pub Inside-perm : (x : ℕ) {xs ys : List ℕ} → Perm xs ys → Inside x xs → Inside x ys
Inside-perm x p inside apart = inside (Apart-perm x (Perm.symm p) apart)

pub Inside-cons : (x y : ℕ) (ys : List ℕ) → Inside x (y ∷ ys) → (y ≡ x) ⊎ Inside x ys
Inside-cons x y ys inside = elim (Bool-cases (y == x)) [
  | inl e ↦ inl ((==_iff y x).0 e)
  | inr e ↦ inr (λ apart. inside (==-false y x e, apart))
]

pub Inside-head : (x : ℕ) (xs : List ℕ) → Inside x (x ∷ xs)
Inside-head x xs apart = apart.0 refl

pub Inside-tail : (x y : ℕ) (ys : List ℕ) → Inside x ys → Inside x (y ∷ ys)
Inside-tail x y ys inside apart = inside apart.1

-- What holds of all the elements holds of one that is in the list.
pub Inside-All {κ} : (P : ℕ → Type κ) (xs : List ℕ) → All P xs → (x : ℕ) → Inside x xs → P x
Inside-All P [] h x inside = absurd (inside tt)
Inside-All P (y ∷ ys) h x inside = elim (Inside-cons x y ys inside) [
  | inl e ↦ rw e at h.0
  | inr further ↦ Inside-All P ys h.1 x further
]

pub All-Inside {κ} : (P : ℕ → Type κ) (xs : List ℕ) → ((x : ℕ) → Inside x xs → P x) → All P xs
All-Inside P [] h = tt
All-Inside P (y ∷ ys) h =
    (h y (Inside-head y ys), All-Inside P ys (λ x inside. h x (Inside-tail x y ys inside)))

pub Inside-Apart : (x : ℕ) (xs : List ℕ) → Inside x xs ⊎ Apart x xs
Inside-Apart x [] = inr tt
Inside-Apart x (y ∷ ys) = elim (Bool-cases (y == x)) [
  | inl e ↦ inl (λ apart. apart.0 ((==_iff y x).0 e))
  | inr e ↦ elim (Inside-Apart x ys) [
    | inl inside ↦ inl (Inside-tail x y ys inside)
    | inr apart ↦ inr (==-false y x e, apart)
  ]
]

-- Each element stands once in the list.
abbrev pub Distinct : List ℕ → Type 0
Distinct = Pairwise (λ x y. x ≢ y)

flip : (x : ℕ) (ys : List ℕ) → All (λ y. x ≢ y) ys → Apart x ys
flip x ys = All-map ys (λ y ne e. ne (sym e))

pub Distinct-head : (x : ℕ) (xs : List ℕ) → Distinct (x ∷ xs) → Apart x xs
Distinct-head x xs d = flip x xs d.0

pub Distinct-cons : (x : ℕ) (xs : List ℕ) → Apart x xs → Distinct xs → Distinct (x ∷ xs)
Distinct-cons x xs apart d = (All-map xs (λ y ne e. ne (sym e)) apart, d)

Permᴰ-Distinct : {xs ys : List ℕ} → Permᴰ xs ys → Distinct xs → Distinct ys
Permᴰ-Distinct Permᴰ.nil d = tt
Permᴰ-Distinct (Permᴰ.cons {b} {l₁} {l₂} e p) d =
    (All-perm (λ z. b ≢ z) (λ z. hlevel) l₁ l₂ ∣ p ∣₁ (rw e at d.0), Permᴰ-Distinct p d.1)
Permᴰ-Distinct (Permᴰ.swap {l} e e') d = (
  ((λ q. d.0.0 (e ∙ sym q ∙ sym e')), subst (λ z. All (λ y. z ≢ y) l) e' d.1.0),
  (subst (λ z. All (λ y. z ≢ y) l) e d.0.1, d.1.1),
)
Permᴰ-Distinct (Permᴰ.trans p q) d = Permᴰ-Distinct q (Permᴰ-Distinct p d)

Distinct-prop : (xs : List ℕ) → IsProp (Distinct xs)
Distinct-prop [] = Unit-prop
Distinct-prop (x ∷ xs) = ×_prop (All-prop (λ y. x ≢ y) (λ y. hlevel) xs) (Distinct-prop xs)

pub Distinct-perm : (xs ys : List ℕ) → Perm xs ys → Distinct xs → Distinct ys
Distinct-perm xs ys p d = ∥∥₁_elim p (Distinct-prop ys) (λ q. Permᴰ-Distinct q d)
