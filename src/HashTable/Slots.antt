-- ===== src/HashTable/Slots.antt =====
-- Chains in slots: the nodes of a table, and what a write to one slot does to them.
use Prim.Native.Nat.{bit_and}
use mathlib.Core.List.{Perm, perm_middle}
use mathlib.Core.List.Perm
use mathlib.Core.Path.{subst}
use mathlib.Core.Option.{some-injective}
use mini_redis.Base.{
  ℕ, zero, suc, ◌+◌, ◌<◌, ◌≡◌, refl, List, [], ◌∷◌, ◌++◌, some, arith, length, get_elem?, get_or,
  set, replicate, All,
}
use mini_redis.HashTable.{HNode, unlink}

module _ {ℓ} {A : Type ℓ} where
  -- The nodes of all the chains.
  abbrev pub nodes_of : List (List (HNode A)) → List (HNode A)
  nodes_of [] = []
  nodes_of (chain ∷ tab) = chain ++ nodes_of tab

  abbrev pub InSlot : ℕ → ℕ → List (HNode A) → Type 0
  InSlot mask i = All (λ (n : HNode A). bit_and n.hcode mask ≡ i)

  -- From slot `i` on, every node stands in the slot that its hash code selects.
  abbrev pub ArePlaced : ℕ → ℕ → List (List (HNode A)) → Type 0
  ArePlaced mask i [] = Unit
  ArePlaced mask i (chain ∷ tab) = InSlot mask i chain × ArePlaced mask (i + 1) tab

  pub get_elem?-within :
      (tab : List (List (HNode A))) (i : ℕ)
      → i < length tab
      → get_elem? tab i ≡ some (get_or tab i [])
  get_elem?-within [] i h = absurd (omega arith)
  get_elem?-within (c ∷ tab) zero h = refl
  get_elem?-within (c ∷ tab) (suc i) h = get_elem?-within tab i (omega arith)

  -- One node more in one chain is one node more in the table.
  pub more-perm :
      (x : HNode A) (tab : List (List (HNode A))) (i : ℕ) (d : List (HNode A))
      → i < length tab
      → Perm d (x ∷ get_or tab i [])
      → Perm (nodes_of (set tab i d)) (x ∷ nodes_of tab)
  more-perm x [] i d h p = absurd (omega arith)
  more-perm x (c ∷ tab) zero d h p = Perm.append p (Perm.refl (nodes_of tab))
  more-perm x (c ∷ tab) (suc i) d h p =
      Perm.trans (Perm.append (Perm.refl c) (more-perm x tab i d (omega arith) p))
        (perm_middle {a = x} c (nodes_of tab))

  -- One node less.
  pub less-perm :
      (x : HNode A) (tab : List (List (HNode A))) (i : ℕ) (d : List (HNode A))
      → i < length tab
      → Perm (x ∷ d) (get_or tab i [])
      → Perm (x ∷ nodes_of (set tab i d)) (nodes_of tab)
  less-perm x [] i d h p = absurd (omega arith)
  less-perm x (c ∷ tab) zero d h p = Perm.append p (Perm.refl (nodes_of tab))
  less-perm x (c ∷ tab) (suc i) d h p =
      Perm.trans (Perm.symm (perm_middle {a = x} c (nodes_of (set tab i d))))
        (Perm.append (Perm.refl c) (less-perm x tab i d (omega arith) p))

  pub unlink-perm :
      (chain : List (HNode A)) (i : ℕ) (x : HNode A)
      → get_elem? chain i ≡ some x
      → Perm (x ∷ unlink chain i) chain
  unfolding unlink
  unlink-perm [] i x e = cc
  unlink-perm (n ∷ chain) zero x e =
      subst (λ y. Perm (y ∷ chain) (n ∷ chain)) (some-injective n x e) (Perm.refl (n ∷ chain))
  unlink-perm (n ∷ chain) (suc i) x e =
      Perm.trans (Perm.swap _ _ _) (Perm.cons n (unlink-perm chain i x e))

  pub All-unlink {κ} :
      (P : HNode A → Type κ) (chain : List (HNode A)) (i : ℕ) → All P chain → All P (unlink chain i)
  unfolding unlink
  All-unlink P [] i h = h
  All-unlink P (n ∷ chain) zero h = h.1
  All-unlink P (n ∷ chain) (suc i) h = (h.0, All-unlink P chain i h.1)

  moved : (mask i j : ℕ) (d : List (HNode A)) → i ≡ j → InSlot mask i d → InSlot mask j d
  moved mask i j d e = subst (λ k. InSlot mask k d) e

  pub ArePlaced-set :
      (mask i : ℕ) (tab : List (List (HNode A))) (slot : ℕ) (d : List (HNode A))
      → ArePlaced mask i tab
      → InSlot mask (i + slot) d
      → ArePlaced mask i (set tab slot d)
  ArePlaced-set mask i [] slot d h k = tt
  ArePlaced-set mask i (c ∷ tab) zero d h k = (moved mask (i + 0) i d (omega arith) k, h.1)
  ArePlaced-set mask i (c ∷ tab) (suc slot) d h k = (
    h.0,
    ArePlaced-set mask (i + 1) tab slot d h.1
        (moved mask (i + suc slot) (i + 1 + slot) d (omega arith) k),
  )

  pub ArePlaced-get :
      (mask i : ℕ) (tab : List (List (HNode A))) (slot : ℕ)
      → ArePlaced mask i tab
      → InSlot mask (i + slot) (get_or tab slot [])
  ArePlaced-get mask i [] slot h = tt
  ArePlaced-get mask i (c ∷ tab) zero h = moved mask i (i + 0) c (omega arith) h.0
  ArePlaced-get mask i (c ∷ tab) (suc slot) h =
      moved mask (i + 1 + slot) (i + suc slot) (get_or tab slot []) (omega arith)
        (ArePlaced-get mask (i + 1) tab slot h.1)

  pub nodes_of-replicate : (n : ℕ) → nodes_of (replicate n []) ≡ []
  nodes_of-replicate zero = refl
  nodes_of-replicate (suc n) = nodes_of-replicate n

  -- A table whose slots are all empty has no node.
  pub nodes_of-drained :
      (tab : List (List (HNode A)))
      → ((i : ℕ) → i < length tab → get_or tab i [] ≡ [])
      → nodes_of tab ≡ []
  nodes_of-drained [] h = refl
  nodes_of-drained (c ∷ tab) h =
      rw (h 0 (omega arith)) (nodes_of-drained tab (λ i p. h (suc i) (omega arith)))

pub ArePlaced-replicate {ℓ} :
    (A : Type ℓ) (mask i n : ℕ) → ArePlaced {A = A} mask i (replicate n [])
ArePlaced-replicate A mask i zero = tt
ArePlaced-replicate A mask i (suc n) = (tt, ArePlaced-replicate A mask (i + 1) n)
