-- ===== src/Keyspace/Timers.antt =====
-- The timers of the entries, and entry_set_ttl, which changes one of them.
use mathlib.Core.List.{Perm}
use mathlib.Core.List.Perm
use mathlib.Core.Path.{subst}
use mini_redis.Base.{
  ℕ, zero, suc, ◌+◌, ◌<◌, ◌≡◌, ◌≢◌, refl, sym, ap, ◌∙◌, false, List, [], ◌∷◌, ◌++◌, Option, arith,
  length, length-perm, map, All, ◌==◌, ==-false, Bool-cases, inl, inr,
}
use mini_redis.Heap.{HeapItem, Refs, write_ref}
use mini_redis.Heap.Items.{item}
use mini_redis.Heap.Order.{IsValid}
use mini_redis.Heap.Hole.{OwnsNone, Settles}
use mini_redis.SortedSet.Sorted.{Apart}
use mini_redis.Keyspace.{no_timer}
use mini_redis.Keyspace.Members.{
  Inside, Inside-perm, Inside-cons, Inside-tail, Inside-Apart, Apart-perm, Distinct, Distinct-perm,
  Distinct-head, Distinct-cons,
}

-- The entries that have a timer.
abbrev pub owners_of : List HeapItem → List ℕ
owners_of ttl = map (λ (t : HeapItem). t.ref) ttl

OwnsNone-Apart : (a : List HeapItem) (x : ℕ) → OwnsNone a x → Apart x (owners_of a)
OwnsNone-Apart [] x none = tt
OwnsNone-Apart (t ∷ a) x none =
    (none 0 (omega arith), OwnsNone-Apart a x (λ i h. none (suc i) (omega arith)))

pub Apart-OwnsNone : (a : List HeapItem) (x : ℕ) → Apart x (owners_of a) → OwnsNone a x
Apart-OwnsNone [] x apart i h = absurd (omega arith)
Apart-OwnsNone (t ∷ a) x apart zero h = apart.0
Apart-OwnsNone (t ∷ a) x apart (suc i) h = Apart-OwnsNone a x apart.1 i (omega arith)

-- The timer of an entry that has one.
pub owner_at :
    (a : List HeapItem) (x : ℕ)
    → Inside x (owners_of a)
    → (i : ℕ) × (i < length a) × ((item a i).ref ≡ x)
owner_at [] x inside = absurd (inside tt)
owner_at (t ∷ a) x inside = elim (Inside-cons x t.ref (owners_of a) inside) [
  | inl e ↦ (0, omega arith, e)
  | inr further ↦ let (i, within, e) = owner_at a x further in (suc i, omega arith, e)
]

from-Distinct :
    (k : ℕ) (a : List HeapItem) (refs : Refs)
    → ((i : ℕ) → i < length a → refs (item a i).ref ≡ k + i)
    → Distinct (owners_of a)
from-Distinct k [] refs sync = tt
from-Distinct k (t ∷ a) refs sync =
    Distinct-cons t.ref (owners_of a)
      (OwnsNone-Apart a t.ref (λ i h e.
        absurd (omega (arith, sync 0 (omega arith), sync (suc i) (omega arith), ap refs e))))
      (from-Distinct (suc k) a refs (λ i h. omega (arith, sync (suc i) (omega arith))))

-- No entry has two timers.
pub IsValid-Distinct : (a : List HeapItem) (refs : Refs) → IsValid a refs → Distinct (owners_of a)
IsValid-Distinct a refs v = from-Distinct 0 a refs (λ i h. v.sync i h ∙ omega arith)

-- The timers are a heap, belong to the entries `xs`, and an entry without one knows it.
pub record AreTimed (ttl : List HeapItem) (heap_idx : Refs) (xs : List ℕ) : Type 0 where
  pub heap : IsValid ttl heap_idx
  pub inside : (x : ℕ) → Inside x (owners_of ttl) → Inside x xs
  pub idle : (x : ℕ) → Inside x xs → Apart x (owners_of ttl) → heap_idx x ≡ no_timer

-- What an entry's index field says.
pub data Timer (ttl : List HeapItem) (heap_idx : Refs) (x : ℕ) : Type 0 where
  untimed : heap_idx x ≡ no_timer → Apart x (owners_of ttl) → Timer ttl heap_idx x
  timed :
      (heap_idx x == no_timer) ≡ false
      → heap_idx x < length ttl
      → (item ttl (heap_idx x)).ref ≡ x
      → Timer ttl heap_idx x

pub AreTimed-Timer :
    (ttl : List HeapItem) (heap_idx : Refs) (xs : List ℕ) (x : ℕ)
    → AreTimed ttl heap_idx xs
    → Inside x xs
    → Timer ttl heap_idx x
AreTimed-Timer ttl heap_idx xs x v inside = elim (Inside-Apart x (owners_of ttl)) [
  | inr apart ↦ untimed (v.idle x inside apart) apart
  | inl owns ↦
      let (i, within, e) = owner_at ttl x owns in
      let index : heap_idx x ≡ i = ap heap_idx (sym e) ∙ v.heap.sync i within in
      let small = v.heap.small in timed (ground arith) (rw index within) (rw index e)
]

-- What becomes of the timers when that of `x` is changed: those of the other entries are kept, and
-- `x` has the timers `news` for those in `before`.
pub record Retimes (x : ℕ) (news old new : List HeapItem) : Type 0 where
  pub others : List HeapItem
  pub before : List HeapItem
  pub mine : All (λ (t : HeapItem). t.ref ≡ x) before
  pub apart : Apart x (owners_of others)
  pub was : Perm old (before ++ others)
  pub is : Perm new (news ++ others)

module _ (ttl : List HeapItem) (heap_idx : Refs) (xs : List ℕ) (x : ℕ)
    (v : AreTimed ttl heap_idx xs) (within : heap_idx x < length ttl)
    (owns : (item ttl (heap_idx x)).ref ≡ x) where
  -- The timers are that of `x` and others.
  pub rest_Apart :
      (b : List HeapItem) → Perm (item ttl (heap_idx x) ∷ b) ttl → Apart x (owners_of b)
  rest_Apart b p =
      let all = Perm.map (λ (t : HeapItem). t.ref) p in
      let d =
        Distinct-perm (owners_of ttl) (owners_of (item ttl (heap_idx x) ∷ b)) (Perm.symm all)
          (IsValid-Distinct ttl heap_idx v.heap) in
      subst (λ y. Apart y (owners_of b)) owns
        (Distinct-head (item ttl (heap_idx x)).ref (owners_of b) d)

  -- The removal of a timer, and the write of -1 to the index field.
  pub unset-AreTimed :
      (b : List HeapItem) (r : Option (List HeapItem × Refs))
      → Perm (item ttl (heap_idx x) ∷ b) ttl
      → (s : Settles b heap_idx r) → AreTimed s.items (write_ref s.owners x no_timer) xs
  unset-AreTimed b r p s =
      let apart = rest_Apart b p in
      let same = Perm.map (λ (t : HeapItem). t.ref) s.same in
      let all = Perm.map (λ (t : HeapItem). t.ref) p in
      let apart_items = Apart-perm x (Perm.symm same) apart in
      record {
        heap = record {
          order = s.order;
          sync = λ i h.
              let e = ==-false_of (Apart-OwnsNone s.items x apart_items i h) in rw e (s.sync i h);
          small = omega (arith, length-perm p, length-perm s.same, v.heap.small);
        };
        inside = λ y h. v.inside y (
            Inside-perm y all
              (Inside-tail y (item ttl (heap_idx x)).ref (owners_of b) (Inside-perm y same h)));
        idle = λ y h none. elim (Bool-cases (y == x)) [
          | inl e ↦ rw e refl
          | inr e ↦
              let none_b = Apart-perm y same none in
              let old : Apart y (owners_of ttl) =
                Apart-perm y all ((λ q. ==-false y x e (sym q ∙ owns)), none_b) in
              rw e (s.others y (Apart-OwnsNone b y none_b) ∙ v.idle y h old)
        ];
      }
    where
      ==-false_of : {a c : ℕ} → a ≢ c → (a == c) ≡ false
      ==-false_of ne = ground arith
