-- ===== src/Heap/Items.antt =====
-- Reading and writing the array of timers by index.
use mathlib.Core.List.{Perm, perm_middle, append-nil}
use mathlib.Core.List.Perm
use mini_redis.Base.{
  ℕ, zero, suc, ◌+◌, ◌-◌, ◌*◌, ◌/◌, ◌^◌, ◌≤◌, ◌<◌, ◌≡◌, ◌≢◌, refl, ap, List, [], ◌∷◌, ◌++◌, some,
  arith, length, length-set, get_or, set, take, ◌==◌, if◌then◌else◌,
}
use mini_redis.Heap.{
  HeapItem, load, store, place, write_ref, Refs, heap_parent, heap_left, heap_right,
}

abbrev pub no_item : HeapItem
no_item = record { val = 0; ref = 0 }

-- The item at an index within the array.
abbrev pub item : List HeapItem → ℕ → HeapItem
item a i = get_or a i no_item

pub load-item : (a : List HeapItem) (i : ℕ) → i < length a → load a i ≡ some (item a i)
unfolding load
load-item [] i h = absurd (omega arith)
load-item (x ∷ a) zero h = refl
load-item (x ∷ a) (suc i) h = load-item a i (omega arith)

pub place-set :
    (a : List HeapItem) (refs : Refs) (p : ℕ) (t : HeapItem)
    → p < length a
    → place a refs p t ≡ some (set a p t, write_ref refs t.ref p)
unfolding place store
place-set a refs p t h = ground arith

pub item-set :
    (a : List HeapItem) (p i : ℕ) (t : HeapItem)
    → p < length a
    → item (set a p t) i ≡ (if p == i then t else item a i)
item-set [] p i t h = absurd (omega arith)
item-set (x ∷ a) zero zero t h = refl
item-set (x ∷ a) (suc p) (suc i) t h = ground (arith, item-set a p i t)
item-set (x ∷ a) zero (suc i) t h = ground arith
item-set (x ∷ a) (suc p) zero t h = ground arith

pub item-append : (a b : List HeapItem) (i : ℕ) → i < length a → item (a ++ b) i ≡ item a i
item-append [] b i h = absurd (omega arith)
item-append (x ∷ a) b zero h = refl
item-append (x ∷ a) b (suc i) h = item-append a b i (omega arith)

pub item-last : (a : List HeapItem) (t : HeapItem) → item (a ++ t ∷ []) (length a) ≡ t
item-last [] t = refl
item-last (x ∷ a) t = item-last a t

pub item-take : (n : ℕ) (a : List HeapItem) (i : ℕ) → i < n → item (take n a) i ≡ item a i
item-take zero a i h = absurd (omega arith)
item-take (suc n) [] i h = refl
item-take (suc n) (x ∷ a) zero h = refl
item-take (suc n) (x ∷ a) (suc i) h = item-take n a i (omega arith)

-- A write trades the old item for the new one.
pub set-perm :
    (a : List HeapItem) (p : ℕ) (t : HeapItem) → p < length a → Perm (item a p ∷ set a p t) (t ∷ a)
set-perm [] p t h = absurd (omega arith)
set-perm (x ∷ a) zero t h = Perm.swap t x a
set-perm (x ∷ a) (suc p) t h =
    Perm.trans (Perm.swap x (item a p) (set a p t))
      (Perm.trans (Perm.cons x (set-perm a p t (omega arith))) (Perm.swap t x a))

-- Moving an item into the hole moves the hole: the array with its hole filled keeps its items.
pub moved-perm :
    (a : List HeapItem) (p q : ℕ) (t : HeapItem)
    → p < length a
    → q < length a
    → p ≢ q
    → Perm (set (set a p (item a q)) q t) (set a p t)
moved-perm a p q t hp hq apart =
    let b = set a p (item a q) in
    let same : item b q ≡ item a q = ground (arith, item-set a p q (item a q) hp) in
    let one = rw same at (set-perm b q t (rw length-set hq)) in
    let two = set-perm a p (item a q) hp in
    let three = set-perm a p t hp in
    Perm.cons_inv (
      Perm.cons_inv (
        Perm.trans (Perm.swap _ _ _) (
          Perm.trans (Perm.cons (item a p) one) (
            Perm.trans (Perm.swap _ _ _) (
              Perm.trans (Perm.cons t two) (
                Perm.trans (Perm.swap _ _ _)
                  (Perm.trans (Perm.cons (item a q) (Perm.symm three)) (Perm.refl _))))))))

-- The index arithmetic does not wrap.
pub parent_fits : (i : ℕ) → 0 < i → i < 2 ^ 59 → heap_parent i ≡ (i - 1) / 2
unfolding heap_parent
parent_fits i pos small = omega arith

pub left_fits : (i : ℕ) → i < 2 ^ 59 → heap_left i ≡ 2 * i + 1
unfolding heap_left
left_fits i small = omega arith

pub right_fits : (i : ℕ) → i < 2 ^ 59 → heap_right i ≡ 2 * i + 2
unfolding heap_right
right_fits i small = omega arith

pub set_self : (a : List HeapItem) (p : ℕ) → set a p (item a p) ≡ a
set_self [] p = refl
set_self (x ∷ a) zero = refl
set_self (x ∷ a) (suc p) = ap (◌∷◌ x) (set_self a p)

pub set_past : (a : List HeapItem) (p : ℕ) (t : HeapItem) → length a ≤ p → set a p t ≡ a
set_past [] p t h = refl
set_past (x ∷ a) zero t h = absurd (omega arith)
set_past (x ∷ a) (suc p) t h = ap (◌∷◌ x) (set_past a p t (omega arith))

-- All but the last item, and the last.
pub take-append-item :
    (n : ℕ) (a : List HeapItem) → length a ≡ suc n → take n a ++ item a n ∷ [] ≡ a
take-append-item zero (x ∷ []) h = refl
take-append-item (suc n) (x ∷ a) h = ap (◌∷◌ x) (take-append-item n a (omega arith))
take-append-item n a h = absurd (omega arith)

pub concat-perm : (a : List HeapItem) (t : HeapItem) → Perm (a ++ t ∷ []) (t ∷ a)
concat-perm a t = rw (append-nil a) at (perm_middle {a = t} a [])
