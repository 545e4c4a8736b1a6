-- ===== src/Heap/Hole.antt =====
-- What both loops keep: an array with a hole at `p`, and the item `t` that is to fill it.
use mathlib.Core.List.{Perm}
use mathlib.Core.List.Perm
use mathlib.Core.Path.{subst₂}
use mini_redis.Base.{
  ℕ, ◌^◌, ◌≤◌, ◌<◌, ◌≡◌, ◌≢◌, sym, ap, List, some, arith, length, length-set, set, ◌==◌,
  if◌then◌else◌,
}
use mini_redis.Heap.{HeapItem, Refs, Result, write_ref, place}
use mini_redis.Heap.Items.{item, place-set, item-set, moved-perm}
use mini_redis.Heap.Order.{parent, IsHeap, InSync}

-- The item at `i` once the hole is filled.
abbrev pub filled : List HeapItem → ℕ → HeapItem → ℕ → HeapItem
filled a p t i = if p == i then t else item a i

-- The owners of the other items know their indices, and are not the owner of `t`.
pub record Owned (a : List HeapItem) (refs : Refs) (p : ℕ) (t : HeapItem) : Type 0 where
  pub inside : p < length a
  pub small : length a < 2 ^ 59
  pub sync : (i : ℕ) → i < length a → p ≢ i → refs (item a i).ref ≡ i
  pub apart : (i : ℕ) → i < length a → p ≢ i → (item a i).ref ≢ t.ref

-- The owner `x` has no item in the array.
abbrev pub OwnsNone : List HeapItem → ℕ → Type 0
OwnsNone a x = (i : ℕ) → i < length a → (item a i).ref ≢ x

-- A call that ends with a heap of the items `b`, in which every owner knows its index, and that
-- wrote to the owners of these items alone.
pub record Settles (b : List HeapItem) (refs : Refs) (result : Result) : Type 0 where
  pub items : List HeapItem
  pub owners : Refs
  pub run : result ≡ some (items, owners)
  pub order : IsHeap items
  pub sync : InSync items owners
  pub same : Perm items b
  pub others : (x : ℕ) → OwnsNone b x → owners x ≡ refs x

module _ (a : List HeapItem) (refs : Refs) (p : ℕ) (t : HeapItem) (o : Owned a refs p t) where
  -- The hole is filled.
  pub place-Settles :
      ((c : ℕ) → 0 < c → c < length a → (filled a p t (parent c)).val ≤ (filled a p t c).val)
      → Settles (set a p t) refs (place a refs p t)
  place-Settles edges = record {
    items = set a p t;
    owners = write_ref refs t.ref p;
    run = place-set a refs p t o.inside;
    order = λ c pos hc.
        let here : c < length a = rw length-set at hc in
        subst₂ (λ (u w : HeapItem). u.val ≤ w.val) (sym (item-set a p (parent c) t o.inside))
          (sym (item-set a p c t o.inside)) (edges c pos here);
    sync = λ i hi.
        let here : i < length a = rw length-set at hi in
        ground (arith, item-set a p i t o.inside, o.sync i here, o.apart i here);
    same = Perm.refl _;
    others = λ x none. ground (arith, none p (rw length-set o.inside), item-set a p p t o.inside);
  }

module _ (a : List HeapItem) (refs : Refs) (p q : ℕ) (t : HeapItem) (o : Owned a refs p t) where
  -- The item at `q` moves into the hole.
  abbrev pub moved : List HeapItem
  moved = set a p (item a q)

  module _ (hq : q < length a) (apart : p ≢ q) where
    pub moved-Owned : Owned moved (write_ref refs (item a q).ref p) q t
    moved-Owned = record {
      inside = rw length-set hq;
      small = rw length-set o.small;
      sync = λ i hi ne.
          let here : i < length a = rw length-set at hi in
          ground (
            arith,
            item-set a p i (item a q) o.inside,
            o.sync i here,
            o.sync q hq apart,
            ap refs {x = (item a i).ref} {y = (item a q).ref},
          );
      apart = λ i hi ne.
          let here : i < length a = rw length-set at hi in
          ground (arith, item-set a p i (item a q) o.inside, o.apart i here, o.apart q hq apart);
    }

    at : (x : ℕ) → OwnsNone (set a p t) x → (i : ℕ) → i < length a → (filled a p t i).ref ≢ x
    at x none i hi = rw (item-set a p i t o.inside) at (none i (rw length-set hi))

    moved-OwnsNone : (x : ℕ) → OwnsNone (set a p t) x → OwnsNone (set moved q t) x
    moved-OwnsNone x none i hi =
        let here : i < length a = rw (length-set, length-set) at hi in
        ground (
          arith,
          item-set moved q i t (rw length-set hq),
          item-set a p i (item a q) o.inside,
          at x none i here,
          at x none p o.inside,
          at x none q hq,
        )

    pub moved-Settles :
        {result : Result}
        → Settles (set moved q t) (write_ref refs (item a q).ref p) result
        → Settles (set a p t) refs result
    moved-Settles s = record {
      items = s.items;
      owners = s.owners;
      run = s.run;
      order = s.order;
      sync = s.sync;
      same = Perm.trans s.same (moved-perm a p q t o.inside hq apart);
      others = λ x none.
          ground
            (arith, s.others x (moved-OwnsNone x none), at x none q hq, item-set a p q t o.inside);
    }
