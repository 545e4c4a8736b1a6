-- ===== src/Heap/Upsert.antt =====
-- `heap_upsert` and `heap_delete`, on a heap whose owners know their indices.
use mini_redis.Base.{
  ℕ, ◌+◌, ◌^◌, ◌≤◌, ◌<◌, ◌≡◌, ap, List, [], ◌∷◌, ◌++◌, arith, length, length-set, length-append,
  set, ltb, false, lt→ltb,
}
use mini_redis.Heap.{HeapItem, Refs, store, heap_upsert}
use mini_redis.Heap.Items.{item, item-set, item-append, item-last}
use mini_redis.Heap.Order.{parent, IsValid}
use mini_redis.Heap.Hole.{OwnsNone, Settles}
use mini_redis.Heap.Update.{IsLoose, heap_update-Settles}

-- An existing timer takes the new value `t` of the same owner.
set-IsLoose :
    (a : List HeapItem) (refs : Refs) (p : ℕ) (t : HeapItem)
    → IsValid a refs
    → p < length a
    → t.ref ≡ (item a p).ref
    → IsLoose (set a p t) refs p
set-IsLoose a refs p t v hp owner =
    let at = λ (i : ℕ). item-set a p i t hp in
    record {
      owned = record {
        inside = rw length-set hp;
        small = rw length-set v.small;
        sync = λ i hi ne.
            let here : i < length a = rw length-set at hi in ground (arith, at i, v.sync i here);
        apart = λ i hi ne e.
            let here : i < length a = rw length-set at hi in
            ground (
              arith,
              at i,
              at p,
              v.sync i here,
              v.sync p hp,
              ap refs {x = (item a i).ref} {y = (item a p).ref},
            );
      };
      edges = λ c q r s u.
          let here : c < length a = rw length-set at r in
          ground (arith, at c, at (parent c), v.order c q here);
      bridged = λ c q r s u.
          let here : c < length a = rw length-set at r in
          ground (arith, at c, at (parent p), v.order c q here, v.order p u hp);
    }

-- An upsert at the index of an existing timer replaces its value and restores the heap: the result
-- is a heap of the items with the new one in the place of the old, every owner of an item knows its
-- index, and no other index field is written.
pub heap_upsert-existing :
    (a : List HeapItem) (refs : Refs) (p : ℕ) (t : HeapItem)
    → IsValid a refs
    → p < length a
    → t.ref ≡ (item a p).ref
    → Settles (set a p t) refs (heap_upsert a refs p t)
unfolding heap_upsert store
heap_upsert-existing a refs p t v hp owner =
    rw (lt→ltb p (length a) hp)
      (heap_update-Settles (set a p t) refs p (set-IsLoose a refs p t v hp owner))

append-IsLoose :
    (a : List HeapItem) (refs : Refs) (t : HeapItem)
    → IsValid a refs
    → length a + 1 < 2 ^ 59
    → OwnsNone a t.ref
    → IsLoose (a ++ t ∷ []) refs (length a)
append-IsLoose a refs t v room fresh =
    let size = length-append a (t ∷ []) in
    let last = item-last a t in
    let at = item-append a (t ∷ []) in
    record {
      owned = record {
        inside = omega arith;
        small = omega arith;
        sync = λ i hi ne.
            let here : i < length a = omega arith in ground (arith, at i here, v.sync i here);
        apart = λ i hi ne.
            let here : i < length a = omega arith in ground (arith, at i here, last, fresh i here);
      };
      edges = λ c q r s u.
          let here : c < length a = omega arith in
          ground (arith, at c here, at (parent c), v.order c q here);
      bridged = λ c q r s u. absurd (omega arith);
    }

-- An upsert for an owner with no timer, at an index out of range, adds its item: the result is a
-- heap of the old items and the new one, every owner of an item knows its index, and no other index
-- field is written.
pub heap_upsert-new :
    (a : List HeapItem) (refs : Refs) (p : ℕ) (t : HeapItem)
    → IsValid a refs
    → length a ≤ p
    → length a + 1 < 2 ^ 59
    → OwnsNone a t.ref
    → Settles (a ++ t ∷ []) refs (heap_upsert a refs p t)
unfolding heap_upsert
heap_upsert-new a refs p t v out room fresh =
    let test : ltb p (length a) ≡ false = ground arith in
    rw test
      (heap_update-Settles (a ++ t ∷ []) refs (length a) (append-IsLoose a refs t v room fresh))
