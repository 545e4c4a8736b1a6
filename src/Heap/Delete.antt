-- ===== src/Heap/Delete.antt =====
-- `heap_delete`: the last item fills the place of the deleted one.
use mathlib.Core.List.{Perm}
use mathlib.Core.List.Perm
use mini_redis.Base.{
  ℕ, suc, ◌-◌, ◌<◌, ◌≡◌, refl, ap, ◌∙◌, List, [], ◌∷◌, ◌++◌, some, arith, length, length-set,
  length-take, set, take, ltb, ◌==◌, if◌then◌else◌, Bool-cases, inl, inr, ltb→lt, lt→ltb, ltb-false,
}
use mini_redis.Heap.{HeapItem, Refs, store, heap_delete}
use mini_redis.Heap.Items.{
  item, load-item, item-set, item-take, set-perm, take-append-item, concat-perm,
}
use mini_redis.Heap.Order.{parent, IsValid}
use mini_redis.Heap.Hole.{Settles}
use mini_redis.Heap.Update.{IsLoose, heap_update-Settles}

module _ (a : List HeapItem) (refs : Refs) (p n : ℕ) (v : IsValid a refs) (hp : p < length a)
    (size : length a ≡ suc n) where
  -- The array after the write and `pop_back`.
  abbrev left : List HeapItem
  left = take n (set a p (item a n))

  left-length : length left ≡ n
  left-length = omega (arith, length-take n (set a p (item a n)), length-set a p (item a n))

  left-item : (i : ℕ) → i < n → item left i ≡ (if p == i then item a n else item a i)
  left-item i hi = item-take n (set a p (item a n)) i hi ∙ item-set a p i (item a n) hp

  left-perm : Perm (item a p ∷ left) a
  left-perm =
      let b = set a p (item a n) in
      let end : item b n ≡ item a n = ground (arith, item-set a p n (item a n) hp) in
      let whole : left ++ item a n ∷ [] ≡ b =
        rw end at (take-append-item n b (length-set a p (item a n) ∙ size)) in
      Perm.cons_inv (
        Perm.trans (Perm.swap _ _ _) (
          Perm.trans (Perm.cons (item a p) (rw whole at (Perm.symm (concat-perm left (item a n)))))
            (set-perm a p (item a n) hp)))

  left-IsLoose : p < n → IsLoose left refs p
  left-IsLoose inner = record {
    owned = record {
      inside = rw left-length inner;
      small = omega (arith, left-length, v.small);
      sync = λ i hi ne.
          let here : i < n = rw left-length at hi in
          ground (arith, left-item i here, v.sync i (omega arith));
      apart = λ i hi ne e.
          let here : i < n = rw left-length at hi in
          ground (
            arith,
            left-item i here,
            left-item p inner,
            v.sync i (omega arith),
            v.sync n (omega arith),
            ap refs {x = (item a i).ref} {y = (item a n).ref},
          );
    };
    edges = λ c q r s u.
        let here : c < n = rw left-length at r in
        ground (arith, left-item c here, left-item (parent c), v.order c q (omega arith));
    bridged = λ c q r s u.
        let here : c < n = rw left-length at r in
        ground (
          arith,
          left-item c here,
          left-item (parent p),
          v.order c q (omega arith),
          v.order p u hp,
        );
  }

  -- The deleted item was the last.
  left-Settles : p ≡ n → Settles left refs (some (left, refs))
  left-Settles last = record {
    items = left;
    owners = refs;
    run = refl;
    order = λ c q r.
        let here : c < n = rw left-length at r in
        ground (arith, left-item c here, left-item (parent c), v.order c q (omega arith));
    sync = λ i hi.
        let here : i < n = rw left-length at hi in
        ground (arith, left-item i here, v.sync i (omega arith));
    same = Perm.refl left;
    others = λ x none. refl;
  }

  delete-Settles : Settles left refs (heap_delete a refs p)
  unfolding heap_delete store
  delete-Settles =
      let end : length a - 1 ≡ n = omega arith in
      rw (end, load-item a n (omega arith), lt→ltb p (length a) hp, left-length)
        (elim (Bool-cases (ltb p n)) [
          | inl e ↦
              rw e
                (rw left-length at (heap_update-Settles left refs p (left-IsLoose (ltb→lt p n e))))
          | inr e ↦ rw e (left-Settles (omega (arith, ltb-false p n e)))
        ])

-- A deletion takes exactly the item at the index out: the result is a heap of the others, every
-- owner of one of them knows its index, and no other index field is written.
pub heap_delete-removes :
    (a : List HeapItem) (refs : Refs) (p : ℕ)
    → IsValid a refs
    → p < length a
    → (b : List HeapItem) × Perm (item a p ∷ b) a × Settles b refs (heap_delete a refs p)
heap_delete-removes a refs p v hp =
    let size : length a ≡ suc (length a - 1) = omega arith in
    (
      left a refs p (length a - 1) v hp size,
      left-perm a refs p (length a - 1) v hp size,
      delete-Settles a refs p (length a - 1) v hp size,
    )
