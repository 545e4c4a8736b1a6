-- ===== src/Heap/Update.antt =====
-- `heap_update`, `heap_upsert` and `heap_delete`: the heap stays a heap of the right items, and
-- every owner knows where its item is.
use mini_redis.Base.{
  ℕ, ◌+◌, ◌≤◌, ◌<◌, ◌≡◌, ◌≢◌, List, some, arith, length, ltb, if◌then◌else◌, false, Bool-cases, inl,
  inr, ltb→lt,
}
use mini_redis.Heap.{HeapItem, Refs, goes_up, heap_up, heap_down, heap_update}
use mini_redis.Heap.Items.{item, load-item, set_self, parent_fits}
use mini_redis.Heap.Order.{parent, key}
use mini_redis.Heap.Hole.{Owned, Settles}
use mini_redis.Heap.Up.{up_loop-Settles}
use mini_redis.Heap.Down.{down_loop-Settles}

-- The item at `p` was just written: it may be out of order in either direction.
pub record IsLoose (a : List HeapItem) (refs : Refs) (p : ℕ) : Type 0 where
  pub owned : Owned a refs p (item a p)
  pub edges : (c : ℕ) → 0 < c → c < length a → p ≢ c → parent c ≢ p → key a (parent c) ≤ key a c
  pub bridged : (c : ℕ) → 0 < c → c < length a → parent c ≡ p → 0 < p → key a (parent p) ≤ key a c

module _ (a : List HeapItem) (refs : Refs) (p : ℕ) (v : IsLoose a refs p) where
  heap_up-Settles : 0 < p → key a p < key a (parent p) → Settles a refs (heap_up a refs p)
  unfolding heap_up
  heap_up-Settles pos below = rw (load-item a p v.owned.inside) (
      rw set_self at (
        up_loop-Settles (p + 1) a refs p (item a p) (omega arith) v.owned (record {
          edges = λ c q r s. ground (arith, v.edges c q r, v.bridged c q r);
          bridged = v.bridged;
        })))

  heap_down-Settles :
      (0 < p → key a (parent p) ≤ key a p) → Settles a refs (heap_down a refs p (length a))
  unfolding heap_down
  heap_down-Settles above = rw (load-item a p v.owned.inside) (
      rw set_self at (
        down_loop-Settles (length a + 1) a refs p (item a p) (omega arith) v.owned (record {
          edges = λ c q r s. ground (arith, v.edges c q r, above);
          bridged = v.bridged;
        })))

  goes_up_lem : goes_up a p ≡ some (if ltb 0 p then ltb (key a p) (key a (parent p)) else false)
  unfolding goes_up
  goes_up_lem = elim (Bool-cases (ltb 0 p)) [
    | inl e ↦
        let pos = ltb→lt 0 p e in
        rw (
          e,
          parent_fits p pos (omega (arith, v.owned.inside, v.owned.small)),
          load-item a (parent p) (omega (arith, v.owned.inside)),
          load-item a p v.owned.inside,
        )
    | inr e ↦ rw e
  ]

  pub heap_update-Settles : Settles a refs (heap_update a refs p (length a))
  unfolding heap_update
  heap_update-Settles =
      rw goes_up_lem
        (elim (Bool-cases (if ltb 0 p then ltb (key a p) (key a (parent p)) else false)) [
          | inl e ↦ rw e (heap_up-Settles (ground arith) (ground arith))
          | inr e ↦ rw e (heap_down-Settles (λ pos. ground arith))
        ])
