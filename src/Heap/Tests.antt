-- ===== src/Heap/Tests.antt =====
-- Runs of the heap operations and the instances of their theorems.
use mathlib.Core.List.{Perm}
use mini_redis.Base.{ℕ, zero, suc, ◌-◌, ◌≡◌, refl, List, [], ◌∷◌, ◌++◌, some, set, arith}
use mini_redis.Heap.{
  HeapItem, Refs, load, store, place, heap_parent, heap_left, heap_right, is_less, min_pos, up_loop,
  heap_up, down_loop, heap_down, goes_up, heap_update, heap_upsert, heap_delete, write_ref,
}
use mini_redis.Heap.Items.{item}
use mini_redis.Heap.Order.{IsHeap, InSync, IsValid}
use mini_redis.Heap.Hole.{OwnsNone, Settles}
use mini_redis.Heap.Upsert.{heap_upsert-existing, heap_upsert-new}
use mini_redis.Heap.Delete.{heap_delete-removes}

abbrev timer : ℕ → ℕ → HeapItem
timer val ref = record { val = val; ref = ref }

abbrev timers : List HeapItem
timers = timer 5 100 ∷ timer 7 101 ∷ timer 9 102 ∷ []

abbrev owners : Refs
owners x = x - 100

program : Unit {0}
unfolding load store place heap_parent heap_left heap_right is_less min_pos up_loop heap_up
    down_loop heap_down goes_up heap_update heap_upsert heap_delete
program = tt

-- An earlier deadline rises to the root, and the item that it displaces learns its new index.
heap_upsert-rises :
    heap_upsert timers owners 2 (timer 1 102)
    ≡ some (timer 1 102 ∷ timer 7 101 ∷ timer 5 100 ∷ [], write_ref (write_ref owners 100 2) 102 0)
unfolding program
heap_upsert-rises = refl

heap_delete-root :
    heap_delete timers owners 0
    ≡ some (timer 7 101 ∷ timer 9 102 ∷ [], write_ref (write_ref owners 101 0) 102 1)
unfolding program
heap_delete-root = refl

timers-IsHeap : IsHeap timers
timers-IsHeap zero q r = absurd (omega arith)
timers-IsHeap (suc zero) q r = omega arith
timers-IsHeap (suc (suc zero)) q r = omega arith
timers-IsHeap (suc (suc (suc c))) q r = absurd (omega arith)

timers-InSync : InSync timers owners
timers-InSync zero h = refl
timers-InSync (suc zero) h = refl
timers-InSync (suc (suc zero)) h = refl
timers-InSync (suc (suc (suc i))) h = absurd (omega arith)

timers-IsValid : IsValid timers owners
timers-IsValid = record { order = timers-IsHeap; sync = timers-InSync; small = omega arith }

heap_upsert-existing_example :
    Settles (set timers 2 (timer 1 102)) owners (heap_upsert timers owners 2 (timer 1 102))
heap_upsert-existing_example =
    heap_upsert-existing timers owners 2 (timer 1 102) timers-IsValid (omega arith) refl

timers-OwnsNone : OwnsNone timers 107
timers-OwnsNone zero h = omega arith
timers-OwnsNone (suc zero) h = omega arith
timers-OwnsNone (suc (suc zero)) h = omega arith
timers-OwnsNone (suc (suc (suc i))) h = absurd (omega arith)

heap_upsert-new_example :
    Settles (timers ++ timer 6 107 ∷ []) owners (heap_upsert timers owners 99 (timer 6 107))
heap_upsert-new_example =
    heap_upsert-new timers owners 99 (timer 6 107) timers-IsValid (omega arith) (omega arith)
      timers-OwnsNone

heap_delete-removes_example :
    (b : List HeapItem) × Perm (item timers 0 ∷ b) timers
    × Settles b owners (heap_delete timers owners 0)
heap_delete-removes_example = heap_delete-removes timers owners 0 timers-IsValid (omega arith)
