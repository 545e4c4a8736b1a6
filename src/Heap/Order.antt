-- ===== src/Heap/Order.antt =====
-- The two invariants of the heap: its order, and the owners' indices.
use mini_redis.Base.{ℕ, zero, suc, ◌-◌, ◌/◌, ◌^◌, ◌≤◌, ◌<◌, ◌≡◌, List, arith, length}
use mini_redis.Heap.{HeapItem, Refs}
use mini_redis.Heap.Items.{item}

abbrev pub parent : ℕ → ℕ
parent c = (c - 1) / 2

abbrev pub key : List HeapItem → ℕ → ℕ
key a i = (item a i).val

-- No item is below its parent.
abbrev pub IsHeap : List HeapItem → Type 0
IsHeap a = (c : ℕ) → 0 < c → c < length a → key a (parent c) ≤ key a c

-- The index field of each item's owner holds the item's index.
abbrev pub InSync : List HeapItem → Refs → Type 0
InSync a refs = (i : ℕ) → i < length a → refs (item a i).ref ≡ i

-- 2 ^ 59 items of 16 bytes are more than a vector can hold.
pub record IsValid (a : List HeapItem) (refs : Refs) : Type 0 where
  pub order : IsHeap a
  pub sync : InSync a refs
  pub small : length a < 2 ^ 59

root_below :
    (k : ℕ) (a : List HeapItem) (i : ℕ) → IsHeap a → i < k → i < length a → key a 0 ≤ key a i
root_below zero a i h f p = absurd (omega arith)
root_below (suc k) a i h f p = ground (arith, h i, root_below k a (parent i) h)

-- The root of a heap is the nearest deadline.
pub root_least : (a : List HeapItem) (i : ℕ) → IsHeap a → i < length a → key a 0 ≤ key a i
root_least a i h p = root_below (suc i) a i h (omega arith) p
