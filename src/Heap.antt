-- ===== src/Heap.antt =====
-- The timer heap of include/ds/heap.h and src/ds/heap.cpp.
-- An item points back to its owner's index field: `ref` is the address of that field, and the
-- fields of all owners are the function `Refs`. An index out of range is a fault, `none`. Numbers
-- of type size_t keep their wrap-around. The loops run on fuel: the position falls on the way up,
-- and rises below the length on the way down.
pub mod Items
pub mod Order
pub mod Hole
pub mod Up
pub mod Down
pub mod Update
pub mod Upsert
pub mod Delete
mod Tests
use mini_redis.Base.{
  ◌>>=◌, ℕ, zero, suc, ◌+◌, ◌-◌, ◌*◌, ◌/◌, ◌%◌, ◌^◌, Bool, true, false, List, [], ◌∷◌, ◌++◌, Option,
  none, some, length, get_elem?, set, take, ltb, ◌==◌, if◌then◌else◌,
}

pub record HeapItem : Type 0 where
  pub val : ℕ
  pub ref : ℕ

-- The value of each owner's index field.
abbrev pub Refs : Type 0
Refs = ℕ → ℕ

-- `*ref = pos`
abbrev pub write_ref : Refs → ℕ → ℕ → Refs
write_ref refs ref p x = if x == ref then p else refs x

abbrev pub Result : Type 0
Result = Option (List HeapItem × Refs)

pub load : List HeapItem → ℕ → Option HeapItem
load a i = get_elem? a i

pub store : List HeapItem → ℕ → HeapItem → Option (List HeapItem)
store a i t = if ltb i (length a) then some (set a i t) else none

pub heap_parent : ℕ → ℕ
heap_parent i = ((i + 1) % 2 ^ 64 / 2 + 2 ^ 64 - 1) % 2 ^ 64

pub heap_left : ℕ → ℕ
heap_left i = (i * 2 + 1) % 2 ^ 64

pub heap_right : ℕ → ℕ
heap_right i = (i * 2 + 2) % 2 ^ 64

-- `a[pos] = t; *a[pos].ref = pos`
pub place : List HeapItem → Refs → ℕ → HeapItem → Result
place a refs p t = store a p t >>= λ a'. some (a', write_ref refs t.ref p)

-- The loops carry the hole at `p` and the item `t` that is to fill it.
pub up_loop : ℕ → List HeapItem → Refs → ℕ → HeapItem → Result
up_loop zero a refs p t = none
up_loop (suc fuel) a refs p t =
    let rise = λ (above : HeapItem).
      place a refs p above >>= λ (a', refs'). up_loop fuel a' refs' (heap_parent p) t in
    let test = load a (heap_parent p) >>= λ above.
    if ltb t.val above.val then rise above else place a refs p t in
    if ltb 0 p then test else place a refs p t

pub heap_up : List HeapItem → Refs → ℕ → Result
heap_up a refs p = load a p >>= λ t. up_loop (p + 1) a refs p t

-- `i < len && a[i].val < bound`
pub is_less : List HeapItem → ℕ → ℕ → ℕ → Option Bool
is_less a len i bound =
    if ltb i len then (load a i >>= λ item. some (ltb item.val bound)) else some false

-- `min_pos` at the end of one round: the right child counts if it is below the smaller of `t` and
-- the left child.
pub min_pos : List HeapItem → ℕ → ℕ → HeapItem → Option ℕ
min_pos a len p t =
    let l = heap_left p in
    let r = heap_right p in
    is_less a len l t.val >>= λ left.
    if left
    then (load a l >>= λ item. is_less a len r item.val >>= λ right. some (if right then r else l))
    else is_less a len r t.val >>= λ right. some (if right then r else p)

pub down_loop : ℕ → List HeapItem → Refs → ℕ → HeapItem → ℕ → Result
down_loop zero a refs p t len = none
down_loop (suc fuel) a refs p t len = min_pos a len p t >>= λ m.
    let sink = load a m >>= λ below.
    place a refs p below >>= λ (a', refs'). down_loop fuel a' refs' m t len in
    if m == p then place a refs p t else sink

pub heap_down : List HeapItem → Refs → ℕ → ℕ → Result
heap_down a refs p len = load a p >>= λ t. down_loop (len + 1) a refs p t len

-- `pos > 0 && a[heap_parent(pos)].val > a[pos].val`
pub goes_up : List HeapItem → ℕ → Option Bool
goes_up a p =
    if ltb 0 p
    then (load a (heap_parent p) >>= λ above. load a p >>= λ t. some (ltb t.val above.val))
    else some false

pub heap_update : List HeapItem → Refs → ℕ → ℕ → Result
heap_update a refs p len =
    goes_up a p >>= λ up. if up then heap_up a refs p else heap_down a refs p len

unfoldable pub heap_upsert : List HeapItem → Refs → ℕ → HeapItem → Result
heap_upsert a refs p t =
    if ltb p (length a)
    then (store a p t >>= λ a'. heap_update a' refs p (length a'))
    else (let a' = a ++ t ∷ [] in heap_update a' refs (length a) (length a'))

-- `pop_back`, which an empty vector does not allow; `a.back()` is the item at its end.
unfoldable pub heap_delete : List HeapItem → Refs → ℕ → Result
heap_delete a refs p = load a (length a - 1) >>= λ back. store a p back >>= λ a'.
    let a'' = take (length a - 1) a' in
    if ltb p (length a'') then heap_update a'' refs p (length a'') else some (a'', refs)
