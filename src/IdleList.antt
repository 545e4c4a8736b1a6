-- ===== src/IdleList.antt =====
-- The intrusive circular list of include/ds/dlist.h, in which the server keeps its idle
-- connections.
-- A node is known by its address, and the links of all nodes are the store. A null pointer is
-- `none`; one that is followed is a fault, the `none` of the result.
pub mod Ring
pub mod Edits
mod Tests
use mini_redis.Base.{◌>>=◌, ℕ, Bool, Option, none, some, ◌==◌, false, if◌then◌else◌}

pub record DList : Type 0 where
  pub prev : Option ℕ
  pub next : Option ℕ

abbrev pub Store : Type 0
Store = ℕ → DList

-- `a->next = v` and `a->prev = v`
abbrev pub set_next : Store → ℕ → ℕ → Store
set_next st a v x = if x == a then record (st x) { next = some v } else st x

abbrev pub set_prev : Store → ℕ → ℕ → Store
set_prev st a v x = if x == a then record (st x) { prev = some v } else st x

unfoldable pub dlist_init : Store → ℕ → Store
dlist_init st node = set_prev (set_next st node node) node node

unfoldable pub dlist_empty : Store → ℕ → Bool
dlist_empty st node = elim (st node).next [ none ↦ false | some next ↦ next == node ]

unfoldable pub dlist_detach : Store → ℕ → Option Store
dlist_detach st node = (st node).prev >>= λ prev.
    (st node).next >>= λ next. some (dlist_init (set_prev (set_next st prev next) next prev) node)

unfoldable pub dlist_insert_before : Store → ℕ → ℕ → Option Store
dlist_insert_before st target rookie = (st target).prev >>= λ prev.
    let st₁ = set_next st prev rookie in
    let st₂ = set_prev st₁ rookie prev in
    let st₃ = set_next st₂ rookie target in some (set_prev st₃ target rookie)
