-- ===== src/HashTable.antt =====
-- The hash table with progressive rehashing of include/store/hashtable.h and
-- src/store/hashtable.cpp.
-- An intrusive node is its hash code and the owner around it, and a chain is a list of nodes. The
-- array of chain heads is a list of chains; the null array is []. The address of the pointer that
-- owns a node is the slot and the place in its chain. An index out of range, a null pointer that
-- is followed and an assertion that fails are the fault `none`.
pub mod Slots
pub mod Table
pub mod Rehash
pub mod Insert
pub mod Find
pub mod Delete
pub mod Visit
mod Tests
use Prim.Native.Nat.{bit_and}
use mini_redis.Base.{
  ◌>>=◌, ℕ, zero, suc, ◌+◌, ◌-◌, ◌*◌, ◌%◌, ◌^◌, Bool, true, false, ◌&&◌, List, [], ◌∷◌, ◌++◌,
  Option, none, some, length, get_elem?, set, replicate, is_empty, ltb, leb, ◌==◌, if◌then◌else◌,
}

pub record HNode {ℓ} (A : Type ℓ) : Type ℓ where
  pub hcode : ℕ
  pub owner : A

pub record HTab {ℓ} (A : Type ℓ) : Type ℓ where
  pub tab : List (List (HNode A))
  pub mask : ℕ
  pub size : ℕ

pub record HMap {ℓ} (A : Type ℓ) : Type ℓ where
  pub newer : HTab A
  pub older : HTab A
  pub migrate_pos : ℕ

abbrev pub k_rehashing_work : ℕ
k_rehashing_work = 128

abbrev pub k_max_load_factor : ℕ
k_max_load_factor = 8

-- Where a pointer to a node stands: the slot, and the number of nodes before it in the chain.
abbrev pub Link : Type 0
Link = ℕ × ℕ

module _ {ℓ} {A : Type ℓ} where
  -- `HTab{}` and `HMap{}`
  abbrev pub no_table : HTab A
  no_table = record { tab = []; mask = 0; size = 0 }

  abbrev pub no_map : HMap A
  no_map = record { newer = no_table; older = no_table; migrate_pos = 0 }

  -- The assertion is that `n` is a power of two.
  unfoldable pub h_init : ℕ → Option (HTab A)
  h_init n =
      if ltb 0 n && bit_and (n - 1) n == 0
      then some (record { tab = replicate n []; mask = n - 1; size = 0 })
      else none

  unfoldable pub h_insert : HTab A → HNode A → Option (HTab A)
  h_insert htab node =
      let slot = bit_and node.hcode htab.mask in
      get_elem? htab.tab slot >>= λ chain.
      some (record htab { tab = set htab.tab slot (node ∷ chain); size = (htab.size + 1) % 2 ^ 64 })

  -- The walk along one chain: the place of the first node that passes.
  unfoldable pub find_place : List (HNode A) → HNode A → (HNode A → HNode A → Bool) → Option ℕ
  find_place [] key eq = none
  find_place (cur ∷ chain) key eq =
      let further = find_place chain key eq >>= λ i. some (suc i) in
      if cur.hcode == key.hcode && eq cur key then some 0 else further

  -- `some none` is the null pointer, `none` a fault.
  unfoldable pub h_lookup : HTab A → HNode A → (HNode A → HNode A → Bool) → Option (Option Link)
  h_lookup htab key eq =
      let slot = bit_and key.hcode htab.mask in
      if is_empty htab.tab
      then some none
      else get_elem? htab.tab slot >>= λ chain.
          some (find_place chain key eq >>= λ i. some (slot, i))

  -- `*from`
  unfoldable pub deref : HTab A → Link → Option (HNode A)
  deref htab (slot, i) = get_elem? htab.tab slot >>= λ chain. get_elem? chain i

  unfoldable pub unlink : List (HNode A) → ℕ → List (HNode A)
  unlink [] i = []
  unlink (node ∷ chain) zero = chain
  unlink (node ∷ chain) (suc i) = node ∷ unlink chain i

  unfoldable pub h_detach : HTab A → Link → Option (HNode A × HTab A)
  h_detach htab (slot, i) = get_elem? htab.tab slot >>= λ chain. get_elem? chain i >>= λ node.
      some (
        node,
        record htab {
          tab = set htab.tab slot (unlink chain i);
          size = (htab.size + 2 ^ 64 - 1) % 2 ^ 64;
        },
      )

  -- The loop of `hm_help_rehashing`. A round moves a node or skips an empty slot.
  unfoldable pub help_loop : ℕ → ℕ → HMap A → Option (HMap A)
  help_loop zero nwork hmap = none
  help_loop (suc fuel) nwork hmap =
      let skipped = help_loop fuel nwork (record hmap { migrate_pos = hmap.migrate_pos + 1 }) in
      let moved = h_detach hmap.older (hmap.migrate_pos, 0) >>= λ (node, older).
      h_insert hmap.newer node >>= λ newer.
      help_loop fuel (nwork + 1) (record hmap { newer = newer; older = older }) in
      let round = get_elem? hmap.older.tab hmap.migrate_pos >>= λ chain.
      if is_empty chain then skipped else moved in
      if ltb nwork k_rehashing_work && ltb 0 hmap.older.size then round else some hmap

  -- Each node counts once against the limit, and each slot is skipped once.
  unfoldable pub hm_help_rehashing : HMap A → Option (HMap A)
  hm_help_rehashing hmap =
      help_loop (k_rehashing_work + length hmap.older.tab + 1) 0 hmap >>= λ hmap'.
      if hmap'.older.size == 0 && ltb 0 (length hmap'.older.tab)
      then some (record hmap' { older = no_table })
      else some hmap'

  unfoldable pub hm_trigger_rehashing : HMap A → Option (HMap A)
  hm_trigger_rehashing hmap =
      if is_empty hmap.older.tab
      then (h_init ((hmap.newer.mask + 1) % 2 ^ 64 * 2 % 2 ^ 64) >>= λ newer.
          some (record { newer = newer; older = hmap.newer; migrate_pos = 0 }))
      else none

  -- The map after the call, and the node found.
  unfoldable pub hm_lookup :
      HMap A → HNode A → (HNode A → HNode A → Bool) → Option (HMap A × Option (HNode A))
  hm_lookup hmap key eq = hm_help_rehashing hmap >>= λ hmap'.
      h_lookup hmap'.newer key eq >>= λ from. elim from [
        | some at ↦ deref hmap'.newer at >>= λ node. some (hmap', some node)
        | none ↦ h_lookup hmap'.older key eq >>= λ from'. elim from' [
          | some at ↦ deref hmap'.older at >>= λ node. some (hmap', some node)
          | none ↦ some (hmap', none)
        ]
      ]

  -- `if (!hmap->newer.tab) h_init(&hmap->newer, 4)`
  unfoldable pub with_table : HTab A → Option (HTab A)
  with_table htab = if is_empty htab.tab then h_init 4 else some htab

  unfoldable pub is_full : HTab A → Bool
  is_full htab = leb ((htab.mask + 1) % 2 ^ 64 * k_max_load_factor % 2 ^ 64) htab.size

  unfoldable pub hm_insert : HMap A → HNode A → Option (HMap A)
  hm_insert hmap node = with_table hmap.newer >>= λ table. h_insert table node >>= λ newer.
      let hmap' = record hmap { newer = newer } in
      (if is_empty hmap.older.tab && is_full newer then hm_trigger_rehashing hmap' else some hmap')
      >>= hm_help_rehashing

  unfoldable pub hm_delete :
      HMap A → HNode A → (HNode A → HNode A → Bool) → Option (HMap A × Option (HNode A))
  hm_delete hmap key eq = hm_help_rehashing hmap >>= λ hmap'.
      h_lookup hmap'.newer key eq >>= λ from. elim from [
        | some at ↦ h_detach hmap'.newer at >>= λ (node, newer).
            some (record hmap' { newer = newer }, some node)
        | none ↦ h_lookup hmap'.older key eq >>= λ from'. elim from' [
          | some at ↦ h_detach hmap'.older at >>= λ (node, older).
              some (record hmap' { older = older }, some node)
          | none ↦ some (hmap', none)
        ]
      ]

  unfoldable pub hm_clear : HMap A → HMap A
  hm_clear hmap = no_map

  unfoldable pub hm_size : HMap A → ℕ
  hm_size hmap = (hmap.newer.size + hmap.older.size) % 2 ^ 64

module _ {ℓ κ} {A : Type ℓ} {S : Type κ} where
  -- The callback works on a state and says whether to go on.
  unfoldable pub walk_chain : List (HNode A) → (HNode A → S → Bool × S) → S → Bool × S
  walk_chain [] f s = (true, s)
  walk_chain (node ∷ chain) f s =
      let (more, s') = f node s in
      let rest = walk_chain chain f s' in if more then rest else (false, s')

  -- The rounds left of the loop over the slots, from slot `i`.
  pub walk_slots : ℕ → ℕ → List (List (HNode A)) → (HNode A → S → Bool × S) → S → Option (Bool × S)
  walk_slots zero i tab f s = some (true, s)
  walk_slots (suc rounds) i tab f s = get_elem? tab i >>= λ chain.
      let (more, s') = walk_chain chain f s in
      let rest = walk_slots rounds (i + 1) tab f s' in if more then rest else some (false, s')

  pub h_foreach : HTab A → (HNode A → S → Bool × S) → S → Option (Bool × S)
  h_foreach htab f s =
      if is_empty htab.tab then some (true, s) else walk_slots (htab.mask + 1) 0 htab.tab f s

  unfoldable pub hm_foreach : HMap A → (HNode A → S → Bool × S) → S → Option S
  hm_foreach hmap f s = h_foreach hmap.newer f s >>= λ (more, s').
      if more then (h_foreach hmap.older f s' >>= λ r. some r.1) else some s'
