-- ===== src/Heap/Up.antt =====
-- `heap_up`: an item below its parent moves up to its place.
use mini_redis.Base.{
  ℕ, zero, suc, ◌≤◌, ◌<◌, ◌≡◌, ◌≢◌, List, arith, length, length-set, set, ltb, Bool-cases, inl, inr,
  ltb→lt,
}
use mini_redis.Heap.{HeapItem, Refs, write_ref, up_loop}
use mini_redis.Heap.Items.{item, load-item, place-set, item-set, parent_fits}
use mini_redis.Heap.Order.{parent, key}
use mini_redis.Heap.Hole.{filled, Owned, Settles, moved, moved-Owned, moved-Settles, place-Settles}

-- Only the edge above the hole may be out of order.
pub record UpHole (a : List HeapItem) (p : ℕ) (t : HeapItem) : Type 0 where
  pub edges :
      (c : ℕ) → 0 < c → c < length a → p ≢ c → (filled a p t (parent c)).val ≤ (filled a p t c).val
  pub bridged : (c : ℕ) → 0 < c → c < length a → parent c ≡ p → 0 < p → key a (parent p) ≤ key a c

moved-UpHole :
    (a : List HeapItem) (p : ℕ) (t : HeapItem)
    → UpHole a p t
    → p < length a
    → 0 < p
    → t.val < key a (parent p)
    → UpHole (set a p (item a (parent p))) (parent p) t
moved-UpHole a p t v hp pos above = record {
  edges = λ c q r s.
      let here : c < length a = rw length-set at r in
      ground (
        arith,
        item-set a p c (item a (parent p)) hp,
        item-set a p (parent c) (item a (parent p)) hp,
        v.edges c q here,
        v.bridged c q here,
      );
  bridged = λ c q r s u.
      let here : c < length a = rw length-set at r in
      ground (
        arith,
        item-set a p c (item a (parent p)) hp,
        item-set a p (parent (parent p)) (item a (parent p)) hp,
        v.edges c q here,
        v.edges (parent p) u,
      );
}

pub up_loop-Settles :
    (fuel : ℕ) (a : List HeapItem) (refs : Refs) (p : ℕ) (t : HeapItem)
    → p < fuel
    → Owned a refs p t
    → UpHole a p t
    → Settles (set a p t) refs (up_loop fuel a refs p t)
unfolding up_loop
up_loop-Settles zero a refs p t f o v = absurd (omega arith)
up_loop-Settles (suc fuel) a refs p t f o v = elim (Bool-cases (ltb 0 p)) [
  | inr root ↦ rw root (place-Settles a refs p t o (λ c q r. v.edges c q r (ground arith)))
  | inl below ↦
      let pos = ltb→lt 0 p below in
      let q = parent p in
      let hq : q < length a = omega (arith, o.inside) in
      rw (below, parent_fits p pos (omega (arith, o.inside, o.small)), load-item a q hq)
        (elim (Bool-cases (ltb t.val (key a q))) [
          | inr settled ↦
              rw settled (place-Settles a refs p t o (λ c s r. ground (arith, v.edges c s r)))
          | inl rises ↦
              rw (rises, place-set a refs p (item a q) o.inside)
                (moved-Settles a refs p q t o hq (omega arith) (
                  up_loop-Settles fuel (moved a refs p q t o) (write_ref refs (item a q).ref p) q t
                    (omega arith) (moved-Owned a refs p q t o hq (omega arith))
                    (moved-UpHole a p t v o.inside pos (ltb→lt _ _ rises))))
        ])
]
