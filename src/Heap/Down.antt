-- ===== src/Heap/Down.antt =====
-- `heap_down`: an item above its children moves down to its place.
use mini_redis.Base.{
  ℕ, zero, suc, ◌+◌, ◌*◌, ◌^◌, ◌≤◌, ◌<◌, ◌≡◌, ◌≢◌, refl, List, some, arith, length, length-set, set,
  ltb, ◌==◌, if◌then◌else◌, false, Bool-cases, inl, inr, ltb→lt, ==_iff, ◌⊎◌,
}
use mini_redis.Heap.{HeapItem, Refs, write_ref, is_less, min_pos, down_loop}
use mini_redis.Heap.Items.{item, load-item, place-set, item-set, left_fits, right_fits}
use mini_redis.Heap.Order.{parent, key}
use mini_redis.Heap.Hole.{filled, Owned, Settles, moved, moved-Owned, moved-Settles, place-Settles}

-- Only the edges below the hole may be out of order.
pub record DownHole (a : List HeapItem) (p : ℕ) (t : HeapItem) : Type 0 where
  pub edges :
      (c : ℕ)
      → 0 < c
      → c < length a
      → parent c ≢ p
      → (filled a p t (parent c)).val ≤ (filled a p t c).val
  pub bridged : (c : ℕ) → 0 < c → c < length a → parent c ≡ p → 0 < p → key a (parent p) ≤ key a c

-- `m` is the child of the hole that is least and below `bound`.
record Sinks (a : List HeapItem) (p bound m : ℕ) : Type 0 where
  inside : m < length a
  child : (m ≡ 2 * p + 1) ⊎ (m ≡ 2 * p + 2)
  below : key a m < bound
  least : (c : ℕ) → 0 < c → c < length a → parent c ≡ p → key a m ≤ key a c

-- The hole may keep an item of value `bound`.
abbrev Stays : List HeapItem → ℕ → ℕ → Type 0
Stays a p bound = (c : ℕ) → 0 < c → c < length a → parent c ≡ p → bound ≤ key a c

is_less_lem :
    (a : List HeapItem) (i bound : ℕ)
    → is_less a (length a) i bound ≡ some (if ltb i (length a) then ltb (key a i) bound else false)
unfolding is_less
is_less_lem a i bound = elim (Bool-cases (ltb i (length a))) [
  | inl e ↦ rw (e, load-item a i (ltb→lt _ _ e))
  | inr e ↦ rw e
]

children : (c p : ℕ) → 0 < c → parent c ≡ p → (c ≡ 2 * p + 1) ⊎ (c ≡ 2 * p + 2)
children c p pos e = omega arith

min_pos_lem :
    (a : List HeapItem) (p : ℕ) (t : HeapItem)
    → p < length a
    → length a < 2 ^ 59
    → (m : ℕ) × (min_pos a (length a) p t ≡ some m)
      × (((m ≡ p) × Stays a p t.val) ⊎ Sinks a p t.val m)
unfolding min_pos
min_pos_lem a p t hp small =
    let l = 2 * p + 1 in
    let r = 2 * p + 2 in
    rw (left_fits p (omega arith), right_fits p (omega arith), is_less_lem a l t.val)
      (elim (Bool-cases (if ltb l (length a) then ltb (key a l) t.val else false)) [
        | inl left ↦
            rw (left, load-item a l (ground arith), is_less_lem a r (key a l))
              (elim (Bool-cases (if ltb r (length a) then ltb (key a r) (key a l) else false)) [
                | inl right ↦ (
                  r,
                  rw right,
                  inr (record {
                    inside = ground arith;
                    child = inr refl;
                    below = ground arith;
                    least = λ c q s e. ground (arith, children c p q e);
                  }),
                )
                | inr right ↦ (
                  l,
                  rw right,
                  inr (record {
                    inside = ground arith;
                    child = inl refl;
                    below = ground arith;
                    least = λ c q s e. ground (arith, children c p q e);
                  }),
                )
              ])
        | inr left ↦
            rw (left, is_less_lem a r t.val)
              (elim (Bool-cases (if ltb r (length a) then ltb (key a r) t.val else false)) [
                | inl right ↦ (
                  r,
                  rw right,
                  inr (record {
                    inside = ground arith;
                    child = inr refl;
                    below = ground arith;
                    least = λ c q s e. ground (arith, children c p q e);
                  }),
                )
                | inr right ↦ (p, rw right, inl (refl, λ c q s e. ground (arith, children c p q e)))
              ])
      ])

moved-DownHole :
    (a : List HeapItem) (p m : ℕ) (t : HeapItem)
    → DownHole a p t
    → p < length a
    → Sinks a p t.val m
    → DownHole (set a p (item a m)) m t
moved-DownHole a p m t v hp s = record {
  edges = λ c pos r far.
      let here : c < length a = rw length-set at r in
      ground (
        arith,
        item-set a p c (item a m) hp,
        item-set a p (parent c) (item a m) hp,
        v.edges c pos here,
        v.bridged m,
        s.least c pos here,
      );
  bridged = λ c pos r e pos_m.
      let here : c < length a = rw length-set at r in
      ground (
        arith,
        item-set a p c (item a m) hp,
        item-set a p (parent m) (item a m) hp,
        v.edges c pos here,
      );
}

pub down_loop-Settles :
    (fuel : ℕ) (a : List HeapItem) (refs : Refs) (p : ℕ) (t : HeapItem)
    → length a < p + fuel
    → Owned a refs p t
    → DownHole a p t
    → Settles (set a p t) refs (down_loop fuel a refs p t (length a))
unfolding down_loop
down_loop-Settles zero a refs p t f o v = absurd (omega (arith, o.inside))
down_loop-Settles (suc fuel) a refs p t f o v =
    let (m, run, outcome) = min_pos_lem a p t o.inside o.small in
    elim outcome [
      | inl (same, stays) ↦
          rw (run, (==_iff m p).1 same)
            (place-Settles a refs p t o (λ c q r. ground (arith, v.edges c q r, stays c q r)))
      | inr s ↦
          let apart : (m == p) ≡ false = ground (arith, s.child) in
          let below : p < m = omega (arith, s.child) in
          let b = moved a refs p m t o in
          let same : length b ≡ length a = length-set a p (item a m) in
          rw (run, apart, load-item a m s.inside, place-set a refs p (item a m) o.inside)
            (moved-Settles a refs p m t o s.inside (omega arith) (
              rw same at (
                down_loop-Settles fuel b (write_ref refs (item a m).ref p) m t
                  (rw same (omega arith)) (moved-Owned a refs p m t o s.inside (omega arith))
                  (moved-DownHole a p m t v o.inside s))))
    ]
