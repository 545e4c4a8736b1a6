-- ===== src/Server/Timers.antt =====
-- The sleep of the event loop: next_timer_ms.
use mathlib.Core.Path.{subst}
use mini_redis.Base.Int.{ℤ, pos, negsuc}
use mini_redis.Base.{
  ℕ, ◌+◌, ◌-◌, ◌%◌, ◌^◌, ◌≤◌, ◌<◌, ◌≡◌, ◌⊎◌, refl, true, false, List, [], ◌∷◌, arith, length, All,
  ltb, ltb→lt, ltb-false, leb, leb→le, ◌==◌, Bool-cases, inl, inr,
}
use mini_redis.Heap.{HeapItem}
use mini_redis.Heap.Order.{key, IsHeap, root_least}
use mini_redis.Server.{as_i32, next_deadline, next_timer_ms}

-- A deadline of a connection or of a key.
pub data IsDeadline (last_active : List ℕ) (timeout : ℕ) (ttl : List HeapItem) (t : ℕ)
    : Type 0 where
  idle :
      (a : ℕ) (later : List ℕ)
      → last_active ≡ a ∷ later
      → t ≡ a + timeout
      → IsDeadline last_active timeout ttl t
  expiry : (i : ℕ) → i < length ttl → t ≡ key ttl i → IsDeadline last_active timeout ttl t

-- No deadline is before `t`.
pub record IsBound (last_active : List ℕ) (timeout : ℕ) (ttl : List HeapItem) (t : ℕ) : Type 0 where
  pub connections : All (λ a. t ≤ a + timeout) last_active
  pub keys : (i : ℕ) → i < length ttl → t ≤ key ttl i

-- The connections stand in the order of their last activity, at least the front one first, and its
-- deadline does not wrap, and the keys stand in the heap.
pub record IsTimely (last_active : List ℕ) (timeout : ℕ) (ttl : List HeapItem) : Type 0 where
  pub front_first :
      (a : ℕ) (later : List ℕ)
      → last_active ≡ a ∷ later
      → (a + timeout < 2 ^ 64) × All (λ b. a ≤ b) (a ∷ later)
  pub heap : IsHeap ttl

-- The nearest deadline, if there is one, is before `limit`.
abbrev pub IsNear : List ℕ → ℕ → List HeapItem → ℕ → Type 0
IsNear last_active timeout ttl limit =
    (t : ℕ) → IsDeadline last_active timeout ttl t → IsBound last_active timeout ttl t → t < limit

module _ (timeout : ℕ) where
  later_all :
      (t a : ℕ) (xs : List ℕ)
      → t ≤ a + timeout
      → All (λ b. a ≤ b) xs
      → All (λ b. t ≤ b + timeout) xs
  later_all t a [] h k = tt
  later_all t a (b ∷ xs) h k = (omega arith, later_all t a xs h k.1)

  next_deadline_lem :
      (last_active : List ℕ) (ttl : List HeapItem)
      → IsTimely last_active timeout ttl
      → IsNear last_active timeout ttl (2 ^ 64 - 1)
      → let t = next_deadline last_active timeout ttl in
        ((t ≡ 2 ^ 64 - 1) × (last_active ≡ []) × (ttl ≡ []))
        ⊎ (IsDeadline last_active timeout ttl t × IsBound last_active timeout ttl t)
  unfolding next_deadline
  next_deadline_lem [] [] v near = inl (refl, refl, refl)
  next_deadline_lem [] (root ∷ items) v near =
      let deadline : IsDeadline [] timeout (root ∷ items) root.val = expiry 0 (omega arith) refl in
      let bound : IsBound [] timeout (root ∷ items) root.val = record {
        connections = tt;
        keys = λ i h. root_least (root ∷ items) i v.heap h;
      } in
      let small = near root.val deadline bound in
      let test : ltb root.val (2 ^ 64 - 1) ≡ true = ground arith in rw test (inr (deadline, bound))
  next_deadline_lem (a ∷ later) [] v near =
      let (small, ordered) = v.front_first a later refl in
      let fits : (a + timeout) % 2 ^ 64 ≡ a + timeout = omega arith in
      rw fits (
        inr (
          idle a later refl refl,
          record {
            connections = later_all (a + timeout) a (a ∷ later) (omega arith) ordered;
            keys = λ i h. absurd (omega arith);
          },
        ))
  next_deadline_lem (a ∷ later) (root ∷ items) v near =
      let (small, ordered) = v.front_first a later refl in
      let fits : (a + timeout) % 2 ^ 64 ≡ a + timeout = omega arith in
      let least = λ (i : ℕ) (h : i < length (root ∷ items)). root_least (root ∷ items) i v.heap h in
      rw fits (elim (Bool-cases (ltb root.val (a + timeout))) [
        | inl e ↦
            let first = ltb→lt root.val (a + timeout) e in
            rw e (
              inr (
                expiry 0 (omega arith) refl,
                record {
                  connections = later_all root.val a (a ∷ later) (omega arith) ordered;
                  keys = least;
                },
              ))
        | inr e ↦
            let first = ltb-false root.val (a + timeout) e in
            rw e (
              inr (
                idle a later refl refl,
                record {
                  connections = later_all (a + timeout) a (a ∷ later) (omega arith) ordered;
                  keys = λ i h. let r = least i h in omega arith;
                },
              ))
      ])

-- What the sleep does with the deadlines: it lasts until input if there is none, does not happen if
-- one is due, and else ends at the nearest, in `d` milliseconds.
pub data Sleeps (last_active : List ℕ) (timeout : ℕ) (ttl : List HeapItem) (now : ℕ)
    : ℤ → Type 0 where
  no_timer : last_active ≡ [] → ttl ≡ [] → Sleeps last_active timeout ttl now (negsuc 0)
  overdue :
      (t : ℕ)
      → IsDeadline last_active timeout ttl t
      → t ≤ now
      → Sleeps last_active timeout ttl now (pos 0)
  until :
      (d : ℕ)
      → 0 < d
      → IsDeadline last_active timeout ttl (now + d)
      → IsBound last_active timeout ttl (now + d)
      → Sleeps last_active timeout ttl now (pos d)

-- With the connections in the order of their last activity, of which the first does not time out
-- after the end of the 64-bit clock, and the keys in the heap, at a time 2 ^ 31 milliseconds or more
-- before that end: if there is no deadline, or the nearest of all is less than 2 ^ 31 milliseconds
-- ahead, the timeout for poll is -1 when there is no timer, 0 when one is overdue, and else ends at
-- the nearest deadline of all connections and keys. The deadlines behind it may be any time ahead.
pub next_timer_ms-Sleeps :
    (last_active : List ℕ) (timeout : ℕ) (ttl : List HeapItem) (now : ℕ)
    → IsTimely last_active timeout ttl
    → now + 2 ^ 31 < 2 ^ 64
    → IsNear last_active timeout ttl (now + 2 ^ 31)
    → Sleeps last_active timeout ttl now (next_timer_ms last_active timeout ttl now)
unfolding next_timer_ms as_i32
next_timer_ms-Sleeps last_active timeout ttl now v clock near =
    let t = next_deadline last_active timeout ttl in
    elim (next_deadline_lem timeout last_active ttl v
      (λ u deadline bound. let h = near u deadline bound in omega arith)) [
        | inl (e, bare, bare') ↦
            let test : t == 2 ^ 64 - 1 ≡ true = ground arith in rw test (no_timer bare bare')
        | inr (deadline, bound) ↦
            let close_by = near t deadline bound in
            let test : t == 2 ^ 64 - 1 ≡ false = ground arith in
            elim (Bool-cases (leb t now)) [
              | inl e ↦ rw (test, e) (overdue t deadline (leb→le t now e))
              | inr e ↦
                  let ahead : now < t = ground arith in
                  let d = t - now in
                  let low : (t + 2 ^ 64 - now) % 2 ^ 64 % 2 ^ 32 ≡ d = omega arith in
                  let test' : ltb d (2 ^ 31) ≡ true = ground arith in
                  let back : t ≡ now + d = omega arith in
                  rw (test, e, low, test')
                    (until d (omega arith)
                      (subst (IsDeadline last_active timeout ttl) back deadline)
                      (subst (IsBound last_active timeout ttl) back bound))
            ]
      ]
