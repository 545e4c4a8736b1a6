-- ===== src/Command/Reaped.antt =====
-- GET of a string with a deadline, in the keyspace that the event loop's reaping of timers leaves
-- (process_timers in src/server/server.cpp).
use mathlib.Core.List.Perm
use mathlib.Core.Path.{subst}
use mini_redis.Base.{
  ℕ, zero, suc, ltb, ◌≤◌, ◌<◌, ◌≡◌, ◌≢◌, refl, sym, ap, ◌∙◌, true, false, List, [], ◌∷◌, ◌++◌, some,
  Bytes, arith, length, All, All-perm, All-append, All-left, All-right, Bool-cases, inl, inr,
  if◌then◌else◌,
}
use mini_redis.Heap.{HeapItem}
use mini_redis.Heap.Items.{item}
use mini_redis.SortedSet.Sorted.{Apart, Pairwise-left, All-map}
use mini_redis.Serialize.{out_nil, out_str}
use mini_redis.Keyspace.{Entry, Database, is_str}
use mini_redis.Keyspace.Members.{
  Inside, Inside-perm, Inside-All, Inside-Apart, Apart-perm, Distinct, Distinct-perm, All-Inside,
}
use mini_redis.Keyspace.Timers.{owners_of, untimed, timed, AreTimed-Timer}
use mini_redis.Keyspace.Valid.{members, gone, IsValid}
use mini_redis.Command.{Clock, do_get}
use mini_redis.Command.Effects.{do_get_live, do_get_due, do_get_none}
use mini_redis.Server.Reaper.{reap_keys, Reaps, reap_keys-Reaps}

-- What holds of all the items holds of the one at an index.
pub item-All :
    (P : HeapItem → Type 0) (a : List HeapItem) (i : ℕ) → All P a → i < length a → P (item a i)
item-All P [] i h within = absurd (omega arith)
item-All P (t ∷ a) zero h within = h.0
item-All P (t ∷ a) (suc i) h within = item-All P a i h.1 (omega arith)

-- The timers of `x` have the deadline `due`.
abbrev pub DueAt : ℕ → ℕ → HeapItem → Type 0
DueAt x due t = t.ref ≡ x → t.val ≡ due

-- Timers that have fired before `due` are not of `x`.
Apart-fired :
    (x due now : ℕ) (fired : List HeapItem)
    → now < due
    → All (DueAt x due) fired
    → All (λ (t : HeapItem). t.val ≤ now) fired
    → Apart x (owners_of fired)
Apart-fired x due now [] later all past = tt
Apart-fired x due now (t ∷ fired) later all past = (
  (λ e. let at = all.0 e in absurd (omega (arith, past.0))),
  Apart-fired x due now fired later all.1 past.1,
)

Apart-owners :
    (x : ℕ) (a b : List HeapItem)
    → Apart x (owners_of a)
    → Apart x (owners_of b)
    → Apart x (owners_of (a ++ b))
Apart-owners x [] b h k = k
Apart-owners x (t ∷ a) b h k = (h.0, Apart-owners x a b h.1 k)

Distinct-cross : (x : ℕ) (xs ys : List ℕ) → Distinct (xs ++ ys) → Inside x ys → Apart x xs
Distinct-cross x [] ys d inside = tt
Distinct-cross x (y ∷ xs) ys d inside = (
  (λ e. inside (subst (λ z. Apart z ys) e (flipped (All-right (λ z. y ≢ z) xs ys d.0)))),
  Distinct-cross x xs ys d.1 inside,
)
  where
    flipped : All (λ z. y ≢ z) ys → Apart y ys
    flipped h = All-map ys (λ z ne e. ne (sym e)) h

module _ (works reaped_at : ℕ) (db : Database) (x due : ℕ) (v : IsValid db)
    (inside : Inside x (members db)) (string : is_str (db.entries x).type ≡ true)
    (owned : Inside x (owners_of db.ttl)) (all : All (DueAt x due) db.ttl) (later : Clock)
    (verb out : Bytes) (order : reaped_at ≤ later.at_lookup) where
  module _ (r : Reaps works reaped_at db (reap_keys works reaped_at db)) where
    split : All (DueAt x due) (r.fired ++ r.rest.ttl)
    split = All-perm (DueAt x due) (λ t. hlevel) db.ttl _ (Perm.symm r.timers) all

    -- An entry that is left has its timer.
    timer_left :
        Inside x (members r.rest)
        → (r.rest.heap_idx x < length r.rest.ttl)
          × ((item r.rest.ttl (r.rest.heap_idx x)).val ≡ due)
    timer_left left =
        elim (AreTimed-Timer r.rest.ttl r.rest.heap_idx (members r.rest) x r.valid.timers left) [
          | untimed none_set apart ↦
              let once =
                Distinct-perm (members db) (owners_of r.fired ++ members r.rest) (Perm.symm r.less)
                  (Pairwise-left (λ y z. y ≢ z) (members db) (gone db) v.once) in
              let unfired = Distinct-cross x (owners_of r.fired) (members r.rest) once left in
              absurd (
                owned (
                  Apart-perm x (Perm.map (λ (t : HeapItem). t.ref) r.timers)
                    (Apart-owners x r.fired r.rest.ttl unfired apart)))
          | timed t within owns ↦ (
            within,
            item-All (DueAt x due) r.rest.ttl (r.rest.heap_idx x)
                (All-right (DueAt x due) r.fired r.rest.ttl split) within owns,
          )
        ]

    -- An entry that has gone was due.
    gone_due : Apart x (members r.rest) → due ≤ reaped_at
    gone_due away = elim (Bool-cases (ltb reaped_at due)) [
      | inr e ↦ ground arith
      | inl e ↦
          let unfired =
            Apart-fired x due reaped_at r.fired (ground arith)
              (All-left (DueAt x due) r.fired r.rest.ttl split) r.overdue in
          absurd (
            inside (
              Apart-perm x r.less
                (All-append (λ y. y ≢ x) (owners_of r.fired) (members r.rest) unfired away)))
    ]

    -- No other entry has its key.
    gone_keys :
        Apart x (members r.rest)
        → All (λ y. (r.rest.entries y).key ≢ (db.entries x).key) (members r.rest)
    gone_keys away =
        All-Inside (λ y. (r.rest.entries y).key ≢ (db.entries x).key) (members r.rest)
          (λ y h e.
            let same =
              Inside-All (λ z. r.rest.entries z ≡ db.entries z) (members r.rest) r.same y h in
            let old : Inside y (members db) =
              Inside-perm y r.less
                (λ apart. h (All-right (λ z. z ≢ y) (owners_of r.fired) (members r.rest) apart)) in
            let same_entry = v.keys y x old inside (ap (λ (n : Entry). n.key) (sym same) ∙ e) in
            h (subst (λ z. Apart z (members r.rest)) (sym same_entry) away))

  abbrev Gets : Database → Type 0
  Gets db' =
      (db'' : Database) × (do_get later (verb ∷ (db.entries x).key ∷ []) db' out
        ≡ some
            (db'', if ltb later.at_lookup due then out_str out (db.entries x).str else out_nil out))

  -- The reaping at a time before the GET makes no difference to it.
  pub reap_keys-do_get : (db' : Database) × (reap_keys works reaped_at db ≡ some db') × Gets db'
  reap_keys-do_get =
      let r = reap_keys-Reaps works reaped_at db v in
      let key = (db.entries x).key in
      (
        r.rest,
        r.run,
        elim (Inside-Apart x (members r.rest)) [
          | inr away ↦
              let past : ltb later.at_lookup due ≡ false = ground (arith, gone_due r away) in
              rw past (do_get_none later verb key out r.rest r.valid (gone_keys r away))
          | inl left ↦
              let same =
                Inside-All (λ z. r.rest.entries z ≡ db.entries z) (members r.rest) r.same x left in
              let (within, at) = timer_left r left in
              let named = ap (λ (n : Entry). n.key) same in
              elim (Bool-cases (ltb later.at_lookup due)) [
                | inl t ↦ rw t (
                    do_get_live later.at_lookup r.rest r.valid x left later verb out refl key
                      (db.entries x).str named (ap (λ (n : Entry). n.str) same)
                      (inr (within, ground arith)) (rw same string))
                | inr t ↦ rw t (
                    do_get_due later.at_lookup r.rest r.valid x left later verb out refl key named
                      (within, ground arith))
              ]
        ],
      )
