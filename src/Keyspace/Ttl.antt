-- ===== src/Keyspace/Ttl.antt =====
-- entry_set_ttl changes the timer of one entry.
use mathlib.Core.List.{Perm, perm_middle, append-nil}
use mathlib.Core.List.Perm
use mini_redis.Base.Int.{pos, negsuc}
use mini_redis.Base.{
  ℕ, ◌+◌, ◌%◌, ◌^◌, ◌<◌, ◌≡◌, ◌≢◌, refl, sym, ◌∙◌, true, List, [], ◌∷◌, ◌++◌, Option, some, arith,
  length, length-perm, set, ◌==◌, inl, inr,
}
use mini_redis.Heap.{HeapItem, Refs, write_ref}
use mini_redis.Heap.Items.{item, set-perm}
use mini_redis.Heap.Hole.{Settles}
use mini_redis.Heap.Upsert.{heap_upsert-existing, heap_upsert-new}
use mini_redis.Heap.Delete.{heap_delete-removes}
use mini_redis.SortedSet.Sorted.{Apart}
use mini_redis.Keyspace.{Database, no_timer, entry_set_ttl}
use mini_redis.Keyspace.Members.{Inside, Inside-perm, Inside-cons, Inside-tail, Apart-perm}
use mini_redis.Keyspace.Timers.{
  owners_of, AreTimed, untimed, timed, AreTimed-Timer, Retimes, rest_Apart, unset-AreTimed,
  Apart-OwnsNone,
}

-- The timer `t` of an entry is set, and the others are those in `b`.
set-AreTimed :
    (ttl : List HeapItem) (heap_idx : Refs) (xs : List ℕ) (t : HeapItem) (b b' : List HeapItem)
    (r : Option (List HeapItem × Refs))
    → AreTimed ttl heap_idx xs
    → Inside t.ref xs
    → ((y : ℕ) → Inside y (owners_of b) → Inside y (owners_of ttl))
    → ((y : ℕ) → t.ref ≢ y → Apart y (owners_of b) → Apart y (owners_of ttl))
    → length b + 1 < 2 ^ 59
    → Perm b' (t ∷ b)
    → (s : Settles b' heap_idx r) → AreTimed s.items s.owners xs
set-AreTimed ttl heap_idx xs t b b' r v member old_inside old_apart room p s =
    let refs = Perm.map (λ (u : HeapItem). u.ref) p in
    let all = Perm.trans (Perm.map (λ (u : HeapItem). u.ref) s.same) refs in
    record {
      heap = record {
        order = s.order;
        sync = s.sync;
        small = omega (arith, length-perm p, length-perm s.same);
      };
      inside = λ y h. elim (Inside-cons y t.ref (owners_of b) (Inside-perm y all h)) [
        | inl e ↦ rw e at member
        | inr further ↦ v.inside y (old_inside y further)
      ];
      idle = λ y h none.
          let none' = Apart-perm y all none in
          s.others y (Apart-OwnsNone b' y (Apart-perm y (Perm.symm refs) none'))
          ∙ v.idle y h (old_apart y none'.0 none'.1);
    }

-- What entry_set_ttl of `x` gives: the same database but for its timers, of which `x` has `news`.
pub record Retimed (db : Database) (xs : List ℕ) (x : ℕ) (news : List HeapItem)
    (result : Option Database) : Type 0 where
  pub ttl : List HeapItem
  pub heap_idx : Refs
  pub run : result ≡ some (record db { ttl = ttl; heap_idx = heap_idx })
  pub valid : AreTimed ttl heap_idx xs
  pub change : Retimes x news db.ttl ttl

module _ (now : ℕ) (db : Database) (xs : List ℕ) (x : ℕ) (v : AreTimed db.ttl db.heap_idx xs)
    (member : Inside x xs) where
  -- A negative time to live removes the timer of an entry, if it has one, and no other.
  pub entry_set_ttl-unset : (n : ℕ) → Retimed db xs x [] (entry_set_ttl now db x (negsuc n))
  unfolding entry_set_ttl
  entry_set_ttl-unset n = elim (AreTimed-Timer db.ttl db.heap_idx xs x v member) [
    | untimed none apart ↦ record {
      ttl = db.ttl;
      heap_idx = db.heap_idx;
      run = let e : (db.heap_idx x == no_timer) ≡ true = ground arith in rw e refl;
      valid = v;
      change = record {
        others = db.ttl;
        before = [];
        mine = tt;
        apart = apart;
        was = Perm.refl _;
        is = Perm.refl _;
      };
    }
    | timed e within owns ↦
        let (b, p, s) = heap_delete-removes db.ttl db.heap_idx (db.heap_idx x) v.heap within in
        record {
          ttl = s.items;
          heap_idx = write_ref s.owners x no_timer;
          run = rw (e, s.run) refl;
          valid = unset-AreTimed db.ttl db.heap_idx xs x v within owns b _ p s;
          change = record {
            others = b;
            before = item db.ttl (db.heap_idx x) ∷ [];
            mine = (owns, tt);
            apart = rest_Apart db.ttl db.heap_idx xs x v within owns b p;
            was = Perm.symm p;
            is = s.same;
          };
        }
  ]

  -- A time to live sets the timer of the entry that many milliseconds ahead, and no other.
  pub entry_set_ttl-set :
      (ttl_ms : ℕ)
      → length db.ttl + 1 < 2 ^ 59
      → let t : HeapItem = record { val = (now + ttl_ms) % 2 ^ 64; ref = x } in
        Retimed db xs x (t ∷ []) (entry_set_ttl now db x (pos ttl_ms))
  unfolding entry_set_ttl
  entry_set_ttl-set ttl_ms room =
      let t : HeapItem = record { val = (now + ttl_ms) % 2 ^ 64; ref = x } in
      elim (AreTimed-Timer db.ttl db.heap_idx xs x v member) [
        | untimed none apart ↦
            let added : Perm (db.ttl ++ t ∷ []) (t ∷ db.ttl) =
              rw (append-nil db.ttl) at (perm_middle {A = HeapItem} {a = t} db.ttl []) in
            let s =
              heap_upsert-new db.ttl db.heap_idx (db.heap_idx x) t v.heap (omega arith) room
                (Apart-OwnsNone db.ttl x apart) in
            record {
              ttl = s.items;
              heap_idx = s.owners;
              run = rw s.run refl;
              valid =
                  set-AreTimed db.ttl db.heap_idx xs t db.ttl (db.ttl ++ t ∷ []) _ v member
                    (λ y h. h) (λ y ne h. h) room added s;
              change = record {
                others = db.ttl;
                before = [];
                mine = tt;
                apart = apart;
                was = Perm.refl _;
                is = Perm.trans s.same added;
              };
            }
        | timed e within owns ↦
            let old = item db.ttl (db.heap_idx x) in
            let (b, p, _) = heap_delete-removes db.ttl db.heap_idx (db.heap_idx x) v.heap within in
            let replaced : Perm (set db.ttl (db.heap_idx x) t) (t ∷ b) = Perm.cons_inv (
              Perm.trans (set-perm db.ttl (db.heap_idx x) t within)
                (Perm.trans (Perm.cons t (Perm.symm p)) (Perm.swap old t b))) in
            let s =
              heap_upsert-existing db.ttl db.heap_idx (db.heap_idx x) t v.heap within (sym owns) in
            let all = Perm.map (λ (u : HeapItem). u.ref) p in
            let size = length-perm p in
            record {
              ttl = s.items;
              heap_idx = s.owners;
              run = rw s.run refl;
              valid =
                  set-AreTimed db.ttl db.heap_idx xs t b (set db.ttl (db.heap_idx x) t) _ v member
                    (λ y h. Inside-perm y all (Inside-tail y old.ref (owners_of b) h))
                    (λ y ne h. Apart-perm y all ((λ q. ne (sym owns ∙ q)), h)) (omega arith)
                    replaced s;
              change = record {
                others = b;
                before = old ∷ [];
                mine = (owns, tt);
                apart = rest_Apart db.ttl db.heap_idx xs x v within owns b p;
                was = Perm.symm p;
                is = Perm.trans s.same replaced;
              };
            }
      ]
