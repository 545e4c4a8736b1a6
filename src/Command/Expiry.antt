-- ===== src/Command/Expiry.antt =====
-- EXPIRE, PEXPIRE and DEL, and the GETs after them.
use mathlib.Core.List.Perm
use mini_redis.Base.Int.{pos, leb_ℤ}
use mini_redis.Base.{
  ℕ, ltb, ◌+◌, ◌-◌, ◌*◌, ◌/◌, ◌%◌, ◌^◌, ◌≤◌, ◌<◌, ◌≡◌, ◌≢◌, refl, sym, ◌∙◌, true, false, List, [],
  ◌∷◌, Option, none, some, Bytes, arith, All, All-perm, ◌⊎◌, inl, inr, if◌then◌else◌,
}
use mini_redis.Heap.{HeapItem}
use mini_redis.SortedSet.Sorted.{Apart}
use mini_redis.Serialize.{out_nil, out_str, out_int}
use mini_redis.Keyspace.{Database, is_str}
use mini_redis.Keyspace.Members.{Inside, Inside-perm, Inside-All, Apart-perm}
use mini_redis.Keyspace.Timers.{owners_of, Retimes}
use mini_redis.Keyspace.Ttl.{entry_set_ttl-set}
use mini_redis.Keyspace.Valid.{owner_of, members, IsValid, ttl-IsValid}
use mini_redis.Command.{Clock, lookup_entry, do_get, do_del}
use mini_redis.Command.Numbers.{str2int}
use mini_redis.Command.Timers.{do_expire, expire_in, clamp_ms}
use mini_redis.Command.Forget.{unlink_entry-Forgets}
use mini_redis.Command.Lookup.{
  IsLive, Seen, live, no_entry, expired, Forgets-keys, lookup_entry-Seen,
}
use mini_redis.Command.Answers.{HasRoom, Seen-none}
use mini_redis.Command.Reaped.{DueAt, reap_keys-do_get}
use mini_redis.Server.Reaper.{reap_keys}
use mini_redis.Command.Effects.{live-not_due, lookup_live, do_get_none}

-- The items of other entries are not of `x`.
others-All :
    (x due : ℕ) (a : List HeapItem)
    → Apart x (owners_of a)
    → All (λ (t : HeapItem). t.ref ≡ x → t.val ≡ due) a
others-All x due [] apart = tt
others-All x due (t ∷ a) apart = ((λ e. absurd (apart.0 e)), others-All x due a apart.1)

-- The entry has a timer, and its deadline is `due`.
set_timer :
    (ttl : List HeapItem) (x due : ℕ) (old : List HeapItem)
    → Retimes x (record { val = due; ref = x } ∷ []) old ttl
    → Inside x (owners_of ttl) × All (DueAt x due) ttl
set_timer ttl x due old c = (
  (λ apart. (Apart-perm x (Perm.map (λ (t : HeapItem). t.ref) c.is) apart).0 refl),
  All-perm (DueAt x due) (λ t. hlevel) _ ttl (Perm.symm c.is)
      ((λ e. refl), others-All x due c.others c.apart),
)

-- In a valid keyspace with room, EXPIRE or PEXPIRE of a live string by a positive number of units
-- that is not clamped, with a deadline that fits in 64 bits, succeeds and answers 1. If the timers
-- are then reaped once, at any time and with any cap, 0 included, the reaping succeeds. A GET at
-- that time or later answers with the string if it is before the deadline, which is so many units
-- behind the clock's reading at EXPIRE, and nil from the deadline on.
pub do_expire-do_get :
    (clock : Clock) (db : Database) (out verb arg : Bytes) (x n unit_ms : ℕ)
    → IsValid db
    → HasRoom db
    → Inside x (members db)
    → is_str (db.entries x).type ≡ true
    → IsLive clock.at_lookup db x
    → str2int arg ≡ some (pos n)
    → 0 < n
    → n ≤ (2 ^ 63 - 1) / unit_ms
    → clock.later + n * unit_ms < 2 ^ 64
    → (works reaped_at : ℕ) (later : Clock) (verb' out' : Bytes) → reaped_at ≤ later.at_lookup
    → (db₁ : Database) × (do_expire clock (verb ∷ (db.entries x).key ∷ arg ∷ []) db out unit_ms
        ≡ some (db₁, out_int out (pos 1)))
      × (db₂ : Database) × (reap_keys works reaped_at db₁ ≡ some db₂)
      × (db₃ : Database) × (do_get later (verb' ∷ (db.entries x).key ∷ []) db₂ out'
          ≡ some (
            db₃,
            if ltb later.at_lookup (clock.later + n * unit_ms)
                then out_str out' (db.entries x).str
                else out_nil out',
          ))
unfolding do_expire expire_in
do_expire-do_get clock db out verb arg x n unit_ms v room inside string alive parsed positive exact
      fits works reaped_at later verb' out' order =
    let (m, run, v', p) = lookup_live clock.at_lookup db v x inside alive in
    let mid = record db { map = m } in
    let inside' = Inside-perm x (Perm.map owner_of (Perm.symm p)) inside in
    let ms : clamp_ms n unit_ms ≡ n * unit_ms =
      let t : ltb ((2 ^ 63 - 1) / unit_ms) n ≡ false = ground arith in rw t refl in
    let some_time : leb_ℤ (pos n) (pos 0) ≡ false = ground arith in
    let s =
      entry_set_ttl-set clock.later mid (members mid) x v'.timers inside' (clamp_ms n unit_ms)
        room.timers in
    let db₁ = record mid { ttl = s.ttl; heap_idx = s.heap_idx } in
    let v₁ = ttl-IsValid mid s.ttl s.heap_idx v' s.valid in
    let due : (clock.later + clamp_ms n unit_ms) % 2 ^ 64 ≡ clock.later + n * unit_ms =
      small clock.later (clamp_ms n unit_ms) (n * unit_ms) ms fits in
    let (owned, all) = set_timer s.ttl x _ db.ttl s.change in
    let (db₂, reaped, (db₃, got)) =
      reap_keys-do_get works reaped_at db₁ x (clock.later + n * unit_ms) v₁ inside' string owned
        (rw due at all) later verb' out' order in
    (db₁, rw (parsed, run, some_time, s.run) refl, db₂, reaped, db₃, got)
  where
    small : (a b c : ℕ) → b ≡ c → a + c < 2 ^ 64 → (a + b) % 2 ^ 64 ≡ a + c
    small a b c e h = omega arith

-- An entry with the key is live at the time.
abbrev pub HasLive : ℕ → Database → Bytes → ℕ → Type 0
HasLive now db key x = Inside x (members db) × ((db.entries x).key ≡ key) × IsLive now db x

-- DEL of a key succeeds, and from then on, at any time, GET of the key answers nil. It answers 1 if
-- the key has a live entry, and 0 if it has none.
pub do_del-do_get :
    (clock : Clock) (db : Database) (out verb key : Bytes)
    → IsValid db
    → (db₁ : Database) × (n : ℕ) × (do_del clock (verb ∷ key ∷ []) db out
        ≡ some (db₁, out_int out (pos n)))
      × (((n ≡ 1) × ((x : ℕ) × HasLive clock.at_lookup db key x))
          ⊎ ((n ≡ 0) × ((x : ℕ) → HasLive clock.at_lookup db key x → ⊥)))
      × ((later : Clock) (verb' out' : Bytes)
          → (db₂ : Database) × (do_get later (verb' ∷ key ∷ []) db₁ out'
              ≡ some (db₂, out_nil out')))
unfolding do_del
do_del-do_get clock db out verb key v =
    let (db', r, run, v', seen) = lookup_entry-Seen clock.at_lookup db key v in
    of_seen db' r run v' seen
  where
    Deletes : Type 0
    Deletes =
        (db₁ : Database) × (n : ℕ) × (do_del clock (verb ∷ key ∷ []) db out
          ≡ some (db₁, out_int out (pos n)))
        × (((n ≡ 1) × ((x : ℕ) × HasLive clock.at_lookup db key x))
            ⊎ ((n ≡ 0) × ((x : ℕ) → HasLive clock.at_lookup db key x → ⊥)))
        × ((later : Clock) (verb' out' : Bytes)
            → (db₂ : Database) × (do_get later (verb' ∷ key ∷ []) db₁ out'
                ≡ some (db₂, out_nil out')))

    of_seen :
        (db' : Database) (r : Option ℕ)
        → lookup_entry clock.at_lookup db key ≡ some (db', r)
        → IsValid db'
        → Seen clock.at_lookup db key db' r
        → Deletes
    of_seen _ none run v' (no_entry m p others) = (
      record db { map = m },
      0,
      rw run refl,
      inr (refl, λ x h. Inside-All (λ y. (db.entries y).key ≢ key) (members db) others x h.0 h.1),
      λ later verb' out'.
          do_get_none later verb' key out' (record db { map = m }) v'
            (Seen-none clock.at_lookup db key (no_entry m p others)),
    )
    of_seen _ none run v' (expired db' y member named due p same timers apart others) = (
      db',
      0,
      rw run refl,
      inr (
        refl,
        λ x h.
            live-not_due clock.at_lookup db x v h.2
              (rw (v.keys y x member h.0 (named ∙ sym h.1)) at due),
      ),
      λ later verb' out'. do_get_none later verb' key out' db' v' others,
    )
    of_seen _ (some _) run v' (live m x p member named alive) =
        let mid = record db { map = m } in
        let inside = Inside-perm x (Perm.map owner_of (Perm.symm p)) member in
        let f = unlink_entry-Forgets clock.later mid x v' inside in
        let others : All (λ y. (f.rest.entries y).key ≢ key) (members f.rest) =
          Forgets-keys clock.later mid key x v' inside named f in
        (
          f.rest,
          1,
          rw (run, f.unlink, f.delete) refl,
          inl (refl, (x, (member, named, alive))),
          λ later verb' out'. do_get_none later verb' key out' f.rest f.valid others,
        )
