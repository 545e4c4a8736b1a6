-- ===== src/Command/RoundTrip.antt =====
-- SET, and the GETs after it.
use mathlib.Core.List.Perm
use mini_redis.Base.{ℕ, ◌≡◌, false, List, Bytes}
use mini_redis.Keyspace.{Database, is_str}
use mini_redis.Keyspace.Members.{Inside}
use mini_redis.Keyspace.Valid.{members}
use mini_redis.Command.Lookup.{IsLive}

-- The type of a live entry is not that of a string.
abbrev pub HoldsZset : ℕ → Database → Bytes → Type 0
HoldsZset now db key =
    (x : ℕ) × Inside x (members db)
    × ((db.entries x).key ≡ key)
    × IsLive now db x
    × (is_str (db.entries x).type ≡ false)
