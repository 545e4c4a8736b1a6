-- ===== src/Command/Tests.antt =====
-- Runs of the commands and the instances of their theorems.
use mini_redis.Base.Int.{pos, negsuc, ◌-ℤ◌}
use mini_redis.Base.{
  ℕ, ◌+◌, ◌*◌, ◌≡◌, refl, [], ◌∷◌, Option, some, none, arith, Bytes, ltb, ◌⊎◌, inr, if◌then◌else◌,
  map,
}
use mini_redis.Hash.{str_hash, str_hash_loop}
use mini_redis.Serialize.{out_nil, out_str, out_int}
use mini_redis.Serialize.Values.{out_values, count}
use mini_redis.SortedSet.Sample
use mini_redis.Keyspace.{Database}
use mini_redis.Keyspace.Valid.{IsValid}
use mini_redis.Command.{Clock, lookup_entry, do_get, do_del}
use mini_redis.Command.Numbers.{bytes_eq, to_upper, spaces, digits, strtoll, str2int}
use mini_redis.Command.Decimal.{characters, decimal, at_most, str2int-decimal}
use mini_redis.Command.Timers.{do_expire}
use mini_redis.Command.Dispatch.{do_request}
use mini_redis.Command.Answers.{Answers}
use mini_redis.Command.Lookup.{Seen, lookup_entry-Seen}
use mini_redis.Command.Sets.{query_loop}
use mini_redis.Command.Query.{page, listed, query_loop-page}
use mini_redis.Command.Forget.{Forgets, unlink_entry-Forgets}
use mini_redis.Command.Total.{do_request-Answers}
use mini_redis.Server.Reaper.{reap_keys}
use mini_redis.Command.Expiry.{HasLive, do_expire-do_get, do_del-do_get}
use mini_redis.Command.Sample.{a, b, hello, sample, at, sample-IsValid, sample-HasRoom, a-Inside}

program : Unit {0}
unfolding str_hash str_hash_loop bytes_eq to_upper spaces digits strtoll str2int
program = tt

-- strtod of the C library on the argument "1".
abbrev strtod : Bytes → ℕ × ℕ
strtod s = (0x3FF0000000000000, 1)

str2int-sign : str2int (b'-' ∷ b'4' ∷ b'2' ∷ []) ≡ some (negsuc 41)
unfolding program
str2int-sign = refl

str2int-decimal_example :
    (str2int (b'4' ∷ b'2' ∷ []) ≡ some (pos 42))
    × (str2int (b'-' ∷ b'4' ∷ b'2' ∷ []) ≡ some (negsuc 41))
unfolding characters decimal at_most ◌-ℤ◌
str2int-decimal_example = str2int-decimal 4 (2 ∷ []) (omega arith) (omega arith, tt)

str2int-junk : str2int (b'4' ∷ b'2' ∷ b'x' ∷ []) ≡ none
unfolding program
str2int-junk = refl

-- The parse stops at a zero byte, as at the end.
str2int-zero_byte : str2int (b'4' ∷ b'2' ∷ 0 ∷ b'x' ∷ []) ≡ some (pos 42)
unfolding program
str2int-zero_byte = refl

str2int-saturates :
    str2int (
      map
        (λ (i : ℕ). b'9')
        (1 ∷ 2 ∷ 3 ∷ 4 ∷ 5 ∷ 6 ∷ 7 ∷ 8 ∷ 9 ∷ 10 ∷ 11 ∷ 12 ∷ 13 ∷ 14 ∷ 15 ∷ 16 ∷ 17 ∷ 18 ∷ 19 ∷ 20
          ∷ []))
    ≡ some (pos 0x7FFFFFFFFFFFFFFF)
unfolding program
str2int-saturates = refl

lookup_entry-Seen_example :
    (db : Database) × (r : Option ℕ) × (lookup_entry 5000 sample a ≡ some (db, r))
    × IsValid db
    × Seen 5000 sample a db r
lookup_entry-Seen_example = lookup_entry-Seen 5000 sample a sample-IsValid

do_request-Answers_example : Answers [] (
    do_request strtod
      (at 4000)
      ((b'z' ∷ b'A' ∷ b'd' ∷ b'D' ∷ []) ∷ b ∷ (b'1' ∷ []) ∷ hello ∷ [])
      sample
      [])
do_request-Answers_example =
    do_request-Answers strtod (at 4000)
      ((b'z' ∷ b'A' ∷ b'd' ∷ b'D' ∷ []) ∷ b ∷ (b'1' ∷ []) ∷ hello ∷ []) sample [] sample-IsValid
      sample-HasRoom (omega arith)

ten : str2int (b'1' ∷ b'0' ∷ []) ≡ some (pos 10)
unfolding program
ten = refl

-- A reaping in between, and a GET just before the deadline.
do_expire-do_get_example :
    (db₁ : Database) × (do_expire (at 4000) (hello ∷ a ∷ (b'1' ∷ b'0' ∷ []) ∷ []) sample [] 1000
      ≡ some (db₁, out_int [] (pos 1)))
    × (db₂ : Database) × (reap_keys 2000 9000 db₁ ≡ some db₂)
    × (db₃ : Database) × (do_get (at 13999) (hello ∷ a ∷ []) db₂ []
        ≡ some (db₃, if ltb 13999 (4000 + 10 * 1000) then out_str [] hello else out_nil []))
do_expire-do_get_example =
    do_expire-do_get (at 4000) sample [] hello (b'1' ∷ b'0' ∷ []) 0 10 1000 sample-IsValid
      sample-HasRoom a-Inside refl (inr (omega arith, omega arith)) ten (omega arith) (omega arith)
      (omega arith) 2000 9000 (at 13999) hello [] (omega arith)

do_del-do_get_example :
    (db₁ : Database) × (n : ℕ) × (do_del (at 4000) (hello ∷ a ∷ []) sample []
      ≡ some (db₁, out_int [] (pos n)))
    × (((n ≡ 1) × ((x : ℕ) × HasLive 4000 sample a x))
        ⊎ ((n ≡ 0) × ((x : ℕ) → HasLive 4000 sample a x → ⊥)))
    × ((later : Clock) (verb out : Bytes)
        → (db₂ : Database) × (do_get later (verb ∷ a ∷ []) db₁ out ≡ some (db₂, out_nil out)))
do_del-do_get_example = do_del-do_get (at 4000) sample [] hello a sample-IsValid

unlink_entry-Forgets_example : Forgets 4000 sample 0
unlink_entry-Forgets_example = unlink_entry-Forgets 4000 sample 0 sample-IsValid a-Inside

-- A limit of three elements takes both pairs.
query_loop-page_example :
    query_loop 4 Sample.sample (some 0) 0 3 []
    ≡ some (
      out_values (listed Sample.pairs (0 ∷ 1 ∷ [])) [],
      0 + count (listed Sample.pairs (0 ∷ 1 ∷ [])),
    )
query_loop-page_example =
    query_loop-page 4 Sample.sample [] (0 ∷ 1 ∷ []) 0 3 [] Sample.sample-IsValid refl (omega arith)
      (omega arith)

-- With a limit of one element, two are emitted.
page_odd : count (page Sample.pairs (0 ∷ 1 ∷ []) 1) ≡ 2
unfolding page
page_odd = refl
