-- ===== src/Io/Tests.antt =====
-- A stream that moves a few bytes at a time, and the instances of the theorems.
use Prim.Native.Nat.{min}
use mini_redis.Base.{
  ℕ, zero, suc, ◌≡◌, refl, sym, [], ◌∷◌, ◌++◌, Option, none, some, true, arith, Bytes, length,
  length-take, take, drop, take-append-drop,
}
use mini_redis.Io.{Socket, read_loop, read_full, write_loop, write_all}
use mini_redis.Io.Stream.{IsStream, read_full-takes, read_full-ended, write_all-sends}

-- The state is the bytes on the way: a read gives at most three of them, a write takes at most two.
abbrev trickle : Socket Bytes
trickle = record {
  read = λ s n. (some (take (min 3 n) s), drop (min 3 n) s);
  write = λ s buf. (some (min 2 (length buf)), s ++ take (min 2 (length buf)) buf);
}

abbrev on_the_way : Bytes → Bytes
on_the_way s = s

ended : (s : Bytes) (n : ℕ) → length s ≡ 0 → trickle.read s n ≡ (some [], s)
ended [] n h = empty (min 3 n)
  where
    empty : (k : ℕ) → ◌≡◌ {A = Option Bytes × Bytes} (some (take k []), drop k []) (some [], [])
    empty zero = refl
    empty (suc k) = refl
ended (b ∷ s) n h = absurd (omega arith)

trickle-IsStream : IsStream trickle on_the_way
trickle-IsStream = record {
  reads = λ s n h k. (
    take (min 3 n) s,
    drop (min 3 n) s,
    refl,
    omega (arith, length-take (min 3 n) s),
    omega (arith, length-take (min 3 n) s),
    sym (take-append-drop (min 3 n) s),
  );
  ends = ended;
  writes = λ s buf h. (
    min 2 (length buf),
    s ++ take (min 2 (length buf)) buf,
    refl,
    omega arith,
    omega arith,
    refl,
  );
}

program : Unit {0}
unfolding read_loop read_full write_loop write_all
program = tt

abbrev greeting : Bytes
greeting = 104 ∷ 101 ∷ 108 ∷ 108 ∷ 111 ∷ 33 ∷ []

-- Five bytes in two reads; the sixth is left.
read_full-five :
    read_full trickle 5 greeting ≡ some (some (104 ∷ 101 ∷ 108 ∷ 108 ∷ 111 ∷ []), 33 ∷ [])
unfolding program
read_full-five = refl

read_full-takes_example :
    (s' : Bytes) × (read_full trickle 5 greeting ≡ some (some (take 5 greeting), s'))
    × (s' ≡ drop 5 greeting)
read_full-takes_example =
    read_full-takes trickle on_the_way trickle-IsStream 5 greeting (omega arith) (omega arith)

read_full-ended_example : (s' : Bytes) × (read_full trickle 7 greeting ≡ some (none, s'))
read_full-ended_example =
    read_full-ended trickle on_the_way trickle-IsStream 7 greeting (omega arith) (omega arith)

write_all-sends_example :
    (s' : Bytes) × (write_all trickle greeting [] ≡ some (true, s')) × (s' ≡ greeting)
write_all-sends_example = write_all-sends trickle on_the_way trickle-IsStream greeting []
