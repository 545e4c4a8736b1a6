-- ===== src/SortedSet/Sample.antt =====
-- A set of two pairs, on which the operations are run.
use mathlib.Core.List.Perm
use mini_redis.Base.Double.{is_nan, dbl_key, dbl_lt, dbl_eq}
use mini_redis.Base.{ℕ, zero, suc, ◌≡◌, ◌≢◌, refl, false, [], ◌∷◌, arith, Bytes, get_or, ap}
use mini_redis.Hash.{str_hash, str_hash_loop}
use mini_redis.Avl.{leaf, node}
use mini_redis.HashTable.{no_table}
use mini_redis.HashTable.Table.{IsTable, no_table-IsTable}
use mini_redis.SortedSet.{ZNode, ZSet, memcmp, zless}
use mini_redis.SortedSet.Valid.{IsValid}

-- The doubles 1 and 2, and the names a and b.
abbrev pub one : ℕ
one = 0x3FF0000000000000

abbrev pub two : ℕ
two = 0x4000000000000000

abbrev pub a : Bytes
a = 97 ∷ []

abbrev pub b : Bytes
b = 98 ∷ []

abbrev pub pairs : ℕ → ZNode
pairs zero = record { hcode = str_hash a; score = one; name = a }
pairs (suc x) = record { hcode = str_hash b; score = two; name = b }

-- The two pairs, a at 1 and b at 2.
abbrev pub sample : ZSet
sample = record {
  root = node 2 2 leaf 0 (node 1 1 leaf 1 leaf);
  hmap = record {
    newer = record {
      tab =
          []
          ∷ (record { hcode = str_hash b; owner = 1 } ∷ [])
          ∷ (record { hcode = str_hash a; owner = 0 } ∷ [])
          ∷ []
          ∷ [];
      mask = 3;
      size = 2;
    };
    older = no_table;
    migrate_pos = 0;
  };
  pairs = pairs;
  next = 2;
}

pub a-ne_b : a ≢ b
a-ne_b e = absurd (omega (arith, ap (λ (n : Bytes). get_or n 0 0) e))

pub two-number : is_nan two ≡ false
unfolding is_nan dbl_key dbl_lt dbl_eq str_hash str_hash_loop memcmp zless
two-number = refl

sample-IsTable : IsTable sample.hmap.newer
unfolding is_nan dbl_key dbl_lt dbl_eq str_hash str_hash_loop memcmp zless
sample-IsTable = record {
  counted = refl;
  placed = (tt, ((refl, tt), ((refl, tt), (tt, tt))));
  width = λ h. refl;
  power = λ h. (2, refl);
}

pub sample-IsValid : IsValid sample
unfolding is_nan dbl_key dbl_lt dbl_eq str_hash str_hash_loop memcmp zless
sample-IsValid = record {
  avl = omega arith;
  table = record {
    newer = sample-IsTable;
    older = no_table-IsTable ℕ;
    drained = λ i h. absurd (omega arith);
    target = λ h. omega arith;
    narrow = omega arith;
    small = omega arith;
  };
  sorted = ((record { less = refl; apart = a-ne_b }, tt), (tt, tt));
  pairs = (
    record { number = refl; hashed = refl; used = omega arith },
    (record { number = refl; hashed = refl; used = omega arith }, tt),
  );
  indexed = Perm.swap _ _ [];
}
