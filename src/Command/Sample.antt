-- ===== src/Command/Sample.antt =====
-- A keyspace of a string with a timer and a sorted set, on which the commands are run.
use mini_redis.Base.{ℕ, zero, suc, ◌≡◌, ◌≢◌, refl, sym, ap, [], ◌∷◌, some, arith, Bytes, get_or}
use mini_redis.Hash.{str_hash, str_hash_loop}
use mini_redis.Heap.{HeapItem}
use mini_redis.HashTable.{no_table}
use mini_redis.HashTable.Table.{IsTable, no_table-IsTable}
use mini_redis.SortedSet.{empty_zset}
use mini_redis.SortedSet.Clear.{empty-IsValid}
use mini_redis.Keyspace.{t_str, t_zset, Entry, Database, no_timer}
use mini_redis.Keyspace.Members.{Inside, Inside-All, Inside-tail}
use mini_redis.Keyspace.Timers.{AreTimed}
use mini_redis.Keyspace.Valid.{members, IsEntry, IsValid}
use mini_redis.Command.{Clock}
use mini_redis.Command.Answers.{HasRoom}

abbrev pub a : Bytes
a = b'a' ∷ []

abbrev pub b : Bytes
b = b'b' ∷ []

abbrev pub hello : Bytes
hello = b'h' ∷ b'i' ∷ []

-- The string a with a timer, and the sorted set b without one.
abbrev pub entries : ℕ → Entry
entries zero = record { hcode = str_hash a; key = a; type = t_str; str = hello; zset = empty_zset }
entries (suc x) = record { hcode = str_hash b; key = b; type = t_zset; str = []; zset = empty_zset }

abbrev pub indices : ℕ → ℕ
indices zero = 0
indices (suc x) = no_timer

abbrev pub timer : HeapItem
timer = record { val = 5000; ref = 0 }

abbrev pub sample : Database
sample = record {
  map = record {
    newer = record {
      tab =
          []
          ∷ (record { hcode = str_hash b; owner = 1 } ∷ [])
          ∷ (record { hcode = str_hash a; owner = 0 } ∷ [])
          ∷ []
          ∷ [];
      mask = 3;
      size = 2;
    };
    older = no_table;
    migrate_pos = 0;
  };
  ttl = timer ∷ [];
  pool = some [];
  entries = entries;
  heap_idx = indices;
  next = 2;
  freed = [];
}

abbrev pub at : ℕ → Clock
at time = record { at_lookup = time; later = time }

a-ne_b : a ≢ b
a-ne_b e = absurd (omega (arith, ap (λ (n : Bytes). get_or n 0 0) e))

sample-IsTable : IsTable sample.map.newer
unfolding str_hash str_hash_loop
sample-IsTable = record {
  counted = refl;
  placed = (tt, ((refl, tt), ((refl, tt), (tt, tt))));
  width = λ h. refl;
  power = λ h. (2, refl);
}

pub sample-AreTimed : AreTimed (timer ∷ []) indices (1 ∷ 0 ∷ [])
sample-AreTimed = record {
  heap = record {
    order = λ c h k. absurd (omega arith);
    sync = λ i h. let e : i ≡ 0 = omega arith in rw e refl;
    small = omega arith;
  };
  inside = λ x h. Inside-tail x 1 (0 ∷ []) h;
  idle = λ x h.
      Inside-All (λ x. (0 ≢ x) × Unit {0} → indices x ≡ no_timer) (1 ∷ 0 ∷ [])
        ((λ apart. refl), ((λ apart. absurd (apart.0 refl)), tt)) x h;
}

pub sample-IsValid : IsValid sample
unfolding str_hash str_hash_loop
sample-IsValid = record {
  map = record {
    newer = sample-IsTable;
    older = no_table-IsTable ℕ;
    drained = λ i h. absurd (omega arith);
    target = λ h. omega arith;
    narrow = omega arith;
    small = omega arith;
  };
  hashed = (refl, (refl, tt));
  entries =
      Inside-All (λ x. IsEntry (entries x)) (1 ∷ 0 ∷ [])
        (
          record { hashed = refl; zset = empty-IsValid empty_zset refl refl },
          (record { hashed = refl; zset = empty-IsValid empty_zset refl refl }, tt),
        );
  keys = λ x y h k.
      Inside-All (λ x. (y : ℕ) → Inside y (1 ∷ 0 ∷ []) → (entries x).key ≡ (entries y).key → x ≡ y)
        (1 ∷ 0 ∷ [])
        (
          Inside-All (λ y. b ≡ (entries y).key → 1 ≡ y) (1 ∷ 0 ∷ [])
              ((λ e. refl), ((λ e. absurd (a-ne_b (sym e))), tt)),
          (
            Inside-All (λ y. a ≡ (entries y).key → 0 ≡ y) (1 ∷ 0 ∷ [])
                ((λ e. absurd (a-ne_b e)), ((λ e. refl), tt)),
            tt,
          ),
        )
        x h y k;
  timers = sample-AreTimed;
  once = (((λ e. absurd (omega (arith, e))), tt), (tt, tt));
  used = (omega arith, (omega arith, tt));
  complete = refl;
}

pub sample-HasRoom : HasRoom sample
sample-HasRoom = record {
  keys = omega arith;
  timers = omega arith;
  sets = Inside-All _ (1 ∷ 0 ∷ []) (omega arith, (omega arith, tt));
  pairs = Inside-All _ (1 ∷ 0 ∷ []) (tt, (tt, tt));
}

pub a-Inside : Inside 0 (members sample)
a-Inside h = h.1.0 refl
