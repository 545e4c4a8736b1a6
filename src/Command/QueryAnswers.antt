-- ===== src/Command/QueryAnswers.antt =====
-- do_zquery answers with one value and keeps the keyspace valid.
use mathlib.Core.List.{append-nil}
use mini_redis.Base.Int.{ℤ, pos, leb_ℤ, pos_part}
use mini_redis.Base.{
  ℕ, ◌+◌, ◌-◌, ◌*◌, ◌%◌, ◌^◌, ◌≤◌, ◌<◌, ◌≡◌, refl, sym, ap, ◌∙◌, List, [], ◌∷◌, ◌++◌, Option, none,
  some, Bytes, arith, le_bytes, length-le_bytes, length, length-append, All, All-right, ltb,
  Bool-cases, inl, inr,
}
use mini_redis.SortedSet
use mini_redis.SortedSet.{ZNode, ZSet, zless, znode_offset, zset_seekge}
use mini_redis.SortedSet.Offset.{Walked, reached, outside, znode_offset-Walked}
use mini_redis.SortedSet.Seek.{First, first, all_less, zset_seekge-First}
use mini_redis.Serialize.{out_begin_arr}
use mini_redis.Serialize.Values.{arr, done, err, count, out_value, AllFit, all_bytes}
use mini_redis.Serialize.Arrays.{out_end_arr-out_begin_arr}
use mini_redis.Keyspace.{Database}
use mini_redis.Keyspace.Valid.{IsValid}
use mini_redis.Command.{Clock, err_arg, not_integer_msg, not_float_msg}
use mini_redis.Command.Numbers.{str2int, str2dbl}
use mini_redis.Command.Sets.{
  Expected, a_zset, missing_key, wrong_type, expect_zset, zset_of, emit_pairs, query_from,
  do_zquery,
}
use mini_redis.Command.Answers.{IsSmall, HasRoom, Answers}
use mini_redis.Command.SetAnswers.{Expects, has_zset, has_none, has_error, expect_zset-Expects}
use mini_redis.Command.Query.{head_of, page, query_loop_lem}

-- A page is within the bounds of the format.
module _ (pairs : ℕ → ZNode) where
  page_count : (ys : List ℕ) (limit : ℕ) → count (page pairs ys limit) ≤ 2 * length ys
  unfolding page
  page_count [] limit = omega arith
  page_count (y ∷ ys) limit = elim (Bool-cases (ltb 0 limit)) [
    | inl t ↦ rw t (omega (arith, page_count ys (limit - 2)))
    | inr t ↦ rw t (omega arith)
  ]

  page-AllFit :
      (ys : List ℕ) (limit : ℕ) → All (λ y. IsSmall (pairs y)) ys → AllFit (page pairs ys limit)
  unfolding page
  page-AllFit [] limit h = tt
  page-AllFit (y ∷ ys) limit h = elim (Bool-cases (ltb 0 limit)) [
    | inl t ↦ rw t (omega (arith, h.0.name), (h.0.score, page-AllFit ys (limit - 2) h.1))
    | inr t ↦ rw t tt
  ]

  page_bytes :
      (ys : List ℕ) (limit : ℕ)
      → All (λ y. IsSmall (pairs y)) ys
      → length (all_bytes (page pairs ys limit)) ≤ (2 ^ 31 + 14) * length ys
  unfolding page
  page_bytes [] limit h = omega arith
  page_bytes (y ∷ ys) limit h = elim (Bool-cases (ltb 0 limit)) [
    | inl t ↦
        let name = (pairs y).name in
        let rest = all_bytes (page pairs ys (limit - 2)) in
        let score = le_bytes 8 (pairs y).score in
        rw t (
          omega (
            arith,
            h.0.name,
            page_bytes ys (limit - 2) h.1,
            length-append (le_bytes 4 (length name) ++ name) (4 ∷ (score ++ rest)),
            length-append (le_bytes 4 (length name)) name,
            length-append score rest,
            length-le_bytes 4 (length name),
            length-le_bytes 8 (pairs y).score,
          ))
    | inr t ↦ rw t (omega arith)
  ]

-- The array of the pairs from one on.
emit_pairs-page :
    (zset : ZSet) (front rest : List ℕ) (limit : ℕ) (out : Bytes)
    → SortedSet.Valid.IsValid zset
    → SortedSet.Valid.members zset ≡ front ++ rest
    → length (SortedSet.Valid.members zset) < 2 ^ 31
    → All (λ y. IsSmall (zset.pairs y)) (SortedSet.Valid.members zset)
    → length out < 2 ^ 62
    → emit_pairs zset (head_of rest) limit out
      ≡ some (out_value (arr (page zset.pairs rest limit)) out)
unfolding emit_pairs
emit_pairs-page zset front rest limit out v s small all_small room =
    let (started, ctx) = out_begin_arr out in
    let vs = page zset.pairs rest limit in
    let small_rest = All-right (λ y. IsSmall (zset.pairs y)) front rest (rw s at all_small) in
    let size : length rest < 2 ^ 31 = omega (arith, ap length s, length-append front rest) in
    let all : limit - 0 ≡ limit = omega arith in
    let run = rw all at (
      query_loop_lem (limit + 1) zset front rest 0 limit started v s (omega arith) (omega arith)) in
    let counted : (0 + count vs) % 2 ^ 32 ≡ count vs =
      omega (arith, page_count zset.pairs rest limit) in
    rw (run, counted)
      (out_end_arr-out_begin_arr vs out (page-AllFit zset.pairs rest limit small_rest)
        (omega (arith, page_bytes zset.pairs rest limit small_rest)))

-- The walk by rank from what the range query found leads to a place in the order, or behind it.
query_start :
    (zset : ZSet) (score : ℕ) (name : Bytes) (offset : ℤ)
    → SortedSet.Valid.IsValid zset
    → (front : List ℕ) × (rest : List ℕ) × (znode_offset zset (zset_seekge zset score name) offset
        ≡ some (head_of rest))
      × (SortedSet.Valid.members zset ≡ front ++ rest)
unfolding znode_offset
query_start zset score name offset v =
    of_first (zset_seekge zset score name) (zset_seekge-First zset score name v)
  where
    behind_all :
        (r : Option ℕ)
        → r ≡ none
        → (front : List ℕ) × (rest : List ℕ) × (r ≡ head_of rest)
          × (SortedSet.Valid.members zset ≡ front ++ rest)
    behind_all r e =
        (SortedSet.Valid.members zset, [], e, sym (append-nil (SortedSet.Valid.members zset)))

    of_first :
        (r : Option ℕ)
        → First (λ y. zless (zset.pairs y) score name) (SortedSet.Valid.members zset) r
        → (front : List ℕ) × (rest : List ℕ) × (znode_offset zset r offset ≡ some (head_of rest))
          × (SortedSet.Valid.members zset ≡ front ++ rest)
    of_first none (all_less h) =
        let (front, rest, e, s) = behind_all none refl in (front, rest, rw e refl, s)
    of_first (some _) (first x front back s b a) =
        let (r, run, walked) = znode_offset-Walked zset x front back offset v s in
        let (front', rest, e, s') = of_walked (length front) r walked in
        (front', rest, run ∙ ap some e, s')
      where
        of_walked :
            (k : ℕ) (r : Option ℕ)
            → Walked (SortedSet.Valid.members zset) k offset r
            → (front : List ℕ) × (rest : List ℕ) × (r ≡ head_of rest)
              × (SortedSet.Valid.members zset ≡ front ++ rest)
        of_walked k (some _) (reached y front' back' s' e) = (front', y ∷ back', refl, s')
        of_walked k none (outside far) = behind_all none refl

module _ (clock : Clock) (db : Database) (out : Bytes) (v : IsValid db) (room : HasRoom db)
    (long : length out < 2 ^ 62) (verb key : Bytes) where
  pub do_zquery-Answers :
      (strtod : Bytes → ℕ × ℕ) (arg name arg₁ arg₂ : Bytes)
      → Answers out (do_zquery strtod clock (verb ∷ key ∷ arg ∷ name ∷ arg₁ ∷ arg₂ ∷ []) db out)
  unfolding do_zquery query_from
  do_zquery-Answers strtod arg name arg₁ arg₂ =
      let (db', expected, run, v', room', expects) =
        expect_zset-Expects clock.at_lookup db key out v room in
      of_numbers (str2dbl strtod arg) (str2int arg₁) (str2int arg₂) db' expected v' room' run
        expects
    where
      of_numbers :
          (score : Option ℕ) (offset limit : Option ℤ) (db' : Database) (expected : Expected)
          → IsValid db'
          → HasRoom db'
          → expect_zset clock.at_lookup db key out ≡ some (db', expected)
          → Expects db' key out expected
          → Answers out (
              query_from clock
                (verb ∷ key ∷ arg ∷ name ∷ arg₁ ∷ arg₂ ∷ [])
                db
                out
                score
                offset
                limit)
      of_numbers none offset limit db' expected v' room' run expects =
          (db, err err_arg not_float_msg, refl, v)
      of_numbers (some score) none limit db' expected v' room' run expects =
          (db, err err_arg not_integer_msg, refl, v)
      of_numbers (some score) (some offset) none db' expected v' room' run expects =
          (db, err err_arg not_integer_msg, refl, v)
      of_numbers (some score) (some offset) (some limit) db' (wrong_type _) v' room' run
            (has_error value reply same) =
          (db', value, rw (run, same) refl, v')
      of_numbers (some score) (some offset) (some limit) db' missing_key v' room' run
            (has_none fresh) =
          (db', arr done, rw run refl, v')
      of_numbers (some score) (some offset) (some limit) db' (a_zset _) v' room' run
            (has_zset x inside) =
          let zset = zset_of db' x in
          let valid = (v'.entries x inside).zset in
          let (front, rest, start, s) = query_start zset score name offset valid in
          let emitted =
            emit_pairs-page zset front rest (pos_part limit) out valid s
              (omega (arith, room'.sets x inside)) (room'.pairs x inside) long in
          elim (Bool-cases (leb_ℤ limit (pos 0))) [
            | inl t ↦ (db', arr done, rw (run, t) refl, v')
            | inr t ↦ (
              db',
              arr (page zset.pairs rest (pos_part limit)),
              rw (run, t, start, emitted) refl,
              v',
            )
          ]
