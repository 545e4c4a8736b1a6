-- ===== src/Command/Query.antt =====
-- The loop of do_zquery emits a page of the sorted set.
use mathlib.Core.List.{append_assoc}
use mathlib.Core.Path.{subst}
use mini_redis.Base.Int.{pos, pos_part, neg_part, +ℤ_parts, ◌+ℤ◌}
use mini_redis.Base.{
  ℕ, zero, suc, ◌+◌, ◌-◌, ◌/◌, ◌<◌, ◌≡◌, refl, sym, ap, ◌∙◌, true, false, List, [], ◌∷◌, ◌++◌,
  Option, none, some, Bytes, arith, length, length-append, take, drop, drop_left, ltb, Bool-cases,
  inl, inr, if◌then◌else◌,
}
use mini_redis.SortedSet.{ZNode, ZSet, znode_offset}
use mini_redis.SortedSet.Valid.{members, IsValid}
use mini_redis.SortedSet.Offset.{Walked, reached, outside, znode_offset-Walked}
use mini_redis.Serialize.{out_str, out_dbl}
use mini_redis.Serialize.Values.{str, dbl, Values, done, next, count, out_values}
use mini_redis.Command.Sets.{query_loop}

-- The first of the addresses.
abbrev pub head_of : List ℕ → Option ℕ
head_of [] = none
head_of (x ∷ xs) = some x

-- The names and scores of the pairs in turn, for as long as fewer than `limit` are emitted.
unfoldable pub page : (ℕ → ZNode) → List ℕ → ℕ → Values
page pairs [] limit = done
page pairs (y ∷ ys) limit =
    let rest = page pairs ys (limit - 2) in
    if ltb 0 limit then next (str (pairs y).name) (next (dbl (pairs y).score) rest) else done

-- All the names and scores in turn.
unfoldable pub listed : (ℕ → ZNode) → List ℕ → Values
listed pairs [] = done
listed pairs (y ∷ ys) = next (str (pairs y).name) (next (dbl (pairs y).score) (listed pairs ys))

take_nil : (n : ℕ) → take {A = ℕ} n [] ≡ []
take_nil zero = refl
take_nil (suc n) = refl

-- A page is the pairs in front, half of `limit` in number, rounded up.
page-take :
    (pairs : ℕ → ZNode) (ys : List ℕ) (limit : ℕ)
    → page pairs ys limit ≡ listed pairs (take ((limit + 1) / 2) ys)
unfolding page listed
page-take pairs [] limit = ap (listed pairs) (sym (take_nil ((limit + 1) / 2)))
page-take pairs (y ∷ ys) zero = refl
page-take pairs (y ∷ ys) (suc limit) =
    let half : (suc limit + 1) / 2 ≡ suc ((suc limit - 2 + 1) / 2) = omega arith in
    let more : ltb 0 (suc limit) ≡ true = ground arith in
    rw (half, more, page-take pairs ys (suc limit - 2)) refl

-- One step forward.
module _ (zset : ZSet) (v : IsValid zset) (front : List ℕ) (y : ℕ) (back : List ℕ)
    (s : members zset ≡ front ++ y ∷ back) where
  behind :
      (front' rest : List ℕ)
      → members zset ≡ front' ++ rest
      → length front' ≡ length front + 1
      → rest ≡ back
  behind front' rest s' e =
      let split : (front ++ y ∷ []) ++ back ≡ front' ++ rest =
        append_assoc front (y ∷ []) back ∙ sym s ∙ s' in
      let size : length (front ++ y ∷ []) ≡ length front' =
        omega (arith, length-append front (y ∷ []), e) in
      sym (drop_left front' rest)
      ∙ ap (drop (length front')) (sym split)
      ∙ ap (λ k. drop k ((front ++ y ∷ []) ++ back)) (sym size)
      ∙ drop_left (front ++ y ∷ []) back

  step : znode_offset zset (some y) (pos 1) ≡ some (head_of back)
  unfolding ◌+ℤ◌
  step =
      let (r, run, walked) = znode_offset-Walked zset y front back (pos 1) v s in
      run ∙ ap some (of_walked r walked)
    where
      no_more : (xs : List ℕ) → length xs ≡ 0 → none ≡ head_of xs
      no_more [] e = refl
      no_more (x ∷ xs) e = absurd (omega arith)

      of_walked : (r : Option ℕ) → Walked (members zset) (length front) (pos 1) r → r ≡ head_of back
      of_walked (some _) (reached z front' back' s' e) = ap head_of (
          behind front' (z ∷ back') s'
            (omega (arith, ap pos_part e, ap neg_part e, +ℤ_parts (pos (length front)) (pos 1))))
      of_walked none (outside far) = no_more back (
          omega (
            arith,
            far,
            +ℤ_parts (pos (length front)) (pos 1),
            ap length s,
            length-append front (y ∷ back),
          ))

-- The loop, whose rounds are those of `page`.
pub query_loop_lem :
    (fuel : ℕ) (zset : ZSet) (front rest : List ℕ) (n limit : ℕ) (out : Bytes)
    → IsValid zset
    → members zset ≡ front ++ rest
    → limit < n + fuel
    → 0 < fuel
    → query_loop fuel zset (head_of rest) n limit out
      ≡ some (
        out_values (page zset.pairs rest (limit - n)) out,
        n + count (page zset.pairs rest (limit - n)),
      )
unfolding query_loop page
query_loop_lem zero zset front rest n limit out v s enough some_fuel = absurd (omega arith)
query_loop_lem (suc fuel) zset front [] n limit out v s enough some_fuel =
    let e : n + 0 ≡ n = omega arith in rw e refl
query_loop_lem (suc fuel) zset front (y ∷ back) n limit out v s enough some_fuel =
    elim (Bool-cases (ltb n limit)) [
      | inr t ↦
          let t' : ltb 0 (limit - n) ≡ false = ground arith in
          let e : n + 0 ≡ n = omega arith in rw (t, t', e) refl
      | inl t ↦
          let t' : ltb 0 (limit - n) ≡ true = ground arith in
          let p = zset.pairs y in
          let left : limit - n - 2 ≡ limit - (n + 2) = omega arith in
          let rest = page zset.pairs back (limit - (n + 2)) in
          let two : n + suc (suc (count rest)) ≡ n + 2 + count rest = omega arith in
          let again =
            query_loop_lem fuel zset (front ++ y ∷ []) back (n + 2) limit
              (out_dbl (out_str out p.name) p.score) v (s ∙ sym (append_assoc front (y ∷ []) back))
              (omega arith) (ground arith) in
          rw (t, t', step zset v front y back s, left, two) again
    ]

-- From a pair of a valid set, or from behind the last, the loop follows no null pointer and ends. It
-- emits the names and scores of the pairs from there on, in their order: with `limit` elements to
-- go, as many pairs as half of that, rounded up, or all if there are fewer. An odd number to go is
-- so exceeded by one.
pub query_loop-page :
    (fuel : ℕ) (zset : ZSet) (front rest : List ℕ) (n limit : ℕ) (out : Bytes)
    → IsValid zset
    → members zset ≡ front ++ rest
    → limit < n + fuel
    → 0 < fuel
    → let emitted = listed zset.pairs (take ((limit - n + 1) / 2) rest) in
      query_loop fuel zset (head_of rest) n limit out
      ≡ some (out_values emitted out, n + count emitted)
query_loop-page fuel zset front rest n limit out v s enough some_fuel =
    subst
      (λ emitted.
        query_loop fuel zset (head_of rest) n limit out
        ≡ some (out_values emitted out, n + count emitted))
      (page-take zset.pairs rest (limit - n))
      (query_loop_lem fuel zset front rest n limit out v s enough some_fuel)
