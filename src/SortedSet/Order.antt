-- ===== src/SortedSet/Order.antt =====
-- The order of the pairs: by score, and by name where the scores are equal.
use Prim.Native.Nat.{min, Ordering}
use mini_redis.Base.Double.{
  is_nan, dbl_lt, dbl_eq, dbl_lt_trans, dbl_eq_trans, dbl_lt-eq, dbl_eq-lt, dbl_lt_irrefl,
  dbl_eq_sym, dbl_lt_total, dbl_lt-ne,
}
use mini_redis.Base.{
  suc, ◌≡◌, ◌≢◌, refl, Bool, true, false, [], ◌∷◌, arith, Bytes, length, ltb, ◌==◌, ==_iff,
  if◌then◌else◌, Bool-cases, inl, inr,
}
use mini_redis.SortedSet.{ZNode, memcmp, zless, zless_nodes}

-- The order of the dictionary: a name comes before its extensions.
pub lex : Bytes → Bytes → Bool
lex a [] = false
lex [] (y ∷ b) = true
lex (x ∷ a) (y ∷ b) = if ltb x y then true else if x == y then lex a b else false

abbrev by_memcmp : Bytes → Bytes → Bool
by_memcmp a b = elim (memcmp (min (length a) (length b)) a b) [
  | Ordering.lt ↦ true
  | Ordering.gt ↦ false
  | Ordering.eq ↦ ltb (length a) (length b)
]

by_memcmp-lex : (a b : Bytes) → by_memcmp a b ≡ lex a b
unfolding memcmp lex
by_memcmp-lex [] [] = ground arith
by_memcmp-lex (x ∷ a) [] = ground arith
by_memcmp-lex [] (y ∷ b) = ground arith
by_memcmp-lex (x ∷ a) (y ∷ b) =
    let e : min (suc (length a)) (suc (length b)) ≡ suc (min (length a) (length b)) = omega arith in
    rw (by_memcmp, e) (ground (arith, by_memcmp-lex a b))

lex_irrefl : (a : Bytes) → lex a a ≡ false
unfolding lex
lex_irrefl [] = refl
lex_irrefl (x ∷ a) = ground (arith, lex_irrefl a)

lex_trans : (a b c : Bytes) → lex a b ≡ true → lex b c ≡ true → lex a c ≡ true
unfolding lex
lex_trans a b [] h k = cc
lex_trans a [] (z ∷ c) h k = cc
lex_trans [] (y ∷ b) (z ∷ c) h k = refl
lex_trans (x ∷ a) (y ∷ b) (z ∷ c) h k = ground (arith, lex_trans a b c)

lex_total : (a b : Bytes) → a ≢ b → lex a b ≡ false → lex b a ≡ true
unfolding lex
lex_total [] [] ne h = absurd (ne refl)
lex_total [] (y ∷ b) ne h = cc
lex_total (x ∷ a) [] ne h = refl
lex_total (x ∷ a) (y ∷ b) ne h = elim (Bool-cases (x == y)) [
  | inl e ↦
      let same : x ≡ y = (==_iff x y).0 e in
      let apart : a ≢ b = λ r. ne (cc) in ground (arith, lex_total a b apart)
  | inr e ↦ ground arith
]

-- The comparison of the source by the dictionary order.
abbrev by_score : ZNode → ZNode → Bool
by_score p q = if dbl_eq p.score q.score then lex p.name q.name else dbl_lt p.score q.score

pub zless-by_score : (p q : ZNode) → zless_nodes p q ≡ by_score p q
unfolding zless
zless-by_score p q = rw (by_memcmp-lex p.name q.name)

pub zless_irrefl : (p : ZNode) → zless_nodes p p ≡ false
zless_irrefl p = rw (zless-by_score p p) (ground (arith, lex_irrefl p.name, dbl_lt_irrefl p.score))

pub zless_trans :
    (p q r : ZNode) → zless_nodes p q ≡ true → zless_nodes q r ≡ true → zless_nodes p r ≡ true
zless_trans p q r h k =
    let h' = rw (zless-by_score p q) at h in
    let k' = rw (zless-by_score q r) at k in
    rw (zless-by_score p r) (
      ground (
        arith,
        dbl_eq_trans p.score q.score r.score,
        dbl_lt_trans p.score q.score r.score,
        dbl_lt-eq p.score q.score r.score,
        dbl_eq-lt p.score q.score r.score,
        dbl_lt-ne p.score r.score,
        lex_trans p.name q.name r.name,
      ))

-- Of two pairs with different names one comes before the other.
pub zless_total :
    (p q : ZNode)
    → is_nan p.score ≡ false
    → is_nan q.score ≡ false
    → p.name ≢ q.name
    → zless_nodes p q ≡ false
    → zless_nodes q p ≡ true
zless_total p q n m ne h =
    let h' = rw (zless-by_score p q) at h in
    rw (zless-by_score q p) (
      ground (
        arith,
        dbl_eq_sym p.score q.score,
        dbl_lt_total p.score q.score n m,
        lex_total p.name q.name ne,
      ))
