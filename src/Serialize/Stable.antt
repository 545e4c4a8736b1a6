-- ===== src/Serialize/Stable.antt =====
-- The client's printer stays within the reply, and refuses one that is cut short.
use mathlib.Core.List.{append-nil}
use mini_redis.Base.{
  ℕ, zero, suc, ◌+◌, ◌≤◌, ◌<◌, ◌≡◌, sym, ap, ◌∙◌, List, [], ◌∷◌, ◌++◌, true, false, ltb, ltb-false,
  ◌==◌, Bool, none, some, arith, Bytes, of_le, length, length-append, length-take, length-drop,
  take-append-drop, take, drop, if◌then◌else◌, Bool-cases, Option-cases, inl, inr,
}
use mini_redis.Serialize.Values.{Value, Fits, out_value}
use mini_redis.Serialize.RoundTrip.{print_elements_step, print_value-out_value}
use mini_redis.Serialize.{
  ser_nil, ser_err, ser_str, ser_int, ser_dbl, ser_arr, as_i64, Line, integer_line, double_line,
  array_line, Printed, print_elements, print_arr, print_tagged, print_loop, print_value,
}
use mini_redis.Serialize.Settled.{
  drop-append, field-append, Settled, Extends, refused, consumed, print_fixed-Settled,
  print_str-Settled, print_err-Settled,
}

if-Settled :
    (b : Bool) {x x' y y' : Bytes → Printed}
    → Extends x x'
    → Extends y y'
    → Extends (λ p. if b then x p else y p) (λ p. if b then x' p else y' p)
if-Settled true h k = h
if-Settled false h k = k

module _ (value value' : Bytes → Printed) (extends : Extends value value') where
  print_elements-Settled :
      (rounds : ℕ) (p : Bytes) (used : ℕ) (lines : List Line) (u : ℕ)
      → used ≤ length p
      → print_elements value rounds p used ≡ (lines, some u)
      → (u ≤ length p)
        × ((rest : Bytes) → print_elements value' rounds (p ++ rest) used ≡ (lines, some u))
  unfolding print_elements
  print_elements-Settled zero p used lines u h e =
      (omega (arith, consumed [] lines used u e), λ rest. e)
  print_elements-Settled (suc rounds) p used lines u h e =
      elim (Option-cases (value (drop used p)).1) [
        | inl fails ↦ absurd (refused _ lines u (rw (print_elements, fails) at e))
        | inr (n, works) ↦
            let here = value (drop used p) in
            let inner = print_elements value rounds p (used + n) in
            let e' = rw (print_elements, works) at e in
            let ends : inner.1 ≡ some u = ap (λ r. r.1) e' in
            let shows : here.0 ++ inner.0 ≡ lines = ap (λ r. r.0) e' in
            let (within, stays) =
              extends.settles (drop used p) here.0 n (ap (λ c. (here.0, c)) works) in
            let (within', stays') =
              print_elements-Settled rounds p (used + n) inner.0 u
                (omega (arith, length-drop used p)) (ap (λ c. (inner.0, c)) ends) in
            (
              within',
              λ rest.
                  print_elements_step value' rounds (p ++ rest) used n here.0 inner.0 (some u)
                    (rw (drop-append p rest used h) (stays rest)) (stays' rest)
                  ∙ ap (λ ls. (ls, some u)) shows,
            )
      ]

  print_arr-Settled :
      (depth : ℕ) → Extends (λ p. print_arr value p depth) (λ p. print_arr value' p depth)
  print_arr-Settled depth = record {
    settles = λ p lines u e.
        let cnt = of_le (take 4 (drop 1 p)) in
        let inner = print_elements value cnt p 5 in
        elim (Bool-cases (ltb (length p) 5)) [
          | inl short ↦ absurd (refused [] lines u (rw short at e))
          | inr long ↦
              let e' = rw long at e in
              let size = ltb-false (length p) 5 long in
              let ends : inner.1 ≡ some u = ap (λ r. r.1) e' in
              let shows : array_line depth cnt ∷ inner.0 ≡ lines = ap (λ r. r.0) e' in
              let (within, stays) =
                print_elements-Settled cnt p 5 inner.0 u size (ap (λ c. (inner.0, c)) ends) in
              (
                within,
                λ rest.
                    let more : ltb (length (p ++ rest)) 5 ≡ false =
                      ground (arith, length-append p rest) in
                    rw (field-append p rest 1 4 size, more, stays rest)
                      (ap (λ ls. (ls, some u)) shows),
              )
        ];
  }

  -- All the cases but that of nil.
  others-Settled :
      (tag depth : ℕ)
      → tag == ser_nil ≡ false
      → Extends (λ p. print_tagged tag value p depth) (λ p. print_tagged tag value' p depth)
  unfolding print_tagged
  others-Settled tag depth other = rw other (
      if-Settled (tag == ser_int)
        (print_fixed-Settled (λ p. integer_line depth (as_i64 (of_le (take 8 (drop 1 p)))))
          (λ p rest h.
            ap (λ bs. integer_line depth (as_i64 (of_le bs))) (field-append p rest 1 8 h)))
        (if-Settled (tag == ser_dbl)
          (print_fixed-Settled (λ p. double_line depth (of_le (take 8 (drop 1 p))))
            (λ p rest h. ap (λ bs. double_line depth (of_le bs)) (field-append p rest 1 8 h)))
          (if-Settled (tag == ser_str) (print_str-Settled depth) (
            if-Settled (tag == ser_err) (print_err-Settled depth) (
              if-Settled (tag == ser_arr) (print_arr-Settled depth)
                (record { settles = λ p lines u e. absurd (refused _ lines u e) }))))))

  print_tagged-Settled :
      (tag : ℕ) (more : Bytes) (depth : ℕ) (lines : List Line) (u : ℕ)
      → print_tagged tag value (tag ∷ more) depth ≡ (lines, some u)
      → Settled (tag ∷ more) (λ p. print_tagged tag value' p depth) lines u
  unfolding print_tagged
  print_tagged-Settled tag more depth lines u e = elim (Bool-cases (tag == ser_nil)) [
    | inl a ↦ let e' = rw a at e in (omega (arith, consumed _ lines 1 u e'), λ rest. rw a e')
    | inr a ↦ (others-Settled tag depth a).settles (tag ∷ more) lines u e
  ]

print_loop-Settled :
    (fuel fuel' depth : ℕ)
    → fuel ≤ fuel'
    → (p : Bytes) (lines : List Line) (u : ℕ) → print_loop fuel p depth ≡ (lines, some u)
    → Settled p (λ q. print_loop fuel' q depth) lines u
unfolding print_loop
print_loop-Settled zero fuel' depth h p lines u e = absurd (refused [] lines u e)
print_loop-Settled (suc fuel) zero depth h p lines u e = absurd (omega arith)
print_loop-Settled (suc fuel) (suc fuel') depth h [] lines u e = absurd (refused _ lines u e)
print_loop-Settled (suc fuel) (suc fuel') depth h (tag ∷ more) lines u e =
    print_tagged-Settled (λ q. print_loop fuel q (depth + 1)) (λ q. print_loop fuel' q (depth + 1))
      (record { settles = print_loop-Settled fuel fuel' (depth + 1) (omega arith) }) tag more depth
      lines u e

-- A value that the client prints lies within the reply, at most its length consumed, and is
-- printed the same whatever stands behind the reply.
pub print_value-stays :
    (p : Bytes) (depth : ℕ) (lines : List Line) (u : ℕ)
    → print_value p depth ≡ (lines, some u)
    → (u ≤ length p) × ((rest : Bytes) → print_value (p ++ rest) depth ≡ (lines, some u))
unfolding print_value
print_value-stays p depth lines u e = (
  (print_loop-Settled (suc (length p)) (suc (length p)) depth (omega arith) p lines u e).0,
  λ rest.
      (print_loop-Settled (suc (length p)) (suc (length (p ++ rest))) depth
          (omega (arith, length-append p rest)) p lines u e).1
        rest,
)

-- The bytes of a reply that the server appends for a value, cut short anywhere, are refused.
pub print_value-cut :
    (v : Value) (depth n : ℕ)
    → Fits v
    → n < length (out_value v [])
    → (print_value (take n (out_value v [])) depth).1 ≡ none
print_value-cut v depth n h short =
    let reply = out_value v [] in
    let part = take n reply in
    let whole = print_value-out_value v [] depth h in
    elim (Option-cases (print_value part depth).1) [
      | inl fails ↦ fails
      | inr (u, works) ↦
          let (within, stays) =
            print_value-stays part depth (print_value part depth).0 u
              (ap (λ c. ((print_value part depth).0, c)) works) in
          let same = rw (take-append-drop n reply) at (stays (drop n reply)) in
          let whole' = rw append-nil at whole in
          absurd
            (omega (arith, length-take n reply, consumed _ _ u (length reply) (sym same ∙ whole')))
    ]
