-- ===== src/Io/Stream.antt =====
-- Over a byte stream, whatever the sizes of the single transfers, the loops move whole messages.
use mathlib.Core.List.{append-nil, append_assoc}
use mini_redis.Base.{
  ℕ, zero, suc, ◌+◌, ◌-◌, ◌%◌, ◌^◌, ◌≤◌, ◌<◌, ◌≡◌, refl, sym, ap, ◌∙◌, [], ◌∷◌, ◌++◌, Option, none,
  some, arith, Bytes, length, length-append, length-drop, length-eq_zero, take, drop,
  take-append-drop, pos-is_empty, ltb, ◌==◌, Bool, true, false, Bool-cases, inl, inr, ltb→lt,
  ltb-false,
}
use mini_redis.Io.{Socket, read_loop, read_full, write_loop, write_all}

-- What the system promises of a connected stream, with the bytes that are on the way to the
-- reader: `read` takes some from the front, at least one and at most as many as it is asked for,
-- or none at the end, and `write` adds some of its own behind, at least one.
pub record IsStream {S : Type 0} (fd : Socket S) (pending : S → Bytes) : Type 0 where
  pub reads :
      (s : S) (n : ℕ)
      → 0 < n
      → 0 < length (pending s)
      → (bytes : Bytes) × (s' : S) × (fd.read s n ≡ (some bytes, s'))
        × (0 < length bytes)
        × (length bytes ≤ n)
        × (pending s ≡ bytes ++ pending s')
  pub ends : (s : S) (n : ℕ) → length (pending s) ≡ 0 → fd.read s n ≡ (some [], s)
  pub writes :
      (s : S) (buf : Bytes)
      → 0 < length buf
      → (k : ℕ) × (s' : S) × (fd.write s buf ≡ (some k, s'))
        × (0 < k)
        × (k ≤ length buf)
        × (pending s' ≡ pending s ++ take k buf)

take-past :
    (xs ys : Bytes) (n : ℕ) → length xs ≤ n → take n (xs ++ ys) ≡ xs ++ take (n - length xs) ys
take-past [] ys n h = ap (λ k. take k ys) (omega arith)
take-past (x ∷ xs) ys zero h = absurd (omega arith)
take-past (x ∷ xs) ys (suc n) h =
    let size : suc n - length (x ∷ xs) ≡ n - length xs = omega arith in
    rw size (ap (◌∷◌ x) (take-past xs ys n (omega arith)))

drop-past : (xs ys : Bytes) (n : ℕ) → length xs ≤ n → drop n (xs ++ ys) ≡ drop (n - length xs) ys
drop-past [] ys n h = ap (λ k. drop k ys) (omega arith)
drop-past (x ∷ xs) ys zero h = absurd (omega arith)
drop-past (x ∷ xs) ys (suc n) h =
    let size : suc n - length (x ∷ xs) ≡ n - length xs = omega arith in
    rw size (drop-past xs ys n (omega arith))

front_taken :
    (all xs ys : Bytes) (n : ℕ)
    → all ≡ xs ++ ys
    → length xs ≤ n
    → (take n all ≡ xs ++ take (n - length xs) ys) × (drop n all ≡ drop (n - length xs) ys)
front_taken all xs ys n split fits =
    (ap (take n) split ∙ take-past xs ys n fits, ap (drop n) split ∙ drop-past xs ys n fits)

-- One round of each loop.
module _ {S : Type 0} (fd : Socket S) where
  read_step :
      (fuel n : ℕ) (buf bytes : Bytes) (s s' : S) (result : Option (Option Bytes × S))
      → fd.read s (suc n) ≡ (some bytes, s')
      → 0 < length bytes
      → length bytes ≤ suc n
      → suc n < 2 ^ 64
      → read_loop fd fuel (suc n - length bytes) (buf ++ bytes) s' ≡ result
      → read_loop fd (suc fuel) (suc n) buf s ≡ result
  unfolding read_loop
  read_step fuel n buf bytes s s' result run some_read fits small rest =
      let test : ltb 0 (suc n) ≡ true = ground arith in
      let left : (suc n + 2 ^ 64 - length bytes) % 2 ^ 64 ≡ suc n - length bytes = omega arith in
      let rv : (fd.read s (suc n)).0 ≡ some bytes = ap (λ r. r.0) run in
      let next : (fd.read s (suc n)).1 ≡ s' = ap (λ r. r.1) run in
      rw (test, rv, next, pos-is_empty bytes some_read, left) rest

  write_step :
      (fuel k : ℕ) (buf : Bytes) (s s' : S) (result : Option (Bool × S))
      → fd.write s buf ≡ (some k, s')
      → 0 < length buf
      → 0 < k
      → write_loop fd fuel (drop k buf) s' ≡ result
      → write_loop fd (suc fuel) buf s ≡ result
  unfolding write_loop
  write_step fuel k buf s s' result run more some_written rest =
      let test : ltb 0 (length buf) ≡ true = ground arith in
      let moved : k == 0 ≡ false = ground arith in
      let rv : (fd.write s buf).0 ≡ some k = ap (λ r. r.0) run in
      let next : (fd.write s buf).1 ≡ s' = ap (λ r. r.1) run in rw (test, rv, next, moved) rest

module _ {S : Type 0} (fd : Socket S) (pending : S → Bytes) (stream : IsStream fd pending) where
  read_loop_lem :
      (fuel n : ℕ) (buf : Bytes) (s : S)
      → n < fuel
      → n < 2 ^ 64
      → n ≤ length (pending s)
      → (s' : S) × (read_loop fd fuel n buf s ≡ some (some (buf ++ take n (pending s)), s'))
        × (pending s' ≡ drop n (pending s))
  unfolding read_loop
  read_loop_lem zero n buf s enough small there = absurd (omega arith)
  read_loop_lem (suc fuel) zero buf s enough small there = (s, rw append-nil, refl)
  read_loop_lem (suc fuel) (suc n) buf s enough small there =
      let (bytes, s', run, some_read, fits, split) =
        stream.reads s (suc n) (omega arith) (omega arith) in
      let total = length-append bytes (pending s') in
      let whole : length (pending s) ≡ length (bytes ++ pending s') = ap length split in
      let (taken, dropped) = front_taken (pending s) bytes (pending s') (suc n) split fits in
      let (last, run', kept) =
        read_loop_lem fuel (suc n - length bytes) (buf ++ bytes) s' (omega arith) (omega arith)
          (omega arith) in
      let all =
        append_assoc buf bytes (take (suc n - length bytes) (pending s'))
        ∙ ap (◌++◌ buf) (sym taken) in
      (
        last,
        read_step fd fuel n buf bytes s s' _ run some_read fits small
            (run' ∙ ap (λ b. some (some b, last)) all),
        kept ∙ sym dropped,
      )

  -- A message that is there is read whole, however the stream cuts it up: `read_full` returns 0
  -- with exactly the next `n` bytes, and leaves those behind them for the next reader.
  pub read_full-takes :
      (n : ℕ) (s : S)
      → n < 2 ^ 64
      → n ≤ length (pending s)
      → (s' : S) × (read_full fd n s ≡ some (some (take n (pending s)), s'))
        × (pending s' ≡ drop n (pending s))
  unfolding read_full
  read_full-takes n s small there = read_loop_lem (suc n) n [] s (omega arith) small there

  read_loop-ended :
      (fuel n : ℕ) (buf : Bytes) (s : S)
      → n < fuel
      → n < 2 ^ 64
      → length (pending s) < n
      → (s' : S) × (read_loop fd fuel n buf s ≡ some (none, s'))
  unfolding read_loop
  read_loop-ended zero n buf s enough small ended = absurd (omega arith)
  read_loop-ended (suc fuel) zero buf s enough small ended = absurd (omega arith)
  read_loop-ended (suc fuel) (suc n) buf s enough small ended =
      let test : ltb 0 (suc n) ≡ true = ground arith in
      elim (Bool-cases (ltb 0 (length (pending s)))) [
        | inr e ↦
            let end = stream.ends s (suc n) (omega (arith, ltb-false 0 _ e)) in
            let rv : (fd.read s (suc n)).0 ≡ some [] = ap (λ r. r.0) end in
            let next : (fd.read s (suc n)).1 ≡ s = ap (λ r. r.1) end in (s, rw (test, rv, next))
        | inl e ↦
            let (bytes, s', run, some_read, fits, split) =
              stream.reads s (suc n) (omega arith) (ltb→lt 0 _ e) in
            let total = length-append bytes (pending s') in
            let whole : length (pending s) ≡ length (bytes ++ pending s') = ap length split in
            let (last, run') =
              read_loop-ended fuel (suc n - length bytes) (buf ++ bytes) s' (omega arith)
                (omega arith) (omega arith) in
            (last, read_step fd fuel n buf bytes s s' _ run some_read fits small run')
      ]

  -- When the stream ends before `n` bytes, `read_full` ends and returns -1.
  pub read_full-ended :
      (n : ℕ) (s : S)
      → n < 2 ^ 64
      → length (pending s) < n
      → (s' : S) × (read_full fd n s ≡ some (none, s'))
  unfolding read_full
  read_full-ended n s small ended = read_loop-ended (suc n) n [] s (omega arith) small ended

  write_loop_lem :
      (fuel : ℕ) (buf : Bytes) (s : S)
      → length buf < fuel
      → (s' : S) × (write_loop fd fuel buf s ≡ some (true, s')) × (pending s' ≡ pending s ++ buf)
  unfolding write_loop
  write_loop_lem zero buf s enough = absurd (omega arith)
  write_loop_lem (suc fuel) buf s enough = elim (Bool-cases (ltb 0 (length buf))) [
    | inr e ↦
        let bare = length-eq_zero buf (omega (arith, ltb-false 0 _ e)) in
        (s, rw bare, rw bare (sym (append-nil (pending s))))
    | inl e ↦
        let (k, s', run, some_written, fits, sent) = stream.writes s buf (ltb→lt 0 _ e) in
        let (last, run', there) =
          write_loop_lem fuel (drop k buf) s' (omega (arith, length-drop k buf)) in
        (
          last,
          write_step fd fuel k buf s s' _ run (ltb→lt 0 _ e) some_written run',
          there
              ∙ rw sent (
                  append_assoc (pending s) (take k buf) (drop k buf)
                  ∙ ap (◌++◌ (pending s)) (take-append-drop k buf)),
        )
  ]

  -- `write_all` returns 0 and sends all the bytes, in order, behind those that are on the way.
  pub write_all-sends :
      (buf : Bytes) (s : S)
      → (s' : S) × (write_all fd buf s ≡ some (true, s')) × (pending s' ≡ pending s ++ buf)
  unfolding write_all
  write_all-sends buf s = write_loop_lem (suc (length buf)) buf s (omega arith)
