-- ===== src/Serialize/Arrays.antt =====
-- Arrays whose count is patched in after the elements: out_begin_arr and out_end_arr.
use mathlib.Core.List.{append_assoc}
use mini_redis.Base.{
  ℕ, ◌+◌, ◌-◌, ◌%◌, ◌^◌, ◌<◌, ◌≡◌, refl, sym, ap, ◌∙◌, [], ◌∷◌, ◌++◌, true, some, arith, Bytes,
  le_bytes, length-le_bytes, length, length-append, get_elem?, take, drop, take_left, drop_left,
  leb,
}
use mini_redis.Serialize.{ser_arr, out_arr, out_begin_arr, out_end_arr}
use mini_redis.Serialize.Values.{
  Values, arr, count, out_value, out_values, AllFit, all_bytes, out_values-all_bytes,
}

at_end : (out more : Bytes) (x : ℕ) → get_elem? ((out ++ x ∷ []) ++ more) (length out) ≡ some x
at_end [] more x = refl
at_end (b ∷ out) more x = at_end out more x

module _ (front hole behind : Bytes) where
  take_front : take (length front) ((front ++ hole) ++ behind) ≡ front
  take_front = rw (append_assoc front hole behind) (take_left front (hole ++ behind))

  drop_hole : drop (length front + length hole) ((front ++ hole) ++ behind) ≡ behind
  drop_hole = rw (sym (length-append front hole)) (drop_left (front ++ hole) behind)

-- The buffer after out_begin_arr and the elements.
module _ (out elems : Bytes) (small : length out + length elems + 5 < 2 ^ 64) where
  patch :
      (n : ℕ)
      → out_end_arr (((out ++ ser_arr ∷ []) ++ le_bytes 4 0) ++ elems) (length out + 1) n
        ≡ some ((out ++ ser_arr ∷ []) ++ (le_bytes 4 n ++ elems))
  unfolding out_end_arr
  patch n =
      let front = out ++ ser_arr ∷ [] in
      let hole = le_bytes 4 0 in
      let width = length-le_bytes 4 0 in
      let long = length-append out (ser_arr ∷ []) in
      let whole = length-append (front ++ hole) elems in
      let part = length-append front hole in
      let before : (length out + 1 + 2 ^ 64 - 1) % 2 ^ 64 ≡ length out = omega arith in
      let at : get_elem? ((front ++ hole) ++ elems) (length out) ≡ some ser_arr =
        rw (append_assoc front hole elems) (at_end out (hole ++ elems) ser_arr) in
      let inside : leb (length out + 1 + 4) (length ((front ++ hole) ++ elems)) ≡ true =
        ground arith in
      let left : take (length out + 1) ((front ++ hole) ++ elems) ≡ front =
        ap (λ i. take i ((front ++ hole) ++ elems)) {x = length out + 1} {y = length front}
          (omega arith)
        ∙ take_front front hole elems in
      let right : drop (length out + 1 + 4) ((front ++ hole) ++ elems) ≡ elems =
        ap (λ i. drop i ((front ++ hole) ++ elems)) {x = length out + 1 + 4}
          {y = length front + length hole} (omega arith)
        ∙ drop_hole front hole elems in
      rw (before, at, inside, left, right) (ap some (append_assoc front (le_bytes 4 n) elems))

-- An array begun by out_begin_arr, filled with any elements and ended by out_end_arr with their
-- number is what out_arr with that number and the elements give; the assertion and the write in
-- out_end_arr do not fail.
pub out_end_arr-out_begin_arr :
    (vs : Values) (out : Bytes)
    → AllFit vs
    → length out + length (all_bytes vs) + 5 < 2 ^ 64
    → let (started, ctx) = out_begin_arr out in
      out_end_arr (out_values vs started) ctx (count vs) ≡ some (out_value (arr vs) out)
unfolding out_begin_arr out_arr
out_end_arr-out_begin_arr vs out fit small =
    let front = out ++ ser_arr ∷ [] in
    let started = front ++ le_bytes 4 0 in
    let ctx : length started - 4 ≡ length out + 1 = omega (
      arith,
      length-append front (le_bytes 4 0),
      length-le_bytes 4 0,
      length-append out (ser_arr ∷ []),
    ) in
    rw
      (
        ctx,
        out_values-all_bytes vs started fit,
        out_values-all_bytes vs (front ++ le_bytes 4 (count vs)) fit,
        patch out (all_bytes vs) small (count vs),
      )
      (ap some (sym (append_assoc front (le_bytes 4 (count vs)) (all_bytes vs))))
