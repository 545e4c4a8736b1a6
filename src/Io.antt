-- ===== src/Io.antt =====
-- The blocking transfers of include/net/io_helpers.h and src/net/io_helpers.cpp.
-- `read` and `write` of the system are parameters, on a state of the connection; a negative result
-- is `none`. The loops run on fuel, one round more than the bytes: each round that goes on moves
-- at least one.
pub mod Stream
mod Tests
use mini_redis.Base.{
  ℕ, zero, suc, ◌+◌, ◌-◌, ◌%◌, ◌^◌, List, [], ◌++◌, Option, none, some, Bytes, length, drop,
  is_empty, ltb, ◌==◌, Bool, true, false, if◌then◌else◌,
}

-- `read` is given the most bytes that it may return, and returns those that it stored; `write` is
-- given the bytes and returns how many of them it took.
pub record Socket (S : Type 0) : Type 0 where
  pub read : S → ℕ → Option Bytes × S
  pub write : S → Bytes → Option ℕ × S

module _ {S : Type 0} (fd : Socket S) where
  -- `some buf` is 0, with the buffer's contents, and `none` is -1; the outer `none` is the end of
  -- the fuel.
  pub read_loop : ℕ → ℕ → Bytes → S → Option (Option Bytes × S)
  read_loop zero n buf s = none
  read_loop (suc fuel) n buf s =
      let (rv, s') = fd.read s n in
      let round : Option (Option Bytes × S) = elim rv [
        | none ↦ some (none, s')
        | some bytes ↦
            let rest = read_loop fuel ((n + 2 ^ 64 - length bytes) % 2 ^ 64) (buf ++ bytes) s' in
            if is_empty bytes then some (none, s') else rest
      ] in
      if ltb 0 n then round else some (some buf, s)

  unfoldable pub read_full : ℕ → S → Option (Option Bytes × S)
  read_full n s = read_loop (suc n) n [] s

  -- Whether the result is 0, and not -1.
  pub write_loop : ℕ → Bytes → S → Option (Bool × S)
  write_loop zero buf s = none
  write_loop (suc fuel) buf s =
      let (rv, s') = fd.write s buf in
      let round : Option (Bool × S) = elim rv [
        | none ↦ some (false, s')
        | some k ↦
            let rest = write_loop fuel (drop k buf) s' in if k == 0 then some (false, s') else rest
      ] in
      if ltb 0 (length buf) then round else some (true, s)

  unfoldable pub write_all : Bytes → S → Option (Bool × S)
  write_all buf s = write_loop (suc (length buf)) buf s
