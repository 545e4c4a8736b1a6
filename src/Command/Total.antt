-- ===== src/Command/Total.antt =====
-- do_request answers every command.
use mini_redis.Base.{
  ℕ, ◌^◌, ◌<◌, ◌≡◌, refl, Bool, true, false, List, [], ◌∷◌, Bytes, arith, length, if◌then◌else◌,
}
use mini_redis.Serialize.Values.{err}
use mini_redis.Keyspace.{Database}
use mini_redis.Keyspace.Valid.{IsValid}
use mini_redis.Command.{
  Clock, Outcome, err_arg, err_unknown, empty_command_msg, unknown_command_msg, do_get, do_set,
  do_del,
}
use mini_redis.Command.Numbers.{to_upper}
use mini_redis.Command.Timers.{do_expire, do_ttl, do_persist}
use mini_redis.Command.Sets.{do_zadd, do_zrem, do_zscore, do_zquery}
use mini_redis.Command.Dispatch.{
  is_call, do_request, get_verb, set_verb, del_verb, keys_verb, expire_verb, pexpire_verb, ttl_verb,
  pttl_verb, persist_verb, zadd_verb, zrem_verb, zscore_verb, zquery_verb,
}
use mini_redis.Command.Answers.{
  HasRoom, Answers, do_get-Answers, do_set-Answers, do_del-Answers, do_keys-Answers,
}
use mini_redis.Command.TimerAnswers.{do_expire-Answers, do_ttl-Answers, do_persist-Answers}
use mini_redis.Command.SetAnswers.{do_zadd-Answers, do_zrem-Answers, do_zscore-Answers}
use mini_redis.Command.QueryAnswers.{do_zquery-Answers}

-- One test of the dispatcher: the handler answers if the number of arguments is right.
branch :
    (out : Bytes) (test : Bool) (handled rest : Outcome)
    → (test ≡ true → Answers out handled)
    → Answers out rest
    → Answers out (if test then handled else rest)
branch out true handled rest h k = h refl
branch out false handled rest h k = k

module _ {ℓ} (P : List Bytes → Type ℓ) (op name verb : Bytes) where
  of_two :
      (args : List Bytes)
      → ((key : Bytes) → P (verb ∷ key ∷ []))
      → is_call (verb ∷ args) op name 2 ≡ true
      → P (verb ∷ args)
  of_two [] f h = absurd (ground arith)
  of_two (key ∷ []) f h = f key
  of_two (key ∷ a ∷ args) f h = absurd (ground arith)

  of_three :
      (args : List Bytes)
      → ((key a : Bytes) → P (verb ∷ key ∷ a ∷ []))
      → is_call (verb ∷ args) op name 3 ≡ true
      → P (verb ∷ args)
  of_three [] f h = absurd (ground arith)
  of_three (key ∷ []) f h = absurd (ground arith)
  of_three (key ∷ a ∷ []) f h = f key a
  of_three (key ∷ a ∷ b ∷ args) f h = absurd (ground arith)

  of_four :
      (args : List Bytes)
      → ((key a b : Bytes) → P (verb ∷ key ∷ a ∷ b ∷ []))
      → is_call (verb ∷ args) op name 4 ≡ true
      → P (verb ∷ args)
  of_four [] f h = absurd (ground arith)
  of_four (key ∷ []) f h = absurd (ground arith)
  of_four (key ∷ a ∷ []) f h = absurd (ground arith)
  of_four (key ∷ a ∷ b ∷ []) f h = f key a b
  of_four (key ∷ a ∷ b ∷ c ∷ args) f h = absurd (ground arith)

  of_six :
      (args : List Bytes)
      → ((key a b c d : Bytes) → P (verb ∷ key ∷ a ∷ b ∷ c ∷ d ∷ []))
      → is_call (verb ∷ args) op name 6 ≡ true
      → P (verb ∷ args)
  of_six [] f h = absurd (ground arith)
  of_six (key ∷ []) f h = absurd (ground arith)
  of_six (key ∷ a ∷ []) f h = absurd (ground arith)
  of_six (key ∷ a ∷ b ∷ []) f h = absurd (ground arith)
  of_six (key ∷ a ∷ b ∷ c ∷ []) f h = absurd (ground arith)
  of_six (key ∷ a ∷ b ∷ c ∷ d ∷ []) f h = f key a b c d
  of_six (key ∷ a ∷ b ∷ c ∷ d ∷ e ∷ args) f h = absurd (ground arith)

-- From a valid keyspace with room for one more, at any time and for any words, do_request succeeds:
-- no assertion fails, no null pointer is followed and no argument is missing. It appends exactly one
-- value to the reply, an error included, and leaves a valid keyspace.
pub do_request-Answers :
    (strtod : Bytes → ℕ × ℕ) (clock : Clock) (cmd : List Bytes) (db : Database) (out : Bytes)
    → IsValid db
    → HasRoom db
    → length out < 2 ^ 62
    → Answers out (do_request strtod clock cmd db out)
unfolding do_request
do_request-Answers strtod clock [] db out v room long = (db, err err_arg empty_command_msg, refl, v)
do_request-Answers strtod clock (verb ∷ args) db out v room long =
    let op = to_upper verb in
    branch out (is_call (verb ∷ args) op get_verb 2) _ _
      (of_two (λ cmd. Answers out (do_get clock cmd db out)) op get_verb verb args
        (do_get-Answers clock db out v room verb))
      (branch out (is_call (verb ∷ args) op set_verb 3) _ _
        (of_three (λ cmd. Answers out (do_set clock cmd db out)) op set_verb verb args
          (do_set-Answers clock db out v room verb))
        (branch out (is_call (verb ∷ args) op del_verb 2) _ _
          (of_two (λ cmd. Answers out (do_del clock cmd db out)) op del_verb verb args
            (do_del-Answers clock db out v room verb))
          (branch out (is_call (verb ∷ args) op keys_verb 1) _ _
            (λ _. do_keys-Answers db out v room)
            (branch out (is_call (verb ∷ args) op expire_verb 3) _ _
              (of_three (λ cmd. Answers out (do_expire clock cmd db out 1000)) op expire_verb verb
                args (λ key arg. do_expire-Answers clock db out v room verb key arg 1000))
              (branch out (is_call (verb ∷ args) op pexpire_verb 3) _ _
                (of_three (λ cmd. Answers out (do_expire clock cmd db out 1)) op pexpire_verb verb
                  args (λ key arg. do_expire-Answers clock db out v room verb key arg 1))
                (branch out (is_call (verb ∷ args) op ttl_verb 2) _ _
                  (of_two (λ cmd. Answers out (do_ttl clock cmd db out false)) op ttl_verb verb args
                    (λ key. do_ttl-Answers clock db out v room verb key false))
                  (branch out (is_call (verb ∷ args) op pttl_verb 2) _ _
                    (of_two (λ cmd. Answers out (do_ttl clock cmd db out true)) op pttl_verb verb
                      args (λ key. do_ttl-Answers clock db out v room verb key true))
                    (branch out (is_call (verb ∷ args) op persist_verb 2) _ _
                      (of_two (λ cmd. Answers out (do_persist clock cmd db out)) op persist_verb
                        verb args (do_persist-Answers clock db out v room verb))
                      (branch out (is_call (verb ∷ args) op zadd_verb 4) _ _
                        (of_four (λ cmd. Answers out (do_zadd strtod clock cmd db out)) op zadd_verb
                          verb args (λ key. do_zadd-Answers clock db out v room verb key strtod))
                        (branch out (is_call (verb ∷ args) op zrem_verb 3) _ _
                          (of_three (λ cmd. Answers out (do_zrem clock cmd db out)) op zrem_verb
                            verb args (do_zrem-Answers clock db out v room verb))
                          (branch out (is_call (verb ∷ args) op zscore_verb 3) _ _
                            (of_three (λ cmd. Answers out (do_zscore clock cmd db out)) op
                              zscore_verb verb args (do_zscore-Answers clock db out v room verb))
                            (branch out (is_call (verb ∷ args) op zquery_verb 6) _ _
                              (of_six (λ cmd. Answers out (do_zquery strtod clock cmd db out)) op
                                zquery_verb verb args
                                (λ key. do_zquery-Answers clock db out v room long verb key strtod))
                              (db, err err_unknown unknown_command_msg, refl, v)))))))))))))
