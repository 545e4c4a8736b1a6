-- ===== src/Server/Writes.antt =====
-- handle_write sends the replies.
use mini_redis.Base.{
  ℕ, zero, suc, arith, ◌≡◌, refl, ap, ◌∙◌, true, List, [], ◌∷◌, ◌++◌, Bytes, take, drop,
  take-append-drop, is_empty, Bool-cases, inl, inr,
}
use mathlib.Core.List.{append_assoc}
use mini_redis.Server.{
  Conn, buf_consume, WriteResult, write_again, write_failed, written, handle_write,
}

-- What the socket takes of the replies in one call.
unfoldable pub sent_by : Conn → WriteResult → Bytes
sent_by c write_again = []
sent_by c write_failed = []
sent_by c (written n) = take n c.outgoing

-- The connection after these writes, and what the socket took.
unfoldable pub writes : Conn → List WriteResult → Conn × Bytes
writes c [] = (c, [])
writes c (rv ∷ rvs) = let (c', sent) = writes (handle_write c rv) rvs in (c', sent_by c rv ++ sent)

take_none : (n : ℕ) (xs : Bytes) → is_empty xs ≡ true → take n xs ++ xs ≡ xs
take_none zero xs e = refl
take_none (suc n) [] e = refl
take_none (suc n) (x ∷ xs) e = absurd (ground arith)

step : (c : Conn) (rv : WriteResult) → sent_by c rv ++ (handle_write c rv).outgoing ≡ c.outgoing
unfolding sent_by handle_write buf_consume
step c write_again = elim (Bool-cases (is_empty c.outgoing)) [
  | inl e ↦ rw e refl
  | inr e ↦ rw e refl
]
step c write_failed = elim (Bool-cases (is_empty c.outgoing)) [
  | inl e ↦ rw e refl
  | inr e ↦ rw e refl
]
step c (written n) = elim (Bool-cases (is_empty c.outgoing)) [
  | inl e ↦ rw e (take_none n c.outgoing e)
  | inr e ↦ elim (Bool-cases (is_empty (drop n c.outgoing))) [
    | inl t ↦ rw (e, t) (take-append-drop n c.outgoing)
    | inr t ↦ rw (e, t) (take-append-drop n c.outgoing)
  ]
]

-- However the socket takes the replies, in whatever pieces and with whatever interruptions, what it
-- took, followed by what is left in the buffer, is the replies, in order and without loss.
pub writes-outgoing :
    (c : Conn) (rvs : List WriteResult) → (writes c rvs).1 ++ (writes c rvs).0.outgoing ≡ c.outgoing
unfolding writes
writes-outgoing c [] = refl
writes-outgoing c (rv ∷ rvs) =
    append_assoc (sent_by c rv) (writes (handle_write c rv) rvs).1
      (writes (handle_write c rv) rvs).0.outgoing
    ∙ ap (◌++◌ (sent_by c rv)) (writes-outgoing (handle_write c rv) rvs)
    ∙ step c rv
