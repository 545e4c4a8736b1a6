-- ===== src/Server/Idle.antt =====
-- The idle list is in the order of activity, so that the idle loop closes just the idle connections.
use mini_redis.Base.{
  ℕ, ◌+◌, ◌%◌, ◌^◌, ◌≤◌, ◌≡◌, ◌≢◌, refl, sym, ◌∙◌, Bool, true, false, List, [], ◌∷◌, ◌++◌, Option,
  none, some, arith, ltb, All, All-append, All-left, All-right, ◌==◌, ==_iff, ==-false, Bool-cases,
  inl, inr, if◌then◌else◌,
}
use mathlib.Core.List.{append-nil}
use mini_redis.Server.{Conn}
use mini_redis.SortedSet.Sorted.{Apart, Pairwise, Pairwise-insert, All-map, both}
use mini_redis.Keyspace.Members.{Distinct}
use mini_redis.Server.Loop.{
  Loop, detach, write_at, new_conn, accept_new, reset_conn, refresh, close_front,
}

-- What holds of a list holds of the list without an element.
module _ {κ} (P : ℕ → Type κ) (fd : ℕ) where
  pub All-detach : (xs : List ℕ) → All P xs → All P (detach fd xs)
  unfolding detach
  All-detach [] h = tt
  All-detach (x ∷ xs) h = elim (Bool-cases (x == fd)) [
    | inl e ↦ rw e h.1
    | inr e ↦ rw e (h.0, All-detach xs h.1)
  ]

Pairwise-detach {κ} :
    (R : ℕ → ℕ → Type κ) (fd : ℕ) (xs : List ℕ) → Pairwise R xs → Pairwise R (detach fd xs)
unfolding detach
Pairwise-detach R fd [] h = tt
Pairwise-detach R fd (x ∷ xs) h = elim (Bool-cases (x == fd)) [
  | inl e ↦ rw e h.1
  | inr e ↦ rw e (All-detach (R x) fd xs h.0, Pairwise-detach R fd xs h.1)
]

-- Each element once: without it, the list does not have it.
Apart-detach : (fd : ℕ) (xs : List ℕ) → Distinct xs → Apart fd (detach fd xs)
unfolding detach
Apart-detach fd [] d = tt
Apart-detach fd (x ∷ xs) d = elim (Bool-cases (x == fd)) [
  | inl e ↦ let same = (==_iff x fd).0 e in rw e (All-map xs (λ y ne q. ne (same ∙ sym q)) d.0)
  | inr e ↦ rw e (==-false x fd e, Apart-detach fd xs d.1)
]

-- The others stay.
pub Apart-detached : (fd y : ℕ) (xs : List ℕ) → y ≢ fd → Apart y (detach fd xs) → Apart y xs
unfolding detach
Apart-detached fd y [] ne h = tt
Apart-detached fd y (x ∷ xs) ne h = elim (Bool-cases (x == fd)) [
  | inl e ↦ ((λ q. ne (sym q ∙ (==_iff x fd).0 e)), (rw e at h))
  | inr e ↦ let h' = rw e at h in (h'.0, Apart-detached fd y xs ne h'.1)
]

-- The idle list has the open connections, each once, in the order of their last activity.
pub record IsOrdered {ℓ} {D : Type ℓ} (now : ℕ) (s : Loop D) : Type ℓ where
  pub once : Distinct s.idle
  pub sorted : Pairwise (λ x y. s.last_active x ≤ s.last_active y) s.idle
  pub past : All (λ x. s.last_active x ≤ now) s.idle
  pub open_ones : All (λ x. s.conns x ≢ none) s.idle
  pub listed : (fd : ℕ) → Apart fd s.idle → s.conns fd ≡ none

pub write_at-same {ℓ} : {A : Type ℓ} (f : ℕ → A) (x : ℕ) (a : A) → write_at f x a x ≡ a
write_at-same f x a = let e : (x == x) ≡ true = (==_iff x x).1 refl in rw e refl

write_at-some : (f : ℕ → Option Conn) (x : ℕ) (c : Conn) → write_at f x (some c) x ≢ none
write_at-some f x c e =
    let clash : some c ≡ none = sym (write_at-same f x (some c)) ∙ e in absurd cc

pub write_at-other {ℓ} : {A : Type ℓ} (f : ℕ → A) (x y : ℕ) (a : A) → y ≢ x → write_at f x a y ≡ f y
write_at-other f x y a ne = elim (Bool-cases (y == x)) [
  | inl e ↦ absurd (ne ((==_iff y x).0 e))
  | inr e ↦ rw e refl
]

-- What holds at the old values holds at the new ones off the descriptor.
module _ {ℓ κ} {A : Type ℓ} (f : ℕ → A) (fd : ℕ) (a : A) (P : A → Type κ) where
  All-write_at :
      (xs : List ℕ) → Apart fd xs → All (λ x. P (f x)) xs → All (λ x. P (write_at f fd a x)) xs
  All-write_at xs apart h = both xs (λ x ne k. rw (write_at-other f fd x a ne) k) apart h

-- A descriptor goes to the back of the list, with an activity after all the others.
append-sorted :
    (f : ℕ → ℕ) (fd now : ℕ) (xs : List ℕ)
    → Apart fd xs
    → All (λ x. f x ≤ now) xs
    → Pairwise (λ x y. f x ≤ f y) xs
    → Pairwise (λ x y. write_at f fd now x ≤ write_at f fd now y) (xs ++ fd ∷ [])
append-sorted f fd now [] apart past h = (tt, tt)
append-sorted f fd now (x ∷ xs) apart past h =
    let old = write_at-other f fd x now apart.0 in
    let new = write_at-same f fd now in
    (
      All-append (λ y. write_at f fd now x ≤ write_at f fd now y) xs (fd ∷ [])
          (All-write_at f fd now (λ k. write_at f fd now x ≤ k) xs apart.1 (rw old h.0))
          (rw (old, new) past.0, tt),
      append-sorted f fd now xs apart.1 past.1 h.1,
    )

module _ {ℓ} {D : Type ℓ} where
  pub later-IsOrdered :
      (now now' : ℕ) (s : Loop D) → now ≤ now' → IsOrdered now s → IsOrdered now' s
  later-IsOrdered now now' s h v = record {
    once = v.once;
    sorted = v.sorted;
    past = All-map s.idle (λ x k. omega arith) v.past;
    open_ones = v.open_ones;
    listed = v.listed;
  }

  pub reset_conn-IsOrdered :
      (now : ℕ) (s : Loop D) (fd : ℕ) → IsOrdered now s → IsOrdered now (reset_conn s fd)
  unfolding reset_conn
  reset_conn-IsOrdered now s fd v = record {
    once = Pairwise-detach (λ x y. x ≢ y) fd s.idle v.once;
    sorted = Pairwise-detach (λ x y. s.last_active x ≤ s.last_active y) fd s.idle v.sorted;
    past = All-detach (λ x. s.last_active x ≤ now) fd s.idle v.past;
    open_ones =
        All-write_at s.conns fd none (λ c. c ≢ none) (detach fd s.idle)
          (Apart-detach fd s.idle v.once)
          (All-detach (λ x. s.conns x ≢ none) fd s.idle v.open_ones);
    listed = λ y h. elim (Bool-cases (y == fd)) [
      | inl e ↦ rw e refl
      | inr e ↦ rw e (v.listed y (Apart-detached fd y s.idle (==-false y fd e) h))
    ];
  }

  -- A closed descriptor is opened, and put at the back.
  appended-IsOrdered :
      (now : ℕ) (t : Loop D) (fd : ℕ) (conns : ℕ → Option Conn) (db : D)
      → IsOrdered now t
      → t.conns fd ≡ none
      → conns fd ≢ none
      → ((y : ℕ) → y ≢ fd → conns y ≡ t.conns y)
      → IsOrdered now (record {
        conns = conns;
        last_active = write_at t.last_active fd now;
        idle = t.idle ++ fd ∷ [];
        db = db;
      })
  appended-IsOrdered now t fd conns db v closed opened others =
      let apart : Apart fd t.idle = All-map t.idle (λ y h e. h (rw e closed)) v.open_ones in
      let now_at = write_at-same t.last_active fd now in
      record {
        once = Pairwise-insert (λ x y. x ≢ y) t.idle fd [] (rw (append-nil t.idle) v.once) apart tt;
        sorted = append-sorted t.last_active fd now t.idle apart v.past v.sorted;
        past =
            All-append (λ x. write_at t.last_active fd now x ≤ now) t.idle (fd ∷ [])
              (All-write_at t.last_active fd now (λ k. k ≤ now) t.idle apart v.past)
              (rw now_at (omega arith), tt);
        open_ones =
            All-append (λ x. conns x ≢ none) t.idle (fd ∷ [])
              (both t.idle (λ x ne h e. h (sym (others x ne) ∙ e)) apart v.open_ones) (opened, tt);
        listed = λ y h.
            let last = All-right (λ x. x ≢ y) t.idle (fd ∷ []) h in
            others y (λ e. last.0 (sym e)) ∙ v.listed y (All-left (λ x. x ≢ y) t.idle (fd ∷ []) h);
      }

  pub accept_new-IsOrdered :
      (now : ℕ) (s : Loop D) (fd : ℕ)
      → s.conns fd ≡ none
      → IsOrdered now s
      → IsOrdered now (accept_new s fd now)
  unfolding accept_new
  accept_new-IsOrdered now s fd closed v =
      let conns = write_at s.conns fd (some new_conn) in
      appended-IsOrdered now s fd conns s.db v closed (write_at-some s.conns fd new_conn)
        (λ y. write_at-other s.conns fd y (some new_conn))

  -- The connection is put at the back, whatever becomes of its buffers and the keyspace.
  pub touched-IsOrdered :
      (now : ℕ) (s : Loop D) (fd : ℕ) (c : Conn) (db : D)
      → IsOrdered now s
      → IsOrdered now (record (refresh s fd now) { conns = write_at s.conns fd (some c); db = db })
  unfolding refresh reset_conn
  touched-IsOrdered now s fd c db v =
      appended-IsOrdered now (reset_conn s fd) fd (write_at s.conns fd (some c)) db
        (reset_conn-IsOrdered now s fd v) (write_at-same s.conns fd none)
        (write_at-some s.conns fd c)
        (λ y ne.
          write_at-other s.conns fd y (some c) ne ∙ sym (write_at-other s.conns fd y none ne))

  pub settled-IsOrdered :
      (now : ℕ) (s : Loop D) (fd : ℕ) (closing : Bool)
      → IsOrdered now s
      → IsOrdered now (if closing then reset_conn s fd else s)
  settled-IsOrdered now s fd true v = reset_conn-IsOrdered now s fd v
  settled-IsOrdered now s fd false v = v

  pub close_front-IsOrdered :
      (idle_timeout_ms now : ℕ) (fds : List ℕ) (s : Loop D)
      → IsOrdered now s
      → IsOrdered now (close_front idle_timeout_ms now fds s)
  unfolding close_front
  close_front-IsOrdered t now [] s v = v
  close_front-IsOrdered t now (fd ∷ later) s v =
      elim (Bool-cases (ltb now ((s.last_active fd + t) % 2 ^ 64))) [
        | inl e ↦ rw e v
        | inr e ↦
            rw e (
              close_front-IsOrdered t now later (reset_conn s fd) (reset_conn-IsOrdered now s fd v))
      ]
