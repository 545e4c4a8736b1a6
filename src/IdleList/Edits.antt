-- ===== src/IdleList/Edits.antt =====
-- The list operations on a ring.
use mini_redis.Base.{
  ℕ, ◌≡◌, ◌≢◌, sym, ◌∙◌, true, false, List, [], ◌∷◌, ◌++◌, some, arith, All-append, All-left,
  All-right, is_empty, ◌==◌, ==_iff, ==-false, Bool-cases, inl, inr,
}
use mini_redis.IdleList.{
  DList, Store, set_next, set_prev, dlist_init, dlist_empty, dlist_detach, dlist_insert_before,
}
use mini_redis.IdleList.Ring.{
  IsLink, Apart, Distinct, IsRing, last, first, last-All, first-All, prev-last, around, SameNext,
  SamePrev, extended, shortened,
}

==-refl : (a : ℕ) → (a == a) ≡ true
==-refl a = ground arith

==-apart : (a b : ℕ) → a ≢ b → (a == b) ≡ false
==-apart a b h = ground arith

-- What the writes leave in each field.
module _ (st : Store) (a v : ℕ) where
  set_next_self : (set_next st a v a).next ≡ some v
  set_next_self = rw (==-refl a)

  set_prev_self : (set_prev st a v a).prev ≡ some v
  set_prev_self = rw (==-refl a)

  set_next-next : (y : ℕ) → y ≢ a → (set_next st a v y).next ≡ (st y).next
  set_next-next y h = rw (==-apart y a h)

  set_prev-prev : (y : ℕ) → y ≢ a → (set_prev st a v y).prev ≡ (st y).prev
  set_prev-prev y h = rw (==-apart y a h)

  set_next-prev : (y : ℕ) → (set_next st a v y).prev ≡ (st y).prev
  set_next-prev y = elim (Bool-cases (y == a)) [ inl e ↦ rw e | inr e ↦ rw e ]

  set_prev-next : (y : ℕ) → (set_prev st a v y).next ≡ (st y).next
  set_prev-next y = elim (Bool-cases (y == a)) [ inl e ↦ rw e | inr e ↦ rw e ]

Distinct-snoc : (r : ℕ) (xs : List ℕ) → Distinct xs → Apart r xs → Distinct (xs ++ r ∷ [])
Distinct-snoc r [] d h = (tt, tt)
Distinct-snoc r (x ∷ xs) d h =
    (All-append (λ y. y ≢ x) xs (r ∷ []) d.0 ((λ q. h.0 (sym q)), tt), Distinct-snoc r xs d.1 h.1)

Distinct-without :
    (xs : List ℕ) (x : ℕ) (ys : List ℕ) → Distinct (xs ++ x ∷ ys) → Distinct (xs ++ ys)
Distinct-without [] x ys d = d.1
Distinct-without (z ∷ xs) x ys d = (
  All-append (λ y. y ≢ z) xs ys (All-left (λ y. y ≢ z) xs (x ∷ ys) d.0)
      (All-right (λ y. y ≢ z) xs (x ∷ ys) d.0).1,
  Distinct-without xs x ys d.1,
)

Apart-behind : (xs : List ℕ) (x : ℕ) (ys : List ℕ) → Distinct (xs ++ x ∷ ys) → Apart x ys
Apart-behind [] x ys d = d.0
Apart-behind (z ∷ xs) x ys d = Apart-behind xs x ys d.1

last_differs :
    (a : ℕ) (xs : List ℕ) (x : ℕ) (ys : List ℕ) → Distinct (a ∷ (xs ++ x ∷ ys)) → last a xs ≢ x
last_differs a [] x ys d = λ q. d.0.0 (sym q)
last_differs a (z ∷ xs) x ys d = last_differs z xs x ys d.1

-- The neighbours of a node in a ring are not the node.
neighbours_differ :
    (a : ℕ) (xs : List ℕ) (x : ℕ) (ys : List ℕ)
    → Distinct (a ∷ (xs ++ x ∷ ys))
    → (last a xs ≢ x) × (first ys a ≢ x)
neighbours_differ a xs x ys d =
    let from_a = All-right (λ y. y ≢ a) xs (x ∷ ys) d.0 in
    let front = last_differs a xs x ys d in
    (front, first-All (λ y. y ≢ x) ys a (λ q. from_a.0 (sym q)) (Apart-behind xs x ys d.1))

links_eq : (k l : DList) → k.prev ≡ l.prev → k.next ≡ l.next → k ≡ l
links_eq k l e f = λ i. record { prev = e i; next = f i }

-- The store after dlist_insert_before of `r` between `p` and `t`.
module _ (st : Store) (p t r : ℕ) where
  abbrev inserted : Store
  inserted = set_prev (set_next (set_prev (set_next st p r) r p) r t) t r

  inserted-next : (y : ℕ) → y ≢ p → y ≢ r → SameNext st inserted y
  inserted-next y h k =
      set_prev-next (set_next (set_prev (set_next st p r) r p) r t) t r y
      ∙ set_next-next (set_prev (set_next st p r) r p) r t y k
      ∙ set_prev-next (set_next st p r) r p y
      ∙ set_next-next st p r y h

  inserted-prev : (y : ℕ) → y ≢ t → y ≢ r → SamePrev st inserted y
  inserted-prev y h k =
      set_prev-prev (set_next (set_prev (set_next st p r) r p) r t) t r y h
      ∙ set_next-prev (set_prev (set_next st p r) r p) r t y
      ∙ set_prev-prev (set_next st p r) r p y k
      ∙ set_next-prev st p r y

  inserted-before : p ≢ r → t ≢ r → IsLink inserted p r
  inserted-before h k = (
    set_prev-next (set_next (set_prev (set_next st p r) r p) r t) t r p
        ∙ set_next-next (set_prev (set_next st p r) r p) r t p h
        ∙ set_prev-next (set_next st p r) r p p
        ∙ set_next_self st p r,
    set_prev-prev (set_next (set_prev (set_next st p r) r p) r t) t r r (λ q. k (sym q))
        ∙ set_next-prev (set_prev (set_next st p r) r p) r t r
        ∙ set_prev_self (set_next st p r) r p,
  )

  inserted-after : IsLink inserted r t
  inserted-after = (
    set_prev-next (set_next (set_prev (set_next st p r) r p) r t) t r r
        ∙ set_next_self (set_prev (set_next st p r) r p) r t,
    set_prev_self (set_next (set_prev (set_next st p r) r p) r t) t r,
  )

-- Before the head means at the back: a node that is in no place of the list becomes its last, and
-- no link that is followed is null.
pub dlist_insert_before-appends :
    (st : Store) (head : ℕ) (xs : List ℕ) (rookie : ℕ)
    → IsRing st head xs
    → Apart rookie (head ∷ xs)
    → (st' : Store) × (dlist_insert_before st head rookie ≡ some st')
      × IsRing st' head (xs ++ rookie ∷ [])
unfolding dlist_insert_before
dlist_insert_before-appends st head xs r ring fresh =
    let p = last head xs in
    let apart = last-All (λ y. y ≢ r) head xs fresh.0 fresh.1 in
    (
      inserted st p head r,
      rw (prev-last st head xs head ring.chain),
      record {
        chain =
            extended st (inserted st p head r) head xs head r (inserted-next st p head r)
              (inserted-prev st p head r) (inserted-before st p head r apart fresh.0)
              (inserted-after st p head r) ring.distinct fresh ring.distinct.0 ring.chain;
        distinct = Distinct-snoc r (head ∷ xs) ring.distinct fresh;
      },
    )

-- The store after dlist_detach of `x` from between `p` and `n`.
module _ (st : Store) (p x n : ℕ) where
  abbrev linked : Store
  linked = set_prev (set_next st p n) n p

  abbrev detached : Store
  detached = set_prev (set_next linked x x) x x

  detached-next : (y : ℕ) → y ≢ p → y ≢ x → SameNext st detached y
  detached-next y h k =
      set_prev-next (set_next linked x x) x x y
      ∙ set_next-next linked x x y k
      ∙ set_prev-next (set_next st p n) n p y
      ∙ set_next-next st p n y h

  detached-prev : (y : ℕ) → y ≢ n → y ≢ x → SamePrev st detached y
  detached-prev y h k =
      set_prev-prev (set_next linked x x) x x y k
      ∙ set_next-prev linked x x y
      ∙ set_prev-prev (set_next st p n) n p y h
      ∙ set_next-prev st p n y

  detached-joins : p ≢ x → n ≢ x → IsLink detached p n
  detached-joins h k = (
    set_prev-next (set_next linked x x) x x p
        ∙ set_next-next linked x x p h
        ∙ set_prev-next (set_next st p n) n p p
        ∙ set_next_self st p n,
    set_prev-prev (set_next linked x x) x x n k
        ∙ set_next-prev linked x x n
        ∙ set_prev_self (set_next st p n) n p,
  )

  detached-alone : IsLink detached x x
  detached-alone = (
    set_prev-next (set_next linked x x) x x x ∙ set_next_self linked x x,
    set_prev_self (set_next linked x x) x x,
  )

-- A node of the list is taken out of it, wherever it stands: the others stay in their order, the
-- node is a list of its own, and no link that is followed is null.
pub dlist_detach-removes :
    (st : Store) (head : ℕ) (xs : List ℕ) (x : ℕ) (ys : List ℕ)
    → IsRing st head (xs ++ x ∷ ys)
    → (st' : Store) × (dlist_detach st x ≡ some st') × IsRing st' head (xs ++ ys) × IsRing st' x []
unfolding dlist_detach dlist_init
dlist_detach-removes st head xs x ys ring =
    let p = last head xs in
    let n = first ys head in
    let (before, behind) = around st head xs x ys head ring.chain in
    let from_head = All-right (λ y. y ≢ head) xs (x ∷ ys) ring.distinct.0 in
    let unlike = neighbours_differ head xs x ys ring.distinct in
    (
      detached st p x n,
      rw (before, behind),
      record {
        chain =
            shortened st (detached st p x n) head xs x ys head (detached-next st p x n)
              (detached-prev st p x n) (detached-joins st p x n unlike.0 unlike.1) ring.distinct
              ring.distinct.0 ring.chain;
        distinct = Distinct-without (head ∷ xs) x ys ring.distinct;
      },
      record { chain = detached-alone st p x n; distinct = (tt, tt) },
    )

-- A node that is a list of its own, as dlist_detach leaves it, can be detached again: nothing
-- changes.
pub dlist_detach-again :
    (st : Store) (x : ℕ)
    → IsRing st x []
    → (st' : Store) × (dlist_detach st x ≡ some st') × ((y : ℕ) → st' y ≡ st y)
unfolding dlist_detach dlist_init
dlist_detach-again st x ring = (
  detached st x x x,
  rw (ring.chain.0, ring.chain.1),
  λ y. elim (Bool-cases (y == x)) [
    | inl e ↦
        let here = (==_iff y x).0 e in
        let alone = detached-alone st x x x in
        rw here (
          links_eq (detached st x x x x) (st x) (alone.1 ∙ sym ring.chain.1)
            (alone.0 ∙ sym ring.chain.0))
    | inr e ↦
        let other = ==-false y x e in
        links_eq (detached st x x x y) (st y) (detached-prev st x x x y other other)
          (detached-next st x x x y other other)
  ],
)

-- The list is empty by its head's link if it has no nodes.
pub dlist_empty-is_empty :
    (st : Store) (head : ℕ) (xs : List ℕ) → IsRing st head xs → dlist_empty st head ≡ is_empty xs
unfolding dlist_empty
dlist_empty-is_empty st head [] ring = rw (dlist_empty, ring.chain.0) (==-refl head)
dlist_empty-is_empty st head (x ∷ xs) ring =
    rw (dlist_empty, ring.chain.0.0) (==-apart x head ring.distinct.0.0)
