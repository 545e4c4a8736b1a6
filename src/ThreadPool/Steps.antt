-- ===== src/ThreadPool/Steps.antt =====
-- What holds of the pool in every state that its threads reach.
use mathlib.Core.List.{Perm, perm_middle, perm_append_singleton, append_assoc}
use mathlib.Core.List.Perm
use mathlib.Core.Path.{subst}
use mathlib.Core.Option.{some-injective}
use mini_redis.Base.{
  ℕ, zero, suc, ◌<◌, ◌≡◌, refl, sym, ap, ◌∙◌, Bool, true, false, List, [], ◌∷◌, ◌++◌, some, arith,
  length, length-set, length-replicate, get_elem?, set, replicate, ◌⊎◌, ◌==◌, if◌then◌else◌, inl,
  inr,
}
use mini_redis.ThreadPool.{
  Work, Worker, waiting, calling, returned, Pool, new_pool, queue_work, request_stop, next_work,
  Reach, start, queued, stopped, took, left, called,
}

-- The tasks that are being called.
abbrev pub task_of : Worker → List Work
task_of waiting = []
task_of (calling w) = w ∷ []
task_of returned = []

abbrev pub in_progress : List Worker → List Work
in_progress [] = []
in_progress (x ∷ ws) = task_of x ++ in_progress ws

exchange : (xs ys zs : List Work) → Perm (xs ++ (ys ++ zs)) (ys ++ (xs ++ zs))
exchange [] ys zs = Perm.refl (ys ++ zs)
exchange (x ∷ xs) ys zs =
    Perm.trans (Perm.cons x (exchange xs ys zs)) (Perm.symm (perm_middle {a = x} ys (xs ++ zs)))

pub in_progress-set :
    (ws : List Worker) (i : ℕ) (x y : Worker)
    → get_elem? ws i ≡ some x
    → Perm (task_of x ++ in_progress (set ws i y)) (task_of y ++ in_progress ws)
in_progress-set [] i x y e = cc
in_progress-set (z ∷ ws) zero x y e =
    subst
      (λ t.
        Perm (task_of x ++ (task_of y ++ in_progress ws))
          (task_of y ++ (task_of t ++ in_progress ws)))
      (sym (some-injective z x e)) (exchange (task_of x) (task_of y) (in_progress ws))
in_progress-set (z ∷ ws) (suc i) x y e =
    Perm.trans (exchange (task_of x) (task_of z) (in_progress (set ws i y))) (
      Perm.trans (Perm.append (Perm.refl (task_of z)) (in_progress-set ws i x y e))
        (exchange (task_of z) (task_of y) (in_progress ws)))

-- What a worker and the queue still hold, from what the worker does next.
planned : {a b : Worker × List Work} → a ≡ b → task_of a.0 ++ a.1 ≡ task_of b.0 ++ b.1
planned e = ap (λ r. task_of r.0 ++ r.1) e

next_work-calling :
    (threads : List Worker) (queue : List Work) (stop : Bool) (w : Work) (rest : List Work)
    → next_work (record { threads = threads; queue = queue; stop = stop }) ≡ some (calling w, rest)
    → queue ≡ w ∷ rest
unfolding next_work
next_work-calling threads [] true w rest e =
    planned (some-injective (returned, []) (calling w, rest) e)
next_work-calling threads [] false w rest e = cc
next_work-calling threads (x ∷ queue) stop w rest e =
    planned (some-injective (calling x, queue) (calling w, rest) e)

next_work-returned :
    (threads : List Worker) (queue : List Work) (stop : Bool) (rest : List Work)
    → next_work (record { threads = threads; queue = queue; stop = stop }) ≡ some (returned, rest)
    → (queue ≡ []) × (rest ≡ []) × (stop ≡ true)
unfolding next_work
next_work-returned threads [] true rest e =
    (refl, sym (planned (some-injective (returned, []) (returned, rest) e)), refl)
next_work-returned threads [] false rest e = cc
next_work-returned threads (x ∷ queue) stop rest e =
    let e' : x ∷ [] ≡ [] =
      ap (λ r. task_of r.0) (some-injective (calling x, queue) (returned, rest) e) in
    cc

-- The tasks asked for are those taken and then those in the queue, in order; those taken are, each
-- once, over or in progress; a worker has returned only after the stop and with the queue empty;
-- there is a worker.
pub record Holds (asked taken ran : List Work) (pool : Pool) : Type 0 where
  pub in_order : asked ≡ taken ++ pool.queue
  pub once : Perm (ran ++ in_progress pool.threads) taken
  pub over :
      (i : ℕ) → get_elem? pool.threads i ≡ some returned → (pool.stop ≡ true) × (pool.queue ≡ [])
  pub staffed : 0 < length pool.threads

get-set :
    (ws : List Worker) (i j : ℕ) (y x : Worker)
    → get_elem? (set ws i y) j ≡ some x
    → (x ≡ y) ⊎ (get_elem? ws j ≡ some x)
get-set [] i j y x e = inr e
get-set (z ∷ ws) zero zero y x e = inl (sym (some-injective y x e))
get-set (z ∷ ws) zero (suc j) y x e = inr e
get-set (z ∷ ws) (suc i) zero y x e = inr e
get-set (z ∷ ws) (suc i) (suc j) y x e = get-set ws i j y x e

none_returned : (n i : ℕ) → get_elem? (replicate n waiting) i ≡ some returned → ⊥
none_returned zero i e = cc
none_returned (suc n) zero e = distinct (some-injective waiting returned e)
  where
    distinct : waiting ≡ returned → ⊥
    distinct e = cc
none_returned (suc n) (suc i) e = none_returned n i e

idle : (n : ℕ) → in_progress (replicate n waiting) ≡ []
idle zero = refl
idle (suc n) = idle n

new_pool-Holds : (n : ℕ) → Holds [] [] [] (new_pool n)
unfolding new_pool
new_pool-Holds n =
    let k = if n == 0 then 1 else n in
    record {
      in_order = refl;
      once = rw (idle k) (Perm.refl []);
      over = λ i e. absurd (none_returned k i e);
      staffed = rw (length-replicate {A = Worker} k waiting) (ground arith);
    }

module _ (asked taken ran : List Work) (pool : Pool) (h : Holds asked taken ran pool) where
  queue_work-Holds :
      (w : Work) → pool.stop ≡ false → Holds (asked ++ w ∷ []) taken ran (queue_work pool w)
  unfolding queue_work
  queue_work-Holds w open_yet = record {
    in_order = ap (λ ts. ts ++ w ∷ []) h.in_order ∙ append_assoc taken pool.queue (w ∷ []);
    once = h.once;
    over = λ i e. let stopped_before = (h.over i e).0 in absurd (cc);
    staffed = h.staffed;
  }

  request_stop-Holds : Holds asked taken ran (request_stop pool)
  unfolding request_stop
  request_stop-Holds = record {
    in_order = h.in_order;
    once = h.once;
    over = λ i e. (refl, (h.over i e).1);
    staffed = h.staffed;
  }

  took-Holds :
      (i : ℕ) (w : Work) (rest : List Work)
      → get_elem? pool.threads i ≡ some waiting
      → next_work pool ≡ some (calling w, rest)
      → Holds asked
          (taken ++ w ∷ [])
          ran
          (record pool { threads = set pool.threads i (calling w); queue = rest })
  took-Holds i w rest here next =
      let front = next_work-calling pool.threads pool.queue pool.stop w rest next in
      let more = in_progress-set pool.threads i waiting (calling w) here in
      record {
        in_order = h.in_order ∙ rw front (sym (append_assoc taken (w ∷ []) rest));
        once = Perm.trans (Perm.append (Perm.refl ran) more) (
            Perm.trans (perm_middle {a = w} ran (in_progress pool.threads))
              (Perm.trans (Perm.cons w h.once) (Perm.symm (perm_append_singleton w taken))));
        over = λ j e. elim (get-set pool.threads i j (calling w) returned e) [
          | inl e' ↦ absurd (cc)
          | inr e' ↦ let bare = (h.over j e').1 in absurd (cc)
        ];
        staffed = rw (length-set pool.threads i (calling w)) h.staffed;
      }

  left-Holds :
      (i : ℕ) (rest : List Work)
      → get_elem? pool.threads i ≡ some waiting
      → next_work pool ≡ some (returned, rest)
      → Holds asked taken ran (record pool { threads = set pool.threads i returned; queue = rest })
  left-Holds i rest here next =
      let (bare, bare', stopped_before) =
        next_work-returned pool.threads pool.queue pool.stop rest next in
      record {
        in_order = h.in_order ∙ ap (◌++◌ taken) (bare ∙ sym bare');
        once =
            Perm.trans
              (Perm.append (Perm.refl ran) (in_progress-set pool.threads i waiting returned here))
              h.once;
        over = λ j e. (stopped_before, bare');
        staffed = rw (length-set pool.threads i returned) h.staffed;
      }

  called-Holds :
      (i : ℕ) (w : Work)
      → get_elem? pool.threads i ≡ some (calling w)
      → Holds asked taken (ran ++ w ∷ []) (record pool { threads = set pool.threads i waiting })
  called-Holds i w here = record {
    in_order = h.in_order;
    once =
        subst (λ ts. Perm ts taken)
          (sym (append_assoc ran (w ∷ []) (in_progress (set pool.threads i waiting))))
          (Perm.trans
            (Perm.append (Perm.refl ran) (in_progress-set pool.threads i (calling w) waiting here))
            h.once);
    over = λ j e. elim (get-set pool.threads i j waiting returned e) [
      | inl e' ↦ absurd (cc)
      | inr e' ↦ h.over j e'
    ];
    staffed = rw (length-set pool.threads i waiting) h.staffed;
  }

-- In every state that the threads reach, whatever their interleaving: the tasks queued are those
-- taken and then those in the queue, in the order in which they were queued; the tasks taken are
-- those whose call is over or in progress, each as often as it was queued; and a worker has
-- returned only once the pool is being destroyed and the queue is empty.
pub Reach-Holds :
    {n : ℕ} {asked taken ran : List Work} {pool : Pool}
    → Reach n asked taken ran pool
    → Holds asked taken ran pool
Reach-Holds {n} start = new_pool-Holds n
Reach-Holds (queued {asked} {taken} {ran} {pool} w r running) =
    queue_work-Holds asked taken ran pool (Reach-Holds r) w running
Reach-Holds (stopped {asked} {taken} {ran} {pool} r) =
    request_stop-Holds asked taken ran pool (Reach-Holds r)
Reach-Holds (took {asked} {taken} {ran} {pool} i w rest r here next) =
    took-Holds asked taken ran pool (Reach-Holds r) i w rest here next
Reach-Holds (left {asked} {taken} {ran} {pool} i rest r here next) =
    left-Holds asked taken ran pool (Reach-Holds r) i rest here next
Reach-Holds (called {asked} {taken} {ran} {pool} i w r here) =
    called-Holds asked taken ran pool (Reach-Holds r) i w here
