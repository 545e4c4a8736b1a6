-- ===== src/ThreadPool/Drains.antt =====
-- The destructor: what has happened by the time all the workers are joined.
use mathlib.Core.List.{Perm, append-nil}
use mathlib.Core.Path.{subst}
use mini_redis.Base.{
  ℕ, ◌<◌, ◌≡◌, refl, sym, ap, ◌∙◌, true, List, [], ◌∷◌, ◌++◌, some, arith, length, get_elem?,
}
use mini_redis.ThreadPool.{Work, Worker, waiting, calling, returned, Pool, Reach, AllReturned}
use mini_redis.ThreadPool.Steps.{in_progress, Reach-Holds}

nothing_left : (ws : List Worker) → AllReturned ws → in_progress ws ≡ []
nothing_left [] all = refl
nothing_left (returned ∷ ws) all = nothing_left ws all
nothing_left (waiting ∷ ws) all = absurd all
nothing_left (calling w ∷ ws) all = absurd all

first_returned :
    (ws : List Worker) → 0 < length ws → AllReturned ws → get_elem? ws 0 ≡ some returned
first_returned [] some_worker all = absurd (omega arith)
first_returned (returned ∷ ws) some_worker all = refl
first_returned (waiting ∷ ws) some_worker all = absurd all
first_returned (calling w ∷ ws) some_worker all = absurd all

-- When all the workers are joined, as the destructor waits for, the pool was stopped, no task is in
-- the queue, the tasks were taken in the order in which they were queued, and the call of each is
-- over, each as often as it was queued.
pub joined-ran :
    {n : ℕ} {asked taken ran : List Work} {pool : Pool}
    → Reach n asked taken ran pool
    → AllReturned pool.threads
    → (pool.stop ≡ true) × (pool.queue ≡ []) × (taken ≡ asked) × Perm ran asked
joined-ran {n} {asked} {taken} {ran} {pool} r all =
    let h = Reach-Holds r in
    let (stopped_before, bare) = h.over 0 (first_returned pool.threads h.staffed all) in
    let order : asked ≡ taken = h.in_order ∙ ap (◌++◌ taken) bare ∙ append-nil taken in
    let over : ran ++ in_progress pool.threads ≡ ran =
      ap (◌++◌ ran) (nothing_left pool.threads all) ∙ append-nil ran in
    (
      stopped_before,
      bare,
      sym order,
      subst (λ ts. Perm ran ts) (sym order) (subst (λ ts. Perm ts taken) over h.once),
    )
