-- ===== src/ThreadPool/Tests.antt =====
-- A run of the pool and the instances of its theorems.
use mathlib.Core.List.{Perm}
use mini_redis.Base.{◌≡◌, refl, true, List, [], ◌∷◌}
use mini_redis.ThreadPool.{
  Work, calling, returned, Pool, new_pool, queue_work, request_stop, next_work, Reach, start,
  queued, stopped, took, left, called,
}
use mini_redis.ThreadPool.Steps.{Holds, Reach-Holds}
use mini_redis.ThreadPool.Drains.{joined-ran}

program : Unit {0}
unfolding new_pool queue_work request_stop next_work
program = tt

abbrev first : Work
first = record { f = 1; arg = 10 }

abbrev second : Work
second = record { f = 1; arg = 20 }

abbrev both : List Work
both = first ∷ second ∷ []

abbrev stopping : Pool
stopping = record { threads = calling first ∷ []; queue = second ∷ []; stop = true }

abbrev joined : Pool
joined = record { threads = returned ∷ []; queue = []; stop = true }

-- A pool of no threads has one. It is destroyed while its worker calls the first of two tasks.
to_stopping : Reach 0 both (first ∷ []) [] stopping
unfolding program
to_stopping = stopped (queued second (took 0 first [] (queued first start refl) refl refl) refl)

to_joined : Reach 0 both both both joined
unfolding program
to_joined =
    left 0 [] (called 0 second (took 0 second [] (called 0 first to_stopping refl) refl refl) refl)
      refl refl

Reach-Holds_example : Holds both (first ∷ []) [] stopping
Reach-Holds_example = Reach-Holds to_stopping

joined-ran_example : (joined.stop ≡ true) × (joined.queue ≡ []) × (both ≡ both) × Perm both both
joined-ran_example = joined-ran to_joined tt
