-- ===== src/ThreadPool.antt =====
-- The worker pool of include/threadpool/thread_pool.h and src/threadpool/thread_pool.cpp.
-- A task is the address of a function and of its argument. The mutex makes each locked section one
-- step; a worker that waits on the condition variable goes on in a step in which the condition
-- holds, and a wakeup without it, spurious or late, changes nothing.
pub mod Steps
pub mod Drains
mod Tests
use mini_redis.Base.{
  ℕ, zero, suc, ◌≡◌, Bool, true, false, List, [], ◌∷◌, ◌++◌, Option, none, some, get_elem?, set,
  replicate, is_empty, ◌==◌, if◌then◌else◌,
}

pub record Work : Type 0 where
  pub f : ℕ
  pub arg : ℕ

-- In or before the wait, in the call of a task, or returned from `worker_loop`.
pub data Worker : Type 0 where
  waiting : Worker
  calling : Work → Worker
  returned : Worker

pub record Pool : Type 0 where
  pub threads : List Worker
  pub queue : List Work
  pub stop : Bool

unfoldable pub new_pool : ℕ → Pool
new_pool num_threads = record {
  threads = replicate (if num_threads == 0 then 1 else num_threads) waiting;
  queue = [];
  stop = false;
}

-- `ThreadPool::queue`
unfoldable pub queue_work : Pool → Work → Pool
queue_work pool w = record pool { queue = pool.queue ++ w ∷ [] }

-- The locked section of the destructor.
unfoldable pub request_stop : Pool → Pool
request_stop pool = record pool { stop = true }

-- The locked section of `worker_loop`: `none` while the wait goes on, else what the worker does
-- next and the queue that it leaves.
unfoldable pub next_work : Pool → Option (Worker × List Work)
next_work pool = elim pool.queue [
  | [] ↦ if pool.stop then some (returned, []) else none
  | w ∷ rest ↦ some (calling w, rest)
]

-- The steps of the threads. The tasks queued, those taken and those whose call is over are kept in
-- order beside the pool. The owner queues nothing once it has begun to destroy the pool.
pub data Reach (num_threads : ℕ) : List Work → List Work → List Work → Pool → Type 0 where
  start : Reach num_threads [] [] [] (new_pool num_threads)
  queued :
      {asked taken ran : List Work} {pool : Pool} (w : Work)
      → Reach num_threads asked taken ran pool
      → pool.stop ≡ false
      → Reach num_threads (asked ++ w ∷ []) taken ran (queue_work pool w)
  stopped :
      {asked taken ran : List Work} {pool : Pool}
      → Reach num_threads asked taken ran pool
      → Reach num_threads asked taken ran (request_stop pool)
  took :
      {asked taken ran : List Work} {pool : Pool} (i : ℕ) (w : Work) (rest : List Work)
      → Reach num_threads asked taken ran pool
      → get_elem? pool.threads i ≡ some waiting
      → next_work pool ≡ some (calling w, rest)
      → Reach num_threads asked
          (taken ++ w ∷ [])
          ran
          (record pool { threads = set pool.threads i (calling w); queue = rest })
  left :
      {asked taken ran : List Work} {pool : Pool} (i : ℕ) (rest : List Work)
      → Reach num_threads asked taken ran pool
      → get_elem? pool.threads i ≡ some waiting
      → next_work pool ≡ some (returned, rest)
      → Reach num_threads asked taken ran
          (record pool { threads = set pool.threads i returned; queue = rest })
  called :
      {asked taken ran : List Work} {pool : Pool} (i : ℕ) (w : Work)
      → Reach num_threads asked taken ran pool
      → get_elem? pool.threads i ≡ some (calling w)
      → Reach num_threads asked taken
          (ran ++ w ∷ [])
          (record pool { threads = set pool.threads i waiting })

-- The destructor returns when it has joined all the workers.
abbrev pub AllReturned : List Worker → Type 0
AllReturned [] = Unit
AllReturned (returned ∷ ws) = AllReturned ws
AllReturned (waiting ∷ ws) = ⊥
AllReturned (calling w ∷ ws) = ⊥
