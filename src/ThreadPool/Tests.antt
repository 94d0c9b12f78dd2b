-- ===== src/ThreadPool/Tests.antt =====
-- ThreadPool_C_C++/C/threadPool.c: a pool of one worker and a ring of one slot, and its first steps.
use cpp_projects_learning.Common.{
  ℕ, ◌<◌, ◌≡◌, ◌⊎◌, refl, true, false, List, [], ◌∷◌, none, some, arith, length, get_elem?,
  replicate,
}
use cpp_projects_learning.ThreadPool.{
  Task, Pool, entering, waiting, taken, thread_pool_create, created, added, waits, thread_pool_add,
  worker_test, worker_move, take_task, begin_shutdown, put_task, max_threads, first_ids, store_ids,
}
use cpp_projects_learning.ThreadPool.Ring.{
  IsQueue, thread_pool_add-IsQueue, worker_test-IsQueue, thread_pool_add_after_shutdown,
}
use cpp_projects_learning.ThreadPool.System.{System, Reach, here, later, adds, works, started}
use cpp_projects_learning.ThreadPool.Safety.{
  IsSafe, thread_pool_create-IsSafe, thread_pool_create-HasQueue,
}

abbrev job : ℕ → Task
job n = record { function = 100; arg = n }

-- What `threadPoolCreate(1, 3, 1)` returns.
abbrev fresh_pool : Pool
fresh_pool = record {
  task_q = none ∷ [];
  queue_capacity = 1;
  queue_size = 0;
  queue_front = 0;
  queue_rear = 0;
  thread_ids = store_ids (first_ids 1 1) 0 (replicate max_threads 0);
  min_num = 1;
  max_num = 3;
  busy_num = 0;
  live_num = 1;
  exit_num = 0;
  shutdown = false;
}

fresh_pool-created : thread_pool_create true true true true 1 3 1 ≡ created fresh_pool
unfolding thread_pool_create
fresh_pool-created = refl

abbrev full_pool : Pool
full_pool = record fresh_pool { task_q = some (job 7) ∷ []; queue_size = 1 }

-- A task is added, and the worker takes it.
abbrev one_added : System
one_added = record (started fresh_pool) { pool = full_pool }

abbrev busy : System
busy = record one_added { pool = record full_pool { queue_size = 0 }; workers = taken (job 7) ∷ [] }

add_step : thread_pool_add (job 7) fresh_pool ≡ added full_pool
unfolding thread_pool_add put_task
add_step = refl

take_step : worker_move 1 full_pool entering ≡ some (busy.pool, taken (job 7))
unfolding worker_move worker_test take_task
take_step = refl

run : Reach (started fresh_pool) busy
run = later (later here (adds (job 7) add_step)) (works 0 refl take_step)

full_pool-IsQueue : IsQueue full_pool (job 7 ∷ [])
full_pool-IsQueue = record {
  slots = refl;
  front = omega arith;
  rear = refl;
  size = refl;
  bounded = omega arith;
  holds = (refl, tt);
}

thread_pool_add-IsQueue_example :
    ((length (job 7 ∷ []) ≡ full_pool.queue_capacity) × (thread_pool_add (job 8) full_pool ≡ waits))
    ⊎ ((length (job 7 ∷ []) < full_pool.queue_capacity)
        × ((q : Pool) × (thread_pool_add (job 8) full_pool ≡ added q)
            × IsQueue q (job 7 ∷ job 8 ∷ [])
            × (q.shutdown ≡ false)))
thread_pool_add-IsQueue_example =
    thread_pool_add-IsQueue full_pool (job 7 ∷ []) (job 8) full_pool-IsQueue refl

worker_test-IsQueue_example :
    ((job 7 ∷ [] ≡ []) × (worker_test full_pool ≡ some (full_pool, waiting)))
    ⊎ ((task : Task) × (rest : List Task) × (job 7 ∷ [] ≡ task ∷ rest)
        × ((q : Pool) × (worker_test full_pool ≡ some (q, taken task)) × IsQueue q rest))
worker_test-IsQueue_example = worker_test-IsQueue full_pool (job 7 ∷ []) full_pool-IsQueue refl

thread_pool_add_after_shutdown_example :
    (q : Pool) × (thread_pool_add (job 8) (begin_shutdown full_pool) ≡ added q)
    × (some (some (job 7)) ≡ some (some (job 7)))
    × (get_elem? q.task_q q.queue_front ≡ some (some (job 8)))
    × (q.queue_capacity < q.queue_size)
thread_pool_add_after_shutdown_example =
    thread_pool_add_after_shutdown full_pool (job 7) [] (job 8) full_pool-IsQueue refl

thread_pool_create-IsSafe_example : IsSafe busy
thread_pool_create-IsSafe_example =
    thread_pool_create-IsSafe 1 3 1 fresh_pool busy fresh_pool-created (omega arith) (omega arith)
      (omega arith) run

thread_pool_create-HasQueue_example : (ts : List Task) × IsQueue busy.pool ts
thread_pool_create-HasQueue_example =
    thread_pool_create-HasQueue 1 3 1 fresh_pool busy fresh_pool-created (omega arith) (omega arith)
      (omega arith) run refl
