-- ===== src/ThreadPool.antt =====
-- ThreadPool_C_C++/C/threadPool.c: the pool, its ring of tasks, and what each thread does in one
-- critical section. `System` puts the sections of all threads together.
pub mod Ring
pub mod System
pub mod Counters
pub mod Safety
pub mod Kept
pub mod Slots
mod Tests
use cpp_projects_learning.Common.{
  ℕ, zero, suc, ◌+◌, ◌-◌, ◌*◌, ◌%◌, ◌≡◌, Bool, true, false, not, ◌&&◌, ◌||◌, List, [], ◌∷◌, Option,
  none, some, ltb, leb, ◌==◌, if◌then◌else◌, length, get_elem?, set, replicate,
}

-- `struct Task`: a function and its argument, by their addresses.
pub record Task : Type 0 where
  pub function : ℕ
  pub arg : ℕ

-- `struct ThreadPool` without the mutexes and conditions. A slot of `taskQ` that was never written
-- is `none`; a free entry of `threadIDs` is 0. The counters are never negative.
pub record Pool : Type 0 where
  pub task_q : List (Option Task)
  pub queue_capacity : ℕ
  pub queue_size : ℕ
  pub queue_front : ℕ
  pub queue_rear : ℕ
  pub thread_ids : List ℕ
  pub min_num : ℕ
  pub max_num : ℕ
  pub busy_num : ℕ
  pub live_num : ℕ
  pub exit_num : ℕ
  pub shutdown : Bool

-- `const int max`, the length of `threadIDs`, and `const int NUMBER`.
abbrev pub max_threads : ℕ
max_threads = 100

abbrev pub number : ℕ
number = 2

-- Where a thread that runs `worker` stands between two critical sections.
pub data Worker : Type 0 where
  entering : Worker
  waiting : Worker
  taken running : Task → Worker
  ran : Worker
  leaving : Worker
  exited : Worker

-- The task at the front leaves the ring. `none` if that slot was never written.
unfoldable pub take_task : Pool → Option (Pool × Task)
take_task p = elim (get_elem? p.task_q p.queue_front) [
  | some (some task) ↦ some (
    record p {
      queue_front = (p.queue_front + 1) % p.queue_capacity;
      queue_size = p.queue_size - 1;
    },
    task,
  )
  | _ ↦ none
]

abbrev pub start_task : Option (Pool × Task) → Option (Pool × Worker)
start_task none = none
start_task (some (p, task)) = some (p, taken task)

-- With the lock held, from the test of the inner `while` on.
unfoldable pub worker_test : Pool → Option (Pool × Worker)
unfolding take_task
worker_test p =
    if p.queue_size == 0 && not p.shutdown
    then some (p, waiting)
    else if p.shutdown
    then some (p, leaving)
    else start_task (take_task p)

-- Behind `pthread_cond_wait`: the thread may be one that is to end.
unfoldable pub worker_wake : Pool → Option (Pool × Worker)
unfolding worker_test
worker_wake p =
    if ltb 0 p.exit_num
    then (let q = record p { exit_num = p.exit_num - 1 } in
        if ltb q.min_num q.live_num
        then some (record q { live_num = q.live_num - 1 }, leaving)
        else worker_test q)
    else worker_test p

abbrev pub with_head : ℕ → Option (List ℕ) → Option (List ℕ)
with_head x none = none
with_head x (some ids) = some (x ∷ ids)

-- `threadDestroy`: the first entry that holds the thread's id is freed, of the first `n`. `none` is
-- a read behind the end of `threadIDs`.
unfoldable pub clear_id : ℕ → ℕ → List ℕ → Option (List ℕ)
clear_id zero pid ids = some ids
clear_id (suc n) pid [] = none
clear_id (suc n) pid (x ∷ ids) =
    let later = with_head x (clear_id n pid ids) in if x == pid then some (0 ∷ ids) else later

abbrev pub with_ids : Pool → Option (List ℕ) → Option Pool
with_ids p none = none
with_ids p (some ids) = some (record p { thread_ids = ids })

unfoldable pub thread_destroy : ℕ → Pool → Option Pool
unfolding clear_id
thread_destroy pid p = with_ids p (clear_id p.max_num pid p.thread_ids)

abbrev pub then_exited : Option Pool → Option (Pool × Worker)
then_exited none = none
then_exited (some p) = some (p, exited)

-- One section of `worker`, run by the thread `pid`.
unfoldable pub worker_move : ℕ → Pool → Worker → Option (Pool × Worker)
unfolding worker_test worker_wake thread_destroy
worker_move pid p entering = worker_test p
worker_move pid p waiting = worker_wake p
worker_move pid p (taken task) = some (record p { busy_num = p.busy_num + 1 }, running task)
worker_move pid p (running task) = some (p, ran)
worker_move pid p ran = some (record p { busy_num = p.busy_num - 1 }, entering)
worker_move pid p leaving = then_exited (thread_destroy pid p)
worker_move pid p exited = none

-- Where the manager stands: at the loop's test, in its sleep, with the numbers it has read, or at its
-- end.
pub data Manager : Type 0 where
  checking asleep : Manager
  counted : ℕ → ℕ → Manager
  measured : ℕ → ℕ → ℕ → Manager
  grown : ℕ → ℕ → Manager
  ended : Manager

abbrev pub with_id : ℕ → Option (Pool × List ℕ) → Option (Pool × List ℕ)
with_id id none = none
with_id id (some (p, ids)) = some (p, id ∷ ids)

-- `if(pool -> threadIDs[i] == 0)`, on the entry that was read.
abbrev pub if_stored {ℓ} : {A : Type ℓ} → Option ℕ → Option A → Option A → Option A
if_stored none free used = none
if_stored (some id) free used = if id == 0 then free else used

-- The loop that adds threads: `rounds` entries from `i` on are left. `pthread_create` gives the
-- ids `next`, `next + 1`, ...; the list holds those that were used. `none` is an access behind the
-- end of `threadIDs`.
unfoldable pub spawn : ℕ → ℕ → ℕ → ℕ → Pool → Option (Pool × List ℕ)
spawn zero i counter next p = some (p, [])
spawn (suc rounds) i counter next p =
    let created = record p { thread_ids = set p.thread_ids i next; live_num = p.live_num + 1 } in
    let skipped = spawn rounds (i + 1) counter next p in
    let added = with_id next (spawn rounds (i + 1) (counter + 1) (next + 1) created) in
    if ltb counter number && ltb p.live_num p.max_num
    then if_stored (get_elem? p.thread_ids i) added skipped
    else some (p, [])

abbrev pub with_manager : Manager → Option (Pool × List ℕ) → Option (Pool × Manager × List ℕ)
with_manager m none = none
with_manager m (some (p, ids)) = some (p, m, ids)

-- One section of `manager`, or its test of `shutdown`, which takes no lock; the threads that it
-- starts have the ids in the list.
unfoldable pub manager_move : ℕ → Pool → Manager → Option (Pool × Manager × List ℕ)
unfolding spawn
manager_move next p checking = some (p, (if p.shutdown then ended else asleep), [])
manager_move next p asleep = some (p, counted p.queue_size p.live_num, [])
manager_move next p (counted queue live) = some (p, measured queue live p.busy_num, [])
manager_move next p (measured queue live busy) =
    let adding = with_manager (grown live busy) (spawn p.max_num 0 0 next p) in
    if ltb live queue && ltb live p.max_num then adding else some (p, grown live busy, [])
manager_move next p (grown live busy) =
    if ltb (busy * 2) live && ltb p.min_num live
    then some (record p { exit_num = number }, checking, [])
    else some (p, checking, [])
manager_move next p ended = none

-- The end of `threadPoolAdd`, which also runs when the pool is shut down, then without the mutex; it
-- is one move here in both cases.
unfoldable pub put_task : Task → Pool → Pool
put_task task p = record p {
  task_q = set p.task_q p.queue_rear (some task);
  queue_rear = (p.queue_rear + 1) % p.queue_capacity;
  queue_size = p.queue_size + 1;
}

-- What a caller of `threadPoolAdd` that has the lock finds.
pub data Added : Type 0 where
  added : Pool → Added
  waits : Added
  undefined : Added

-- `threadPoolAdd`: the caller has to wait, or writes to `taskQ[queueRear]` and divides by the
-- capacity.
unfoldable pub thread_pool_add : Task → Pool → Added
unfolding put_task
thread_pool_add task p =
    if p.queue_size == p.queue_capacity && not p.shutdown
    then waits
    else if ltb p.queue_rear (length p.task_q) && ltb 0 p.queue_capacity
    then added (put_task task p)
    else undefined

-- The ids that the first threads get, and the entries that they stand in.
abbrev pub first_ids : ℕ → ℕ → List ℕ
first_ids zero next = []
first_ids (suc n) next = next ∷ first_ids n (next + 1)

abbrev pub store_ids : List ℕ → ℕ → List ℕ → List ℕ
store_ids [] i ids = ids
store_ids (x ∷ xs) i ids = store_ids xs (i + 1) (set ids i x)

pub data Created : Type 0 where
  created : Pool → Created
  null_pointer : Created
  frees_garbage : Created
  writes_outside : Created

-- `threadPoolCreate`, by whether the pool, its ids, the mutexes and conditions, and `taskQ` could be
-- made. On the error path `taskQ` was not set yet, and is given to `free` if the pool exists. That
-- `taskQ` could not be made is not tested: it then has no slot. More than 100 first threads are
-- written behind the end of `threadIDs`.
unfoldable pub thread_pool_create : Bool → Bool → Bool → Bool → ℕ → ℕ → ℕ → Created
thread_pool_create pool_made ids_made sync_made tasks_made min_num max_num queue_size =
    if not pool_made
    then null_pointer
    else if not (ids_made && sync_made)
    then frees_garbage
    else if ltb max_threads min_num
    then writes_outside
    else created (record {
      task_q = if tasks_made then replicate queue_size none else [];
      queue_capacity = queue_size;
      queue_size = 0;
      queue_front = 0;
      queue_rear = 0;
      thread_ids = store_ids (first_ids min_num 1) 0 (replicate max_threads 0);
      min_num = min_num;
      max_num = max_num;
      busy_num = 0;
      live_num = min_num;
      exit_num = 0;
      shutdown = false;
    })

-- The first statement of `threadPoolDestroy`.
unfoldable pub begin_shutdown : Pool → Pool
begin_shutdown p = record p { shutdown = true }

-- `threadPoolBusyNum` and `threadPoolAliveNum`.
abbrev pub thread_pool_busy_num : Pool → ℕ
thread_pool_busy_num p = p.busy_num

abbrev pub thread_pool_alive_num : Pool → ℕ
thread_pool_alive_num p = p.live_num
