-- ===== src/ThreadPool/Safety.antt =====
-- ThreadPool_C_C++/C/threadPool.c: no thread reads a slot that was not written, writes outside the
-- ring, or leaves `threadIDs`.
use native.Mathlib.Nat.{mod-eq_of_lt, mod-lt}
use cpp_projects_learning.Common.{
  ℕ, zero, suc, ◌+◌, ◌-◌, ◌%◌, ◌≤◌, ◌<◌, ◌≡◌, ◌≢◌, inl, inr, refl, true, false, List, [], ◌∷◌,
  Option, none, some, arith, Bool-cases, length, get_elem?, set, length-set, length-replicate,
}
use cpp_projects_learning.ThreadPool.{
  Task, Pool, Worker, entering, waiting, exited, Manager, measured, ended, worker_test, worker_wake,
  worker_move, spawn, manager_move, max_threads, created, thread_pool_create, leaving, clear_id,
  thread_destroy, undefined, thread_pool_add,
}
use cpp_projects_learning.ThreadPool.Ring.{IsQueue, worker_test-IsQueue}
use cpp_projects_learning.ThreadPool.System.{System, Step, Reach, here, later, started}
use cpp_projects_learning.ThreadPool.Counters.{IsValid, Step-IsValid, started-IsValid}
use cpp_projects_learning.ThreadPool.Slots.{HasRear, Step-HasRear, thread_pool_add-ne-undefined}
use cpp_projects_learning.ThreadPool.Kept.{HasQueue, HasQueue-same, Step-HasQueue, max_kept}

-- No section that a thread can run has undefined behaviour.
pub record IsSafe (s : System) : Type 0 where
  pub workers_move :
      (i : ℕ) (w : Worker)
      → get_elem? s.workers i ≡ some w
      → worker_move (suc i) s.pool w ≡ none
      → w ≡ exited
  pub manager_moves :
      manager_move (suc (length s.workers)) s.pool s.manager ≡ none → s.manager ≡ ended
  pub callers_move : (task : Task) → thread_pool_add task s.pool ≢ undefined

worker_test-ne-none : (p : Pool) → HasQueue p → worker_test p ≢ none
worker_test-ne-none p h = elim (Bool-cases p.shutdown) [
  | inl off ↦ unfold worker_test in ground arith
  | inr on ↦
      let (ts, v) = h on in
      elim (worker_test-IsQueue p ts v on) [
        | inl (_, waits) ↦ ground arith
        | inr (_, _, _, (_, took, _)) ↦ ground arith
      ]
]

worker_wake-ne-none : (p : Pool) → HasQueue p → worker_wake p ≢ none
unfolding worker_wake
worker_wake-ne-none p h =
    let fewer = record p { exit_num = p.exit_num - 1 } in
    ground (
      arith,
      worker_test-ne-none p h,
      worker_test-ne-none fewer (HasQueue-same p fewer (ground arith) h),
    )

clear_id-ne-none : (n pid : ℕ) (ids : List ℕ) → n ≤ length ids → clear_id n pid ids ≢ none
unfolding clear_id
clear_id-ne-none zero pid ids h e = cc
clear_id-ne-none (suc n) pid [] h e = omega arith
clear_id-ne-none (suc n) pid (x ∷ ids) h e =
    ground (arith, clear_id-ne-none n pid ids (omega arith), e)

worker_move-exited :
    (pid : ℕ) (p : Pool) (w : Worker)
    → HasQueue p
    → p.max_num ≤ length p.thread_ids
    → worker_move pid p w ≡ none
    → w ≡ exited
unfolding worker_move thread_destroy
worker_move-exited pid p entering h n e = absurd (worker_test-ne-none p h e)
worker_move-exited pid p waiting h n e = absurd (worker_wake-ne-none p h e)
worker_move-exited pid p leaving h n e =
    ground (arith, clear_id-ne-none p.max_num pid p.thread_ids n)
worker_move-exited pid p exited h n e = refl
worker_move-exited pid p w h n e = cc

get_elem?-inside : (i : ℕ) (xs : List ℕ) → i < length xs → get_elem? xs i ≢ none
get_elem?-inside i [] h e = elim h [ ]
get_elem?-inside zero (x ∷ xs) h e = cc
get_elem?-inside (suc i) (x ∷ xs) h e = get_elem?-inside i xs (omega arith) e

spawn-ne-none :
    (rounds i counter from : ℕ) (p : Pool)
    → i + rounds ≤ length p.thread_ids
    → spawn rounds i counter from p ≢ none
unfolding spawn
spawn-ne-none zero i counter from p h e = cc
spawn-ne-none (suc rounds) i counter from p h e =
    let created = record p { thread_ids = set p.thread_ids i from; live_num = p.live_num + 1 } in
    let kept = length-set p.thread_ids i from in
    ground (
      arith,
      get_elem?-inside i p.thread_ids (omega arith),
      spawn-ne-none rounds (i + 1) counter from p (omega arith),
      spawn-ne-none rounds (i + 1) (counter + 1) (from + 1) created (omega (arith, kept)),
      e,
    )

manager_move-ended :
    (from : ℕ) (p : Pool) (m : Manager)
    → p.max_num ≤ length p.thread_ids
    → manager_move from p m ≡ none
    → m ≡ ended
unfolding manager_move
manager_move-ended from p (measured queue live busy) h e =
    ground (arith, spawn-ne-none p.max_num 0 0 from p (omega arith))
manager_move-ended from p ended h e = refl
manager_move-ended from p m h e = ground arith

record Sound (s : System) : Type 0 where
  valid : IsValid s
  queue : HasQueue s.pool
  rear : HasRear s.pool
  room : s.pool.max_num ≤ max_threads

Step-Sound : {s t : System} → Step s t → Sound s → Sound t
Step-Sound {s} {t} st h = record {
  valid = Step-IsValid st h.valid;
  queue = Step-HasQueue st h.queue;
  rear = Step-HasRear st h.rear;
  room = omega (arith, max_kept st h.valid, h.room);
}

Reach-Sound : {s t : System} → Sound s → Reach s t → Sound t
Reach-Sound h here = h
Reach-Sound h (later r st) = Step-Sound st (Reach-Sound h r)

Sound-IsSafe : {s : System} → Sound s → IsSafe s
Sound-IsSafe {s} h = record {
  workers_move =
      λ i w at. worker_move-exited (suc i) s.pool w h.queue (omega (arith, h.room, h.valid.ids));
  manager_moves =
      manager_move-ended (suc (length s.workers)) s.pool s.manager
        (omega (arith, h.room, h.valid.ids));
  callers_move = λ task. thread_pool_add-ne-undefined task s.pool h.rear;
}

started-IsQueue :
    (min_num max_num size : ℕ) (p : Pool)
    → thread_pool_create true true true true min_num max_num size ≡ created p
    → 0 < size
    → IsQueue p []
unfolding thread_pool_create
started-IsQueue min_num max_num size p made n =
    let zero_slot : 0 % size ≡ 0 = mod-eq_of_lt n in
    let none_slots = length-replicate {A = Option Task} size none in
    record {
      slots = ground (arith, none_slots);
      front = ground arith;
      rear = ground (arith, zero_slot);
      size = ground arith;
      bounded = ground arith;
      holds = tt;
    }

started-Sound :
    (min_num max_num size : ℕ) (p : Pool)
    → thread_pool_create true true true true min_num max_num size ≡ created p
    → min_num ≤ max_num
    → max_num ≤ max_threads
    → 0 < size
    → Sound (started p)
started-Sound min_num max_num size p made le few n = record {
  valid = started-IsValid min_num max_num size p made le;
  queue = λ on. ([], started-IsQueue min_num max_num size p made n);
  rear =
      let v = started-IsQueue min_num max_num size p made n in
      record {
        rear = rw v.rear (mod-lt (p.queue_front + p.queue_size) (omega (arith, v.front)));
        slots = v.slots;
      };
  room = unfold thread_pool_create in ground arith;
}

-- In whatever order the sections of workers, manager and callers run after a successful
-- `threadPoolCreate` with a ring of at least one slot and `minNum` ≤ `maxNum` ≤ 100, before the shutdown
-- and after it, as long as the memory of the pool is there: every worker that has not ended can make its
-- next move, so it never takes a task from a slot that was not written and never looks behind the end of
-- `threadIDs`. So can the manager, which never looks behind that end either. A caller of `threadPoolAdd`,
-- whose call is one move after the shutdown too, never writes outside the ring.
pub thread_pool_create-IsSafe :
    (min_num max_num size : ℕ) (p : Pool) (s : System)
    → thread_pool_create true true true true min_num max_num size ≡ created p
    → min_num ≤ max_num
    → max_num ≤ max_threads
    → 0 < size
    → Reach (started p) s
    → IsSafe s
thread_pool_create-IsSafe min_num max_num size p s made le few n r =
    Sound-IsSafe (Reach-Sound (started-Sound min_num max_num size p made le few n) r)

-- In whatever order the sections of workers, manager and callers run after a successful
-- `threadPoolCreate` with a ring of at least one slot and `minNum` ≤ `maxNum` ≤ 100, the ring holds
-- a queue of tasks, in order and no more than its capacity, as long as the pool is not shut down.
pub thread_pool_create-HasQueue :
    (min_num max_num size : ℕ) (p : Pool) (s : System)
    → thread_pool_create true true true true min_num max_num size ≡ created p
    → min_num ≤ max_num
    → max_num ≤ max_threads
    → 0 < size
    → Reach (started p) s
    → s.pool.shutdown ≡ false
    → (ts : List Task) × IsQueue s.pool ts
thread_pool_create-HasQueue min_num max_num size p s made le few n r on =
    (Reach-Sound (started-Sound min_num max_num size p made le few n) r).queue on
