-- ===== src/ThreadPool/Slots.antt =====
-- ThreadPool_C_C++/C/threadPool.c: the rear of the ring, before and after the shutdown.
use cpp_projects_learning.Common.{
  ℕ, suc, ◌+◌, ◌-◌, ◌<◌, ◌≡◌, ◌≢◌, inl, inr, ◌∙◌, some, arith, Option-cases, length, length-set,
}
use cpp_projects_learning.ThreadPool.{
  Task, Pool, Worker, entering, waiting, leaving, exited, take_task, worker_test, worker_wake,
  clear_id, thread_destroy, worker_move, put_task, thread_pool_add, undefined, begin_shutdown,
}
use cpp_projects_learning.ThreadPool.System.{System, Step, works, manages, adds, shuts_down}
use cpp_projects_learning.ThreadPool.Kept.{manager_move-SameRing}
use native.Mathlib.Nat.{mod-lt}

-- The rear is one of the slots, and there are as many as the capacity.
pub record HasRear (p : Pool) : Type 0 where
  pub rear : p.queue_rear < p.queue_capacity
  pub slots : length p.task_q ≡ p.queue_capacity

-- What only `threadPoolAdd` changes.
pub record SameRear (p q : Pool) : Type 0 where
  pub tasks : q.task_q ≡ p.task_q
  pub capacity : q.queue_capacity ≡ p.queue_capacity
  pub rear : q.queue_rear ≡ p.queue_rear

SameRear-HasRear : (p q : Pool) → SameRear p q → HasRear p → HasRear q
SameRear-HasRear p q s h = record {
  rear = rw (s.rear, s.capacity) h.rear;
  slots = rw (s.tasks, s.capacity) h.slots;
}

worker_test-SameRear : (p q : Pool) (w : Worker) → worker_test p ≡ some (q, w) → SameRear p q
unfolding worker_test take_task
worker_test-SameRear p q w e = ground arith

worker_wake-SameRear : (p q : Pool) (w : Worker) → worker_wake p ≡ some (q, w) → SameRear p q
unfolding worker_wake
worker_wake-SameRear p q w e = ground (
  arith,
  worker_test-SameRear p q w,
  worker_test-SameRear (record p { exit_num = p.exit_num - 1 }) q w,
)

worker_move-SameRear :
    (pid : ℕ) (p q : Pool) (w w' : Worker) → worker_move pid p w ≡ some (q, w') → SameRear p q
unfolding worker_move thread_destroy
worker_move-SameRear pid p q entering w' e = worker_test-SameRear p q w' e
worker_move-SameRear pid p q waiting w' e = worker_wake-SameRear p q w' e
worker_move-SameRear pid p q leaving w' e =
    elim (Option-cases (clear_id p.max_num pid p.thread_ids)) [
      | inl outside ↦ ground arith
      | inr (ids, found) ↦ ground arith
    ]
worker_move-SameRear pid p q exited w' e = cc
worker_move-SameRear pid p q w w' e = ground arith

put_task-HasRear : (task : Task) (p : Pool) → HasRear p → HasRear (put_task task p)
unfolding put_task
put_task-HasRear task p h = record {
  rear = mod-lt (p.queue_rear + 1) (omega (arith, h.rear));
  slots = length-set p.task_q p.queue_rear (some task) ∙ h.slots;
}

pub Step-HasRear : {s t : System} → Step s t → HasRear s.pool → HasRear t.pool
Step-HasRear {s} (works {w = w} {w' = w'} {p' = q} i at e) h =
    SameRear-HasRear s.pool q (worker_move-SameRear (suc i) s.pool q w w' e) h
Step-HasRear {s} (manages {p' = q} {m' = m'} {ids = ids} e) h =
    let r = manager_move-SameRing _ s.pool q s.manager m' ids e in
    SameRear-HasRear s.pool q (record { tasks = r.tasks; capacity = r.capacity; rear = r.rear }) h
Step-HasRear {s} (adds {p' = q} task e) h =
    let put = put_task-HasRear task s.pool h in unfold thread_pool_add in ground arith
Step-HasRear {s} shuts_down h = unfold begin_shutdown in record { rear = h.rear; slots = h.slots }

pub thread_pool_add-ne-undefined :
    (task : Task) (p : Pool) → HasRear p → thread_pool_add task p ≢ undefined
unfolding thread_pool_add
thread_pool_add-ne-undefined task p h = ground (arith, h.rear, h.slots)
