-- ===== src/ThreadPool/Kept.antt =====
-- ThreadPool_C_C++/C/threadPool.c: the moves of the threads keep the ring a queue until the shutdown.
use cpp_projects_learning.Common.{
  ℕ, zero, suc, ◌+◌, ◌-◌, ◌≡◌, inl, inr, refl, sym, ap, ◌∙◌, false, List, [], ◌∷◌, ◌++◌, Option,
  none, some, arith, ltb, Bool-cases, Option-cases, set, subst,
}
use cpp_projects_learning.ThreadPool.{
  Task, Pool, Worker, entering, waiting, taken, exited, Manager, measured, worker_test, worker_wake,
  thread_destroy, worker_move, spawn, manager_move, thread_pool_add, begin_shutdown,
}
use cpp_projects_learning.ThreadPool.Ring.{
  HoldsFrom, IsQueue, thread_pool_add-IsQueue, worker_test-IsQueue,
}
use cpp_projects_learning.ThreadPool.System.{System, Step, works, manages, adds, shuts_down}
use cpp_projects_learning.ThreadPool.Counters.{
  IsValid, worker_test-Moves, worker_move-Moves, manager_move-Spawns, is_busy, le-total,
}

-- The fields of the ring are the same, and so is `shutdown`.
pub record SameRing (p q : Pool) : Type 0 where
  pub tasks : q.task_q ≡ p.task_q
  pub capacity : q.queue_capacity ≡ p.queue_capacity
  pub size : q.queue_size ≡ p.queue_size
  pub front : q.queue_front ≡ p.queue_front
  pub rear : q.queue_rear ≡ p.queue_rear
  pub on : q.shutdown ≡ p.shutdown

pub HoldsFrom-same :
    (p q : Pool) (k : ℕ) (ts : List Task) → SameRing p q → HoldsFrom p k ts → HoldsFrom q k ts
HoldsFrom-same p q k [] r h = tt
HoldsFrom-same p q k (t ∷ ts) r h =
    (rw (r.tasks, r.front, r.capacity) h.0, HoldsFrom-same p q (suc k) ts r h.1)

pub IsQueue-same : (p q : Pool) (ts : List Task) → SameRing p q → IsQueue p ts → IsQueue q ts
IsQueue-same p q ts r v = record {
  slots = rw (r.tasks, r.capacity) v.slots;
  front = rw (r.front, r.capacity) v.front;
  rear = rw (r.rear, r.front, r.size, r.capacity) v.rear;
  size = rw r.size v.size;
  bounded = rw (r.size, r.capacity) v.bounded;
  holds = HoldsFrom-same p q 0 ts r v.holds;
}

-- While the pool runs, its ring is a queue.
abbrev pub HasQueue : Pool → Type 0
HasQueue p = p.shutdown ≡ false → (ts : List Task) × IsQueue p ts

pub HasQueue-same : (p q : Pool) → SameRing p q → HasQueue p → HasQueue q
HasQueue-same p q r h on = let (ts, v) = h (sym r.on ∙ on) in (ts, IsQueue-same p q ts r v)

pub same :
    (p q : Pool) (w w' : Worker)
    → ◌≡◌ {A = Option (Pool × Worker)} (some (p, w)) (some (q, w'))
    → p ≡ q
same p q w w' e = ap (λ o. elim o [ none ↦ p | some (x, y) ↦ x ]) e

pub worker_test-HasQueue :
    (p q : Pool) (w : Worker) → worker_test p ≡ some (q, w) → HasQueue p → HasQueue q
worker_test-HasQueue p q w e h on =
    let kept = worker_test-Moves p q entering w refl refl e in
    let on' : p.shutdown ≡ false = sym kept.keeps.shutdown_kept ∙ on in
    let (ts, v) = h on' in
    elim (worker_test-IsQueue p ts v on') [
      | inl (_, wait) ↦ (ts, subst (λ x. IsQueue x ts) (same p q waiting w (sym wait ∙ e)) v)
      | inr (t, rest, _, (r, took, v')) ↦
          (rest, subst (λ x. IsQueue x rest) (same r q (taken t) w (sym took ∙ e)) v')
    ]

pub worker_wake-HasQueue :
    (p q : Pool) (w : Worker) → worker_wake p ≡ some (q, w) → HasQueue p → HasQueue q
unfolding worker_wake
worker_wake-HasQueue p q w e h =
    let fewer = record p { exit_num = p.exit_num - 1 } in
    let h' = HasQueue-same p fewer (ground arith) h in
    elim (Bool-cases (ltb 0 p.exit_num)) [
      | inr none_to_go ↦
          let e' : worker_test p ≡ some (q, w) = ground arith in worker_test-HasQueue p q w e' h
      | inl some_to_go ↦ elim (Bool-cases (ltb p.min_num p.live_num)) [
        | inl spare ↦ HasQueue-same p q (ground arith) h
        | inr needed ↦
            let e' : worker_test fewer ≡ some (q, w) = ground arith in
            worker_test-HasQueue fewer q w e' h'
      ]
    ]

pub worker_move-HasQueue :
    (pid : ℕ) (p q : Pool) (w w' : Worker)
    → worker_move pid p w ≡ some (q, w')
    → HasQueue p
    → HasQueue q
unfolding worker_move thread_destroy
worker_move-HasQueue pid p q entering w' e h = worker_test-HasQueue p q w' e h
worker_move-HasQueue pid p q waiting w' e h = worker_wake-HasQueue p q w' e h
worker_move-HasQueue pid p q exited w' e h = cc
worker_move-HasQueue pid p q w w' e h = HasQueue-same p q (ground arith) h

pub spawn-SameRing :
    (rounds i counter from : ℕ) (p q : Pool) (ids : List ℕ)
    → spawn rounds i counter from p ≡ some (q, ids)
    → SameRing p q
unfolding spawn
spawn-SameRing zero i counter from p q ids e = ground arith
spawn-SameRing (suc rounds) i counter from p q ids e =
    let created = record p { thread_ids = set p.thread_ids i from; live_num = p.live_num + 1 } in
    elim (Option-cases (spawn rounds (i + 1) (counter + 1) (from + 1) created)) [
      | inl none_left ↦ ground (arith, spawn-SameRing rounds (i + 1) counter from p q ids)
      | inr ((r, more), found) ↦ ground (
        arith,
        spawn-SameRing rounds (i + 1) counter from p q ids,
        spawn-SameRing rounds (i + 1) (counter + 1) (from + 1) created r more found,
      )
    ]

pub manager_move-SameRing :
    (from : ℕ) (p q : Pool) (m m' : Manager) (ids : List ℕ)
    → manager_move from p m ≡ some (q, m', ids)
    → SameRing p q
unfolding manager_move
manager_move-SameRing from p q (measured queue live busy) m' ids e =
    elim (Option-cases (spawn p.max_num 0 0 from p)) [
      | inl stopped ↦ ground arith
      | inr ((r, more), found) ↦ ground (arith, spawn-SameRing p.max_num 0 0 from p r more found)
    ]
manager_move-SameRing from p q m m' ids e = ground arith

pub Step-HasQueue : {s t : System} → Step s t → HasQueue s.pool → HasQueue t.pool
Step-HasQueue {s} (works {w = w} {w' = w'} {p' = q} i at e) h on =
    worker_move-HasQueue (suc i) s.pool q w w' e h on
Step-HasQueue {s} (manages {p' = q} {m' = m'} {ids = ids} e) h on =
    HasQueue-same s.pool q (manager_move-SameRing _ s.pool q s.manager m' ids e) h on
Step-HasQueue {s} (adds {p' = q} task e) h on =
    let on' : s.pool.shutdown ≡ false = unfold thread_pool_add in ground arith in
    let (ts, v) = h on' in
    elim (thread_pool_add-IsQueue s.pool ts task v on') [
      | inl (_, wait) ↦ absurd (ground arith)
      | inr (_, (r, put, v', _)) ↦
          (ts ++ task ∷ [], subst (λ x. IsQueue x (ts ++ task ∷ [])) (ground arith) v')
    ]
Step-HasQueue shuts_down h on = unfold begin_shutdown in cc

pub max_kept : {s t : System} → Step s t → IsValid s → t.pool.max_num ≡ s.pool.max_num
max_kept {s} (works {w = w} {w' = w'} {p' = q} i at e) v =
    let one = le-total is_busy s.workers i w at in
    (worker_move-Moves (suc i) s.pool q w w' (omega (arith, v.busy)) e).keeps.max_kept
max_kept {s} (manages {p' = q} {m' = m'} {ids = ids} e) v =
    (manager_move-Spawns _ s.pool q s.manager m' ids e).keeps.max_kept
max_kept {s} (adds task e) v = unfold thread_pool_add in ground arith
max_kept shuts_down v = unfold begin_shutdown in refl
