-- ===== src/ThreadPool/System.antt =====
-- ThreadPool_C_C++/C/threadPool.c: all threads of one pool, as interleavings of their sections.
use cpp_projects_learning.Common.{
  ℕ, suc, ◌≡◌, List, [], ◌∷◌, ◌++◌, some, length, get_elem?, set, replicate,
}
use cpp_projects_learning.ThreadPool.{
  Task, Pool, Worker, entering, Manager, checking, worker_move, manager_move, added,
  thread_pool_add, begin_shutdown,
}

-- The pool, its workers and its manager. Threads are never joined or detached, so their ids are not
-- given out again: the i-th worker that was started has the id i + 1.
pub record System : Type 0 where
  pub pool : Pool
  pub workers : List Worker
  pub manager : Manager

abbrev pub newly_started : List ℕ → List Worker
newly_started [] = []
newly_started (id ∷ ids) = entering ∷ newly_started ids

-- One section of one thread. A worker that waits may go on at any time, since a wait for a condition
-- can end without a signal; so the signals need no model. Callers of `threadPoolAdd` and
-- `threadPoolDestroy` are outside the system.
pub data Step : System → System → Type 0 where
  works :
      {s : System} {w w' : Worker} {p' : Pool} (i : ℕ)
      → get_elem? s.workers i ≡ some w
      → worker_move (suc i) s.pool w ≡ some (p', w')
      → Step s (record s { pool = p'; workers = set s.workers i w' })
  manages :
      {s : System} {p' : Pool} {m' : Manager} {ids : List ℕ}
      → manager_move (suc (length s.workers)) s.pool s.manager ≡ some (p', m', ids)
      → Step s (record { pool = p'; workers = s.workers ++ newly_started ids; manager = m' })
  adds :
      {s : System} {p' : Pool} (task : Task)
      → thread_pool_add task s.pool ≡ added p'
      → Step s (record s { pool = p' })
  shuts_down : {s : System} → Step s (record s { pool = begin_shutdown s.pool })

pub data Reach (s : System) : System → Type 0 where
  here : Reach s s
  later : {t u : System} → Reach s t → Step t u → Reach s u

-- What `threadPoolCreate` leaves behind: the first threads are about to run.
abbrev pub started : Pool → System
started p = record { pool = p; workers = replicate p.min_num entering; manager = checking }
