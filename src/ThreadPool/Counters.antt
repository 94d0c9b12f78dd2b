-- ===== src/ThreadPool/Counters.antt =====
-- ThreadPool_C_C++/C/threadPool.c: the counters of the pool against the threads that there are.
use cpp_projects_learning.Common.{
  ℕ, zero, suc, ◌+◌, ◌-◌, ◌≤◌, ◌≡◌, inl, inr, refl, sym, ◌∙◌, true, false, List, [], ◌∷◌, ◌++◌,
  some, arith, Option-cases, length, get_elem?, set, replicate, length-set, length-replicate,
}
use cpp_projects_learning.ThreadPool.{
  Pool, Worker, entering, waiting, running, ran, leaving, exited, Manager, measured, take_task,
  worker_test, worker_wake, clear_id, thread_destroy, worker_move, spawn, manager_move, put_task,
  thread_pool_add, begin_shutdown, max_threads, created, thread_pool_create, first_ids, store_ids,
}
use cpp_projects_learning.ThreadPool.System.{
  System, newly_started, Step, works, manages, adds, shuts_down, started,
}

-- Between `busyNum += 1` and `busyNum -= 1`.
abbrev pub is_busy : Worker → ℕ
is_busy (running task) = 1
is_busy ran = 1
is_busy _ = 0

-- Not yet on the way out.
abbrev pub is_alive : Worker → ℕ
is_alive leaving = 0
is_alive exited = 0
is_alive _ = 1

abbrev pub total : (Worker → ℕ) → List Worker → ℕ
total weight [] = 0
total weight (w ∷ ws) = weight w + total weight ws

-- What a section of a worker leaves alone in the pool.
pub record Keeps (p q : Pool) : Type 0 where
  pub min_kept : q.min_num ≡ p.min_num
  pub max_kept : q.max_num ≡ p.max_num
  pub shutdown_kept : q.shutdown ≡ p.shutdown
  pub ids_kept : length q.thread_ids ≡ length p.thread_ids

-- What a section of a worker that was `w` and is now `w'` does to the counters.
pub record Moves (p q : Pool) (w w' : Worker) : Type 0 where
  pub keeps : Keeps p q
  pub busy : q.busy_num + is_busy w ≡ p.busy_num + is_busy w'
  pub fewer : q.live_num ≤ p.live_num
  pub enough : p.min_num ≤ p.live_num → q.min_num ≤ q.live_num
  pub alive_le : p.live_num + is_alive w' ≤ q.live_num + is_alive w
  pub alive_eq : p.shutdown ≡ false → p.live_num + is_alive w' ≡ q.live_num + is_alive w

pub worker_test-Moves :
    (p q : Pool) (w w' : Worker)
    → is_busy w ≡ 0
    → is_alive w ≡ 1
    → worker_test p ≡ some (q, w')
    → Moves p q w w'
unfolding worker_test take_task
worker_test-Moves p q w w' b a e = ground arith

worker_wake-Moves : (p q : Pool) (w' : Worker) → worker_wake p ≡ some (q, w') → Moves p q waiting w'
unfolding worker_wake
worker_wake-Moves p q w' e = ground (
  arith,
  worker_test-Moves p q waiting w' refl refl,
  worker_test-Moves (record p { exit_num = p.exit_num - 1 }) q waiting w' refl refl,
)

length-clear_id :
    (n pid : ℕ) (ids ids' : List ℕ) → clear_id n pid ids ≡ some ids' → length ids' ≡ length ids
unfolding clear_id
length-clear_id zero pid ids ids' e = ground arith
length-clear_id (suc n) pid [] ids' e = cc
length-clear_id (suc n) pid (x ∷ ids) ids' e = elim (Option-cases (clear_id n pid ids)) [
  | inl outside ↦ ground arith
  | inr (rest, found) ↦ ground (arith, length-clear_id n pid ids rest found)
]

pub worker_move-Moves :
    (pid : ℕ) (p q : Pool) (w w' : Worker)
    → is_busy w ≤ p.busy_num
    → worker_move pid p w ≡ some (q, w')
    → Moves p q w w'
unfolding worker_move thread_destroy
worker_move-Moves pid p q entering w' h e = worker_test-Moves p q entering w' refl refl e
worker_move-Moves pid p q waiting w' h e = worker_wake-Moves p q w' e
worker_move-Moves pid p q leaving w' h e =
    elim (Option-cases (clear_id p.max_num pid p.thread_ids)) [
      | inl outside ↦ ground arith
      | inr (ids, found) ↦ ground (arith, length-clear_id p.max_num pid p.thread_ids ids found)
    ]
worker_move-Moves pid p q exited w' h e = cc
worker_move-Moves pid p q w w' h e = ground arith

-- A worker of the list is replaced: the sum changes by the difference.
module _ (weight : Worker → ℕ) where
  total-set :
      (ws : List Worker) (i : ℕ) (w w' : Worker)
      → get_elem? ws i ≡ some w
      → total weight (set ws i w') + weight w ≡ total weight ws + weight w'
  total-set [] i w w' e = cc
  total-set (x ∷ ws) zero w w' e = ground arith
  total-set (x ∷ ws) (suc i) w w' e = omega (arith, total-set ws i w w' e)

  total-append : (xs ys : List Worker) → total weight (xs ++ ys) ≡ total weight xs + total weight ys
  total-append [] ys = omega arith
  total-append (x ∷ xs) ys = omega (arith, total-append xs ys)

  pub le-total :
      (ws : List Worker) (i : ℕ) (w : Worker) → get_elem? ws i ≡ some w → weight w ≤ total weight ws
  le-total [] i w e = cc
  le-total (x ∷ ws) zero w e = ground arith
  le-total (x ∷ ws) (suc i) w e = omega (arith, le-total ws i w e)

-- What the loop of the manager does.
pub record Spawns (p q : Pool) (ids : List ℕ) : Type 0 where
  pub keeps : Keeps p q
  pub busy_kept : q.busy_num ≡ p.busy_num
  pub grows : q.live_num ≡ p.live_num + length ids
  pub bounded : p.live_num ≤ p.max_num → q.live_num ≤ q.max_num

pub spawn-Spawns :
    (rounds i counter from : ℕ) (p q : Pool) (ids : List ℕ)
    → spawn rounds i counter from p ≡ some (q, ids)
    → Spawns p q ids
unfolding spawn
spawn-Spawns zero i counter from p q ids e = ground arith
spawn-Spawns (suc rounds) i counter from p q ids e =
    let created = record p { thread_ids = set p.thread_ids i from; live_num = p.live_num + 1 } in
    elim (Option-cases (spawn rounds (i + 1) (counter + 1) (from + 1) created)) [
      | inl none_left ↦ ground (arith, spawn-Spawns rounds (i + 1) counter from p q ids)
      | inr ((r, more), found) ↦ ground (
        arith,
        spawn-Spawns rounds (i + 1) counter from p q ids,
        spawn-Spawns rounds (i + 1) (counter + 1) (from + 1) created r more found,
        length-set p.thread_ids i from,
      )
    ]

-- A section of the manager adds to the live threads those that it starts, at most up to `maxNum`.
pub manager_move-Spawns :
    (from : ℕ) (p q : Pool) (m m' : Manager) (ids : List ℕ)
    → manager_move from p m ≡ some (q, m', ids)
    → Spawns p q ids
unfolding manager_move
manager_move-Spawns from p q (measured queue live busy) m' ids e =
    elim (Option-cases (spawn p.max_num 0 0 from p)) [
      | inl stopped ↦ ground arith
      | inr ((r, more), found) ↦ ground (arith, spawn-Spawns p.max_num 0 0 from p r more found)
    ]
manager_move-Spawns from p q m m' ids e = ground arith

-- The counters of the pool fit its threads.
pub record IsValid (s : System) : Type 0 where
  pub low : s.pool.min_num ≤ s.pool.live_num
  pub high : s.pool.live_num ≤ s.pool.max_num
  pub busy : s.pool.busy_num ≡ total is_busy s.workers
  pub alive_le : total is_alive s.workers ≤ s.pool.live_num
  pub alive_eq : s.pool.shutdown ≡ false → total is_alive s.workers ≡ s.pool.live_num
  pub ids : length s.pool.thread_ids ≡ max_threads

total-newly_started :
    (ids : List ℕ)
    → (total is_alive (newly_started ids) ≡ length ids) × (total is_busy (newly_started ids) ≡ 0)
total-newly_started [] = (refl, refl)
total-newly_started (x ∷ ids) = omega (arith, total-newly_started ids)

pub Step-IsValid : {s t : System} → Step s t → IsValid s → IsValid t
unfolding thread_pool_add begin_shutdown put_task
Step-IsValid {s} (works {w = w} {w' = w'} {p' = q} i at e) v =
    let alive = total-set is_alive s.workers i w w' at in
    let busy = total-set is_busy s.workers i w w' at in
    let one = le-total is_busy s.workers i w at in
    let m = worker_move-Moves (suc i) s.pool q w w' (omega (arith, v.busy)) e in
    record {
      low = ground (arith, m.enough v.low);
      high = omega (arith, v.high, m.fewer, m.keeps.max_kept);
      busy = omega (arith, v.busy, m.busy);
      alive_le = omega (arith, v.alive_le, m.alive_le);
      alive_eq = λ on.
          let on' = sym m.keeps.shutdown_kept ∙ on in omega (arith, v.alive_eq on', m.alive_eq on');
      ids = m.keeps.ids_kept ∙ v.ids;
    }
Step-IsValid {s} (manages {p' = q} {m' = m'} {ids = ids} e) v =
    let m = manager_move-Spawns _ s.pool q s.manager m' ids e in
    let alive = total-append is_alive s.workers (newly_started ids) in
    let busy = total-append is_busy s.workers (newly_started ids) in
    let fresh = total-newly_started ids in
    record {
      low = omega (arith, m.grows, m.keeps.min_kept, v.low);
      high = m.bounded v.high;
      busy = omega (arith, m.busy_kept, v.busy);
      alive_le = omega (arith, m.grows, v.alive_le);
      alive_eq =
          λ on. let on' = sym m.keeps.shutdown_kept ∙ on in omega (arith, m.grows, v.alive_eq on');
      ids = m.keeps.ids_kept ∙ v.ids;
    }
Step-IsValid (adds task e) v = ground arith
Step-IsValid shuts_down v = ground arith

total-replicate :
    (n : ℕ)
    → (total is_alive (replicate n entering) ≡ n) × (total is_busy (replicate n entering) ≡ 0)
total-replicate zero = (refl, refl)
total-replicate (suc n) = omega (arith, total-replicate n)

length-store_ids : (xs : List ℕ) (i : ℕ) (ids : List ℕ) → length (store_ids xs i ids) ≡ length ids
length-store_ids [] i ids = refl
length-store_ids (x ∷ xs) i ids = length-store_ids xs (i + 1) (set ids i x) ∙ length-set ids i x

pub started-IsValid :
    (min_num max_num size : ℕ) (p : Pool)
    → thread_pool_create true true true true min_num max_num size ≡ created p
    → min_num ≤ max_num
    → IsValid (started p)
unfolding thread_pool_create
started-IsValid min_num max_num size p made le = ground (
  arith,
  total-replicate p.min_num,
  length-store_ids (first_ids min_num 1) 0 (replicate max_threads 0),
  length-replicate {A = ℕ} max_threads 0,
)
