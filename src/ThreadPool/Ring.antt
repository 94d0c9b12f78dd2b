-- ===== src/ThreadPool/Ring.antt =====
-- ThreadPool_C_C++/C/threadPool.c: the ring in `taskQ` is a first-in first-out queue.
use native.Mathlib.Nat.{mod-eq_of_lt, mod-eq-sub-mod, mod-add-mod, mod-lt, add-mod_right}
use cpp_projects_learning.Common.{
  ℕ, suc, ◌+◌, ◌-◌, ◌%◌, ◌≤◌, ◌<◌, ◌≡◌, ◌≢◌, ◌⊎◌, inl, inr, refl, sym, ap, ◌∙◌, true, false, List,
  [], ◌∷◌, ◌++◌, some, arith, ◌==◌, ◌&&◌, Bool-cases, length, get_elem?, get_elem?-set_self,
  get_elem?-set_ne, length-set, length-append, ltb, ltb→lt, ltb→le, ==_iff,
}
use cpp_projects_learning.ThreadPool.{
  Task, Pool, waiting, taken, waits, added, take_task, worker_test, put_task, thread_pool_add,
  begin_shutdown,
}

-- The slot `k` places behind the front.
abbrev pub slot : Pool → ℕ → ℕ
slot p k = (p.queue_front + k) % p.queue_capacity

-- The slots from the k-th on hold these tasks, in order.
abbrev pub HoldsFrom : Pool → ℕ → List Task → Type 0
HoldsFrom p k [] = Unit
HoldsFrom p k (t ∷ ts) = (get_elem? p.task_q (slot p k) ≡ some (some t)) × HoldsFrom p (suc k) ts

-- The ring holds exactly the queue `ts`, oldest first.
pub record IsQueue (p : Pool) (ts : List Task) : Type 0 where
  pub slots : length p.task_q ≡ p.queue_capacity
  pub front : p.queue_front < p.queue_capacity
  pub rear : p.queue_rear ≡ slot p p.queue_size
  pub size : p.queue_size ≡ length ts
  pub bounded : p.queue_size ≤ p.queue_capacity
  pub holds : HoldsFrom p 0 ts

wrap : (n c : ℕ) → n < c + c → ((n < c) × (n % c ≡ n)) ⊎ ((c ≤ n) × (n % c ≡ n - c))
wrap n c h = elim (Bool-cases (ltb n c)) [
  | inl below ↦ inl (ltb→lt n c below, mod-eq_of_lt (ltb→lt n c below))
  | inr above ↦
      let le = ltb→le n c above in inr (le, mod-eq-sub-mod le ∙ mod-eq_of_lt (omega arith))
]

-- Two places less than a turn apart are different slots.
slot-ne : (f c j k : ℕ) → f < c → j < k → k < c → (f + k) % c ≢ (f + j) % c
slot-ne f c j k hf hj hk e = elim (wrap (f + j) c (omega arith)) [
  | inl (la, a) ↦ elim (wrap (f + k) c (omega arith)) [
    | inl (lb, b) ↦ omega arith
    | inr (lb, b) ↦ omega arith
  ]
  | inr (la, a) ↦ elim (wrap (f + k) c (omega arith)) [
    | inl (lb, b) ↦ omega arith
    | inr (lb, b) ↦ omega arith
  ]
]

HoldsFrom-put :
    (p : Pool) (task : Task) (k : ℕ) (ts : List Task)
    → p.queue_front < p.queue_capacity
    → p.queue_size < p.queue_capacity
    → length p.task_q ≡ p.queue_capacity
    → p.queue_rear ≡ slot p p.queue_size
    → k + length ts ≡ p.queue_size
    → HoldsFrom p k ts
    → HoldsFrom (put_task task p) k (ts ++ task ∷ [])
unfolding put_task
HoldsFrom-put p task k [] f n l r e h =
    let here : slot p k ≡ p.queue_rear = ap (slot p) (omega arith) ∙ sym r in
    let inside : p.queue_rear < length p.task_q =
      rw (r, l) (mod-lt (p.queue_front + p.queue_size) (omega arith)) in
    (rw here (get_elem?-set_self p.task_q p.queue_rear (some task) inside), tt)
HoldsFrom-put p task k (t ∷ ts) f n l r e h =
    let apart : p.queue_rear ≢ slot p k =
      rw r (slot-ne p.queue_front p.queue_capacity k p.queue_size f (omega arith) n) in
    (
      get_elem?-set_ne p.task_q p.queue_rear (slot p k) (some task) apart ∙ h.0,
      HoldsFrom-put p task (suc k) ts f n l r (omega arith) h.1,
    )

-- The ring after `threadPoolAdd` when there is room holds the new task behind the others.
put_task-IsQueue :
    (p : Pool) (ts : List Task) (task : Task)
    → IsQueue p ts
    → p.queue_size < p.queue_capacity
    → IsQueue (put_task task p) (ts ++ task ∷ [])
unfolding put_task
put_task-IsQueue p ts task v n = record {
  slots = length-set p.task_q p.queue_rear (some task) ∙ v.slots;
  front = v.front;
  rear = rw v.rear (
      mod-add-mod (p.queue_front + p.queue_size) p.queue_capacity 1
      ∙ ap (λ n. n % p.queue_capacity) (omega arith));
  size = omega (arith, length-append ts (task ∷ []), v.size);
  bounded = omega arith;
  holds = HoldsFrom-put p task 0 ts v.front n v.slots v.rear (omega (arith, v.size)) v.holds;
}

-- Moving the front on shifts the places by one.
HoldsFrom-shift :
    (p q : Pool) (k : ℕ) (ts : List Task)
    → q.task_q ≡ p.task_q
    → q.queue_capacity ≡ p.queue_capacity
    → q.queue_front ≡ (p.queue_front + 1) % p.queue_capacity
    → HoldsFrom p (suc k) ts
    → HoldsFrom q k ts
HoldsFrom-shift p q k [] t c f h = tt
HoldsFrom-shift p q k (x ∷ ts) t c f h =
    let same : slot q k ≡ slot p (suc k) =
      rw (f, c)
        (mod-add-mod (p.queue_front + 1) p.queue_capacity k
          ∙ ap (λ n. n % p.queue_capacity) (omega arith)) in
    (rw (t, same) h.0, HoldsFrom-shift p q (suc k) ts t c f h.1)

-- The worker gets the oldest task, and the others stay in order.
take_task-IsQueue :
    (p : Pool) (task : Task) (ts : List Task)
    → IsQueue p (task ∷ ts)
    → (q : Pool) × (take_task p ≡ some (q, task)) × IsQueue q ts
unfolding take_task
take_task-IsQueue p task ts v =
    let at_front : get_elem? p.task_q p.queue_front ≡ some (some task) =
      let z : slot p 0 ≡ p.queue_front =
        ap (λ n. n % p.queue_capacity) (omega arith) ∙ mod-eq_of_lt v.front in
      rw z at v.holds.0 in
    let q = record p {
      queue_front = (p.queue_front + 1) % p.queue_capacity;
      queue_size = p.queue_size - 1;
    } in
    (
      q,
      rw (at_front, take_task),
      record {
        slots = v.slots;
        front = mod-lt (p.queue_front + 1) (omega (arith, v.front));
        rear =
            v.rear
            ∙ ap (λ n. n % p.queue_capacity) (omega (arith, v.size))
            ∙ sym (mod-add-mod (p.queue_front + 1) p.queue_capacity (p.queue_size - 1));
        size = omega (arith, v.size);
        bounded = omega (arith, v.bounded);
        holds = HoldsFrom-shift p q 0 ts refl refl refl v.holds.1;
      },
    )

-- The ring has a slot at its rear.
writable :
    (p : Pool) (ts : List Task)
    → IsQueue p ts
    → (ltb p.queue_rear (length p.task_q) && ltb 0 p.queue_capacity) ≡ true
writable p ts v =
    let inside : p.queue_rear < p.queue_capacity =
      rw v.rear (mod-lt (p.queue_front + p.queue_size) (omega (arith, v.front))) in
    ground (arith, v.slots, v.front)

-- While the pool runs, `threadPoolAdd` makes the caller wait exactly when the ring is full, and puts
-- the task behind all others when it is not.
pub thread_pool_add-IsQueue :
    (p : Pool) (ts : List Task) (task : Task)
    → IsQueue p ts
    → p.shutdown ≡ false
    → ((length ts ≡ p.queue_capacity) × (thread_pool_add task p ≡ waits))
      ⊎ ((length ts < p.queue_capacity)
          × ((q : Pool) × (thread_pool_add task p ≡ added q)
              × IsQueue q (ts ++ task ∷ [])
              × (q.shutdown ≡ false)))
unfolding thread_pool_add
thread_pool_add-IsQueue p ts task v on = elim (Bool-cases (p.queue_size == p.queue_capacity)) [
  | inl full ↦
      let at : p.queue_size ≡ p.queue_capacity = (==_iff _ _).0 full in
      inl (omega (arith, v.size), rw (full, on))
  | inr space ↦
      let room : p.queue_size < p.queue_capacity = ground (arith, v.bounded) in
      inr (
        omega (arith, v.size),
        (
          put_task task p,
          rw (space, writable p ts v),
          put_task-IsQueue p ts task v room,
          unfold put_task in on,
        ),
      )
]

-- While the pool runs, a worker that tests an empty ring waits and changes nothing; otherwise it
-- leaves with the oldest task, and the other tasks stay in order.
pub worker_test-IsQueue :
    (p : Pool) (ts : List Task)
    → IsQueue p ts
    → p.shutdown ≡ false
    → ((ts ≡ []) × (worker_test p ≡ some (p, waiting)))
      ⊎ ((task : Task) × (rest : List Task) × (ts ≡ task ∷ rest)
          × ((q : Pool) × (worker_test p ≡ some (q, taken task)) × IsQueue q rest))
unfolding worker_test
worker_test-IsQueue p [] v on =
    let none_left : (p.queue_size == 0) ≡ true = ground (arith, v.size) in
    inl (refl, rw (none_left, on))
worker_test-IsQueue p (task ∷ rest) v on =
    let some_left : (p.queue_size == 0) ≡ false = ground (arith, v.size) in
    let (q, took, w) = take_task-IsQueue p task rest v in
    inr (task, rest, refl, (q, rw (some_left, took) (simp on), w))

-- The missing return of `threadPoolAdd`: when the pool is shut down and the ring is full, the task
-- is put in nevertheless. It takes the slot of the oldest task, and the size passes the capacity.
pub thread_pool_add_after_shutdown :
    (p : Pool) (oldest : Task) (ts : List Task) (task : Task)
    → IsQueue p (oldest ∷ ts)
    → length (oldest ∷ ts) ≡ p.queue_capacity
    → (q : Pool) × (thread_pool_add task (begin_shutdown p) ≡ added q)
      × (get_elem? p.task_q p.queue_front ≡ some (some oldest))
      × (get_elem? q.task_q q.queue_front ≡ some (some task))
      × (q.queue_capacity < q.queue_size)
unfolding thread_pool_add begin_shutdown put_task
thread_pool_add_after_shutdown p oldest ts task v full =
    let turn : slot p p.queue_size ≡ p.queue_front =
      let n : p.queue_size ≡ p.queue_capacity = omega (arith, v.size) in
      rw n (add-mod_right p.queue_front p.queue_capacity ∙ mod-eq_of_lt v.front) in
    let at_front : p.queue_rear ≡ p.queue_front = v.rear ∙ turn in
    let at_full : (p.queue_size == p.queue_capacity) ≡ true = ground (arith, v.size) in
    let first : slot p 0 ≡ p.queue_front =
      ap (λ n. n % p.queue_capacity) (omega arith) ∙ mod-eq_of_lt v.front in
    (
      put_task task (begin_shutdown p),
      rw (at_full, writable p (oldest ∷ ts) v),
      rw first at v.holds.0,
      rw at_front
          (get_elem?-set_self p.task_q p.queue_front (some task) (omega (arith, v.front, v.slots))),
      omega (arith, v.size),
    )
