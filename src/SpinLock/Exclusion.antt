-- ===== src/SpinLock/Exclusion.antt =====
-- The file of the spin lock: at most one thread is between `lock` and `unlock`, and no increment is lost.
use cpp_projects_learning.Common.{
  ℕ, zero, suc, ◌+◌, ◌≤◌, ◌≡◌, inl, inr, refl, sym, ap, subst, Bool, true, false, List, [], ◌∷◌,
  none, some, arith, if◌then◌else◌, get_elem?, set, replicate, Option-cases,
}
use cpp_projects_learning.SpinLock.{
  Thread, locking, acquired, loaded, stored, finished, System, worker, move, run, start,
}

-- 1 for a thread that holds the lock, and for one that has written.
abbrev pub holding : Thread → ℕ
holding locking = 0
holding acquired = 1
holding (loaded r) = 1
holding stored = 1
holding finished = 0

abbrev pub written : Thread → ℕ
written locking = 0
written acquired = 0
written (loaded r) = 0
written stored = 1
written finished = 1

abbrev pub total : (Thread → ℕ) → List Thread → ℕ
total w [] = 0
total w (t ∷ ts) = w t + total w ts

abbrev pub bit : Bool → ℕ
bit b = if b then 1 else 0

-- What a thread has loaded is the value of `shared_data`.
abbrev Current : ℕ → Thread → Type 0
Current d (loaded r) = r ≡ d
Current d locking = Unit
Current d acquired = Unit
Current d stored = Unit
Current d finished = Unit

abbrev AllCurrent : ℕ → List Thread → Type 0
AllCurrent d [] = Unit
AllCurrent d (t ∷ ts) = Current d t × AllCurrent d ts

-- The lock is held by as many threads as `locked` says, and the data counts the increments.
pub record IsValid (s : System) : Type 0 where
  pub held : total holding s.threads ≡ bit s.shared.locked
  pub counted : s.shared.shared_data ≡ total written s.threads
  pub current : AllCurrent s.shared.shared_data s.threads

absent : (t : Thread) → none ≡ some t → ⊥
absent t e = cc

there : (t u : Thread) → some t ≡ some u → t ≡ u
there t u e = ap (λ o. elim o [ none ↦ t | some k ↦ k ]) e

total-set :
    (w : Thread → ℕ) (ts : List Thread) (i : ℕ) (t u : Thread)
    → get_elem? ts i ≡ some t
    → total w (set ts i u) + w t ≡ total w ts + w u
total-set w [] i t u e = absurd (absent t e)
total-set w (x ∷ ts) zero t u e =
    let same = there x t e in
    subst (λ k. w u + total w ts + w t ≡ w k + total w ts + w u) (sym same) (omega arith)
total-set w (x ∷ ts) (suc i) t u e = omega (arith, total-set w ts i t u e)

AllCurrent-set :
    (d : ℕ) (ts : List Thread) (i : ℕ) (u : Thread)
    → AllCurrent d ts
    → Current d u
    → AllCurrent d (set ts i u)
AllCurrent-set d [] i u a c = a
AllCurrent-set d (x ∷ ts) zero u a c = (c, a.1)
AllCurrent-set d (x ∷ ts) (suc i) u a c = (a.0, AllCurrent-set d ts i u a.1 c)

Current-get :
    (d : ℕ) (ts : List Thread) (i : ℕ) (t : Thread)
    → AllCurrent d ts
    → get_elem? ts i ≡ some t
    → Current d t
Current-get d [] i t a e = absurd (absent t e)
Current-get d (x ∷ ts) zero t a e = subst (Current d) (there x t e) a.0
Current-get d (x ∷ ts) (suc i) t a e = Current-get d ts i t a.1 e

-- A thread that does not hold the lock has loaded nothing.
Current-idle : (d : ℕ) (t : Thread) → holding t ≡ 0 → Current d t
Current-idle d locking e = tt
Current-idle d acquired e = tt
Current-idle d (loaded r) e = absurd (omega (arith, e))
Current-idle d stored e = tt
Current-idle d finished e = tt

AllCurrent-idle : (d : ℕ) (ts : List Thread) → total holding ts ≡ 0 → AllCurrent d ts
AllCurrent-idle d [] e = tt
AllCurrent-idle d (t ∷ ts) e =
    (Current-idle d t (omega (arith, e)), AllCurrent-idle d ts (omega (arith, e)))

total-get :
    (ts : List Thread) (i : ℕ) (t : Thread) → get_elem? ts i ≡ some t → holding t ≤ total holding ts
total-get [] i t e = absurd (absent t e)
total-get (x ∷ ts) zero t e = let same = ap holding (there x t e) in omega (arith, same)
total-get (x ∷ ts) (suc i) t e = omega (arith, total-get ts i t e)

-- When the holder of the lock writes, no other thread has loaded anything.
AllCurrent-stored :
    (d : ℕ) (ts : List Thread) (i : ℕ) (t : Thread)
    → get_elem? ts i ≡ some t
    → holding t ≡ 1
    → total holding ts ≤ 1
    → AllCurrent d (set ts i stored)
AllCurrent-stored d [] i t e h n = tt
AllCurrent-stored d (x ∷ ts) zero t e h n =
    let same = ap holding (there x t e) in (tt, AllCurrent-idle d ts (omega (arith, same, h, n)))
AllCurrent-stored d (x ∷ ts) (suc i) t e h n =
    let among = total-get ts i t e in
    (
      Current-idle d x (omega (arith, among, h, n)),
      AllCurrent-stored d ts i t e h (omega (arith, n)),
    )

abbrev system : Bool → ℕ → List Thread → System
system b d ts = record { shared = record { locked = b; shared_data = d }; threads = ts }

-- A thread goes on without a change of what it holds, has written or has loaded.
goes_on :
    (b : Bool) (d : ℕ) (ts : List Thread) (i : ℕ) (t u : Thread) (c : Bool)
    → IsValid (system b d ts)
    → get_elem? ts i ≡ some t
    → holding u + bit b ≡ holding t + bit c
    → written u ≡ written t
    → Current d u
    → IsValid (system c d (set ts i u))
goes_on b d ts i t u c v e h w k =
    let held = v.held in
    let counted = v.counted in
    record {
      held = omega (arith, held, h, total-set holding ts i t u e);
      counted = omega (arith, counted, w, total-set written ts i t u e);
      current = AllCurrent-set d ts i u v.current k;
    }

bit_bound : (b : Bool) → bit b ≤ 1
bit_bound true = omega arith
bit_bound false = omega arith

-- The second half of `shared_data++`.
writes :
    (b : Bool) (d : ℕ) (ts : List Thread) (i r : ℕ)
    → IsValid (system b d ts)
    → get_elem? ts i ≡ some (loaded r)
    → IsValid (system b (r + 1) (set ts i stored))
writes b d ts i r v e =
    let held = v.held in
    let counted = v.counted in
    let same : r ≡ d = Current-get d ts i (loaded r) v.current e in
    let bound : total holding ts ≤ 1 = omega (arith, held, bit_bound b) in
    record {
      held = omega (arith, held, total-set holding ts i (loaded r) stored e);
      counted = omega (arith, counted, same, total-set written ts i (loaded r) stored e);
      current = AllCurrent-stored (r + 1) ts i (loaded r) e refl bound;
    }

worker-IsValid :
    (b : Bool) (d : ℕ) (ts : List Thread) (i : ℕ) (t : Thread) (spurious : Bool)
    → IsValid (system b d ts)
    → get_elem? ts i ≡ some t
    → IsValid record {
      shared = (worker spurious t record { locked = b; shared_data = d }).1;
      threads = set ts i (worker spurious t record { locked = b; shared_data = d }).0;
    }
unfolding worker
worker-IsValid b d ts i locking true v e = goes_on b d ts i locking locking b v e refl refl tt
worker-IsValid true d ts i locking false v e =
    goes_on true d ts i locking locking true v e refl refl tt
worker-IsValid false d ts i locking false v e =
    goes_on false d ts i locking acquired true v e refl refl tt
worker-IsValid b d ts i acquired spurious v e =
    goes_on b d ts i acquired (loaded d) b v e refl refl refl
worker-IsValid b d ts i (loaded r) spurious v e = writes b d ts i r v e
worker-IsValid true d ts i stored spurious v e =
    goes_on true d ts i stored finished false v e refl refl tt
worker-IsValid false d ts i stored spurious v e =
    absurd (let held = v.held in let among = total-get ts i stored e in omega (arith, held, among))
worker-IsValid b d ts i finished spurious v e =
    goes_on b d ts i finished finished b v e refl refl tt

move-IsValid : (i : ℕ) (spurious : Bool) (s : System) → IsValid s → IsValid (move i spurious s)
unfolding move
move-IsValid i spurious s v = elim (Option-cases (get_elem? s.threads i)) [
  | inl none_there ↦ rw (move, none_there) v
  | inr (t, e) ↦
      rw (move, e) (worker-IsValid s.shared.locked s.shared.shared_data s.threads i t spurious v e)
]

run-IsValid : (schedule : List (ℕ × Bool)) (s : System) → IsValid s → IsValid (run schedule s)
run-IsValid [] s v = v
run-IsValid ((i, spurious) ∷ more) s v =
    run-IsValid more (move i spurious s) (move-IsValid i spurious s v)

start-IsValid : (n : ℕ) → IsValid (start n)
start-IsValid n = record {
  held = none_yet holding refl n;
  counted = sym (none_yet written refl n);
  current = all_current n;
}
  where
    none_yet : (w : Thread → ℕ) → w locking ≡ 0 → (k : ℕ) → total w (replicate k locking) ≡ 0
    none_yet w e zero = refl
    none_yet w e (suc k) = omega (arith, e, none_yet w e k)

    all_current : (k : ℕ) → AllCurrent 0 (replicate k locking)
    all_current zero = tt
    all_current (suc k) = (tt, all_current k)

-- Whatever the order in which any number of threads move, and whenever an exchange fails without reason,
-- at most one thread is between `lock` and `unlock`, and `shared_data` is the number of the threads that
-- have done their increment: none is lost.
pub run-start :
    (n : ℕ) (schedule : List (ℕ × Bool))
    → (total holding (run schedule (start n)).threads ≤ 1)
      × ((run schedule (start n)).shared.shared_data
          ≡ total written (run schedule (start n)).threads)
run-start n schedule =
    let v = run-IsValid schedule (start n) (start-IsValid n) in
    let held = v.held in
    (omega (arith, held, bit_bound (run schedule (start n)).shared.locked), v.counted)
