-- ===== src/SpinLock.antt =====
-- The file of the spin lock in the directory compare_exchange_weak_cpp: the class `SpinLock`, and the
-- threads that run `worker`. The lock is taken with acquire and given back with release, so the accesses
-- of the threads are moves that follow each other in some order.
pub mod Exclusion
mod Tests
use cpp_projects_learning.Common.{
  ℕ, ◌+◌, Bool, true, false, List, [], ◌∷◌, Option, none, some, if◌then◌else◌, get_elem?, set,
  replicate,
}

-- Where a thread stands in `worker`. `shared_data++` reads first and then writes.
pub data Thread : Type 0 where
  locking acquired : Thread
  loaded : ℕ → Thread
  stored finished : Thread

pub record Shared : Type 0 where
  pub locked : Bool
  pub shared_data : ℕ

-- `compare_exchange_weak(expected, true)` with `expected` false: whether it succeeds, and the lock. It may
-- fail although the lock is free.
unfoldable pub compare_exchange_weak : Bool → Bool → Bool × Bool
compare_exchange_weak spurious locked =
    if spurious then (false, locked) else if locked then (false, locked) else (true, true)

-- One round of the loop of `lock`.
unfoldable pub lock : Bool → Shared → Thread × Shared
unfolding compare_exchange_weak
lock spurious s =
    let (exchanged, now) = compare_exchange_weak spurious s.locked in
    (if exchanged then acquired else locking, record s { locked = now })

unfoldable pub unlock : Shared → Shared
unlock s = record s { locked = false }

-- One move of a thread.
unfoldable pub worker : Bool → Thread → Shared → Thread × Shared
unfolding lock unlock
worker spurious locking s = lock spurious s
worker spurious acquired s = (loaded s.shared_data, s)
worker spurious (loaded r) s = (stored, record s { shared_data = r + 1 })
worker spurious stored s = (finished, unlock s)
worker spurious finished s = (finished, s)

pub record System : Type 0 where
  pub shared : Shared
  pub threads : List Thread

-- Thread `i` moves; a thread that there is none of does nothing.
unfoldable pub move : ℕ → Bool → System → System
unfolding worker
move i spurious s = elim (get_elem? s.threads i) [
  | none ↦ s
  | some t ↦ record {
    shared = (worker spurious t s.shared).1;
    threads = set s.threads i (worker spurious t s.shared).0;
  }
]

-- The threads move in any order.
abbrev pub run : List (ℕ × Bool) → System → System
run [] s = s
run ((i, spurious) ∷ more) s = run more (move i spurious s)

-- `n` threads that are about to call `worker`.
abbrev pub start : ℕ → System
start n = record {
  shared = record { locked = false; shared_data = 0 };
  threads = replicate n locking;
}
