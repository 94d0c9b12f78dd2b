-- ===== src/SpinLock/Tests.antt =====
-- The file of the spin lock: two threads that compete for it.
use cpp_projects_learning.Common.{ℕ, ◌≤◌, ◌≡◌, Bool, true, false, List, [], ◌∷◌}
use cpp_projects_learning.SpinLock.{run, start}
use cpp_projects_learning.SpinLock.Exclusion.{holding, written, total, run-start}

-- The first thread takes the lock, the second tries; then each goes on to the end.
abbrev schedule : List (ℕ × Bool)
schedule =
    (0, false)
    ∷ (1, false)
    ∷ (0, false)
    ∷ (0, false)
    ∷ (0, false)
    ∷ (1, true)
    ∷ (1, false)
    ∷ (1, false)
    ∷ (1, false)
    ∷ []

run-start_example :
    (total holding (run schedule (start 2)).threads ≤ 1)
    × ((run schedule (start 2)).shared.shared_data ≡ total written (run schedule (start 2)).threads)
run-start_example = run-start 2 schedule
