-- ===== src/ConnectPool/Tests.antt =====
-- mysql_connect_pool/src/connectPool.cpp: a pool of two connections.
use cpp_projects_learning.Common.{◌*◌, ℕ, List, [], ◌∷◌}
use cpp_projects_learning.ConnectPool.{
  Connection, recycle_loop, connect_pool, Move, producing, recycling, getting, giving_back, run,
}
use cpp_projects_learning.ConnectPool.Places.{IsValid, connect_pool-IsValid}
use cpp_projects_learning.ConnectPool.Recycle.{Recycles, recycle_loop-Recycles}

-- Two callers take a connection, the producer makes one, both give theirs back, and the recycler deletes.
-- So many milliseconds.
abbrev ms : ℕ → ℕ
ms n = n * 1000000

abbrev moves : List Move
moves =
    getting
    ∷ getting
    ∷ producing (ms 20)
    ∷ giving_back (ms 30) 1
    ∷ giving_back (ms 40) 0
    ∷ recycling (ms 100)
    ∷ []

connect_pool-IsValid_example : IsValid (run moves (connect_pool 2 50 (ms 10)))
connect_pool-IsValid_example = connect_pool-IsValid 2 50 (ms 10) moves

abbrev queue : List Connection
queue =
    record { id = 2; m_alivetime = ms 20 }
    ∷ record { id = 0; m_alivetime = ms 30 }
    ∷ record { id = 1; m_alivetime = ms 40 }
    ∷ []

recycle_loop-Recycles_example :
    Recycles 2 50
      (ms 100)
      queue
      (recycle_loop 2 50 (ms 100) queue).0
      (recycle_loop 2 50 (ms 100) queue).1
recycle_loop-Recycles_example = recycle_loop-Recycles 2 50 (ms 100) queue
