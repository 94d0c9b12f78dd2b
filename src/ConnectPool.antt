-- ===== src/ConnectPool.antt =====
-- mysql_connect_pool/src/connectPool.cpp: the queue of open connections, and the threads that make,
-- recycle, take and give back connections. Each locks the mutex for all of its work, so that is one move;
-- a wait for the condition is a move that does nothing. Connecting itself is left out: it has no result
-- that the pool looks at.
pub mod Places
pub mod Recycle
mod Tests
use cpp_projects_learning.Common.{
  ◌/◌, ℕ, zero, suc, ◌+◌, ◌-◌, Bool, true, false, List, [], ◌∷◌, ◌++◌, Option, none, some, ltb, leb,
  if◌then◌else◌, length, get_elem?,
}

-- A connection, by the number of those made before it, and its time stamp in nanoseconds.
pub record Connection : Type 0 where
  pub id : ℕ
  pub m_alivetime : ℕ

unfoldable pub refresh_alive_time : ℕ → Connection → Connection
refresh_alive_time now c = record c { m_alivetime = now }

-- The age in whole milliseconds.
unfoldable pub get_alive_time : ℕ → Connection → ℕ
get_alive_time now c = (now - c.m_alivetime) / 1000000

-- The queue and the configuration; also the connections that callers have, those that are deleted, and how
-- many were made.
pub record Pool : Type 0 where
  pub m_connect_q : List Connection
  pub m_min_size : ℕ
  pub m_max_id_time : ℕ
  pub lent : List Connection
  pub deleted : List Connection
  pub made : ℕ

unfoldable pub add_connection : ℕ → Pool → Pool
unfolding refresh_alive_time
add_connection now p = record p {
  m_connect_q =
      p.m_connect_q ++ refresh_alive_time now record { id = p.made; m_alivetime = 0 } ∷ [];
  made = p.made + 1;
}

-- One round of the loop of the producer.
unfoldable pub produce_connection : ℕ → Pool → Pool
unfolding add_connection
produce_connection now p =
    if leb p.m_min_size (length p.m_connect_q) then p else add_connection now p

-- The inner loop of the recycler: the queue that is left, and what is deleted.
unfoldable pub recycle_loop : ℕ → ℕ → ℕ → List Connection → List Connection × List Connection
unfolding get_alive_time
recycle_loop min_size max_id_time now [] = ([], [])
recycle_loop min_size max_id_time now (conn ∷ q) =
    let (left, gone) = recycle_loop min_size max_id_time now q in
    if ltb min_size (length (conn ∷ q))
    then (if leb max_id_time (get_alive_time now conn) then (left, conn ∷ gone) else (conn ∷ q, []))
    else (conn ∷ q, [])

-- One round of its outer loop.
unfoldable pub recycle_connection : ℕ → Pool → Pool
unfolding recycle_loop
recycle_connection now p =
    let (left, gone) = recycle_loop p.m_min_size p.m_max_id_time now p.m_connect_q in
    record p { m_connect_q = left; deleted = p.deleted ++ gone }

-- A caller takes the first connection, or waits.
unfoldable pub get_connection : Pool → Pool
get_connection p = elim p.m_connect_q [
  | [] ↦ p
  | conn ∷ q ↦ record p { m_connect_q = q; lent = conn ∷ p.lent }
]

unfoldable pub remove_at : ℕ → List Connection → List Connection
remove_at i [] = []
remove_at zero (c ∷ cs) = cs
remove_at (suc i) (c ∷ cs) = c ∷ remove_at i cs

-- The deleter of the shared pointer of the `i`-th connection that callers have.
unfoldable pub give_back : ℕ → ℕ → Pool → Pool
unfolding refresh_alive_time remove_at
give_back now i p = elim (get_elem? p.lent i) [
  | none ↦ p
  | some conn ↦ record p {
    m_connect_q = p.m_connect_q ++ refresh_alive_time now conn ∷ [];
    lent = remove_at i p.lent;
  }
]

-- The constructor makes the smallest number of connections, the destructor deletes those in the queue.
unfoldable pub add_connections : ℕ → ℕ → Pool → Pool
unfolding add_connection
add_connections zero now p = p
add_connections (suc n) now p = add_connections n now (add_connection now p)

unfoldable pub connect_pool : ℕ → ℕ → ℕ → Pool
unfolding add_connections
connect_pool min_size max_id_time now = add_connections min_size now record {
  m_connect_q = [];
  m_min_size = min_size;
  m_max_id_time = max_id_time;
  lent = [];
  deleted = [];
  made = 0;
}

unfoldable pub destroy_pool : Pool → Pool
destroy_pool p = record p { m_connect_q = []; deleted = p.deleted ++ p.m_connect_q }

-- The moves of all threads, at the times that the clock shows.
pub data Move : Type 0 where
  producing recycling : ℕ → Move
  getting : Move
  giving_back : ℕ → ℕ → Move

unfoldable pub move : Move → Pool → Pool
unfolding produce_connection recycle_connection get_connection give_back
move (producing now) p = produce_connection now p
move (recycling now) p = recycle_connection now p
move getting p = get_connection p
move (giving_back now i) p = give_back now i p

abbrev pub run : List Move → Pool → Pool
run [] p = p
run (m ∷ more) p = run more (move m p)
