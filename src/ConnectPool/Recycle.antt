-- ===== src/ConnectPool/Recycle.antt =====
-- mysql_connect_pool/src/connectPool.cpp: which connections the recycler deletes.
use cpp_projects_learning.Common.{
  ℕ, ◌≤◌, ◌<◌, ◌≡◌, refl, ap, List, [], ◌∷◌, ◌++◌, arith, ltb, leb, length, Bool-cases, ◌⊎◌, inl,
  inr, min,
}
use cpp_projects_learning.ConnectPool.{Connection, get_alive_time, recycle_loop}

-- Every connection is this old.
abbrev pub AllAged : ℕ → ℕ → List Connection → Type 0
AllAged max_id_time now [] = Unit
AllAged max_id_time now (c ∷ cs) = (max_id_time ≤ get_alive_time now c) × AllAged max_id_time now cs

-- The loop has stopped for a reason: the queue is short enough, or its first connection is young.
abbrev pub Stopped : ℕ → ℕ → ℕ → List Connection → Type 0
Stopped min_size max_id_time now [] = Unit
Stopped min_size max_id_time now (c ∷ cs) =
    (length (c ∷ cs) ≤ min_size) ⊎ (get_alive_time now c < max_id_time)

pub record Recycles (min_size max_id_time now : ℕ) (q left gone : List Connection) : Type 0 where
  pub split : gone ++ left ≡ q
  pub aged : AllAged max_id_time now gone
  pub stopped : Stopped min_size max_id_time now left
  pub enough : min min_size (length q) ≤ length left

recycle_loop-stays :
    (min_size max_id_time now : ℕ) (q : List Connection)
    → Stopped min_size max_id_time now q
    → Recycles min_size max_id_time now q q []
recycle_loop-stays min_size max_id_time now q s = record {
  split = refl;
  aged = tt;
  stopped = s;
  enough = omega arith;
}

-- The recycler deletes connections from the front of the queue, all of them of the age to delete, until
-- the queue is no longer than the smallest size or its first connection is younger; it does not make the
-- queue shorter than the smallest size.
pub recycle_loop-Recycles :
    (min_size max_id_time now : ℕ) (q : List Connection)
    → Recycles min_size max_id_time now q
        (recycle_loop min_size max_id_time now q).0
        (recycle_loop min_size max_id_time now q).1
unfolding recycle_loop
recycle_loop-Recycles min_size max_id_time now [] =
    recycle_loop-stays min_size max_id_time now [] tt
recycle_loop-Recycles min_size max_id_time now (conn ∷ q) =
    let rest = recycle_loop-Recycles min_size max_id_time now q in
    elim (Bool-cases (ltb min_size (length (conn ∷ q)))) [
      | inl more ↦ elim (Bool-cases (leb max_id_time (get_alive_time now conn))) [
        | inl old ↦
            rw (more, old)
              record {
                split = ap (λ k. conn ∷ k) rest.split;
                aged = (ground (arith, old), rest.aged);
                stopped = rest.stopped;
                enough = let r = rest.enough in ground (arith, more, r);
              }
        | inr young ↦
            rw (more, young)
              (recycle_loop-stays min_size max_id_time now (conn ∷ q) (inr (ground (arith, young))))
      ]
      | inr few ↦
          rw (few)
            (recycle_loop-stays min_size max_id_time now (conn ∷ q) (inl (ground (arith, few))))
    ]
