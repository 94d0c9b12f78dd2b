-- ===== src/ConnectPool/Places.antt =====
-- mysql_connect_pool/src/connectPool.cpp: where the connections are.
use cpp_projects_learning.Common.{
  ℕ, zero, suc, ◌+◌, ◌≡◌, refl, sym, ap, ◌∙◌, subst, List, [], ◌∷◌, ◌++◌, none, some, arith, ltb,
  leb, ◌==◌, if◌then◌else◌, length, get_elem?, Option-cases, Bool-cases, inl, inr,
}
use cpp_projects_learning.ConnectPool.{
  Connection, refresh_alive_time, get_alive_time, Pool, add_connection, produce_connection,
  recycle_loop, recycle_connection, get_connection, remove_at, give_back, add_connections,
  connect_pool, Move, producing, recycling, getting, giving_back, move, run,
}

-- How often the connection number `i` occurs.
abbrev pub one : ℕ → Connection → ℕ
one i c = if c.id == i then 1 else 0

abbrev pub count : ℕ → List Connection → ℕ
count i [] = 0
count i (c ∷ cs) = one i c + count i cs

-- A connection that was made is in the queue, with one caller, or deleted: in one of these places, once.
pub record IsValid (p : Pool) : Type 0 where
  pub places :
      (i : ℕ)
      → count i p.m_connect_q + count i p.lent + count i p.deleted ≡ (if ltb i p.made then 1 else 0)

count-append : (i : ℕ) (cs ds : List Connection) → count i (cs ++ ds) ≡ count i cs + count i ds
count-append i [] ds = omega arith
count-append i (c ∷ cs) ds = omega (arith, count-append i cs ds)

count-recycle_loop :
    (i min_size max_id_time now : ℕ) (q : List Connection)
    → count i (recycle_loop min_size max_id_time now q).0
        + count i (recycle_loop min_size max_id_time now q).1
      ≡ count i q
unfolding recycle_loop
count-recycle_loop i min_size max_id_time now [] = refl
count-recycle_loop i min_size max_id_time now (conn ∷ q) =
    let rest = count-recycle_loop i min_size max_id_time now q in
    elim (Bool-cases (ltb min_size (length (conn ∷ q)))) [
      | inl more ↦ elim (Bool-cases (leb max_id_time (get_alive_time now conn))) [
        | inl old ↦ rw (more, old) (omega (arith, rest))
        | inr young ↦ rw (more, young) (omega arith)
      ]
      | inr few ↦ rw (few) (omega arith)
    ]

count-remove_at :
    (i k : ℕ) (c : Connection) (cs : List Connection)
    → get_elem? cs k ≡ some c
    → count i (remove_at k cs) + one i c ≡ count i cs
unfolding remove_at
count-remove_at i k c [] e = absurd (absent e)
  where
    absent : none ≡ some c → ⊥
    absent q = cc
count-remove_at i zero c (d ∷ cs) e =
    let same : d ≡ c = ap (λ o. elim o [ none ↦ d | some x ↦ x ]) e in
    subst (λ x. count i cs + one i x ≡ one i d + count i cs) same (omega arith)
count-remove_at i (suc k) c (d ∷ cs) e = omega (arith, count-remove_at i k c cs e)

add_connection-IsValid : (now : ℕ) (p : Pool) → IsValid p → IsValid (add_connection now p)
unfolding add_connection refresh_alive_time
add_connection-IsValid now p v = record {
  places = λ i.
      let new : Connection = record { id = p.made; m_alivetime = now } in
      let before = v.places i in
      let after = count-append i p.m_connect_q (new ∷ []) in ground (arith, before, after);
}

produce_connection-IsValid : (now : ℕ) (p : Pool) → IsValid p → IsValid (produce_connection now p)
unfolding produce_connection
produce_connection-IsValid now p v = elim (Bool-cases (leb p.m_min_size (length p.m_connect_q))) [
  | inl enough ↦ rw (produce_connection, enough) v
  | inr few ↦ rw (produce_connection, few) (add_connection-IsValid now p v)
]

recycle_connection-IsValid : (now : ℕ) (p : Pool) → IsValid p → IsValid (recycle_connection now p)
unfolding recycle_connection
recycle_connection-IsValid now p v = record {
  places = λ i.
      let gone = (recycle_loop p.m_min_size p.m_max_id_time now p.m_connect_q).1 in
      let before = v.places i in
      let kept = count-recycle_loop i p.m_min_size p.m_max_id_time now p.m_connect_q in
      let after = count-append i p.deleted gone in omega (arith, before, kept, after);
}

get_connection-IsValid : (p : Pool) → IsValid p → IsValid (get_connection p)
unfolding get_connection
get_connection-IsValid p v = taken p.m_connect_q refl
  where
    taken : (q : List Connection) → p.m_connect_q ≡ q → IsValid (get_connection p)
    taken [] e = rw (get_connection, e) v
    taken (conn ∷ q) e =
        rw (get_connection, e)
          record {
            places = λ i.
                let before =
                  subst
                    (λ k.
                      count i k + count i p.lent + count i p.deleted
                      ≡ (if ltb i p.made then 1 else 0))
                    e (v.places i) in
                sym (omega arith) ∙ before;
          }

give_back-IsValid : (now i : ℕ) (p : Pool) → IsValid p → IsValid (give_back now i p)
unfolding give_back refresh_alive_time
give_back-IsValid now k p v = elim (Option-cases (get_elem? p.lent k)) [
  | inl none_there ↦ rw (give_back, none_there) v
  | inr (conn, e) ↦
      rw (give_back, e)
        record {
          places = λ i.
              let back : Connection = record { id = conn.id; m_alivetime = now } in
              let before = v.places i in
              let after = count-append i p.m_connect_q (back ∷ []) in
              let less = count-remove_at i k conn p.lent e in omega (arith, before, after, less);
        }
]

move-IsValid : (m : Move) (p : Pool) → IsValid p → IsValid (move m p)
unfolding move
move-IsValid (producing now) p v = produce_connection-IsValid now p v
move-IsValid (recycling now) p v = recycle_connection-IsValid now p v
move-IsValid getting p v = get_connection-IsValid p v
move-IsValid (giving_back now i) p v = give_back-IsValid now i p v

run-IsValid : (moves : List Move) (p : Pool) → IsValid p → IsValid (run moves p)
run-IsValid [] p v = v
run-IsValid (m ∷ moves) p v = run-IsValid moves (move m p) (move-IsValid m p v)

add_connections-IsValid : (n now : ℕ) (p : Pool) → IsValid p → IsValid (add_connections n now p)
unfolding add_connections
add_connections-IsValid zero now p v = v
add_connections-IsValid (suc n) now p v =
    add_connections-IsValid n now (add_connection now p) (add_connection-IsValid now p v)

-- Whatever the producer, the recycler and the callers do, in any order and at any times, each connection
-- that was made is in exactly one place: in the queue, with one caller, or deleted. No number that was not
-- given out occurs.
pub connect_pool-IsValid :
    (min_size max_id_time now : ℕ) (moves : List Move)
    → IsValid (run moves (connect_pool min_size max_id_time now))
unfolding connect_pool
connect_pool-IsValid min_size max_id_time now moves =
    run-IsValid moves _
      (add_connections-IsValid min_size now _ record { places = λ i. ground arith })
