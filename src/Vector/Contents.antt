-- ===== src/Vector/Contents.antt =====
-- vector/version03/vector.cpp: the vector as the list of its elements, and the functions that give it
-- another block.
use cpp_projects_learning.Common.{
  ℕ, zero, suc, ◌+◌, ◌-◌, ◌≤◌, ◌<◌, ◌≡◌, ◌⊎◌, inl, inr, refl, sym, ap, ◌∙◌, List, [], ◌∷◌, ◌++◌,
  Option, none, some, subst, arith, ltb, length, replicate, length-append, length-replicate,
  Bool-cases, Option-cases, ltb→lt,
}
use cpp_projects_learning.Vector.{
  raw, moved, Memory, Outcome, returns, throws_length_error, raws, move_out,
}
use cpp_projects_learning.Vector.Class.{Vector, memory, with_memory, allocate, reallocate}
use cpp_projects_learning.Vector.Layout.{
  lives, AllBuilt, >>=-returns, length-lives, destroy-slots, move_out-slots,
}

-- The block holds these elements and then `room` slots without one.
pub record Holds {T : Type 0} (v : Vector T) (xs : List T) (room : ℕ) : Type 0 where
  pub contents : memory v ≡ lives xs ++ raws room
  pub size : v.size_ ≡ length xs
  pub capacity : v.capacity_ ≡ length xs + room

-- The call returns a vector of these elements.
abbrev pub Gives : {T : Type 0} → Outcome (Vector T) → List T → Type 0
Gives {T} o xs = (w : Vector T) × (room : ℕ) × (o ≡ returns w) × Holds w xs room

pub replicate-append :
    {A : Type 0} (m n k : ℕ) (a : A) → k ≡ m + n → replicate k a ≡ replicate m a ++ replicate n a
replicate-append zero n k a e = ap (λ i. replicate i a) (omega arith)
replicate-append (suc m) n zero a e = absurd (omega arith)
replicate-append (suc m) n (suc k) a e = ap (◌∷◌ a) (replicate-append m n k a (omega arith))

replicate-AllBuilt : (T : Type 0) (n : ℕ) → AllBuilt {T = T} (replicate n moved)
replicate-AllBuilt T zero = tt
replicate-AllBuilt T (suc n) = (tt, replicate-AllBuilt T n)

abbrev pub block_of : {T : Type 0} → Option (Memory T) → Memory T
block_of o = elim o [ none ↦ [] | some m ↦ m ]

module _ {T : Type 0} where
  pub empty : (xs : List T) (room : ℕ) → [] ≡ lives xs ++ raws room → (xs ≡ []) × (room ≡ 0)
  empty [] zero e = (refl, refl)
  empty [] (suc room) e = cc
  empty (x ∷ xs) room e = cc

  pub memory-with_memory :
      (m : Memory T) (v : Vector T) → 0 < length (memory v) → memory (with_memory m v) ≡ m
  memory-with_memory m v p = elim (Option-cases v.data_) [
    | inl e ↦ absurd (ground arith)
    | inr (old, e) ↦ rw e
  ]

  pub length-memory :
      (v : Vector T) (xs : List T) (room : ℕ) → Holds v xs room → length (memory v) ≡ v.capacity_
  length-memory v xs room h =
      let free : length (raws {T = T} room) ≡ room = length-replicate room raw in
      rw h.contents
        (omega (arith, length-append (lives xs) (raws room), length-lives xs, free, h.capacity))

  -- A member function has changed the block to hold `ys`.
  pub with_memory-Holds :
      (v : Vector T) (xs : List T) (room : ℕ) (m : Memory T) (ys : List T) (room' n : ℕ)
      → Holds v xs room
      → 0 < v.capacity_
      → m ≡ lives ys ++ raws room'
      → n ≡ length ys
      → v.capacity_ ≡ length ys + room'
      → Holds (record (with_memory m v) { size_ = n }) ys room'
  with_memory-Holds v xs room m ys room' n h p e l c = record {
    contents = memory-with_memory m v (omega (arith, length-memory v xs room h)) ∙ e;
    size = l;
    capacity = c;
  }

  -- The elements move to a block of `n` slots.
  move_out-raws :
      (xs : List T) (room n : ℕ)
      → length xs ≤ n
      → move_out (length xs) 0 (lives xs ++ raws room) (raws n)
        ≡ returns (replicate (length xs) moved ++ raws room, lives xs ++ raws (n - length xs))
  move_out-raws xs room n h =
      let split : raws n ≡ raws {T = T} (length xs) ++ raws (n - length xs) =
        replicate-append (length xs) (n - length xs) n raw (omega arith) in
      rw split (
        move_out-slots [] (raws room) [] (raws (length xs)) (raws (n - length xs)) xs 0 refl refl
          (length-replicate (length xs) raw))

  module _ (max_size : ℕ) where
    -- A block of `n` slots: the allocator refuses it, or the vector has the same elements in it.
    pub reallocate-Holds :
        (n : ℕ) (v : Vector T) (xs : List T) (room : ℕ)
        → Holds v xs room
        → length xs ≤ n
        → ((max_size < n) × (reallocate max_size n v ≡ throws_length_error))
          ⊎ ((w : Vector T) × (reallocate max_size n v ≡ returns w) × Holds w xs (n - length xs))
    unfolding reallocate allocate
    reallocate-Holds n v xs room h le = elim (Bool-cases (ltb max_size n)) [
      | inl over ↦ inl (ltb→lt _ _ over, rw over)
      | inr fits ↦ elim (Option-cases v.data_) [
        | inl null ↦
            let e : [] ≡ lives xs ++ raws room =
              subst (λ o. block_of o ≡ lives xs ++ raws room) null h.contents in
            let (none_there, _) = empty xs room e in
            inr (
              record v { data_ = some (raws n); capacity_ = n },
              rw (fits, null),
              record {
                contents = rw none_there (ap raws (omega arith));
                size = h.size;
                capacity = omega arith;
              },
            )
        | inr (old, block) ↦
            let e : old ≡ lives xs ++ raws room =
              subst (λ o. block_of o ≡ lives xs ++ raws room) block h.contents in
            let done =
              destroy-slots [] (replicate (length xs) moved) (raws room) (length xs) 0 refl
                (sym (length-replicate (length xs) moved)) (replicate-AllBuilt T (length xs)) in
            inr (
              record v { data_ = some (lives xs ++ raws (n - length xs)); capacity_ = n },
              rw (fits, block)
                  (rw (h.size, e)
                    (>>=-returns _ (move_out-raws xs room n le) ∙ >>=-returns _ done)),
              record { contents = refl; size = h.size; capacity = omega arith },
            )
      ]
    ]
