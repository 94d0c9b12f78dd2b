-- ===== src/Vector/Operations.antt =====
-- vector/version03/vector.cpp: the calls that change a vector, as data, and what they make of a list.
pub mod Steps
pub mod Sequence
use cpp_projects_learning.Common.{
  ℕ, zero, suc, ◌+◌, ◌-◌, ◌≤◌, ◌<◌, ◌≡◌, ◌⊎◌, inl, inr, refl, sym, ap, ◌∙◌, subst, Bool, true,
  false, List, [], ◌∷◌, ◌++◌, Option, none, some, arith, ltb, leb, if◌then◌else◌, length, replicate,
  take, drop, take-drop, length-take-drop, length-append, Bool-cases, ltb→lt, ltb→le, last_cases,
  drop-add, Option-cases,
}
use cpp_projects_learning.Vector.{Outcome, returns, throws_length_error, ◌>>=◌}
use cpp_projects_learning.Vector.Class.{
  Vector, next_capacity, reserve, shrink_to_fit, clear, emplace_back, emplace, erase, erase_range,
  pop_back, resize,
}
use cpp_projects_learning.Vector.Contents.{Holds, Gives}
use cpp_projects_learning.Vector.Growth.{emplace_back-Holds, reserve-Holds, shrink_to_fit-Holds}
use cpp_projects_learning.Vector.Insert.{emplace-Holds}
use cpp_projects_learning.Vector.Erase.{erase_range-Holds, erase-Holds, pop_back-Holds, clear-Holds}
use cpp_projects_learning.Vector.Resize.{resize-Holds}

-- The calls of member functions that change a vector.
pub data Operation (T : Type 0) : Type 0 where
  reserving : ℕ → Operation T
  shrinking clearing popping : Operation T
  pushing : T → Operation T
  inserting : ℕ → T → Operation T
  erasing : ℕ → Operation T
  erasing_range : ℕ → ℕ → Operation T
  resizing : ℕ → T → Operation T

module _ {T : Type 0} where
  -- What each makes of the list of elements; `none` where it may not be called.
  abbrev pub expected : Operation T → List T → Option (List T)
  expected (reserving n) xs = some xs
  expected shrinking xs = some xs
  expected clearing xs = some []
  expected popping xs = some (take (length xs - 1) xs)
  expected (pushing x) xs = some (xs ++ x ∷ [])
  expected (inserting pos x) xs =
      if ltb (length xs) pos then none else some (take pos xs ++ x ∷ drop pos xs)
  expected (erasing pos) xs =
      if leb (length xs) pos then none else some (take pos xs ++ drop (suc pos) xs)
  expected (erasing_range first last) xs =
      if ltb last first
      then none
      else if ltb (length xs) last
      then none
      else some (take first xs ++ drop last xs)
  expected (resizing n x) xs = some (take n xs ++ replicate (n - length xs) x)

  abbrev pub all_expected : List (Operation T) → List T → Option (List T)
  all_expected [] xs = some xs
  all_expected (op ∷ ops) xs = elim (expected op xs) [ none ↦ none | some ys ↦ all_expected ops ys ]

  -- The block that a call may ask the allocator for.
  abbrev pub demand : Operation T → Vector T → ℕ
  demand (reserving n) v = n
  demand shrinking v = v.size_
  demand clearing v = 0
  demand popping v = 0
  demand (pushing x) v = next_capacity v.capacity_
  demand (inserting pos x) v = next_capacity v.capacity_
  demand (erasing pos) v = 0
  demand (erasing_range first last) v = 0
  demand (resizing n x) v = n

  module _ (max_size : ℕ) where
    abbrev pub perform : Operation T → Vector T → Outcome (Vector T)
    perform (reserving n) v = reserve max_size n v
    perform shrinking v = shrink_to_fit max_size v
    perform clearing v = clear v
    perform popping v = pop_back v
    perform (pushing x) v = emplace_back max_size x v
    perform (inserting pos x) v = emplace max_size pos x v
    perform (erasing pos) v = erase pos v
    perform (erasing_range first last) v = erase_range first last v
    perform (resizing n x) v = resize max_size n x v

    abbrev pub perform_all : List (Operation T) → Vector T → Outcome (Vector T)
    perform_all [] v = returns v
    perform_all (op ∷ ops) v = do w ← perform op v; perform_all ops w

    -- At one of the calls the allocator has no block of the size that is asked for.
    abbrev pub Refused : List (Operation T) → Vector T → Type 0
    Refused [] v = ⊥
    Refused (op ∷ ops) v =
        (max_size < demand op v) ⊎ ((w : Vector T) × (perform op v ≡ returns w) × Refused ops w)

    -- A call throws where the allocator refuses the block, or does what is expected.
    abbrev pub Performs : Operation T → Vector T → List T → Type 0
    Performs op v ys =
        ((max_size < demand op v) × (perform op v ≡ throws_length_error)) ⊎ Gives (perform op v) ys
