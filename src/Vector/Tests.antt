-- ===== src/Vector/Tests.antt =====
-- vector/version03/vector.cpp: small vectors of numbers.
use cpp_projects_learning.Common.{ℕ, ◌≤◌, ◌<◌, ◌≡◌, ◌⊎◌, refl, List, [], ◌∷◌, some}
use cpp_projects_learning.Vector.{raw, live, returns, throws_length_error}
use cpp_projects_learning.Vector.Class.{Vector, memory, copy_assign}
use cpp_projects_learning.Vector.Operations.{
  Operation, pushing, inserting, erasing, popping, resizing, perform_all, Refused,
}
use cpp_projects_learning.Vector.Operations.Sequence.{perform_all-Gives}
use cpp_projects_learning.Vector.Contents.{Holds, Gives}
use cpp_projects_learning.Vector.Assign.{copy_assign-Holds}

-- Three elements and a spare slot.
abbrev three : Vector ℕ
three = record { data_ = some (live 4 ∷ live 5 ∷ live 6 ∷ raw ∷ []); size_ = 3; capacity_ = 4 }

abbrev elements : List ℕ
elements = 4 ∷ 5 ∷ 6 ∷ []

abbrev one : Vector ℕ
one = record { data_ = some (live 9 ∷ []); size_ = 1; capacity_ = 1 }

three-Holds : Holds three elements 1
three-Holds = record { contents = refl; size = refl; capacity = refl }

one-Holds : Holds one (9 ∷ []) 0
one-Holds = record { contents = refl; size = refl; capacity = refl }

copy_assign-Holds_example :
    ((1 ≤ 4)
      × ((w : Vector ℕ) × (copy_assign 100 one three ≡ returns w)
          × (memory w ≡ live 9 ∷ live 5 ∷ live 6 ∷ raw ∷ [])
          × (w.size_ ≡ 1)
          × (w.capacity_ ≡ 4)))
    ⊎ (((4 < 1) × (100 < 1) × (copy_assign 100 one three ≡ throws_length_error))
        ⊎ ((w : Vector ℕ) × (4 < 1) × (copy_assign 100 one three ≡ returns w) × Holds w (9 ∷ []) 0))
copy_assign-Holds_example =
    copy_assign-Holds 100 one three (9 ∷ []) elements 0 1 one-Holds three-Holds

abbrev calls : List (Operation ℕ)
calls = pushing 7 ∷ inserting 1 8 ∷ erasing 0 ∷ popping ∷ resizing 4 9 ∷ []

perform_all-Gives_example :
    (Refused 100 calls three × (perform_all 100 calls three ≡ throws_length_error))
    ⊎ Gives (perform_all 100 calls three) (8 ∷ 5 ∷ 6 ∷ 9 ∷ [])
perform_all-Gives_example =
    perform_all-Gives 100 calls three elements (8 ∷ 5 ∷ 6 ∷ 9 ∷ []) 1 three-Holds refl
