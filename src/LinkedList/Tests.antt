-- ===== src/LinkedList/Tests.antt =====
-- list/list.inl: lists in a concrete heap, and the theorems applied to them.
use cpp_projects_learning.Common.{
  ℕ, inl, inr, ◌≡◌, refl, List, [], ◌∷◌, ◌++◌, none, some, arith, ◌==◌, if◌then◌else◌,
}
use cpp_projects_learning.LinkedList.{Heap}
use cpp_projects_learning.LinkedList.Class.{
  Fields, assign, next_undefined, erase_range, resize, merge, reserve, find,
}
use cpp_projects_learning.LinkedList.Chain.{node, Cells, Off, IsList}
use cpp_projects_learning.LinkedList.Ends.{Merges, merge-IsList}
use cpp_projects_learning.LinkedList.Join.{Gives}
use cpp_projects_learning.LinkedList.Removal.{Frees}
use cpp_projects_learning.LinkedList.Assign.{cells, Fresh, Assigns, assign-IsList}
use cpp_projects_learning.LinkedList.Erase.{Erases, erase-middle}
use cpp_projects_learning.LinkedList.Dangling.{
  ErasesLast, erase-ErasesLast, PopsFront, pop_front-PopsFront,
}
use cpp_projects_learning.LinkedList.Grow.{resize-grows}
use cpp_projects_learning.LinkedList.Range.{erase_range-undefined}
use cpp_projects_learning.LinkedList.Insert.{InsertsNodes, insert-InsertsNodes}
use cpp_projects_learning.LinkedList.Turn.{reserve-reverse, find-address_of}
use cpp_projects_learning.LinkedList.Resize.{resize-halfway}

-- The list 7, 8, 9 at the addresses 10, 20 and 30, and the list 5 at the address 40.
abbrev heap : Heap ℕ
heap p =
    if p == 10
    then some (node 7 0 20)
    else if p == 20
    then some (node 8 10 30)
    else if p == 30
    then some (node 9 20 0)
    else if p == 40
    then some (node 5 0 0)
    else none

abbrev three : Fields
three = record { m_head = 10; m_tail = 30; m_size = 3 }

abbrev one : Fields
one = record { m_head = 40; m_tail = 40; m_size = 1 }

abbrev three_cells : Cells ℕ
three_cells = (10, 7) ∷ (20, 8) ∷ (30, 9) ∷ []

abbrev one_cells : Cells ℕ
one_cells = (40, 5) ∷ []

three-IsList : IsList heap three three_cells
three-IsList = record {
  chain = (refl, (refl, (refl, tt)));
  apart = (
    omega arith,
    (omega arith, (omega arith, tt)),
    (omega arith, (omega arith, tt), (omega arith, tt, tt)),
  );
  head = refl;
  tail = refl;
  size = refl;
}

one-IsList : IsList heap one one_cells
one-IsList = record {
  chain = (refl, tt);
  apart = (omega arith, tt, tt);
  head = refl;
  tail = refl;
  size = refl;
}

one-Off : Off three_cells one_cells
one-Off = ((omega arith, (omega arith, (omega arith, tt))), tt)

abbrev new : List ℕ
new = 50 ∷ 60 ∷ []

new-Fresh : Fresh heap (cells new 4)
new-Fresh = record {
  apart = (omega arith, (omega arith, tt), (omega arith, tt, tt));
  unused = (refl, (refl, tt));
}

merge-IsList_example : Merges (merge heap three one) heap (three_cells ++ one_cells)
merge-IsList_example =
    merge-IsList heap three one (10, 7) (40, 5) ((20, 8) ∷ (30, 9) ∷ []) [] three-IsList one-IsList
      one-Off

-- `new` gives the addresses of two deleted nodes again.
abbrev reused : List ℕ
reused = 20 ∷ 50 ∷ 10 ∷ []

assign-IsList_example : Assigns (assign reused 4 heap three) heap three_cells (cells reused 4)
assign-IsList_example =
    assign-IsList reused 4 heap three three_cells three-IsList
      (
        omega arith,
        (omega arith, (omega arith, tt)),
        (omega arith, (omega arith, tt), (omega arith, tt, tt)),
      )
      (inr (inr (inl refl)), (inl refl, (inr (inl refl), tt)))

insert-InsertsNodes_example :
    InsertsNodes 20 60 new 4 heap three ((10, 7) ∷ (60, 4) ∷ (50, 4) ∷ (20, 8) ∷ (30, 9) ∷ [])
insert-InsertsNodes_example =
    insert-InsertsNodes new 10 20 4 7 8 heap three [] ((30, 9) ∷ []) three-IsList new-Fresh

erase-middle_example : Erases 20 30 heap three three_cells ((10, 7) ∷ (30, 9) ∷ [])
erase-middle_example = erase-middle heap three [] [] 10 20 30 7 8 9 three-IsList

reserve-reverse_example :
    Gives (reserve heap three) heap three_cells ((30, 9) ∷ (20, 8) ∷ (10, 7) ∷ [])
reserve-reverse_example = reserve-reverse heap three three_cells three-IsList

find-address_of_example : find (λ a b. a == b) 8 heap three ≡ some 20
find-address_of_example = find-address_of (λ a b. a == b) 8 heap three three_cells three-IsList

resize-halfway_example :
    Frees (resize 1 [] 0 heap three) heap three_cells ((30, 9) ∷ []) ((10, 7) ∷ (20, 8) ∷ [])
resize-halfway_example =
    resize-halfway 1 [] 0 heap three ((10, 7) ∷ (20, 8) ∷ []) ((30, 9) ∷ []) three-IsList
      (omega arith) refl

resize-grows_example :
    Gives (resize 6 new 4 heap three) heap (three_cells ++ cells new 4) (three_cells ++ cells new 4)
resize-grows_example =
    resize-grows 6 new 4 heap three three_cells three-IsList new-Fresh (omega arith) refl

pop_front-PopsFront_example : PopsFront 10 20 heap three
pop_front-PopsFront_example = pop_front-PopsFront heap three 10 20 7 8 ((30, 9) ∷ []) three-IsList

erase-ErasesLast_example : ErasesLast 30 heap three ((10, 7) ∷ (20, 8) ∷ [])
erase-ErasesLast_example = erase-ErasesLast heap three ((10, 7) ∷ []) 20 30 8 9 three-IsList

erase_range-undefined_example : erase_range 5 10 30 heap three ≡ next_undefined
erase_range-undefined_example =
    erase_range-undefined 4 10 30 7 heap three [] ((20, 8) ∷ (30, 9) ∷ []) three-IsList
      (omega arith)
