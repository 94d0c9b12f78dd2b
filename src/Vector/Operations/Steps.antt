-- ===== src/Vector/Operations/Steps.antt =====
-- vector/version03/vector.cpp: each call does what is expected of it.
use cpp_projects_learning.Common.{
  ℕ, zero, suc, ◌+◌, ◌-◌, ◌≤◌, ◌<◌, ◌≡◌, inl, inr, refl, sym, ap, ◌∙◌, subst, Bool, true, false,
  List, [], ◌∷◌, ◌++◌, Option, none, some, arith, ltb, leb, if◌then◌else◌, length, replicate, take,
  drop, take-drop, length-take-drop, length-append, ltb→le, last_cases, drop-add,
}
use cpp_projects_learning.Vector.{returns}
use cpp_projects_learning.Vector.Class.{Vector, erase, erase_range, pop_back}
use cpp_projects_learning.Vector.Contents.{Holds}
use cpp_projects_learning.Vector.Growth.{emplace_back-Holds, reserve-Holds, shrink_to_fit-Holds}
use cpp_projects_learning.Vector.Insert.{emplace-Holds}
use cpp_projects_learning.Vector.Erase.{erase_range-Holds, erase-Holds, pop_back-Holds, clear-Holds}
use cpp_projects_learning.Vector.Resize.{resize-Holds}
use cpp_projects_learning.Vector.Operations.{
  Operation, reserving, shrinking, clearing, popping, pushing, inserting, erasing, erasing_range,
  resizing, expected, Performs,
}

module _ {T : Type 0} where
  pub some_eq : (xs ys : List T) → some xs ≡ some ys → xs ≡ ys
  some_eq xs ys e = ap (λ o. elim o [ none ↦ xs | some k ↦ k ]) e

  pub nothing : (ys : List T) → none ≡ some ys → ⊥
  nothing ys e = cc

  -- A call that is allowed passes its test.
  allowed :
      (b : Bool) (o : Option (List T)) (ys : List T)
      → (if b then none else o) ≡ some ys
      → (b ≡ false) × (o ≡ some ys)
  allowed true o ys e = absurd (nothing ys e)
  allowed false o ys e = (refl, e)

  pop_back-empty : (v : Vector T) → v.size_ ≡ 0 → pop_back v ≡ returns v
  unfolding pop_back
  pop_back-empty v e = let none_left : ltb 0 v.size_ ≡ false = rw (e) in rw (none_left)

  take-append : (xs ys : List T) → take (length xs) (xs ++ ys) ≡ xs
  take-append [] ys = refl
  take-append (x ∷ xs) ys = ap (◌∷◌ x) (take-append xs ys)

  take_init : (xs : List T) (x : T) → take (length (xs ++ x ∷ []) - 1) (xs ++ x ∷ []) ≡ xs
  take_init xs x =
      let n : length (xs ++ x ∷ []) - 1 ≡ length xs = omega (arith, length-append xs (x ∷ [])) in
      ap (λ k. take k (xs ++ x ∷ [])) n ∙ take-append xs (x ∷ [])

  drop-cons : (n : ℕ) (xs : List T) → n < length xs → (x : T) × (drop n xs ≡ x ∷ drop (suc n) xs)
  drop-cons n [] lt = absurd (omega (arith, lt))
  drop-cons zero (x ∷ xs) lt = (x, refl)
  drop-cons (suc n) (x ∷ xs) lt = drop-cons n xs (omega (arith, lt))

  module _ (max_size : ℕ) where
    reserving-Performs :
        (n : ℕ) (v : Vector T) (xs : List T) (room : ℕ)
        → Holds v xs room
        → Performs max_size (reserving n) v xs
    reserving-Performs n v xs room h = elim (reserve-Holds max_size n v xs room h) [
      | inl (over, thrown) ↦ inl (over, thrown)
      | inr (w, room', e, k, _, _) ↦ inr (w, room', e, k)
    ]

    shrinking-Performs :
        (v : Vector T) (xs : List T) (room : ℕ) → Holds v xs room → Performs max_size shrinking v xs
    shrinking-Performs v xs room h = elim (shrink_to_fit-Holds max_size v xs room h) [
      | inl (over, thrown) ↦ inl (subst (λ k. max_size < k) (sym h.size) over, thrown)
      | inr (w, e, k) ↦ inr (w, 0, e, k)
    ]

    popping-Performs :
        (v : Vector T) (xs : List T) (room : ℕ)
        → Holds v xs room
        → Performs max_size popping v (take (length xs - 1) xs)
    popping-Performs v xs room h = elim (last_cases xs) [
      | inl none_left ↦
          let h' = subst (λ k. Holds v k room) none_left h in
          inr (
            v,
            room,
            pop_back-empty v h'.size,
            subst (λ k. Holds v (take (length k - 1) k) room) (sym none_left) h',
          )
      | inr m ↦
          let (mid, x, whole) = m in
          let (w, e, k, _) = pop_back-Holds v mid x room (subst (λ i. Holds v i room) whole h) in
          inr (
            w,
            suc room,
            e,
            subst (λ i. Holds w i (suc room))
                (sym (ap (λ i. take (length i - 1) i) whole ∙ take_init mid x)) k,
          )
    ]

    inserting-Performs :
        (pos : ℕ) (x : T) (v : Vector T) (xs : List T) (room : ℕ)
        → Holds v xs room
        → pos ≤ length xs
        → Performs max_size (inserting pos x) v (take pos xs ++ x ∷ drop pos xs)
    inserting-Performs pos x v xs room h le =
        let (l, _) = length-take-drop pos xs le in
        let whole = sym (take-drop pos xs) in
        subst (λ k. Performs max_size (inserting k x) v (take pos xs ++ x ∷ drop pos xs)) l
          (elim (emplace-Holds max_size x v (take pos xs) (drop pos xs) room
            (subst (λ k. Holds v k room) whole h)) [
              | inl (_, over, thrown) ↦ inl (over, thrown)
              | inr g ↦ inr g
            ])

    erasing-Performs :
        (pos : ℕ) (v : Vector T) (xs : List T) (room : ℕ)
        → Holds v xs room
        → pos < length xs
        → Performs max_size (erasing pos) v (take pos xs ++ drop (suc pos) xs)
    erasing-Performs pos v xs room h lt =
        let (l, _) = length-take-drop pos xs (omega (arith, lt)) in
        let (x, at) = drop-cons pos xs lt in
        let whole = sym (take-drop pos xs) ∙ ap (λ k. take pos xs ++ k) at in
        let (w, e, k, _) =
          erase-Holds v (take pos xs) (drop (suc pos) xs) x room
            (subst (λ k. Holds v k room) whole h) in
        inr (w, 1 + room, subst (λ k. erase k v ≡ returns w) l e, k)

    erasing_range-Performs :
        (first last : ℕ) (v : Vector T) (xs : List T) (room : ℕ)
        → Holds v xs room
        → first ≤ last
        → last ≤ length xs
        → Performs max_size (erasing_range first last) v (take first xs ++ drop last xs)
    erasing_range-Performs first last v xs room h le le' =
        let (l, l') = length-take-drop first xs (omega (arith, le, le')) in
        let n = last - first in
        let rest = drop first xs in
        let (m, _) = length-take-drop n rest (omega (arith, l, l', le, le')) in
        let whole =
          sym (take-drop first xs) ∙ ap (λ k. take first xs ++ k) (sym (take-drop n rest)) in
        let behind : drop n rest ≡ drop last xs =
          sym (drop-add first n last xs (omega (arith, le))) in
        let (w, e, k, _) =
          erase_range-Holds v (take first xs) (take n rest) (drop n rest) room
            (subst (λ k. Holds v k room) whole h) in
        inr (
          w,
          length (take n rest) + room,
          subst (λ i. erase_range first i v ≡ returns w) (omega (arith, l, m, le))
              (subst
                (λ i. erase_range i (length (take first xs) + length (take n rest)) v ≡ returns w) l
                e),
          subst (λ i. Holds w (take first xs ++ i) (length (take n rest) + room)) behind k,
        )

    pub perform-Performs :
        (op : Operation T) (v : Vector T) (xs ys : List T) (room : ℕ)
        → Holds v xs room
        → expected op xs ≡ some ys
        → Performs max_size op v ys
    perform-Performs (reserving n) v xs ys room h e =
        subst (Performs max_size (reserving n) v) (some_eq xs ys e)
          (reserving-Performs n v xs room h)
    perform-Performs shrinking v xs ys room h e =
        subst (Performs max_size shrinking v) (some_eq xs ys e) (shrinking-Performs v xs room h)
    perform-Performs clearing v xs ys room h e =
        let (w, f, k, _) = clear-Holds v xs room h in
        subst (Performs max_size clearing v) (some_eq [] ys e) (inr (w, v.capacity_, f, k))
    perform-Performs popping v xs ys room h e =
        subst (Performs max_size popping v) (some_eq (take (length xs - 1) xs) ys e)
          (popping-Performs v xs room h)
    perform-Performs (pushing x) v xs ys room h e =
        subst (Performs max_size (pushing x) v) (some_eq (xs ++ x ∷ []) ys e)
          (elim (emplace_back-Holds max_size x v xs room h) [
            | inl (_, over, thrown) ↦ inl (over, thrown)
            | inr g ↦ inr g
          ])
    perform-Performs (inserting pos x) v xs ys room h e =
        let (inside, f) =
          allowed (ltb (length xs) pos) (some (take pos xs ++ x ∷ drop pos xs)) ys e in
        subst (Performs max_size (inserting pos x) v) (some_eq _ ys f)
          (inserting-Performs pos x v xs room h (ltb→le _ _ inside))
    perform-Performs (erasing pos) v xs ys room h e =
        let (inside, f) =
          allowed (leb (length xs) pos) (some (take pos xs ++ drop (suc pos) xs)) ys e in
        subst (Performs max_size (erasing pos) v) (some_eq _ ys f)
          (erasing-Performs pos v xs room h (ground (arith, inside)))
    perform-Performs (erasing_range first last) v xs ys room h e =
        let (in_order, f) = allowed (ltb last first) _ ys e in
        let (inside, g) =
          allowed (ltb (length xs) last) (some (take first xs ++ drop last xs)) ys f in
        subst (Performs max_size (erasing_range first last) v) (some_eq _ ys g)
          (erasing_range-Performs first last v xs room h (ltb→le _ _ in_order) (ltb→le _ _ inside))
    perform-Performs (resizing n x) v xs ys room h e =
        subst (Performs max_size (resizing n x) v)
          (some_eq (take n xs ++ replicate (n - length xs) x) ys e)
          (elim (resize-Holds max_size n x v xs room h) [
            | inl (_, over, thrown) ↦ inl (over, thrown)
            | inr g ↦ inr g
          ])
