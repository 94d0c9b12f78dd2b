-- ===== src/Vector/Operations/Sequence.antt =====
-- vector/version03/vector.cpp: a vector under any sequence of calls, against a list.
use cpp_projects_learning.Common.{
  ℕ, ◌≡◌, ◌⊎◌, inl, inr, refl, sym, ap, ◌∙◌, subst, List, [], ◌∷◌, Option, none, some, Option-cases,
}
use cpp_projects_learning.Vector.{throws_length_error, ◌>>=◌}
use cpp_projects_learning.Vector.Class.{Vector}
use cpp_projects_learning.Vector.Contents.{Holds, Gives}
use cpp_projects_learning.Vector.Operations.{
  Operation, expected, all_expected, perform_all, Refused,
}
use cpp_projects_learning.Vector.Operations.Steps.{some_eq, nothing, perform-Performs}

module _ {T : Type 0} where
  -- What comes after the call: `all_expected` on a list that has one more.
  abbrev next : List (Operation T) → Option (List T) → Option (List T)
  next ops o = elim o [ none ↦ none | some ys ↦ all_expected ops ys ]

  next-none : (ops : List (Operation T)) (o : Option (List T)) → o ≡ none → next ops o ≡ none
  next-none ops o e = ap (next ops) e

  next-some :
      (ops : List (Operation T)) (o : Option (List T)) (zs : List T)
      → o ≡ some zs
      → next ops o ≡ all_expected ops zs
  next-some ops o zs e = ap (next ops) e

  module _ (max_size : ℕ) where
    -- Any sequence of calls that is allowed on the list of elements leaves a vector that holds what the
    -- calls make of the list, unless the allocator refuses a block that one of them asks for; it then
    -- throws.
    pub perform_all-Gives :
        (ops : List (Operation T)) (v : Vector T) (xs ys : List T) (room : ℕ)
        → Holds v xs room
        → all_expected ops xs ≡ some ys
        → (Refused max_size ops v × (perform_all max_size ops v ≡ throws_length_error))
          ⊎ Gives (perform_all max_size ops v) ys
    perform_all-Gives [] v xs ys room h e =
        inr (v, room, refl, subst (λ k. Holds v k room) (some_eq xs ys e) h)
    perform_all-Gives (op ∷ ops) v xs ys room h e = elim (Option-cases (expected op xs)) [
      | inl none_there ↦ absurd (nothing ys (sym (next-none ops (expected op xs) none_there) ∙ e))
      | inr (zs, f) ↦ elim (perform-Performs max_size op v xs zs room h f) [
        | inl (over, thrown) ↦ inl (inl over, ap (λ o. o >>= perform_all max_size ops) thrown)
        | inr (w, room', returned, k) ↦
            let more = sym (next-some ops (expected op xs) zs f) ∙ e in
            let step : perform_all max_size (op ∷ ops) v ≡ perform_all max_size ops w =
              ap (λ o. o >>= perform_all max_size ops) returned in
            elim (perform_all-Gives ops w zs ys room' k more) [
              | inl (over, thrown) ↦ inl (inr (w, returned, over), step ∙ thrown)
              | inr (u, room'', r, k') ↦ inr (u, room'', step ∙ r, k')
            ]
      ]
    ]
