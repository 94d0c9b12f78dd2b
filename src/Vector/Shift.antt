-- ===== src/Vector/Shift.antt =====
-- vector/version03/vector.cpp: `std::move_backward` by one slot, as `emplace` uses it.
use cpp_projects_learning.Common.{
  ℕ, zero, suc, ◌+◌, ◌≡◌, refl, sym, ◌∙◌, List, [], ◌∷◌, ◌++◌, append_assoc, arith, length,
  length-append,
}
use cpp_projects_learning.Vector.{
  Slot, live, moved, Memory, Outcome, returns, throws_length_error, throws_out_of_range, undefined,
  ◌>>=◌, move_slot, move_up,
}
use cpp_projects_learning.Vector.Layout.{lives, Built, >>=-returns, take_at-slot, assign-slot}

>>=-assoc :
    {A B C : Type 0} (o : Outcome A) (f : A → Outcome B) (g : B → Outcome C)
    → ((o >>= f) >>= g) ≡ (o >>= λ a. f a >>= g)
>>=-assoc (returns a) f g = refl
>>=-assoc throws_length_error f g = refl
>>=-assoc throws_out_of_range f g = refl
>>=-assoc undefined f g = refl

pub >>=-pure : {A : Type 0} (o : Outcome A) → (o >>= returns) ≡ o
>>=-pure (returns a) = refl
>>=-pure throws_length_error = refl
>>=-pure throws_out_of_range = refl
>>=-pure undefined = refl

>>=-ap :
    {A B : Type 0} (o : Outcome A) (f g : A → Outcome B)
    → ((a : A) → f a ≡ g a)
    → (o >>= f) ≡ (o >>= g)
>>=-ap (returns a) f g h = h a
>>=-ap throws_length_error f g h = refl
>>=-ap throws_out_of_range f g h = refl
>>=-ap undefined f g h = refl

module _ {T : Type 0} where
  -- The first element moves last.
  move_up-first :
      (n src dst : ℕ) (m : Memory T)
      → move_up (suc n) src dst m ≡ (move_up n (src + 1) (dst + 1) m >>= move_slot src dst)
  unfolding move_up
  move_up-first zero src dst m =
      let a : src + 0 ≡ src = omega arith in
      let b : dst + 0 ≡ dst = omega arith in rw (a, b) (>>=-pure (move_slot src dst m))
  move_up-first (suc n) src dst m =
      let a : src + 1 + n ≡ src + suc n = omega arith in
      let b : dst + 1 + n ≡ dst + suc n = omega arith in
      >>=-ap (move_slot (src + suc n) (dst + suc n) m) _ _ (move_up-first n src dst)
      ∙ rw (a, b)
          (sym (
            >>=-assoc (move_slot (src + suc n) (dst + suc n) m) (move_up n (src + 1) (dst + 1))
              (move_slot src dst)))

  move_slot-up :
      (pre : Memory T) (x : T) (s : Slot T) (post : Memory T) (i : ℕ)
      → i ≡ length pre
      → Built s
      → move_slot i (i + 1) (pre ++ (live x ∷ (s ∷ post)))
        ≡ returns (pre ++ (moved ∷ (live x ∷ post)))
  unfolding move_slot
  move_slot-up pre x s post i e b =
      let stored =
        assign-slot (pre ++ moved ∷ []) post (i + 1) (omega (arith, length-append pre (moved ∷ [])))
          s x b in
      >>=-returns _ (take_at-slot pre (s ∷ post) i e x) ∙ (simp append_assoc at stored)

  -- Elements move up by one slot, into one that is built, and leave one that is.
  pub move_up-slots :
      (pre : Memory T) (xs : List T) (s : Slot T) (post : Memory T) (i : ℕ)
      → i ≡ length pre
      → Built s
      → (t : Slot T) × Built t
        × (move_up (length xs) i (i + 1) (pre ++ (lives xs ++ (s ∷ post)))
            ≡ returns (pre ++ (t ∷ (lives xs ++ post))))
  move_up-slots pre [] s post i e b = (s, b, unfold move_up in refl)
  move_up-slots pre (x ∷ xs) s post i e b =
      let (t, built, rest) =
        move_up-slots (pre ++ live x ∷ []) xs s post (i + 1)
          (omega (arith, length-append pre (live x ∷ []))) b in
      let rest' : move_up (length xs) (i + 1) (i + 1 + 1)
            (pre ++ (live x ∷ (lives xs ++ (s ∷ post))))
          ≡ returns (pre ++ (live x ∷ (t ∷ (lives xs ++ post)))) =
        simp append_assoc at rest in
      (
        moved,
        tt,
        move_up-first (length xs) i (i + 1) (pre ++ (live x ∷ (lives xs ++ (s ∷ post))))
            ∙ >>=-returns (move_slot i (i + 1)) rest'
            ∙ move_slot-up pre x t (lives xs ++ post) i e built,
      )
