-- ===== src/Vector/Copy.antt =====
-- vector/version03/vector.cpp: copy construction, and move assignment.
use cpp_projects_learning.Common.{
  ℕ, ◌<◌, ◌≡◌, ◌⊎◌, inl, inr, refl, sym, ap, ◌∙◌, subst, true, false, List, [], ◌∷◌, append-nil,
  some, none, arith, ltb, length, length-replicate, Bool-cases, ltb→lt,
}
use cpp_projects_learning.Vector.{raw, returns, throws_length_error, raws, copy_to, values}
use cpp_projects_learning.Vector.Class.{Vector, allocate, copied, move_assign}
use cpp_projects_learning.Vector.Layout.{lives, >>=-returns, copy_to-slots, values-slots}
use cpp_projects_learning.Vector.Contents.{Holds}
use cpp_projects_learning.Vector.Erase.{clear-Holds}

module _ {T : Type 0} where
  -- The elements are copied to a new block of their number.
  copy-raws : (xs : List T) → copy_to xs 0 (raws (length xs)) ≡ returns (lives xs)
  copy-raws xs =
      let free : length (raws {T = T} (length xs)) ≡ length xs = length-replicate (length xs) raw in
      subst (λ b. copy_to xs 0 b ≡ returns (lives xs)) (append-nil (raws (length xs)))
        (copy_to-slots [] (raws (length xs)) [] xs 0 refl free ∙ ap returns (append-nil (lives xs)))

  -- The copy constructor makes a vector of the same elements without a spare slot; it throws only if the
  -- allocator has no block of that size.
  pub copied-Holds :
      (max_size : ℕ) (other : Vector T) (xs : List T) (room : ℕ)
      → Holds other xs room
      → ((max_size < length xs) × (copied max_size other ≡ throws_length_error))
        ⊎ ((v : Vector T) × (copied max_size other ≡ returns v) × Holds v xs 0)
  unfolding copied allocate
  copied-Holds max_size other [] room h =
      let none_in : ltb 0 other.size_ ≡ false = rw (h.size) in
      inr (
        record { data_ = none; size_ = other.size_; capacity_ = other.size_ },
        rw (none_in),
        record { contents = refl; size = h.size; capacity = h.size },
      )
  copied-Holds max_size other (x ∷ xs) room h =
      let size = h.size in
      let some_in : ltb 0 other.size_ ≡ true = ground (arith, size) in
      let read =
        subst (λ b. values (length (x ∷ xs)) 0 b ≡ returns (x ∷ xs)) (sym h.contents)
          (values-slots [] (raws room) (x ∷ xs) 0 refl) in
      elim (Bool-cases (ltb max_size (length (x ∷ xs)))) [
        | inl over ↦ inl (ltb→lt _ _ over, rw (some_in) (rw (h.size, over)))
        | inr fits ↦ inr (
          record {
            data_ = some (lives (x ∷ xs));
            size_ = length (x ∷ xs);
            capacity_ = length (x ∷ xs);
          },
          rw (some_in)
              (rw (h.size, fits) (>>=-returns _ read ∙ >>=-returns _ (copy-raws (x ∷ xs)))),
          record {
            contents = sym (append-nil (lives (x ∷ xs)));
            size = refl;
            capacity = omega arith;
          },
        )
      ]

  -- Move assignment takes over what the other vector holds, and leaves that one empty.
  pub move_assign-Holds :
      (other v : Vector T) (ys xs : List T) (room' room : ℕ)
      → Holds other ys room'
      → Holds v xs room
      → (w left : Vector T) × (move_assign other v ≡ returns (w, left))
        × Holds w ys room'
        × Holds left [] 0
  unfolding move_assign
  move_assign-Holds other v ys xs room' room h k =
      let (u, cleared, _, _) = clear-Holds v xs room k in
      (
        other,
        record { data_ = none; size_ = 0; capacity_ = 0 },
        >>=-returns _ cleared,
        h,
        record { contents = refl; size = refl; capacity = refl },
      )
