-- ===== src/Vector/Growth.antt =====
-- vector/version03/vector.cpp: the functions that add elements at the end or change the capacity.
use cpp_projects_learning.Common.{
  ℕ, suc, ◌+◌, ◌-◌, ◌≤◌, ◌<◌, ◌≡◌, ◌⊎◌, inl, inr, sym, ◌∙◌, List, [], ◌∷◌, ◌++◌, append_assoc,
  subst, arith, ltb, leb, length, length-append, Bool-cases, ltb→lt, ltb→le,
}
use cpp_projects_learning.Vector.{raw, live, returns, throws_length_error, raws}
use cpp_projects_learning.Vector.Class.{
  Vector, with_memory, next_capacity, make_room, emplace_back, reserve, shrink_to_fit,
}
use cpp_projects_learning.Vector.Layout.{
  lives, >>=-returns, lives-append, length-lives, construct-slot,
}
use cpp_projects_learning.Vector.Contents.{Holds, Gives, reallocate-Holds, with_memory-Holds}

module _ {T : Type 0} (max_size : ℕ) where
  -- There is a slot without an element, or the allocator has refused twice the capacity.
  pub make_room-Holds :
      (v : Vector T) (xs : List T) (room : ℕ)
      → Holds v xs room
      → ((room ≡ 0)
          × (max_size < next_capacity v.capacity_)
          × (make_room max_size v ≡ throws_length_error))
        ⊎ ((w : Vector T) × (room' : ℕ) × (make_room max_size v ≡ returns w)
            × Holds w xs (suc room'))
  unfolding make_room
  make_room-Holds v xs room h = elim (Bool-cases (leb v.capacity_ v.size_)) [
    | inr space ↦
        let more : room ≡ suc (room - 1) = ground (arith, h.size, h.capacity) in
        inr (v, room - 1, rw space, subst (Holds v xs) more h)
    | inl full ↦
        let larger : length xs < next_capacity v.capacity_ = ground (arith, h.size, h.capacity) in
        let none_left : room ≡ 0 = ground (arith, h.size, h.capacity) in
        elim (reallocate-Holds max_size (next_capacity v.capacity_) v xs room h (omega arith)) [
          | inl (over, thrown) ↦ inl (none_left, over, rw full thrown)
          | inr (w, e, k) ↦
              let rest = next_capacity v.capacity_ - length xs in
              let more : rest ≡ suc (rest - 1) = omega arith in
              inr (w, rest - 1, rw full e, subst (Holds w xs) more k)
        ]
  ]

  -- `emplace_back`, and with it `push_back`, puts the element behind the others. It throws only
  -- if the block is full and twice its size (1 for an empty one) is
  -- more than the allocator gives.
  pub emplace_back-Holds :
      (x : T) (v : Vector T) (xs : List T) (room : ℕ)
      → Holds v xs room
      → ((room ≡ 0)
          × (max_size < next_capacity v.capacity_)
          × (emplace_back max_size x v ≡ throws_length_error))
        ⊎ Gives (emplace_back max_size x v) (xs ++ x ∷ [])
  unfolding emplace_back
  emplace_back-Holds x v xs room h = elim (make_room-Holds v xs room h) [
    | inl (none_left, over, thrown) ↦ inl (none_left, over, rw thrown)
    | inr (w, room', e, k) ↦
        let built =
          construct-slot (lives xs) (raws room') w.size_ (k.size ∙ sym (length-lives xs)) raw x in
        let m = lives xs ++ (live x ∷ raws room') in
        let done =
          with_memory-Holds w xs (suc room') m (xs ++ x ∷ []) room' (w.size_ + 1) k
            (omega (arith, k.capacity))
            (rw (lives-append xs (x ∷ []))
              (sym (append_assoc (lives xs) (live x ∷ []) (raws room'))))
            (omega (arith, k.size, length-append xs (x ∷ [])))
            (omega (arith, k.capacity, length-append xs (x ∷ []))) in
        inr (
          record (with_memory m w) { size_ = w.size_ + 1 },
          room',
          rw e (rw k.contents (>>=-returns _ built)),
          done,
        )
  ]

  -- `reserve` keeps the elements and makes the capacity at least `n`; it throws only if the
  -- allocator gives no block of `n`.
  pub reserve-Holds :
      (n : ℕ) (v : Vector T) (xs : List T) (room : ℕ)
      → Holds v xs room
      → ((max_size < n) × (reserve max_size n v ≡ throws_length_error))
        ⊎ ((w : Vector T) × (room' : ℕ) × (reserve max_size n v ≡ returns w)
            × Holds w xs room'
            × (n ≤ w.capacity_)
            × (v.capacity_ ≤ w.capacity_))
  unfolding reserve
  reserve-Holds n v xs room h = elim (Bool-cases (ltb v.capacity_ n)) [
    | inr enough ↦ inr (v, room, rw enough, h, ltb→le _ _ enough, omega arith)
    | inl short ↦
        let more = ltb→lt _ _ short in
        elim (reallocate-Holds max_size n v xs room h (omega (arith, h.capacity))) [
          | inl (over, thrown) ↦ inl (over, rw short thrown)
          | inr (w, e, k) ↦ inr (
            w,
            n - length xs,
            rw short e,
            k,
            omega (arith, k.capacity, h.capacity),
            omega (arith, k.capacity, h.capacity),
          )
        ]
  ]

  -- `shrink_to_fit` keeps the elements and leaves no slot without one, unless the allocator refuses.
  pub shrink_to_fit-Holds :
      (v : Vector T) (xs : List T) (room : ℕ)
      → Holds v xs room
      → ((max_size < length xs) × (shrink_to_fit max_size v ≡ throws_length_error))
        ⊎ ((w : Vector T) × (shrink_to_fit max_size v ≡ returns w) × Holds w xs 0)
  unfolding shrink_to_fit
  shrink_to_fit-Holds v xs room h = elim (Bool-cases (ltb v.size_ v.capacity_)) [
    | inr tight ↦
        let none_left : room ≡ 0 = ground (arith, h.size, h.capacity) in
        inr (v, rw tight, subst (Holds v xs) none_left h)
    | inl loose ↦ elim (reallocate-Holds max_size v.size_ v xs room h (omega (arith, h.size))) [
      | inl (over, thrown) ↦ inl (omega (arith, h.size), rw loose thrown)
      | inr (w, e, k) ↦
          let none_left : v.size_ - length xs ≡ 0 = omega (arith, h.size) in
          inr (w, rw loose e, subst (Holds w xs) none_left k)
    ]
  ]
