-- ===== src/Vector/Insert.antt =====
-- vector/version03/vector.cpp: `emplace`, which is `insert`, at any position.
use cpp_projects_learning.Common.{
  split_last, ℕ, suc, ◌+◌, ◌-◌, ◌<◌, ◌≡◌, ◌⊎◌, inl, inr, refl, sym, ap, ◌∙◌, true, false, List, [],
  ◌∷◌, ◌++◌, append-nil, append_assoc, subst, arith, ltb, ◌==◌, length, length-append, le→ltb,
}
use cpp_projects_learning.Vector.{
  raw, live, moved, Memory, returns, throws_length_error, raws, construct, destroy_at, take_at,
  move_up,
}
use cpp_projects_learning.Vector.Class.{Vector, memory, with_memory, next_capacity, emplace}
use cpp_projects_learning.Vector.Layout.{
  lives, >>=-returns, lives-append, length-lives, construct-slot, destroy_at-slot, take_at-slot,
}
use cpp_projects_learning.Vector.Shift.{move_up-slots}
use cpp_projects_learning.Vector.Contents.{Holds, Gives, with_memory-Holds}
use cpp_projects_learning.Vector.Growth.{make_room-Holds, emplace_back-Holds}

module _ {T : Type 0} where
  -- The calls of `emplace` on the block, one after the other: the last element moves to the free slot,
  -- those before it move up, and the slot at the position is destroyed and built anew.
  insert_slots :
      (front mid : List T) (last x : T) (room size pos : ℕ)
      → size ≡ length front + length mid + 1
      → pos ≡ length front
      → (m₁ : Memory T) × (m₂ : Memory T) × (m₃ : Memory T) × (m₄ : Memory T) × (take_at
            (size - 1)
            (lives (front ++ (mid ++ last ∷ [])) ++ raws (suc room))
          ≡ returns (last, m₁))
        × (construct size last m₁ ≡ returns m₂)
        × (move_up (size - 1 - pos) pos (pos + 1) m₂ ≡ returns m₃)
        × (destroy_at pos m₃ ≡ returns m₄)
        × (construct pos x m₄ ≡ returns (lives (front ++ x ∷ (mid ++ last ∷ [])) ++ raws room))
  insert_slots front mid last x room size pos es ep =
      let l = length-append (lives front) (lives mid) in
      let lf = length-lives front in
      let lm = length-lives mid in
      let laid : lives (front ++ (mid ++ last ∷ [])) ++ raws (suc room)
          ≡ (lives front ++ lives mid) ++ (live last ∷ raws (suc room)) =
        simp (lives-append front (mid ++ last ∷ []), lives-append mid (last ∷ []), append_assoc) in
      let filled : lives (front ++ x ∷ (mid ++ last ∷ [])) ++ raws room
          ≡ lives front ++ (live x ∷ (lives mid ++ (live last ∷ raws room))) =
        simp (
          lives-append front (x ∷ (mid ++ last ∷ [])),
          lives-append mid (last ∷ []),
          append_assoc,
        ) in
      let m₁ = (lives front ++ lives mid) ++ (moved ∷ raws (suc room)) in
      let m₁' = ((lives front ++ lives mid) ++ moved ∷ []) ++ (raw ∷ raws room) in
      let m₂ = lives front ++ (lives mid ++ (moved ∷ (live last ∷ raws room))) in
      let taken =
        take_at-slot (lives front ++ lives mid) (raws (suc room)) (size - 1)
          (omega (arith, l, lf, lm)) last in
      let wide = length-append (lives front ++ lives mid) (moved ∷ []) in
      let built =
        construct-slot ((lives front ++ lives mid) ++ moved ∷ []) (raws room) size
          (omega (arith, l, lf, lm, wide)) raw last in
      let same : m₁ ≡ m₁' = simp append_assoc in
      let same' : ((lives front ++ lives mid) ++ moved ∷ []) ++ (live last ∷ raws room) ≡ m₂ =
        simp append_assoc in
      let (t, b, up) =
        move_up-slots (lives front) mid moved (live last ∷ raws room) pos (ep ∙ sym lf) tt in
      let count : size - 1 - pos ≡ length mid = omega arith in
      let m₃ = lives front ++ (t ∷ (lives mid ++ (live last ∷ raws room))) in
      let m₄ = lives front ++ (raw ∷ (lives mid ++ (live last ∷ raws room))) in
      (
        m₁,
        m₂,
        m₃,
        m₄,
        subst (λ m. take_at (size - 1) m ≡ returns (last, m₁)) (sym laid) taken,
        subst (λ m. construct size last m ≡ returns m₂) (sym same) (built ∙ ap returns same'),
        subst (λ k. move_up k pos (pos + 1) m₂ ≡ returns m₃) (sym count) up,
        destroy_at-slot (lives front) _ pos (ep ∙ sym lf) t b,
        construct-slot (lives front) _ pos (ep ∙ sym lf) raw x ∙ ap returns (sym filled),
      )

  module _ (max_size : ℕ) where
    -- `emplace`, and with it `insert`, puts the element in at the position, behind the elements before it
    -- and in front of the others. It throws only if the block is
    -- full and twice its size (1 for an empty one) is more than the allocator gives.
    pub emplace-Holds :
        (x : T) (v : Vector T) (front back : List T) (room : ℕ)
        → Holds v (front ++ back) room
        → ((room ≡ 0)
            × (max_size < next_capacity v.capacity_)
            × (emplace max_size (length front) x v ≡ throws_length_error))
          ⊎ Gives (emplace max_size (length front) x v) (front ++ x ∷ back)
    unfolding emplace
    emplace-Holds x v front [] room h =
        let h' : Holds v front room = subst (λ xs. Holds v xs room) (append-nil front) h in
        let inside : ltb v.size_ (length front) ≡ false = le→ltb _ _ (omega (arith, h'.size)) in
        let behind : (length front == v.size_) ≡ true = ground (arith, h'.size) in
        elim (emplace_back-Holds max_size x v front room h') [
          | inl (none_left, over, thrown) ↦ inl (none_left, over, rw (inside, behind) thrown)
          | inr (w, room', e, k) ↦ inr (w, room', rw (inside, behind) e, k)
        ]
    emplace-Holds x v front (y ∷ ys) room h =
        let l = length-append front (y ∷ ys) in
        let inside : ltb v.size_ (length front) ≡ false = le→ltb _ _ (omega (arith, h.size, l)) in
        let before : (length front == v.size_) ≡ false = ground (arith, h.size, l) in
        let (mid, last, e) = split_last y ys in
        let back : List T = mid ++ last ∷ [] in
        elim (make_room-Holds max_size v (front ++ y ∷ ys) room h) [
          | inl (none_left, over, thrown) ↦ inl (none_left, over, rw (inside, before, thrown))
          | inr (w, room', made, k) ↦
              let k' : Holds w (front ++ back) (suc room') =
                subst (λ b. Holds w (front ++ b) (suc room')) e k in
              let l₁ = length-append front back in
              let l₂ = length-append mid (last ∷ []) in
              let (m₁, m₂, m₃, m₄, taken, built, up, gone, put) =
                insert_slots front mid last x room' w.size_ (length front)
                  (omega (arith, k'.size, l₁, l₂)) refl in
              let m = lives (front ++ x ∷ back) ++ raws room' in
              let taken' : take_at (w.size_ - 1) (memory w) ≡ returns (last, m₁) =
                subst (λ b. take_at (w.size_ - 1) b ≡ returns (last, m₁)) (sym k'.contents) taken in
              let l₃ = length-append front (x ∷ back) in
              let after = record (with_memory m w) { size_ = w.size_ + 1 } in
              let done : Holds after (front ++ x ∷ back) room' =
                with_memory-Holds w (front ++ back) (suc room') m (front ++ x ∷ back) room'
                  (w.size_ + 1) k' (omega (arith, k'.capacity)) refl
                  (omega (arith, k'.size, l₁, l₃)) (omega (arith, k'.capacity, l₁, l₃)) in
              inr (
                after,
                room',
                rw (inside, before)
                    (>>=-returns _ made
                      ∙ >>=-returns _ taken'
                      ∙ >>=-returns _ built
                      ∙ >>=-returns _ up
                      ∙ >>=-returns _ gone
                      ∙ >>=-returns _ put),
                subst (λ b. Holds after (front ++ x ∷ b) room') (sym e) done,
              )
        ]
