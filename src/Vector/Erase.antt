-- ===== src/Vector/Erase.antt =====
-- vector/version03/vector.cpp: the functions that take elements out.
use cpp_projects_learning.Common.{
  ℕ, suc, ◌+◌, ◌-◌, ◌<◌, ◌≡◌, inl, inr, refl, sym, ap, ◌∙◌, true, false, List, [], ◌∷◌, ◌++◌,
  append_assoc, some, subst, arith, ltb, leb, ◌==◌, length, length-append, Option-cases, lt→ltb,
  le→ltb,
}
use cpp_projects_learning.Vector.{raw, live, Memory, returns, raws, destroy, destroy_at, move_down}
use cpp_projects_learning.Vector.Class.{
  Vector, memory, with_memory, clear, erase, erase_range, pop_back,
}
use cpp_projects_learning.Vector.Layout.{
  lives, >>=-returns, lives-append, length-lives, destroy-slots, destroy_at-slot, move_down-slots,
  lives-AllBuilt,
}
use cpp_projects_learning.Vector.Shift.{>>=-pure}
use cpp_projects_learning.Vector.Contents.{
  empty, block_of, Holds, with_memory-Holds, replicate-append,
}

module _ {T : Type 0} where
  raws-more : (n room : ℕ) → raws {T = T} n ++ raws room ≡ raws (n + room)
  raws-more n room = sym (replicate-append n room (n + room) raw refl)

  -- Over a gap behind `front`, the elements move down, and the slots they leave are destroyed.
  close-gap :
      (front out back : List T) (room src n i : ℕ)
      → 0 < length out
      → src ≡ length front + length out
      → n ≡ length back
      → i ≡ length front + length back
      → (m₁ : Memory T) × (move_down n src
            (length front)
            (lives (front ++ (out ++ back)) ++ raws room)
          ≡ returns m₁)
        × (destroy (length out) i m₁ ≡ returns (lives (front ++ back) ++ raws (length out + room)))
  close-gap front out back room src n i p es en ei =
      let laid : lives (front ++ (out ++ back)) ++ raws room
          ≡ lives front ++ (lives out ++ (lives back ++ raws room)) =
        simp (lives-append front (out ++ back), lives-append out back, append_assoc) in
      let closed : lives (front ++ back) ++ raws (length out + room)
          ≡ lives front ++ (lives back ++ (raws (length out) ++ raws room)) =
        rw (raws-more (length out) room) (
          rw (lives-append front back)
            (append_assoc (lives front) (lives back) (raws (length out + room)))) in
      let (gap, same_width, built, slid) =
        move_down-slots (lives front) (lives out) back (raws room) src (length front)
          (sym (length-lives front)) (omega (arith, length-lives front, length-lives out))
          (omega (arith, length-lives out)) (lives-AllBuilt out) in
      let gone =
        destroy-slots (lives front ++ lives back) gap (raws room) (length out) i
          (omega (
            arith,
            length-append (lives front) (lives back),
            length-lives front,
            length-lives back,
          ))
          (omega (arith, same_width, length-lives out)) built in
      let m₁ = lives front ++ (lives back ++ (gap ++ raws room)) in
      let spread = lives front ++ (lives out ++ (lives back ++ raws room)) in
      let slid' = subst (λ k. move_down k src (length front) spread ≡ returns m₁) (sym en) slid in
      (
        m₁,
        subst (λ b. move_down n src (length front) b ≡ returns m₁) (sym laid) slid',
        subst (λ b. destroy (length out) i m₁ ≡ returns b) (sym closed) (simp append_assoc at gone),
      )

  -- `erase(first, last)` takes out the elements between the two, keeps the order of the others, and
  -- leaves the capacity alone.
  pub erase_range-Holds :
      (v : Vector T) (front mid back : List T) (room : ℕ)
      → Holds v (front ++ (mid ++ back)) room
      → (w : Vector T) × (erase_range (length front) (length front + length mid) v ≡ returns w)
        × Holds w (front ++ back) (length mid + room)
        × (w.capacity_ ≡ v.capacity_)
  unfolding erase_range
  erase_range-Holds v front [] back room h =
      let in_order : ltb (length front + 0) (length front) ≡ false = le→ltb _ _ (omega arith) in
      let inside : ltb v.size_ (length front + 0) ≡ false =
        le→ltb _ _ (omega (arith, h.size, length-append front back)) in
      let same : (length front == length front + 0) ≡ true = ground arith in
      let none_out : room ≡ 0 + room = omega arith in
      (v, rw (in_order, inside, same), subst (Holds v (front ++ back)) none_out h, refl)
  erase_range-Holds v front (x ∷ mid) back room h =
      let out = x ∷ mid in
      let first = length front in
      let last = length front + length out in
      let l = length-append front (out ++ back) in
      let l' = length-append out back in
      let in_order : ltb last first ≡ false = le→ltb _ _ (omega arith) in
      let inside : ltb v.size_ last ≡ false = le→ltb _ _ (omega (arith, h.size, l, l')) in
      let apart : (first == last) ≡ false = ground arith in
      let width : last - first ≡ length out = omega arith in
      let (m₁, slid, gone) =
        close-gap front out back room last (v.size_ - last) (first + (v.size_ - last)) (omega arith)
          refl (omega (arith, h.size, l, l')) (omega (arith, h.size, l, l')) in
      let m = lives (front ++ back) ++ raws (length out + room) in
      let gone' : destroy (last - first) (first + (v.size_ - last)) m₁ ≡ returns m =
        subst (λ k. destroy k (first + (v.size_ - last)) m₁ ≡ returns m) (sym width) gone in
      let slid' : move_down (v.size_ - last) last first (memory v) ≡ returns m₁ =
        subst (λ b. move_down (v.size_ - last) last first b ≡ returns m₁) (sym h.contents) slid in
      (
        record (with_memory m v) { size_ = v.size_ - (last - first) },
        rw (in_order, inside, apart) (>>=-returns _ slid' ∙ >>=-returns _ gone'),
        with_memory-Holds v (front ++ (out ++ back)) room m (front ++ back) (length out + room) _ h
            (omega (arith, h.capacity, l, l')) refl
            (omega (arith, h.size, l, l', length-append front back))
            (omega (arith, h.capacity, l, l', length-append front back)),
        refl,
      )

  -- The destruction of one slot, as that of a range.
  destroy_at-range :
      (i : ℕ) (m m' : Memory T) → destroy 1 i m ≡ returns m' → destroy_at i m ≡ returns m'
  unfolding destroy
  destroy_at-range i m m' e = sym (>>=-pure (destroy_at i m)) ∙ e

  -- `erase(pos)` takes out the element at `pos`, keeps the order of the others, and leaves the
  -- capacity alone.
  pub erase-Holds :
      (v : Vector T) (front back : List T) (x : T) (room : ℕ)
      → Holds v (front ++ x ∷ back) room
      → (w : Vector T) × (erase (length front) v ≡ returns w)
        × Holds w (front ++ back) (1 + room)
        × (w.capacity_ ≡ v.capacity_)
  unfolding erase
  erase-Holds v front back x room h =
      let first = length front in
      let l = length-append front (x ∷ back) in
      let inside : leb v.size_ first ≡ false = ground (arith, h.size, l) in
      let (m₁, slid, gone) =
        close-gap front (x ∷ []) back room (first + 1) (v.size_ - (first + 1)) (v.size_ - 1)
          (omega arith) (omega arith) (omega (arith, h.size, l)) (omega (arith, h.size, l)) in
      let m = lives (front ++ back) ++ raws (1 + room) in
      let slid' : move_down (v.size_ - (first + 1)) (first + 1) first (memory v) ≡ returns m₁ =
        subst (λ b. move_down (v.size_ - (first + 1)) (first + 1) first b ≡ returns m₁)
          (sym h.contents) slid in
      (
        record (with_memory m v) { size_ = v.size_ - 1 },
        rw inside (>>=-returns _ slid' ∙ >>=-returns _ (destroy_at-range _ m₁ m gone)),
        with_memory-Holds v (front ++ x ∷ back) room m (front ++ back) (1 + room) _ h
            (omega (arith, h.capacity, l)) refl (omega (arith, h.size, l, length-append front back))
            (omega (arith, h.capacity, l, length-append front back)),
        refl,
      )

  -- `pop_back` takes out the last element of a vector that has one, and leaves the capacity alone.
  pub pop_back-Holds :
      (v : Vector T) (xs : List T) (x : T) (room : ℕ)
      → Holds v (xs ++ x ∷ []) room
      → (w : Vector T) × (pop_back v ≡ returns w)
        × Holds w xs (suc room)
        × (w.capacity_ ≡ v.capacity_)
  unfolding pop_back
  pop_back-Holds v xs x room h =
      let l = length-append xs (x ∷ []) in
      let some_left : ltb 0 v.size_ ≡ true = lt→ltb _ _ (omega (arith, h.size, l)) in
      let last : v.size_ - 1 ≡ length (lives xs) = omega (arith, h.size, l, length-lives xs) in
      let laid : memory v ≡ lives xs ++ (live x ∷ raws room) =
        h.contents ∙ simp (lives-append xs (x ∷ []), append_assoc) in
      let m = lives xs ++ (raw ∷ raws room) in
      let gone = destroy_at-slot (lives xs) (raws room) (v.size_ - 1) last (live x) tt in
      (
        record (with_memory m v) { size_ = v.size_ - 1 },
        rw some_left (rw laid (>>=-returns _ gone)),
        with_memory-Holds v (xs ++ x ∷ []) room m xs (suc room) _ h (omega (arith, h.capacity, l))
            refl (omega (arith, h.size, l)) (omega (arith, h.capacity, l)),
        refl,
      )

  -- `clear` destroys the elements and keeps the block.
  pub clear-Holds :
      (v : Vector T) (xs : List T) (room : ℕ)
      → Holds v xs room
      → (w : Vector T) × (clear v ≡ returns w)
        × Holds w [] v.capacity_
        × (w.capacity_ ≡ v.capacity_)
  unfolding clear
  clear-Holds v xs room h = elim (Option-cases v.data_) [
    | inl null ↦
        let e = empty xs room (subst (λ o. block_of o ≡ lives xs ++ raws room) null h.contents) in
        let none_in : length xs ≡ 0 = rw e.0 in
        let full : v.capacity_ ≡ 0 = omega (arith, h.capacity, none_in, e.1) in
        (
          v,
          simp (null, clear),
          record {
            contents = rw (null, full);
            size = omega (arith, h.size, none_in);
            capacity = omega arith;
          },
          refl,
        )
    | inr (old, block) ↦
        let e : old ≡ lives xs ++ raws room =
          subst (λ o. block_of o ≡ lives xs ++ raws room) block h.contents in
        let gone =
          destroy-slots [] (lives xs) (raws room) v.size_ 0 refl
            (omega (arith, h.size, length-lives xs)) (lives-AllBuilt xs) in
        let gone' : destroy v.size_ 0 old ≡ returns (raws v.size_ ++ raws room) = rw e gone in
        (
          record v { data_ = some (raws v.size_ ++ raws room); size_ = 0 },
          rw (block, clear) (>>=-returns _ gone'),
          record {
            contents = raws-more v.size_ room ∙ ap raws (omega (arith, h.size, h.capacity));
            size = refl;
            capacity = omega arith;
          },
          refl,
        )
  ]
