-- ===== src/Vector/Assign.antt =====
-- vector/version03/vector.cpp: construction from a list, and copy assignment.
use cpp_projects_learning.Common.{
  ℕ, ◌≤◌, ◌<◌, ◌≡◌, ◌⊎◌, inl, inr, refl, sym, ap, ◌∙◌, true, List, [], ◌∷◌, ◌++◌, append-nil, some,
  subst, arith, ltb, length, length-append, length-replicate, Bool-cases, ltb→lt, ltb→le, lt→ltb,
  take, drop, take-drop, length-take-drop, drop_all, Option-cases,
}
use cpp_projects_learning.Vector.{raw, Memory, returns, throws_length_error, raws, copy_to, values}
use cpp_projects_learning.Vector.Class.{
  Vector, memory, with_memory, empty_vector, allocate, from_list, copy_room, copy_assign,
}
use cpp_projects_learning.Vector.Layout.{
  lives, >>=-returns, length-lives, copy_to-slots, values-slots,
}
use cpp_projects_learning.Vector.Contents.{Holds, memory-with_memory, length-memory}
use cpp_projects_learning.Vector.Erase.{clear-Holds}

module _ {T : Type 0} (max_size : ℕ) where
  -- Construction from a list makes a vector of its elements without a spare slot; it throws only if the
  -- allocator has no block of that size.
  pub from_list-Holds :
      (xs : List T)
      → ((max_size < length xs) × (from_list max_size xs ≡ throws_length_error))
        ⊎ ((v : Vector T) × (from_list max_size xs ≡ returns v) × Holds v xs 0)
  unfolding from_list allocate
  from_list-Holds [] =
      inr (empty_vector, refl, record { contents = refl; size = refl; capacity = refl })
  from_list-Holds (x ∷ xs) =
      let some_in : ltb 0 (length (x ∷ xs)) ≡ true = lt→ltb _ _ (omega arith) in
      elim (Bool-cases (ltb max_size (length (x ∷ xs)))) [
        | inl over ↦ inl (ltb→lt _ _ over, rw (some_in, over))
        | inr fits ↦
            let free : length (raws {T = T} (length (x ∷ xs))) ≡ length (x ∷ xs) =
              length-replicate (length (x ∷ xs)) raw in
            let built = copy_to-slots [] (raws (length (x ∷ xs))) [] (x ∷ xs) 0 refl free in
            let built' : copy_to (x ∷ xs) 0 (raws (length (x ∷ xs)))
                ≡ returns (lives (x ∷ xs) ++ []) =
              subst (λ b. copy_to (x ∷ xs) 0 b ≡ returns (lives (x ∷ xs) ++ []))
                (append-nil (raws (length (x ∷ xs)))) built in
            inr (
              record {
                data_ = some (lives (x ∷ xs) ++ []);
                size_ = length (x ∷ xs);
                capacity_ = length (x ∷ xs);
              },
              rw (some_in, fits) (>>=-returns _ built'),
              record { contents = refl; size = refl; capacity = omega arith },
            )
      ]

  -- The block to copy to: the old one, or a new one if that is too small.
  copy_room-Holds :
      (n : ℕ) (v : Vector T) (xs : List T) (room : ℕ)
      → Holds v xs room
      → ((n ≤ v.capacity_) × (copy_room max_size n v ≡ returns v))
        ⊎ (((v.capacity_ < n) × (max_size < n) × (copy_room max_size n v ≡ throws_length_error))
            ⊎ ((w : Vector T) × (v.capacity_ < n)
                × (copy_room max_size n v ≡ returns w)
                × Holds w [] n))
  unfolding copy_room allocate
  copy_room-Holds n v xs room h = elim (Bool-cases (ltb v.capacity_ n)) [
    | inr enough ↦ inl (ltb→le _ _ enough, rw enough)
    | inl short ↦
        let (w, cleared, k, _) = clear-Holds v xs room h in
        elim (Bool-cases (ltb max_size n)) [
          | inl over ↦
              inr (
                inl (ltb→lt _ _ short, ltb→lt _ _ over, rw short (>>=-returns _ cleared ∙ rw over)))
          | inr fits ↦ inr (
              inr (
                record w { data_ = some (raws n); capacity_ = n },
                ltb→lt _ _ short,
                rw short (>>=-returns _ cleared ∙ rw fits),
                record { contents = refl; size = k.size; capacity = omega arith },
              ))
        ]
  ]

  memory-with_same :
      (m : Memory T) (v : Vector T) → length m ≡ length (memory v) → memory (with_memory m v) ≡ m
  memory-with_same [] v e = elim (Option-cases v.data_) [
    | inl null ↦ rw null
    | inr (old, block) ↦ rw block
  ]
  memory-with_same (s ∷ m) v e = memory-with_memory (s ∷ m) v (omega (arith, e))

  -- The values of the other vector go over the first slots of this one.
  copy_over :
      (other v : Vector T) (ys : List T) (room : ℕ)
      → Holds other ys room
      → length ys ≤ length (memory v)
      → (values other.size_ 0 (memory other) ≡ returns ys)
        × (copy_to ys 0 (memory v) ≡ returns (lives ys ++ drop (length ys) (memory v)))
        × (length (lives ys ++ drop (length ys) (memory v)) ≡ length (memory v))
  copy_over other v ys room h le =
      let (l, l') = length-take-drop (length ys) (memory v) le in
      let read = values-slots [] (raws room) ys 0 refl in
      let built =
        copy_to-slots [] (take (length ys) (memory v)) (drop (length ys) (memory v)) ys 0 refl l in
      let size : length ys ≡ other.size_ = sym h.size in
      (
        subst (λ n. values n 0 (memory other) ≡ returns ys) size
            (subst (λ b. values (length ys) 0 b ≡ returns ys) (sym h.contents) read),
        subst (λ b. copy_to ys 0 b ≡ returns (lives ys ++ drop (length ys) (memory v)))
            (take-drop (length ys) (memory v)) built,
        omega (arith, length-append (lives ys) (drop (length ys) (memory v)), length-lives ys, l'),
      )

  -- `operator =` from another vector. If the elements fit into the block, they are copied over its first
  -- slots, and all slots behind them stay as they were: those of a
  -- longer vector still hold elements. If they do not fit, the vector gets a block of exactly their
  -- number and holds them, unless the allocator refuses it.
  pub copy_assign-Holds :
      (other v : Vector T) (ys xs : List T) (room' room : ℕ)
      → Holds other ys room'
      → Holds v xs room
      → ((length ys ≤ v.capacity_)
          × ((w : Vector T) × (copy_assign max_size other v ≡ returns w)
              × (memory w ≡ lives ys ++ drop (length ys) (memory v))
              × (w.size_ ≡ length ys)
              × (w.capacity_ ≡ v.capacity_)))
        ⊎ (((v.capacity_ < length ys)
              × (max_size < length ys)
              × (copy_assign max_size other v ≡ throws_length_error))
            ⊎ ((w : Vector T) × (v.capacity_ < length ys)
                × (copy_assign max_size other v ≡ returns w)
                × Holds w ys 0))
  unfolding copy_assign
  copy_assign-Holds other v ys xs room' room ho h = elim (copy_room-Holds other.size_ v xs room h) [
    | inl (le, same) ↦
        let (read, built, long) =
          copy_over other v ys room' ho (omega (arith, ho.size, length-memory v xs room h)) in
        let m = lives ys ++ drop (length ys) (memory v) in
        inl (
          omega (arith, ho.size),
          (
            record (with_memory m v) { size_ = other.size_ },
            >>=-returns _ same ∙ >>=-returns _ read ∙ >>=-returns _ built,
            memory-with_same m v long,
            ho.size,
            refl,
          ),
        )
    | inr (inl (more, over, thrown)) ↦
        inr (inl (omega (arith, ho.size), omega (arith, ho.size), rw thrown))
    | inr (inr (w, more, made, k)) ↦
        let (read, built, long) =
          copy_over other w ys room' ho (omega (arith, ho.size, length-memory w [] _ k)) in
        let m = lives ys ++ drop (length ys) (memory w) in
        let exact : drop (length ys) (memory w) ≡ [] =
          drop_all (length ys) (memory w)
            (omega (arith, ho.size, length-memory w [] _ k, k.capacity)) in
        inr (
          inr (
            record (with_memory m w) { size_ = other.size_ },
            omega (arith, ho.size),
            >>=-returns _ made ∙ >>=-returns _ read ∙ >>=-returns _ built,
            record {
              contents = memory-with_same m w long ∙ ap (◌++◌ (lives ys)) exact;
              size = ho.size;
              capacity = omega (arith, k.capacity, ho.size);
            },
          ))
  ]
