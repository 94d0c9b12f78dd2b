-- ===== src/Vector/Resize.antt =====
-- vector/version03/vector.cpp: `resize`, and access with `at`.
use cpp_projects_learning.Common.{
  ℕ, zero, suc, ◌+◌, ◌-◌, ◌≤◌, ◌<◌, ◌≡◌, ◌⊎◌, inl, inr, refl, sym, ap, ◌∙◌, List, [], ◌∷◌, ◌++◌,
  append-nil, append_assoc, none, some, subst, arith, ltb, leb, length, length-append,
  length-replicate, Bool-cases, ltb→lt, ltb→le, replicate, take, drop, take-drop, take_all,
  length-take-drop, get_elem?,
}
use cpp_projects_learning.Vector.{
  raw, live, Memory, returns, throws_length_error, throws_out_of_range, raws, copy_to, destroy,
  value_at,
}
use cpp_projects_learning.Vector.Class.{Vector, memory, with_memory, resize, at}
use cpp_projects_learning.Vector.Layout.{
  lives, >>=-returns, lives-append, length-lives, copy_to-slots, destroy-slots, lives-AllBuilt,
}
use cpp_projects_learning.Vector.Contents.{
  Holds, Gives, reallocate-Holds, with_memory-Holds, replicate-append,
}

module _ {T : Type 0} where
  get_elem?-lives :
      (xs : List T) (m : Memory T) (i : ℕ)
      → i < length xs
      → (x : T) × (get_elem? xs i ≡ some x) × (get_elem? (lives xs ++ m) i ≡ some (live x))
  get_elem?-lives [] m i h = absurd (omega arith)
  get_elem?-lives (x ∷ xs) m zero h = (x, refl, refl)
  get_elem?-lives (x ∷ xs) m (suc i) h = get_elem?-lives xs m i (omega arith)

  get_elem?-outside : (xs : List T) (i : ℕ) → length xs ≤ i → get_elem? xs i ≡ none
  get_elem?-outside [] i h = refl
  get_elem?-outside (x ∷ xs) zero h = absurd (omega arith)
  get_elem?-outside (x ∷ xs) (suc i) h = get_elem?-outside xs i (omega arith)

  -- `at` returns the element at the position, and throws at every position behind the last.
  pub at-Holds :
      (pos : ℕ) (v : Vector T) (xs : List T) (room : ℕ)
      → Holds v xs room
      → ((x : T) × (get_elem? xs pos ≡ some x) × (at pos v ≡ returns x))
        ⊎ ((get_elem? xs pos ≡ none) × (at pos v ≡ throws_out_of_range))
  unfolding at value_at
  at-Holds pos v xs room h = elim (Bool-cases (leb v.size_ pos)) [
    | inl behind ↦
        let le : length xs ≤ pos = ground (arith, h.size) in
        inr (get_elem?-outside xs pos le, rw behind)
    | inr inside ↦
        let lt : pos < length xs = ground (arith, h.size) in
        let (x, e, e') = get_elem?-lives xs (raws room) pos lt in
        inl (x, e, rw inside (rw h.contents (rw (e', value_at))))
  ]

  copies :
      (w : Vector T) (xs : List T) (room k n : ℕ) (value : T)
      → Holds w xs (k + room)
      → n ≡ length xs + k
      → 0 < w.capacity_
      → (m : Memory T) × (copy_to (replicate k value) w.size_ (memory w) ≡ returns m)
        × Holds (record (with_memory m w) { size_ = n }) (xs ++ replicate k value) room
  copies w xs room k n value h e p =
      let l : length (replicate k value) ≡ k = length-replicate k value in
      let free : length (raws {T = T} k) ≡ length (replicate k value) =
        length-replicate k raw ∙ sym l in
      let built =
        copy_to-slots (lives xs) (raws k) (raws room) (replicate k value) w.size_
          (h.size ∙ sym (length-lives xs)) free in
      let laid : memory w ≡ lives xs ++ (raws k ++ raws room) =
        h.contents ∙ ap (◌++◌ (lives xs)) (replicate-append k room (k + room) raw refl) in
      let m = lives xs ++ (lives (replicate k value) ++ raws room) in
      let l' = length-append xs (replicate k value) in
      (
        m,
        subst (λ b. copy_to (replicate k value) w.size_ b ≡ returns m) (sym laid) built,
        with_memory-Holds w xs (k + room) m (xs ++ replicate k value) room n h p
            (rw (lives-append xs (replicate k value))
              (sym (append_assoc (lives xs) (lives (replicate k value)) (raws room))))
            (omega (arith, l, l')) (omega (arith, h.capacity, l, l')),
      )

  cut :
      (v : Vector T) (xs : List T) (room n : ℕ)
      → Holds v xs room
      → n < length xs
      → (m : Memory T) × (destroy (v.size_ - n) n (memory v) ≡ returns m)
        × Holds (record (with_memory m v) { size_ = n }) (take n xs) (v.size_ - n + room)
  cut v xs room n h lt =
      let (l, l') = length-take-drop n xs (omega arith) in
      let gone =
        destroy-slots (lives (take n xs)) (lives (drop n xs)) (raws room) (v.size_ - n) n
          (omega (arith, l, length-lives (take n xs)))
          (omega (arith, l', length-lives (drop n xs), h.size)) (lives-AllBuilt (drop n xs)) in
      let laid : memory v ≡ lives (take n xs) ++ (lives (drop n xs) ++ raws room) =
        h.contents
        ∙ ap (λ ys. lives ys ++ raws room) (sym (take-drop n xs))
        ∙ simp (lives-append (take n xs) (drop n xs), append_assoc) in
      let m = lives (take n xs) ++ (raws (v.size_ - n) ++ raws room) in
      (
        m,
        subst (λ b. destroy (v.size_ - n) n b ≡ returns m) (sym laid) gone,
        with_memory-Holds v xs room m (take n xs) (v.size_ - n + room) n h
            (omega (arith, h.capacity))
            (ap (◌++◌ (lives (take n xs)))
              (sym (replicate-append (v.size_ - n) room (v.size_ - n + room) raw refl)))
            (sym l) (omega (arith, l, h.size, h.capacity)),
      )

  module _ (max_size : ℕ) where
    -- `resize` keeps the first `n` elements, and adds copies of the value up to `n`. It throws only
    -- if `n` is more than the capacity and than the allocator gives.
    pub resize-Holds :
        (n : ℕ) (value : T) (v : Vector T) (xs : List T) (room : ℕ)
        → Holds v xs room
        → ((v.capacity_ < n) × (max_size < n) × (resize max_size n value v ≡ throws_length_error))
          ⊎ Gives (resize max_size n value v) (take n xs ++ replicate (n - length xs) value)
    unfolding resize
    resize-Holds n value v xs room h = elim (Bool-cases (ltb v.size_ n)) [
      | inl longer ↦
          let lt = ltb→lt _ _ longer in
          let k = n - length xs in
          let same = take_all n xs (omega (arith, h.size)) in
          let count : n - v.size_ ≡ k = omega (arith, h.size) in
          elim (Bool-cases (ltb v.capacity_ n)) [
            | inr enough ↦
                let le = ltb→le _ _ enough in
                let rest : room ≡ k + (room - k) = omega (arith, h.capacity, h.size) in
                let (m, built, done) =
                  copies v xs (room - k) k n value (subst (Holds v xs) rest h)
                    (omega (arith, h.size)) (omega arith) in
                inr (
                  record (with_memory m v) { size_ = n },
                  room - k,
                  rw (longer, enough)
                      (>>=-returns _ (
                        subst (λ i. copy_to (replicate i value) v.size_ (memory v) ≡ returns m)
                          (sym count) built)),
                  subst
                      (λ ys.
                        Holds (record (with_memory m v) { size_ = n }) (ys ++ replicate k value)
                          (room - k))
                      (sym same) done,
                )
            | inl short ↦ elim (reallocate-Holds max_size n v xs room h (omega (arith, h.size))) [
              | inl (over, thrown) ↦ inl (ltb→lt _ _ short, over, rw (longer, short, thrown))
              | inr (w, made, kept) ↦
                  let rest : n - length xs ≡ k + 0 = omega arith in
                  let (m, built, done) =
                    copies w xs 0 k n value (subst (Holds w xs) rest kept) (omega (arith, h.size))
                      (omega (arith, kept.capacity, h.size)) in
                  inr (
                    record (with_memory m w) { size_ = n },
                    0,
                    rw (longer, short)
                        (>>=-returns _ made
                          ∙ >>=-returns _ (
                              subst
                                (λ i. copy_to (replicate i value) w.size_ (memory w) ≡ returns m)
                                (sym count) built)),
                    subst
                        (λ ys.
                          Holds (record (with_memory m w) { size_ = n }) (ys ++ replicate k value)
                            0)
                        (sym same) done,
                  )
            ]
          ]
      | inr not_longer ↦
          let ge = ltb→le _ _ not_longer in
          let none_new : n - length xs ≡ 0 = omega (arith, h.size) in
          let nothing_new : take n xs ≡ take n xs ++ replicate (n - length xs) value =
            rw none_new (sym (append-nil (take n xs))) in
          elim (Bool-cases (ltb n v.size_)) [
            | inl fewer ↦
                let lt : n < length xs = omega (arith, ltb→lt _ _ fewer, h.size) in
                let (m, gone, done) = cut v xs room n h lt in
                inr (
                  record (with_memory m v) { size_ = n },
                  v.size_ - n + room,
                  rw (not_longer, fewer) (>>=-returns _ gone),
                  subst
                      (λ ys. Holds (record (with_memory m v) { size_ = n }) ys (v.size_ - n + room))
                      nothing_new done,
                )
            | inr equal ↦
                let same_size : n ≡ v.size_ = omega (arith, ltb→le _ _ equal) in
                let all = take_all n xs (omega (arith, h.size)) in
                inr (
                  record v { size_ = n },
                  room,
                  rw (not_longer, equal),
                  rw (none_new, append-nil (take n xs), all)
                      (record {
                        contents = h.contents;
                        size = omega (arith, h.size);
                        capacity = h.capacity;
                      }),
                )
          ]
    ]
