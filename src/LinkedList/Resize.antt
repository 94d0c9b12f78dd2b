-- ===== src/LinkedList/Resize.antt =====
-- list/list.inl: `resize`, whose loops compare with a size that changes while they run.
use cpp_projects_learning.Common.{
  ℕ, zero, suc, ◌+◌, ◌-◌, ◌/◌, ◌≡◌, ◌≤◌, ◌<◌, inl, inr, refl, sym, ap, ◌∙◌, subst, true, false,
  List, [], ◌∷◌, ◌++◌, append_assoc, append-nil, some, arith, ltb, length, length-append,
  last_cases,
}
use cpp_projects_learning.LinkedList.{Heap}
use cpp_projects_learning.LinkedList.Class.{Fields, pop_back, shrink_loop, resize}
use cpp_projects_learning.LinkedList.Chain.{Cells, IsList}
use cpp_projects_learning.LinkedList.Removal.{Frees, pop_back-IsList, pop_back-then}

module _ {T : Type 0} where
  shrink_loop-stop :
      (fuel i size : ℕ) (h : Heap T) (l : Fields)
      → ltb (size + i) l.m_size ≡ false
      → shrink_loop (suc fuel) i size h l ≡ some (h, l)
  unfolding shrink_loop
  shrink_loop-stop fuel i size h l e = rw (e)

  shrink_loop-step :
      (fuel i size : ℕ) (h h₁ : Heap T) (l l₁ : Fields)
      → ltb (size + i) l.m_size ≡ true
      → pop_back h l ≡ some (h₁, l₁)
      → shrink_loop (suc fuel) i size h l ≡ shrink_loop fuel (i + 1) size h₁ l₁
  unfolding shrink_loop
  shrink_loop-step fuel i size h h₁ l l₁ e popped = rw (e, popped)

  shrink_loop-Frees :
      (fuel i size : ℕ) (h : Heap T) (l : Fields) (keep gone : Cells T)
      → IsList h l (keep ++ gone)
      → length keep ≤ size + i + length gone
      → size + i + length gone < length keep + 2
      → length gone < fuel
      → Frees (shrink_loop fuel i size h l) h (keep ++ gone) gone keep
  shrink_loop-Frees zero i size h l keep gone is a b c = absurd (omega (arith, c))
  shrink_loop-Frees (suc fuel) i size h l keep gone is a b c = elim (last_cases gone) [
    | inl none_left ↦
        let n = is.size ∙ length-append keep gone in
        let g = ap length none_left in
        let done : shrink_loop (suc fuel) i size h l ≡ some (h, l) =
          shrink_loop-stop fuel i size h l (ground (arith, n, g, a)) in
        subst (λ k. Frees (shrink_loop (suc fuel) i size h l) h (keep ++ k) k keep) (sym none_left)
          record {
            gives = record {
              heap = h;
              fields = l;
              returns = done;
              list = subst (IsList h l) (ap (λ k. keep ++ k) none_left ∙ append-nil keep) is;
              outside = record { same = λ p o. refl };
            };
            freed = tt;
          }
    | inr m ↦
        let (mid, x, whole) = m in
        let joined : keep ++ gone ≡ (keep ++ mid) ++ x ∷ [] =
          ap (λ k. keep ++ k) whole ∙ sym (append_assoc keep mid (x ∷ [])) in
        let n = is.size ∙ length-append keep gone in
        let g = ap length whole ∙ length-append mid (x ∷ []) in
        let is' = subst (IsList h l) joined is in
        let popped = pop_back-IsList h l (keep ++ mid) x is' in
        subst (λ k. Frees (shrink_loop (suc fuel) i size h l) h (keep ++ gone) k keep) (sym whole)
          (subst (λ k. Frees (shrink_loop (suc fuel) i size h l) h k (mid ++ x ∷ []) keep)
            (sym joined)
            (pop_back-then h l (keep ++ mid) mid keep x _ _ is' popped
              (shrink_loop-Frees fuel (i + 1) size popped.gives.heap popped.gives.fields keep mid
                popped.gives.list (omega (arith, a, g)) (omega (arith, b, g)) (omega (arith, c, g)))
              (shrink_loop-step fuel i size h popped.gives.heap l popped.gives.fields
                (ground (arith, n, g, b)) popped.gives.returns)))
  ]

  resize-shrink_loop :
      (size : ℕ) (ps : List ℕ) (v : T) (h : Heap T) (l : Fields)
      → ltb size l.m_size ≡ true
      → resize size ps v h l ≡ shrink_loop (l.m_size + 1) 0 size h l
  unfolding resize
  resize-shrink_loop size ps v h l e = rw (e)

  -- `resize(size)` to fewer elements deletes only half of the surplus, rounded up: its loop counts up to a
  -- surplus that goes down meanwhile.
  pub resize-halfway :
      (size : ℕ) (ps : List ℕ) (v : T) (h : Heap T) (l : Fields) (keep gone : Cells T)
      → IsList h l (keep ++ gone)
      → size < length (keep ++ gone)
      → length gone ≡ (length (keep ++ gone) - size + 1) / 2
      → Frees (resize size ps v h l) h (keep ++ gone) gone keep
  resize-halfway size ps v h l keep gone is fewer half =
      let n = is.size in
      let len = length-append keep gone in
      subst (λ k. Frees k h (keep ++ gone) gone keep)
        (sym (resize-shrink_loop size ps v h l (ground (arith, n, fewer))))
        (subst (λ k. Frees (shrink_loop k 0 size h l) h (keep ++ gone) gone keep) (omega (arith, n))
          (shrink_loop-Frees (suc l.m_size) 0 size h l keep gone is
            (omega (arith, len, half, fewer)) (omega (arith, len, half, fewer))
            (omega (arith, n, len))))
