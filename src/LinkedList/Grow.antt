-- ===== src/LinkedList/Grow.antt =====
-- list/list.inl: `resize` to more elements.
use cpp_projects_learning.Common.{
  ℕ, ◌+◌, ◌-◌, ◌*◌, ◌/◌, ◌≡◌, ◌≤◌, ◌<◌, refl, sym, ◌∙◌, subst, true, false, List, [], ◌∷◌, ◌++◌,
  append_assoc, append-nil, some, arith, ltb, length, length-append,
}
use cpp_projects_learning.LinkedList.{Heap}
use cpp_projects_learning.LinkedList.Class.{Fields, push_back, grow_loop, resize}
use cpp_projects_learning.LinkedList.Chain.{Cells, NotIn, NotIn-split, IsList}
use cpp_projects_learning.LinkedList.Join.{Gives}
use cpp_projects_learning.LinkedList.Ends.{push_back-IsList}
use cpp_projects_learning.LinkedList.Assign.{cells, Fresh, Fresh-pushed}

module _ {T : Type 0} where
  grow_loop-stop :
      (i size : ℕ) (v : T) (h : Heap T) (l : Fields)
      → ltb (l.m_size + i) size ≡ false
      → grow_loop [] i size v h l ≡ some (h, l)
  unfolding grow_loop
  grow_loop-stop i size v h l e = rw (e)

  grow_loop-step :
      (p : ℕ) (ps : List ℕ) (i size : ℕ) (v : T) (h h₁ : Heap T) (l l₁ : Fields)
      → ltb (l.m_size + i) size ≡ true
      → push_back p v h l ≡ some (h₁, l₁)
      → grow_loop (p ∷ ps) i size v h l ≡ grow_loop ps (i + 1) size v h₁ l₁
  unfolding grow_loop
  grow_loop-step p ps i size v h h₁ l l₁ e pushed = rw (e, pushed)

  grow_loop-Gives :
      (ps : List ℕ) (i size : ℕ) (v : T) (h : Heap T) (l : Fields) (xs : Cells T)
      → IsList h l xs
      → Fresh h (cells ps v)
      → size ≤ length xs + i + 2 * length ps
      → length xs + i + 2 * length ps < size + 2
      → Gives (grow_loop ps i size v h l) h (xs ++ cells ps v) (xs ++ cells ps v)
  grow_loop-Gives [] i size v h l xs is new a b =
      let n = is.size in
      record {
        heap = h;
        fields = l;
        returns = grow_loop-stop i size v h l (ground (arith, n, a));
        list = subst (IsList h l) (sym (append-nil xs)) is;
        outside = record { same = λ p o. refl };
      }
  grow_loop-Gives (p ∷ ps) i size v h l xs is new a b =
      let n = is.size in
      let pushed = push_back-IsList h l p v xs is new.apart.0 new.unused.0 in
      let more = length-append xs ((p, v) ∷ []) in
      let rest =
        grow_loop-Gives ps (i + 1) size v pushed.heap pushed.fields (xs ++ (p, v) ∷ []) pushed.list
          (Fresh-pushed p ps v h l xs is new pushed.heap pushed.outside) (omega (arith, a, more))
          (omega (arith, b, more)) in
      let whole = append_assoc xs ((p, v) ∷ []) (cells ps v) in
      record {
        heap = rest.heap;
        fields = rest.fields;
        returns =
            grow_loop-step p ps i size v h pushed.heap l pushed.fields (ground (arith, n, b))
              pushed.returns
            ∙ rest.returns;
        list = subst (IsList rest.heap rest.fields) whole rest.list;
        outside = record {
          same = λ q o.
              let o' = subst (NotIn q) (sym whole) o in
              let (o₁, _) = NotIn-split q (xs ++ (p, v) ∷ []) (cells ps v) o' in
              rest.outside.same q o' ∙ pushed.outside.same q o₁;
        };
      }

  resize-grow_loop :
      (size : ℕ) (ps : List ℕ) (v : T) (h : Heap T) (l : Fields)
      → ltb size l.m_size ≡ false
      → resize size ps v h l ≡ grow_loop ps 0 size v h l
  unfolding resize
  resize-grow_loop size ps v h l e = rw (e)

  -- `resize(size)` to no fewer elements adds only half of those that are missing, rounded up.
  pub resize-grows :
      (size : ℕ) (ps : List ℕ) (v : T) (h : Heap T) (l : Fields) (xs : Cells T)
      → IsList h l xs
      → Fresh h (cells ps v)
      → length xs ≤ size
      → length ps ≡ (size - length xs + 1) / 2
      → Gives (resize size ps v h l) h (xs ++ cells ps v) (xs ++ cells ps v)
  resize-grows size ps v h l xs is new le half =
      let n = is.size in
      subst (λ k. Gives k h (xs ++ cells ps v) (xs ++ cells ps v))
        (sym (resize-grow_loop size ps v h l (ground (arith, n, le))))
        (grow_loop-Gives ps 0 size v h l xs is new (omega (arith, half, le))
          (omega (arith, half, le)))
