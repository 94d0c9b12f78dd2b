-- ===== src/LinkedList/Removal.antt =====
-- list/list.inl: the functions that take nodes off the ends, `clear`, and `assign`.
use cpp_projects_learning.Common.{
  ℕ, zero, suc, ◌-◌, ◌≡◌, inl, inr, refl, sym, ap, ◌∙◌, subst, true, false, [], ◌∷◌, ◌++◌,
  append_assoc, Option, none, some, arith, ltb, ◌==◌, length, length-append, last_cases,
}
use cpp_projects_learning.LinkedList.{null, Node, Heap, write, load, set_next, delete}
use cpp_projects_learning.LinkedList.Class.{Fields, pop_back, clear_loop, clear}
use cpp_projects_learning.LinkedList.Chain.{
  node, Cells, last, first-append, last-append, NotIn-split, Apart-append, Apart-split,
  Chain-append, Chain-split, write_self, write-ne, Chain-write, load-at, set_next-at, delete-at,
  IsList,
}
use cpp_projects_learning.LinkedList.Ends.{size-middle}
use cpp_projects_learning.LinkedList.Join.{Outside, Gives}

module _ {T : Type 0} where
  -- The nodes were deleted.
  abbrev pub Freed : Heap T → Cells T → Type 0
  Freed h [] = Unit
  Freed h ((a, v) ∷ xs) = (h a ≡ none) × Freed h xs

  pub Freed-append : (h : Heap T) (xs ys : Cells T) → Freed h xs → Freed h ys → Freed h (xs ++ ys)
  Freed-append h [] ys p q = q
  Freed-append h ((a, v) ∷ xs) ys p q = (p.0, Freed-append h xs ys p.1 q)

  -- A call returns, `gone` is deleted, `ys` is what is left, and the heap is the same outside `zs`.
  pub record Frees (o : Option (Heap T × Fields)) (h : Heap T) (zs gone ys : Cells T) : Type 0 where
    pub gives : Gives o h zs ys
    pub freed : Freed gives.heap gone

  pop_back-links :
      (h h₁ h₂ : Heap T) (l : Fields) (n : Node T)
      → (l.m_size == 0) ≡ false
      → (l.m_size == 1) ≡ false
      → load l.m_tail h ≡ some n
      → set_next n.m_prev null h ≡ some h₁
      → delete l.m_tail h₁ ≡ some h₂
      → pop_back h l ≡ some (h₂, record l { m_tail = n.m_prev; m_size = l.m_size - 1 })
  unfolding pop_back
  pop_back-links h h₁ h₂ l n some_node more a b c = rw (pop_back, some_node, more, a, b, c)

  pop_back-last :
      (h h₁ : Heap T) (l : Fields)
      → l.m_size ≡ 1
      → delete l.m_head h ≡ some h₁
      → pop_back h l ≡ some (h₁, record { m_head = null; m_tail = null; m_size = l.m_size - 1 })
  unfolding pop_back
  pop_back-last h h₁ l e a =
      let some_node : (l.m_size == 0) ≡ false = ground (arith, e) in
      let one : (l.m_size == 1) ≡ true = ground (arith, e) in rw (pop_back, some_node, one, a)

  pop_back-empty : (h : Heap T) (l : Fields) → l.m_size ≡ 0 → pop_back h l ≡ some (h, l)
  unfolding pop_back
  pop_back-empty h l e = let none_left : (l.m_size == 0) ≡ true = rw (e) in rw (pop_back, none_left)

  write-Outside :
      (p : ℕ) (c : Option (Node T)) (h : Heap T) (v : T) → Outside ((p, v) ∷ []) h (write p c h)
  write-Outside p c h v = record { same = λ q off. write-ne p q c h (λ e. off.0 (sym e)) }

  -- `pop_back` of the only node.
  pop_back-one :
      (h : Heap T) (l : Fields) (t : ℕ) (w : T)
      → IsList h l ((t, w) ∷ [])
      → Frees (pop_back h l) h ((t, w) ∷ []) ((t, w) ∷ []) []
  pop_back-one h l t w is =
      let m = is.size in
      record {
        gives = record {
          heap = write t none h;
          fields = record { m_head = null; m_tail = null; m_size = l.m_size - 1 };
          returns = pop_back-last h _ l is.size (
              subst (λ k. delete k h ≡ some (write t none h)) (sym is.head)
                (delete-at t h _ is.apart.0 is.chain.0));
          list = record {
            chain = tt;
            apart = tt;
            head = refl;
            tail = refl;
            size = omega (arith, m);
          };
          outside = write-Outside t none h w;
        };
        freed = (write_self t none h, tt);
      }

  -- `pop_back` of the last of several.
  pop_back-more :
      (h : Heap T) (l : Fields) (xs : Cells T) (s t : ℕ) (v w : T)
      → IsList h l (xs ++ (s, v) ∷ (t, w) ∷ [])
      → Frees (pop_back h l) h (xs ++ (s, v) ∷ (t, w) ∷ []) ((t, w) ∷ []) (xs ++ (s, v) ∷ [])
  pop_back-more h l xs s t v w is =
      let (d, e) = Chain-split h 0 0 xs ((s, v) ∷ (t, w) ∷ []) is.chain in
      let (ax, (s0, (st, _), (t0, _, _)), (sx, (tx, _))) =
        Apart-split xs ((s, v) ∷ (t, w) ∷ []) is.apart in
      let h₁ = write s (some (node v (last 0 xs) 0)) h in
      let h₂ = write t none h₁ in
      let tail : l.m_tail ≡ t = is.tail ∙ last-append 0 xs ((s, v) ∷ (t, w) ∷ []) in
      let (n, some_node) = size-middle h l xs ((t, w) ∷ []) (s, v) is in
      record {
        gives = record {
          heap = h₂;
          fields = record l { m_tail = s; m_size = l.m_size - 1 };
          returns =
              pop_back-links h h₁ h₂ l (node w s 0) some_node (ground (arith, n))
                (subst (λ k. load k h ≡ some (node w s 0)) (sym tail) (load-at t h _ t0 e.1.0))
                (set_next-at s h _ s0 e.0 0)
                (subst (λ k. delete k h₁ ≡ some h₂) (sym tail)
                  (delete-at t h₁ _ t0 (write-ne s t _ h st ∙ e.1.0)));
          list = record {
            chain =
                Chain-append h₂ 0 0 xs ((s, v) ∷ [])
                  (Chain-write t _ h₁ 0 s xs tx (Chain-write s _ h 0 s xs sx d))
                  (write-ne t s none h₁ (λ k. st (sym k)) ∙ write_self s _ h, tt);
            apart = Apart-append xs ((s, v) ∷ []) ax (s0, tt, tt) (sx, tt);
            head =
                is.head
                ∙ first-append xs ((s, v) ∷ (t, w) ∷ []) 0
                ∙ sym (first-append xs ((s, v) ∷ []) 0);
            tail = sym (last-append 0 xs ((s, v) ∷ []));
            size = omega (arith, n, length-append xs ((s, v) ∷ []));
          };
          outside = record {
            same = λ p off.
                let (_, q) = NotIn-split p xs ((s, v) ∷ (t, w) ∷ []) off in
                write-ne t p none h₁ (λ k. q.1.0 (sym k)) ∙ write-ne s p _ h (λ k. q.0 (sym k));
          };
        };
        freed = (write_self t none h₁, tt);
      }

  -- `pop_back` deletes the last node and leaves the others.
  pub pop_back-IsList :
      (h : Heap T) (l : Fields) (xs : Cells T) (x : ℕ × T)
      → IsList h l (xs ++ x ∷ [])
      → Frees (pop_back h l) h (xs ++ x ∷ []) (x ∷ []) xs
  pop_back-IsList h l xs (t, w) is = elim (last_cases xs) [
    | inl e ↦
        subst (λ k. Frees (pop_back h l) h (k ++ (t, w) ∷ []) ((t, w) ∷ []) k) (sym e)
          (pop_back-one h l t w (subst (λ k. IsList h l (k ++ (t, w) ∷ [])) e is))
    | inr m ↦
        let (mid, (s, v), e) = m in
        let joined = append_assoc mid ((s, v) ∷ []) ((t, w) ∷ []) in
        subst (λ k. Frees (pop_back h l) h (k ++ (t, w) ∷ []) ((t, w) ∷ []) k) (sym e)
          (subst (λ k. Frees (pop_back h l) h k ((t, w) ∷ []) (mid ++ (s, v) ∷ [])) (sym joined)
            (pop_back-more h l mid s t v w
              (subst (λ k. IsList h l k) joined (subst (λ k. IsList h l (k ++ (t, w) ∷ [])) e is))))
  ]

  clear_loop-step :
      (fuel : ℕ) (h h₁ : Heap T) (l l₁ : Fields)
      → ltb 0 l.m_size ≡ true
      → pop_back h l ≡ some (h₁, l₁)
      → clear_loop (suc fuel) h l ≡ clear_loop fuel h₁ l₁
  unfolding clear_loop
  clear_loop-step fuel h h₁ l l₁ more popped = rw (more, popped)

  clear_loop-done : (h : Heap T) (l : Fields) → l.m_size ≡ 0 → clear_loop 0 h l ≡ some (h, l)
  unfolding clear_loop
  clear_loop-done h l e = let none_left : ltb 0 l.m_size ≡ false = rw (e) in rw (none_left)

  -- `pop_back`, and then what deletes more nodes.
  pub pop_back-then :
      (h : Heap T) (l : Fields) (xs gone ys : Cells T) (x : ℕ × T) (o o' : Option (Heap T × Fields))
      → IsList h l (xs ++ x ∷ [])
      → (popped : Frees (pop_back h l) h (xs ++ x ∷ []) (x ∷ []) xs)
      → Frees o' popped.gives.heap xs gone ys
      → o ≡ o'
      → Frees o h (xs ++ x ∷ []) (gone ++ x ∷ []) ys
  pop_back-then h l xs gone ys x o o' is popped rest same =
      let (_, _, (off, _)) = Apart-split xs (x ∷ []) is.apart in
      record {
        gives = record {
          heap = rest.gives.heap;
          fields = rest.gives.fields;
          returns = same ∙ rest.gives.returns;
          list = rest.gives.list;
          outside = record {
            same = λ p off'.
                let (q, _) = NotIn-split p xs (x ∷ []) off' in
                rest.gives.outside.same p q ∙ popped.gives.outside.same p off';
          };
        };
        freed =
            Freed-append rest.gives.heap gone (x ∷ []) rest.freed
              (rest.gives.outside.same x.0 off ∙ popped.freed.0, tt);
      }

  pub clear_loop-IsList :
      (fuel : ℕ) (h : Heap T) (l : Fields) (xs : Cells T)
      → IsList h l xs
      → length xs ≡ fuel
      → Frees (clear_loop fuel h l) h xs xs []
  clear_loop-IsList zero h l [] is e = record {
    gives = record {
      heap = h;
      fields = l;
      returns = clear_loop-done h l is.size;
      list = is;
      outside = record { same = λ p o. refl };
    };
    freed = tt;
  }
  clear_loop-IsList zero h l (x ∷ xs) is e = absurd (omega (arith, e))
  clear_loop-IsList (suc fuel) h l xs is e = elim (last_cases xs) [
    | inl none_left ↦ absurd (let f = ap length none_left in omega (arith, f, e))
    | inr m ↦
        let (mid, x, whole) = m in
        let is' = subst (λ k. IsList h l k) whole is in
        let popped = pop_back-IsList h l mid x is' in
        let size = ap length whole ∙ length-append mid (x ∷ []) in
        subst (λ k. Frees (clear_loop (suc fuel) h l) h k k []) (sym whole)
          (pop_back-then h l mid mid [] x _ _ is' popped
            (clear_loop-IsList fuel popped.gives.heap popped.gives.fields mid popped.gives.list
              (omega (arith, size, e)))
            (clear_loop-step fuel h popped.gives.heap l popped.gives.fields
              (let n = is.size in ground (arith, n, e)) popped.gives.returns))
  ]

  -- `clear` deletes every node, and leaves an empty list.
  pub clear-IsList :
      (h : Heap T) (l : Fields) (xs : Cells T) → IsList h l xs → Frees (clear h l) h xs xs []
  unfolding clear
  clear-IsList h l xs is = clear_loop-IsList l.m_size h l xs is (sym is.size)
