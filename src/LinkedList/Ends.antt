-- ===== src/LinkedList/Ends.antt =====
-- list/list.inl: the functions that add nodes at the ends of a list or join two lists.
use cpp_projects_learning.Common.{
  ℕ, ◌+◌, ◌≡◌, ◌≢◌, inl, inr, refl, sym, ap, ◌∙◌, subst, true, false, [], ◌∷◌, ◌++◌, append_assoc,
  Option, none, some, arith, ◌==◌, length, length-append, last_cases, split_last,
}
use cpp_projects_learning.LinkedList.{Heap, set_prev, set_next, new_node}
use cpp_projects_learning.LinkedList.Class.{Fields, empty_list, push_front, push_back, merge}
use cpp_projects_learning.LinkedList.Chain.{
  Cells, Chain, NotIn, Apart, Off, first-append, last-append, NotIn-split, Apart-append, write-ne,
  NotIn-unused, IsList,
}
use cpp_projects_learning.LinkedList.Join.{
  join-writes, join-writes', end_written, both_written, start_written, both_written', join-Outside,
  Gives, Outside, new_node-Chain, new_node-Outside, new_node-keeps,
}

module _ {T : Type 0} where
  NotIn-middle : (xs : Cells T) (p : ℕ) (v : T) (ys : Cells T) → ¬ NotIn p (xs ++ (p, v) ∷ ys)
  NotIn-middle xs p v ys off = let (_, q) = NotIn-split p xs ((p, v) ∷ ys) off in q.0 refl

  -- A list with a node is not empty.
  pub size-middle :
      (h : Heap T) (l : Fields) (xs ys : Cells T) (a : ℕ × T)
      → IsList h l (xs ++ a ∷ ys)
      → (l.m_size ≡ (length xs + length ys) + 1) × ((l.m_size == 0) ≡ false)
  size-middle h l xs ys a is =
      let n = is.size ∙ length-append xs (a ∷ ys) in (omega (arith, n), ground (arith, n))

  push_back-links :
      (h h₁ h₂ : Heap T) (l : Fields) (p : ℕ) (v : T)
      → (l.m_size == 0) ≡ false
      → set_next l.m_tail p (new_node p v h) ≡ some h₁
      → set_prev p l.m_tail h₁ ≡ some h₂
      → push_back p v h l ≡ some (h₂, record l { m_tail = p; m_size = l.m_size + 1 })
  unfolding push_back
  push_back-links h h₁ h₂ l p v some_node a b = rw (push_back, some_node, a, b)

  push_front-links :
      (h h₁ h₂ : Heap T) (l : Fields) (p : ℕ) (v : T)
      → (l.m_size == 0) ≡ false
      → set_prev l.m_head p (new_node p v h) ≡ some h₁
      → set_next p l.m_head h₁ ≡ some h₂
      → push_front p v h l ≡ some (h₂, record l { m_head = p; m_size = l.m_size + 1 })
  unfolding push_front
  push_front-links h h₁ h₂ l p v some_node a b = rw (push_front, some_node, a, b)

  merge-links :
      (h h₁ h₂ : Heap T) (l other : Fields)
      → set_next l.m_tail other.m_head h ≡ some h₁
      → set_prev other.m_head l.m_tail h₁ ≡ some h₂
      → merge h l other
        ≡ some
            (h₂, record l { m_tail = other.m_tail; m_size = l.m_size + other.m_size }, empty_list)
  unfolding merge
  merge-links h h₁ h₂ l other a b = rw (merge, a, b)

  -- `push_back` on a list that is not empty.
  push_back-more :
      (h : Heap T) (l : Fields) (p : ℕ) (v : T) (xs : Cells T) (t : ℕ) (w : T)
      → IsList h l (xs ++ (t, w) ∷ [])
      → p ≢ 0
      → h p ≡ none
      → Gives (push_back p v h l) h (xs ++ (t, w) ∷ (p, v) ∷ []) (xs ++ (t, w) ∷ (p, v) ∷ [])
  push_back-more h l p v xs t w is p0 unused =
      let off = NotIn-unused p h 0 0 (xs ++ (t, w) ∷ []) unused is.chain in
      let apart : Apart (xs ++ (t, w) ∷ (p, v) ∷ []) =
        subst (λ k. Apart k) (append_assoc xs ((t, w) ∷ []) ((p, v) ∷ []))
          (Apart-append (xs ++ (t, w) ∷ []) ((p, v) ∷ []) is.apart (p0, tt, tt) (off, tt)) in
      let g = new_node p v h in
      let left : Chain g 0 (xs ++ (t, w) ∷ []) 0 =
        new_node-keeps p v h 0 0 (xs ++ (t, w) ∷ []) off is.chain in
      let right = new_node-Chain p v h in
      let (a, b, c) = join-writes g 0 0 0 0 xs [] t p w v left right apart in
      let tail : l.m_tail ≡ t = is.tail ∙ last-append 0 xs ((t, w) ∷ []) in
      let (n, some_node) = size-middle h l xs [] (t, w) is in
      record {
        heap = both_written g 0 0 0 0 xs [] t p w v left right apart;
        fields = record l { m_tail = p; m_size = l.m_size + 1 };
        returns =
            push_back-links h _ _ l p v some_node
              (subst
                (λ k. set_next k p g ≡ some (end_written g 0 0 0 0 xs [] t p w v left right apart))
                (sym tail) a)
              (subst
                (λ k.
                  set_prev p k (end_written g 0 0 0 0 xs [] t p w v left right apart)
                  ≡ some (both_written g 0 0 0 0 xs [] t p w v left right apart))
                (sym tail) b);
        list = record {
          chain = c;
          apart = apart;
          head =
              is.head
              ∙ first-append xs ((t, w) ∷ []) 0
              ∙ sym (first-append xs ((t, w) ∷ (p, v) ∷ []) 0);
          tail = sym (last-append 0 xs ((t, w) ∷ (p, v) ∷ []));
          size = omega (arith, n, length-append xs ((t, w) ∷ (p, v) ∷ []));
        };
        outside =
            new_node-Outside p v h _ _
              (subst (λ k. ¬ NotIn p k) (append_assoc xs ((t, w) ∷ []) ((p, v) ∷ []))
                (NotIn-middle (xs ++ (t, w) ∷ []) p v []))
              (join-Outside g 0 0 0 0 xs [] t p w v left right apart).0;
      }

  empty-size : (h : Heap T) (l : Fields) → IsList h l [] → l.m_size ≡ 0
  empty-size h l is = is.size

  -- The first node of a list.
  first_pushed :
      (h : Heap T) (l : Fields) (p : ℕ) (v : T)
      → IsList h l []
      → p ≢ 0
      → (o : Option (Heap T × Fields))
      → o ≡ some (new_node p v h, record { m_head = p; m_tail = p; m_size = l.m_size + 1 })
      → Gives o h ((p, v) ∷ []) ((p, v) ∷ [])
  unfolding new_node
  first_pushed h l p v is p0 o e = record {
    heap = new_node p v h;
    fields = record { m_head = p; m_tail = p; m_size = l.m_size + 1 };
    returns = e;
    list = record {
      chain = new_node-Chain p v h;
      apart = (p0, tt, tt);
      head = refl;
      tail = refl;
      size = ap (λ k. k + 1) is.size;
    };
    outside = record { same = λ q off. write-ne p q _ h (λ e. off.0 (sym e)) };
  }

  push_back-first :
      (h : Heap T) (l : Fields) (p : ℕ) (v : T)
      → l.m_size ≡ 0
      → push_back p v h l
        ≡ some (new_node p v h, record { m_head = p; m_tail = p; m_size = l.m_size + 1 })
  unfolding push_back
  push_back-first h l p v e =
      let none_yet : (l.m_size == 0) ≡ true = rw (e) in rw (push_back, none_yet)

  push_front-first :
      (h : Heap T) (l : Fields) (p : ℕ) (v : T)
      → l.m_size ≡ 0
      → push_front p v h l
        ≡ some (new_node p v h, record { m_head = p; m_tail = p; m_size = l.m_size + 1 })
  unfolding push_front
  push_front-first h l p v e =
      let none_yet : (l.m_size == 0) ≡ true = rw (e) in rw (push_front, none_yet)

  -- `push_back` puts the new node behind the others.
  pub push_back-IsList :
      (h : Heap T) (l : Fields) (p : ℕ) (v : T) (xs : Cells T)
      → IsList h l xs
      → p ≢ 0
      → h p ≡ none
      → Gives (push_back p v h l) h (xs ++ (p, v) ∷ []) (xs ++ (p, v) ∷ [])
  push_back-IsList h l p v xs is p0 unused = elim (last_cases xs) [
    | inl e ↦
        subst (λ k. Gives (push_back p v h l) h (k ++ (p, v) ∷ []) (k ++ (p, v) ∷ [])) (sym e)
          (let is' = subst (λ k. IsList h l k) e is in
            first_pushed h l p v is' p0 (push_back p v h l) (push_back-first h l p v is'.size))
    | inr m ↦
        let (mid, (t, w), e) = m in
        subst (λ k. Gives (push_back p v h l) h (k ++ (p, v) ∷ []) (k ++ (p, v) ∷ [])) (sym e)
          (subst (λ k. Gives (push_back p v h l) h k k)
            (sym (append_assoc mid ((t, w) ∷ []) ((p, v) ∷ [])))
            (push_back-more h l p v mid t w (subst (λ k. IsList h l k) e is) p0 unused))
  ]

  -- `push_front` puts it before them.
  pub push_front-IsList :
      (h : Heap T) (l : Fields) (p : ℕ) (v : T) (xs : Cells T)
      → IsList h l xs
      → p ≢ 0
      → h p ≡ none
      → Gives (push_front p v h l) h ((p, v) ∷ xs) ((p, v) ∷ xs)
  push_front-IsList h l p v [] is p0 unused =
      first_pushed h l p v is p0 (push_front p v h l) (push_front-first h l p v is.size)
  push_front-IsList h l p v ((f, u) ∷ ys) is p0 unused =
      let off = NotIn-unused p h 0 0 ((f, u) ∷ ys) unused is.chain in
      let g = new_node p v h in
      let right : Chain g 0 ((f, u) ∷ ys) 0 = new_node-keeps p v h 0 0 ((f, u) ∷ ys) off is.chain in
      let left = new_node-Chain p v h in
      let (a, b, c) = join-writes' g 0 0 0 0 [] ys p f v u left right (p0, off, is.apart) in
      let (n, some_node) = size-middle h l [] ys (f, u) is in
      record {
        heap = both_written' g 0 0 0 0 [] ys p f v u left right (p0, off, is.apart);
        fields = record l { m_head = p; m_size = l.m_size + 1 };
        returns =
            push_front-links h _ _ l p v some_node
              (subst
                (λ k.
                  set_prev k p g
                  ≡ some (start_written g 0 0 0 0 [] ys p f v u left right (p0, off, is.apart)))
                (sym is.head) a)
              (subst
                (λ k.
                  set_next p k
                    (start_written g 0 0 0 0 [] ys p f v u left right (p0, off, is.apart))
                  ≡ some (both_written' g 0 0 0 0 [] ys p f v u left right (p0, off, is.apart)))
                (sym is.head) b);
        list = record {
          chain = c;
          apart = (p0, off, is.apart);
          head = refl;
          tail = is.tail;
          size = let m = is.size in omega (arith, m);
        };
        outside =
            new_node-Outside p v h _ _ (λ o. o.0 refl)
              (join-Outside g 0 0 0 0 [] ys p f v u left right (p0, off, is.apart)).1;
      }

  -- What `merge` does to two lists with nodes.
  pub record Merges (o : Option (Heap T × Fields × Fields)) (h : Heap T) (zs : Cells T)
      : Type 0 where
    pub heap : Heap T
    pub fields : Fields
    pub returns : o ≡ some (heap, fields, empty_list)
    pub list : IsList heap fields zs
    pub outside : Outside zs h heap

  merge-more :
      (h : Heap T) (l other : Fields) (xs ys : Cells T) (t f : ℕ) (w u : T)
      → IsList h l (xs ++ (t, w) ∷ [])
      → IsList h other ((f, u) ∷ ys)
      → Apart (xs ++ (t, w) ∷ (f, u) ∷ ys)
      → Merges (merge h l other) h (xs ++ (t, w) ∷ (f, u) ∷ ys)
  merge-more h l other xs ys t f w u is is' apart =
      let (a, b, c) = join-writes h 0 0 0 0 xs ys t f w u is.chain is'.chain apart in
      let tail : l.m_tail ≡ t = is.tail ∙ last-append 0 xs ((t, w) ∷ []) in
      let h₁ = end_written h 0 0 0 0 xs ys t f w u is.chain is'.chain apart in
      let h₂ = both_written h 0 0 0 0 xs ys t f w u is.chain is'.chain apart in
      let (n, _) = size-middle h l xs [] (t, w) is in
      let m = is'.size in
      record {
        heap = h₂;
        fields = record l { m_tail = other.m_tail; m_size = l.m_size + other.m_size };
        returns =
            merge-links h _ _ l other
              (subst (λ k. set_next k other.m_head h ≡ some h₁) (sym tail)
                (subst (λ k. set_next t k h ≡ some h₁) (sym is'.head) a))
              (subst (λ k. set_prev k l.m_tail h₁ ≡ some h₂) (sym is'.head)
                (subst (λ k. set_prev f k h₁ ≡ some h₂) (sym tail) b));
        list = record {
          chain = c;
          apart = apart;
          head =
              is.head
              ∙ first-append xs ((t, w) ∷ []) 0
              ∙ sym (first-append xs ((t, w) ∷ (f, u) ∷ ys) 0);
          tail = is'.tail ∙ sym (last-append 0 xs ((t, w) ∷ (f, u) ∷ ys));
          size = omega (arith, n, m, length-append xs ((t, w) ∷ (f, u) ∷ ys));
        };
        outside = (join-Outside h 0 0 0 0 xs ys t f w u is.chain is'.chain apart).0;
      }

  -- `merge` of two lists with nodes, none of which is in both: the nodes of the first, then the others,
  -- and the other list is empty. Nothing else in the heap changes.
  pub merge-IsList :
      (h : Heap T) (l other : Fields) (x y : ℕ × T) (xs ys : Cells T)
      → IsList h l (x ∷ xs)
      → IsList h other (y ∷ ys)
      → Off (x ∷ xs) (y ∷ ys)
      → Merges (merge h l other) h ((x ∷ xs) ++ y ∷ ys)
  merge-IsList h l other x (f, u) xs ys is is' off =
      let (mid, (t, w), e) = split_last x xs in
      let apart = Apart-append (x ∷ xs) ((f, u) ∷ ys) is.apart is'.apart off in
      subst (λ k. Merges (merge h l other) h (k ++ (f, u) ∷ ys)) (sym e)
        (subst (λ k. Merges (merge h l other) h k)
          (sym (append_assoc mid ((t, w) ∷ []) ((f, u) ∷ ys)))
          (merge-more h l other mid ys t f w u (subst (λ k. IsList h l k) e is) is' (
            subst (λ k. Apart k) (append_assoc mid ((t, w) ∷ []) ((f, u) ∷ ys))
              (subst (λ k. Apart (k ++ (f, u) ∷ ys)) e apart))))
