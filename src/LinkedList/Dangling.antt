-- ===== src/LinkedList/Dangling.antt =====
-- list/list.inl: the calls that leave a pointer to a deleted node: `pop_front`, and `erase` of the
-- last node.
use cpp_projects_learning.Common.{
  ℕ, ◌-◌, ◌≡◌, ◌≢◌, refl, sym, ap, ◌∙◌, subst, false, [], ◌∷◌, ◌++◌, none, some, arith, ◌==◌,
  length, length-append, ==_false,
}
use cpp_projects_learning.LinkedList.{null, Node, Heap, write, load, set_prev, delete}
use cpp_projects_learning.LinkedList.Class.{Fields, undefined, front, back, pop_front, erase}
use cpp_projects_learning.LinkedList.Chain.{
  node, Cells, first, last, Chain, first-append, last-append, Apart-split, Chain-append,
  Chain-split, write_self, write-ne, Chain-write, load-at, set_prev-at, set_next-at, delete-at,
  IsList,
}
use cpp_projects_learning.LinkedList.Ends.{size-middle}
use cpp_projects_learning.LinkedList.Erase.{erase-links, unless_null-some, tail_node', first-NotIn}

module _ {T : Type 0} where
  pub load-freed : (p : ℕ) (h : Heap T) → h p ≡ none → load p h ≡ none
  unfolding load
  load-freed p h e = ground arith

  back-freed :
      (h : Heap T) (l : Fields) → (l.m_size == 0) ≡ false → h l.m_tail ≡ none → back h l ≡ undefined
  unfolding back
  back-freed h l some_node e = let gone = load-freed l.m_tail h e in rw (back, some_node, gone)

  front-freed :
      (h : Heap T) (l : Fields)
      → (l.m_size == 0) ≡ false
      → h l.m_head ≡ none
      → front h l ≡ undefined
  unfolding front
  front-freed h l some_node e = let gone = load-freed l.m_head h e in rw (front, some_node, gone)

  -- `erase` of the last node: it is deleted, and `m_tail` still leads to it.
  pub record ErasesLast (t : ℕ) (h : Heap T) (l : Fields) (xs : Cells T) : Type 0 where
    pub heap : Heap T
    pub fields : Fields
    pub returns : erase t h l ≡ some (heap, fields, null)
    pub chain : Chain heap 0 xs 0
    pub head : fields.m_head ≡ first xs 0
    pub size : fields.m_size ≡ length xs
    pub tail : fields.m_tail ≡ t
    pub reads_back : back heap fields ≡ undefined

  -- `erase` of the last of several nodes takes it out of the chain and deletes it, but `m_tail` is left
  -- as it was, so `back` then reads a deleted node.
  pub erase-ErasesLast :
      (h : Heap T) (l : Fields) (xs : Cells T) (s t : ℕ) (v w : T)
      → IsList h l (xs ++ (s, v) ∷ (t, w) ∷ [])
      → ErasesLast t h l (xs ++ (s, v) ∷ [])
  erase-ErasesLast h l xs s t v w is =
      let (d, e) = Chain-split h 0 0 xs ((s, v) ∷ (t, w) ∷ []) is.chain in
      let (ax, (s0, (st, _), (t0, _, _)), (sx, (tx, _))) =
        Apart-split xs ((s, v) ∷ (t, w) ∷ []) is.apart in
      let h₁ = write s (some (node v (last 0 xs) 0)) h in
      let h₂ = write t none h₁ in
      let (m, at_tail, ending) = tail_node' h l (s, v) xs ((t, w) ∷ []) is in
      let (n, some_node) = size-middle h l xs ((t, w) ∷ []) (s, v) is in
      let tail : l.m_tail ≡ t = is.tail ∙ last-append 0 xs ((s, v) ∷ (t, w) ∷ []) in
      let head : t ≢ l.m_head =
        subst (λ k. t ≢ k) (sym (is.head ∙ first-append xs ((s, v) ∷ (t, w) ∷ []) 0))
          (first-NotIn t s xs tx (λ k. st (sym k))) in
      record {
        heap = h₂;
        fields = record l { m_size = l.m_size - 1 };
        returns =
            erase-links t h h₁ h₁ h₂ l m (node w s 0) some_node (==_false head) at_tail
              (==_false (λ k. t0 (k ∙ ending))) (load-at t h _ t0 e.1.0)
              (unless_null-some s _ h h₁ s0 (set_next-at s h _ s0 e.0 0)) refl
              (delete-at t h₁ (node w s 0) t0 (write-ne s t _ h st ∙ e.1.0));
        chain =
            Chain-append h₂ 0 0 xs ((s, v) ∷ [])
              (Chain-write t _ h₁ 0 s xs tx (Chain-write s _ h 0 s xs sx d))
              (write-ne t s none h₁ (λ k. st (sym k)) ∙ write_self s _ h, tt);
        head =
            is.head
            ∙ first-append xs ((s, v) ∷ (t, w) ∷ []) 0
            ∙ sym (first-append xs ((s, v) ∷ []) 0);
        size = omega (arith, n, length-append xs ((s, v) ∷ []));
        tail = tail;
        reads_back = back-freed h₂ _ (ground (arith, n)) (ap h₂ tail ∙ write_self t none h₁);
      }

  pop_front-links :
      (h h₁ h₂ : Heap T) (l : Fields) (n : Node T)
      → (l.m_size == 0) ≡ false
      → (l.m_size == 1) ≡ false
      → load l.m_head h ≡ some n
      → set_prev n.m_next null h ≡ some h₁
      → delete n.m_next h₁ ≡ some h₂
      → pop_front h l ≡ some (h₂, record l { m_head = n.m_next; m_size = l.m_size - 1 })
  unfolding pop_front
  pop_front-links h h₁ h₂ l n some_node more a b c = rw (pop_front, some_node, more, a, b, c)

  -- `pop_front` of a list of two nodes or more: the first node is not deleted, the second is, and
  -- becomes the head.
  pub record PopsFront (a b : ℕ) (h : Heap T) (l : Fields) : Type 0 where
    pub heap : Heap T
    pub fields : Fields
    pub returns : pop_front h l ≡ some (heap, fields)
    pub leaked : heap a ≡ h a
    pub freed : heap b ≡ none
    pub head : fields.m_head ≡ b
    pub reads_front : front heap fields ≡ undefined

  -- `pop_front` of a list of two nodes or more deletes the second node instead of the first, which is
  -- leaked. The deleted node becomes the head, so `front` then reads a deleted node.
  pub pop_front-PopsFront :
      (h : Heap T) (l : Fields) (a b : ℕ) (v w : T) (xs : Cells T)
      → IsList h l ((a, v) ∷ (b, w) ∷ xs)
      → PopsFront a b h l
  pop_front-PopsFront h l a b v w xs is =
      let c = is.chain in
      let h₁ = write b (some (node w 0 (first xs 0))) h in
      let b0 : b ≢ 0 = is.apart.2.0 in
      let ba : b ≢ a = λ e. is.apart.1.0 (sym e) in
      let n = is.size in
      record {
        heap = write b none h₁;
        fields = record l { m_head = b; m_size = l.m_size - 1 };
        returns =
            pop_front-links h h₁ _ l (node v 0 b) (ground (arith, n)) (ground (arith, n))
              (subst (λ k. load k h ≡ some (node v 0 b)) (sym is.head)
                (load-at a h _ is.apart.0 c.0))
              (set_prev-at b h _ b0 c.1.0 0) (delete-at b h₁ _ b0 (write_self b _ h));
        leaked = write-ne b a none h₁ ba ∙ write-ne b a _ h ba;
        freed = write_self b none h₁;
        head = refl;
        reads_front = front-freed _ _ (ground (arith, n)) (write_self b none h₁);
      }
