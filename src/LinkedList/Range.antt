-- ===== src/LinkedList/Range.antt =====
-- list/list.inl: `erase` of a range, which reads through a pointer to a deleted node.
use cpp_projects_learning.Common.{
  ℕ, suc, ◌-◌, ◌≡◌, ◌≢◌, inl, inr, arith, ◌++◌, append_assoc, last_cases, refl, sym, ap, ◌∙◌, subst,
  Bool, true, false, [], ◌∷◌, Option, none, some, ltb, ◌==◌, if◌then◌else◌, ==_false, ==_iff,
}
use cpp_projects_learning.LinkedList.{
  null, Node, Heap, ◌>>=◌, write, load, set_prev, set_next, delete,
}
use cpp_projects_learning.LinkedList.Class.{
  Fields, end, unless_null, next_undefined, erase, erase_range,
}
use cpp_projects_learning.LinkedList.Chain.{
  Cells, write_self, write-ne, load-at, delete-at, set_prev-at, IsList,
}
use cpp_projects_learning.LinkedList.Dangling.{load-freed, erase-ErasesLast}
use cpp_projects_learning.LinkedList.Erase.{tail_node', erase-middle}

-- What holds of a result, if there is one.
abbrev Always : {A : Type 0} → (A → Type 0) → Option A → Type 0
Always P none = Unit
Always P (some a) = P a

Always->>= :
    {A B : Type 0} (P : B → Type 0) (o : Option A) (f : A → Option B)
    → ((a : A) → Always P (f a))
    → Always P (o >>= f)
Always->>= P none f p = tt
Always->>= P (some a) f p = p a

Always-if :
    {A : Type 0} (P : A → Type 0) (b : Bool) (x y : Option A)
    → (b ≡ true → Always P x)
    → (b ≡ false → Always P y)
    → Always P (if b then x else y)
Always-if P true x y p q = p refl
Always-if P false x y p q = q refl

-- Of a chain of two steps, the second decides.
Always-then :
    {A B : Type 0} (Q : A → Type 0) (P : B → Type 0) (o : Option A) (f : A → Option B)
    → Always Q o
    → ((a : A) → Q a → Always P (f a))
    → Always P (o >>= f)
Always-then Q P none f q p = tt
Always-then Q P (some a) f q p = p a q

Always-loads :
    {T B : Type 0} (P : B → Type 0) (o : Option (Node T)) (f : Node T → Option B)
    → ((n : Node T) → o ≡ some n → Always P (f n))
    → Always P (o >>= f)
Always-loads P none f p = tt
Always-loads P (some a) f p = p a refl

module _ {T : Type 0} where
  null-loads : (h : Heap T) → load null h ≡ none
  unfolding load
  null-loads h = refl

  delete-freed : (p : ℕ) (h : Heap T) → Always (λ g. load p g ≡ none) (delete p h)
  unfolding delete
  delete-freed p h =
      Always-if _ (p == null) _ _
        (λ e. subst (λ k. load k h ≡ none) (sym ((==_iff p null).0 e)) (null-loads h))
        (λ _. Always->>= _ (load p h) _ (λ n. load-freed p (write p none h) (write_self p none h)))

  end-unread :
      (h : Heap T) (l : Fields)
      → ((m : Node T) → load l.m_tail h ≡ some m → m.m_next ≡ 0)
      → Always (λ e. load e h ≡ none) (end h l)
  unfolding end
  end-unread h l ends =
      Always-if _ (l.m_size == 0) _ _ (λ _. tt)
        (λ _.
          Always-loads _ (load l.m_tail h) _
            (λ n e. subst (λ k. load k h ≡ none) (sym (ends n e)) (null-loads h)))

  -- The node of `it` cannot be read in the heap that `erase` leaves.
  abbrev Unread : ℕ → Heap T × Fields × ℕ → Type 0
  Unread it r = load it r.0 ≡ none

  Unread-at :
      (p q : ℕ) (o : Option (Heap T × Fields × ℕ))
      → p ≡ q
      → Always (Unread q) o
      → Always (Unread p) o
  Unread-at p q o e t = subst (λ k. Always (Unread k) o) (sym e) t

  -- After `erase(it)` the node of `it` cannot be read, in a list that ends with a null pointer.
  erase-freed :
      (it : ℕ) (h : Heap T) (l : Fields)
      → ((m : Node T) → load l.m_tail h ≡ some m → m.m_next ≡ 0)
      → Always (Unread it) (erase it h l)
  unfolding erase
  erase-freed it h l ends =
      Always-if _ (l.m_size == 0) _ _ (λ _. tt)
        (λ some_node.
          Always-if _ (it == l.m_head) _ _
            (λ e. Unread-at it l.m_head _ ((==_iff it l.m_head).0 e) (
              Always-if (Unread l.m_head) (ltb 1 l.m_size) _ _
                (λ _. Always->>= _ (load l.m_head h) _ (λ n.
                  Always->>= _ (set_prev n.m_next null h) _ (λ h₁.
                    Always-then _ _ (delete l.m_head h₁) _ (delete-freed l.m_head h₁) (λ h₂ q. q))))
                (λ _. Always-then _ _ (delete l.m_head h) _ (delete-freed l.m_head h) (λ h₂ q. q))))
            (λ _.
              Always-then (λ e. load e h ≡ none) _ (end h l) _ (end-unread h l ends)
                (λ e q.
                  Always-if _ (it == e) _ _
                    (λ same. subst (λ k. load k h ≡ none) (sym ((==_iff it e).0 same)) q)
                    (λ _. Always->>= _ (load it h) _ (λ n.
                      Always->>= _ (unless_null n.m_prev (set_next n.m_prev n.m_next h) h) _ (λ h₁.
                        Always->>= _ (unless_null n.m_next (set_prev n.m_next n.m_prev h₁) h₁) _
                          (λ h₂.
                            Always-then _ _ (delete it h₂) _ (delete-freed it h₂) (λ h₃ r. r))))))))

  -- The last node of a well-formed list is followed by a null pointer.
  ends_null :
      (h : Heap T) (l : Fields) (xs : Cells T)
      → IsList h l xs
      → (m : Node T) → load l.m_tail h ≡ some m
      → m.m_next ≡ 0
  ends_null h l [] is m e =
      absurd (unread (sym (subst (λ k. load k h ≡ none) (sym is.tail) (null-loads h)) ∙ e))
    where
      unread : none ≡ some m → ⊥
      unread q = cc
  ends_null h l (x ∷ xs) is m e =
      let (n, at, ending) = tail_node' h l x [] xs is in
      let same : some n ≡ some m = sym at ∙ e in
      let next : n.m_next ≡ m.m_next = ap (λ o. elim o [ none ↦ 0 | some k ↦ k.m_next ]) same in
      sym next ∙ ending

  -- `erase` of the first of several nodes is defined.
  erase-first :
      (t : ℕ) (h h₁ h₂ : Heap T) (l : Fields) (n : Node T)
      → (l.m_size == 0) ≡ false
      → ltb 1 l.m_size ≡ true
      → l.m_head ≡ t
      → load t h ≡ some n
      → set_prev n.m_next null h ≡ some h₁
      → delete t h₁ ≡ some h₂
      → (x : Heap T × Fields × ℕ) × (erase t h l ≡ some x)
  unfolding erase
  erase-first t h h₁ h₂ l n some_node more e a b c =
      let here : (t == l.m_head) ≡ true = (==_iff t l.m_head).1 (sym e) in
      (
        (h₂, record l { m_head = n.m_next; m_size = l.m_size - 1 }, n.m_next),
        rw (erase, some_node, here, more, e, a, b, c),
      )

  erase-only :
      (t : ℕ) (h h₁ : Heap T) (l : Fields)
      → (l.m_size == 0) ≡ false
      → ltb 1 l.m_size ≡ false
      → l.m_head ≡ t
      → delete t h ≡ some h₁
      → (x : Heap T × Fields × ℕ) × (erase t h l ≡ some x)
  unfolding erase
  erase-only t h h₁ l some_node alone e a =
      let here : (t == l.m_head) ≡ true = (==_iff t l.m_head).1 (sym e) in
      (
        (h₁, record { m_head = null; m_tail = null; m_size = l.m_size - 1 }, null),
        rw (erase, some_node, here, alone, e, a),
      )

  -- `erase` of a node of the list is defined.
  erase-defined :
      (h : Heap T) (l : Fields) (xs ys : Cells T) (t : ℕ) (w : T)
      → IsList h l (xs ++ (t, w) ∷ ys)
      → (x : Heap T × Fields × ℕ) × (erase t h l ≡ some x)
  erase-defined h l xs ys t w is = elim (last_cases xs) [
    | inl e ↦ at_first ys (subst (λ k. IsList h l (k ++ (t, w) ∷ ys)) e is)
    | inr (mid, (s, v), e) ↦ behind mid s v ys (
        subst (λ k. IsList h l k) (append_assoc mid ((s, v) ∷ []) ((t, w) ∷ ys))
          (subst (λ k. IsList h l (k ++ (t, w) ∷ ys)) e is))
  ]
    where
      at_first :
          (zs : Cells T)
          → IsList h l ((t, w) ∷ zs)
          → (x : Heap T × Fields × ℕ) × (erase t h l ≡ some x)
      at_first [] v =
          erase-only t h _ l (ground (arith, v.size)) (ground (arith, v.size)) v.head
            (delete-at t h _ v.apart.0 v.chain.0)
      at_first ((r, u) ∷ zs) v =
          let ne : t ≢ r = v.apart.1.0 in
          let n = v.size in
          erase-first t h (write r (some _) h) _ l _ (ground (arith, n)) (ground (arith, n)) v.head
            (load-at t h _ v.apart.0 v.chain.0) (set_prev-at r h _ v.apart.2.0 v.chain.1.0 0)
            (delete-at t (write r (some _) h) _ v.apart.0
              (write-ne r t _ h (λ k. ne (sym k)) ∙ v.chain.0))

      behind :
          (mid : Cells T) (s : ℕ) (v : T) (zs : Cells T)
          → IsList h l (mid ++ (s, v) ∷ (t, w) ∷ zs)
          → (x : Heap T × Fields × ℕ) × (erase t h l ≡ some x)
      behind mid s v [] is' =
          let last_gone = erase-ErasesLast h l mid s t v w is' in
          ((last_gone.heap, last_gone.fields, null), last_gone.returns)
      behind mid s v ((r, u) ∷ zs) is' =
          let gone = erase-middle h l mid zs s t r v w u is' in
          ((gone.heap, gone.fields, r), gone.returns)

  erase_range-step :
      (fuel it last' : ℕ) (h : Heap T) (l : Fields) (x : Heap T × Fields × ℕ)
      → (it == last') ≡ false
      → erase it h l ≡ some x
      → load it x.0 ≡ none
      → erase_range (suc fuel) it last' h l ≡ next_undefined
  unfolding erase_range
  erase_range-step fuel it last' h l x more gone unread = rw (more, gone, unread)

  -- `erase(first, last)` of a range that is not empty, from a node of the list on, erases that node,
  -- and then its `it++` reads the node that was deleted.
  pub erase_range-undefined :
      (fuel it last' : ℕ) (w : T) (h : Heap T) (l : Fields) (xs ys : Cells T)
      → IsList h l (xs ++ (it, w) ∷ ys)
      → it ≢ last'
      → erase_range (suc fuel) it last' h l ≡ next_undefined
  erase_range-undefined fuel it last' w h l xs ys is more =
      let (x, e) = erase-defined h l xs ys it w is in
      let gone = erase-freed it h l (ends_null h l (xs ++ (it, w) ∷ ys) is) in
      erase_range-step fuel it last' h l x (==_false more) e
        (subst (λ o. Always (Unread it) o) e gone)
