-- ===== src/LinkedList/Join.antt =====
-- list/list.inl: the nodes of two chains joined by writes, and new nodes.
use cpp_projects_learning.Common.{
  ℕ, ◌≡◌, ◌≢◌, sym, ◌∙◌, subst, [], ◌∷◌, ◌++◌, append_assoc, Option, some,
}
use cpp_projects_learning.LinkedList.{Heap, write, set_prev, set_next, new_node}
use cpp_projects_learning.LinkedList.Class.{Fields}
use cpp_projects_learning.LinkedList.Chain.{
  node, Cells, first, last, Chain, NotIn, Apart, last-append, NotIn-append, NotIn-split,
  Apart-split, Chain-append, Chain-split, write_self, write-ne, Chain-write, set_prev-at,
  set_next-at, IsList,
}

module _ {T : Type 0} where
  -- What is not at an address of the list is the same in both heaps.
  pub record Outside (xs : Cells T) (h g : Heap T) : Type 0 where
    pub same : (p : ℕ) → NotIn p xs → g p ≡ h p

  -- A call returns, the list object then has the nodes `ys`, and the heap is the same outside `zs`.
  pub record Gives (o : Option (Heap T × Fields)) (h : Heap T) (zs ys : Cells T) : Type 0 where
    pub heap : Heap T
    pub fields : Fields
    pub returns : o ≡ some (heap, fields)
    pub list : IsList heap fields ys
    pub outside : Outside zs h heap

  -- The node in the middle of a chain.
  pub cell-at :
      (h : Heap T) (b n : ℕ) (xs ys : Cells T) (t : ℕ) (w : T)
      → Chain h b (xs ++ (t, w) ∷ ys) n
      → h t ≡ some (node w (last b xs) (first ys n))
  cell-at h b n xs ys t w c = (Chain-split h b n xs ((t, w) ∷ ys) c).1.0

  -- What follows the last node, and what comes before the first, is changed by one write.
  pub relink_last :
      (h : Heap T) (b n n' : ℕ) (xs : Cells T) (t : ℕ) (w : T)
      → NotIn t xs
      → Chain h b (xs ++ (t, w) ∷ []) n
      → Chain (write t (some (node w (last b xs) n')) h) b (xs ++ (t, w) ∷ []) n'
  relink_last h b n n' xs t w apart c =
      let (d, e) = Chain-split h b n xs ((t, w) ∷ []) c in
      Chain-append _ b n' xs ((t, w) ∷ []) (Chain-write t _ h b t xs apart d) (write_self t _ h, tt)

  pub relink_first :
      (h : Heap T) (b b' n : ℕ) (ys : Cells T) (f : ℕ) (u : T)
      → NotIn f ys
      → Chain h b ((f, u) ∷ ys) n
      → Chain (write f (some (node u b' (first ys n))) h) b' ((f, u) ∷ ys) n
  relink_first h b b' n ys f u apart c = (write_self f _ h, Chain-write f _ h f n ys apart c.1)

  -- Two chains are joined by two writes, in either order.
  module _ (h : Heap T) (b b' n n' : ℕ) (xs ys : Cells T) (t f : ℕ) (w u : T)
      (left : Chain h b (xs ++ (t, w) ∷ []) n') (right : Chain h b' ((f, u) ∷ ys) n)
      (apart : Apart (xs ++ (t, w) ∷ (f, u) ∷ ys)) where
    abbrev pub end_written : Heap T
    end_written = write t (some (node w (last b xs) f)) h

    abbrev pub both_written : Heap T
    both_written = write f (some (node u t (first ys n))) end_written

    abbrev pub start_written : Heap T
    start_written = write f (some (node u t (first ys n))) h

    abbrev pub both_written' : Heap T
    both_written' = write t (some (node w (last b xs) f)) start_written

    distinct : (t ≢ 0) × (f ≢ 0) × (t ≢ f) × NotIn t xs × NotIn f xs × NotIn t ys × NotIn f ys
    distinct =
        let (p, q, r) = Apart-split xs ((t, w) ∷ (f, u) ∷ ys) apart in
        (q.0, q.2.0, q.1.0, r.0, r.1.0, q.1.1, q.2.1)

    pub join-writes :
        (set_next t f h ≡ some end_written)
        × (set_prev f t end_written ≡ some both_written)
        × Chain both_written b (xs ++ (t, w) ∷ (f, u) ∷ ys) n
    join-writes =
        let (t0, f0, tf, tx, fx, ty, fy) = distinct in
        let before = NotIn-append f xs ((t, w) ∷ []) fx ((λ e. tf (sym e)), tt) in
        let linked = relink_last h b n' f xs t w tx left in
        let right' =
          Chain-write t (some (node w (last b xs) f)) h b' n ((f, u) ∷ ys) (tf, ty) right in
        (
          set_next-at t h _ t0 (cell-at h b n' xs [] t w left) f,
          set_prev-at f end_written _ f0 right'.0 t,
          subst (λ k. Chain both_written b k n) (append_assoc xs ((t, w) ∷ []) ((f, u) ∷ ys))
              (Chain-append both_written b n (xs ++ (t, w) ∷ []) ((f, u) ∷ ys)
                (Chain-write f _ end_written b f (xs ++ (t, w) ∷ []) before linked)
                (subst (λ k. Chain both_written k ((f, u) ∷ ys) n)
                  (sym (last-append b xs ((t, w) ∷ [])))
                  (relink_first end_written b' t n ys f u fy right'))),
        )

    pub join-writes' :
        (set_prev f t h ≡ some start_written)
        × (set_next t f start_written ≡ some both_written')
        × Chain both_written' b (xs ++ (t, w) ∷ (f, u) ∷ ys) n
    join-writes' =
        let (t0, f0, tf, tx, fx, ty, fy) = distinct in
        let before = NotIn-append f xs ((t, w) ∷ []) fx ((λ e. tf (sym e)), tt) in
        let left' =
          Chain-write f (some (node u t (first ys n))) h b n' (xs ++ (t, w) ∷ []) before left in
        (
          set_prev-at f h _ f0 right.0 t,
          set_next-at t start_written _ t0 (cell-at start_written b n' xs [] t w left') f,
          subst (λ k. Chain both_written' b k n) (append_assoc xs ((t, w) ∷ []) ((f, u) ∷ ys))
              (Chain-append both_written' b n (xs ++ (t, w) ∷ []) ((f, u) ∷ ys)
                (relink_last start_written b n' f xs t w tx left')
                (subst (λ k. Chain both_written' k ((f, u) ∷ ys) n)
                  (sym (last-append b xs ((t, w) ∷ [])))
                  (Chain-write t _ start_written t n ((f, u) ∷ ys) (tf, ty)
                    (relink_first h b' t n ys f u fy right)))),
        )

    pub join-Outside :
        Outside (xs ++ (t, w) ∷ (f, u) ∷ ys) h both_written
        × Outside (xs ++ (t, w) ∷ (f, u) ∷ ys) h both_written'
    join-Outside = (
      record {
        same = λ p off.
            let (_, q) = NotIn-split p xs ((t, w) ∷ (f, u) ∷ ys) off in
            write-ne f p _ end_written (λ e. q.1.0 (sym e)) ∙ write-ne t p _ h (λ e. q.0 (sym e));
      },
      record {
        same = λ p off.
            let (_, q) = NotIn-split p xs ((t, w) ∷ (f, u) ∷ ys) off in
            write-ne t p _ start_written (λ e. q.0 (sym e)) ∙ write-ne f p _ h (λ e. q.1.0 (sym e));
      },
    )

  -- A new node, in a heap where its address is not used.
  pub new_node-Chain : (p : ℕ) (v : T) (h : Heap T) → Chain (new_node p v h) 0 ((p, v) ∷ []) 0
  unfolding new_node
  new_node-Chain p v h = (write_self p _ h, tt)

  pub new_node-keeps :
      (p : ℕ) (v : T) (h : Heap T) (b n : ℕ) (xs : Cells T)
      → NotIn p xs
      → Chain h b xs n
      → Chain (new_node p v h) b xs n
  unfolding new_node
  new_node-keeps p v h b n xs off c = Chain-write p _ h b n xs off c

  pub new_node-ne : (p : ℕ) (v : T) (h : Heap T) (q : ℕ) → p ≢ q → new_node p v h q ≡ h q
  unfolding new_node
  new_node-ne p v h q ne = write-ne p q _ h ne

  pub new_node-Outside :
      (p : ℕ) (v : T) (h g : Heap T) (xs : Cells T)
      → ¬ NotIn p xs
      → Outside xs (new_node p v h) g
      → Outside xs h g
  unfolding new_node
  new_node-Outside p v h g xs in_xs o = record {
    same =
        λ q off. o.same q off ∙ write-ne p q _ h (λ e. in_xs (subst (λ k. NotIn k xs) (sym e) off));
  }
