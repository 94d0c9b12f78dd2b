-- ===== src/LinkedList/Insert.antt =====
-- list/list.inl: `insert` of several copies in the middle of a list.
use cpp_projects_learning.Common.{
  ℕ, ◌+◌, ◌≡◌, ◌≢◌, refl, sym, ◌∙◌, subst, false, List, [], ◌∷◌, ◌++◌, append_assoc, Option, none,
  some, arith, ◌==◌, length, length-append, ==_false,
}
use cpp_projects_learning.LinkedList.{Node, Heap, load, set_prev, set_next, new_node}
use cpp_projects_learning.LinkedList.Class.{Fields, insert_loop, insert}
use cpp_projects_learning.LinkedList.Chain.{
  node, Cells, first, last, Chain, NotIn, Apart, first-append, last-append, NotIn-append,
  NotIn-split, Apart-append, Apart-split, Chain-append, Chain-split, Chain-write, NotIn-unused,
  load-at, IsList,
}
use cpp_projects_learning.LinkedList.Ends.{size-middle}
use cpp_projects_learning.LinkedList.Join.{
  join-writes, end_written, both_written, join-Outside, join-writes', start_written, both_written',
  Outside, new_node-keeps, new_node-Chain, new_node-ne,
}
use cpp_projects_learning.LinkedList.Removal.{Freed}
use cpp_projects_learning.LinkedList.Assign.{cells, Fresh}
use cpp_projects_learning.LinkedList.Erase.{tail_node', first-NotIn}

module _ {T : Type 0} where
  -- The nodes that the loop makes: the last one stands first.
  abbrev pub turned_cells : List ℕ → T → Cells T → Cells T
  turned_cells [] v ys = ys
  turned_cells (p ∷ ps) v ys = turned_cells ps v ((p, v) ∷ ys)

  insert_loop-links :
      (p pos : ℕ) (ps : List ℕ) (v : T) (h h₁ h₂ h₃ h₄ : Heap T) (n : Node T)
      → load pos (new_node p v h) ≡ some n
      → set_prev p n.m_prev (new_node p v h) ≡ some h₁
      → set_next n.m_prev p h₁ ≡ some h₂
      → set_next p pos h₂ ≡ some h₃
      → set_prev pos p h₃ ≡ some h₄
      → insert_loop (p ∷ ps) v pos h ≡ insert_loop ps v p h₄
  unfolding insert_loop
  insert_loop-links p pos ps v h h₁ h₂ h₃ h₄ n a b c d e = rw (insert_loop, a, b, c, d, e)

  -- The heap after one round of the loop, which puts `p` between `s` and `q`.
  record Inserted (p s q : ℕ) (ps : List ℕ) (v u w : T) (h : Heap T) (xs ys : Cells T)
      : Type 0 where
    heap : Heap T
    returns : insert_loop (p ∷ ps) v q h ≡ insert_loop ps v p heap
    chain : Chain heap 0 (xs ++ (s, u) ∷ (p, v) ∷ (q, w) ∷ ys) 0
    apart : Apart (xs ++ (s, u) ∷ (p, v) ∷ (q, w) ∷ ys)
    outside : Outside (xs ++ (s, u) ∷ (p, v) ∷ (q, w) ∷ ys) h heap

  Apart-insert :
      (xs ys : Cells T) (s p : ℕ) (u v : T)
      → Apart (xs ++ (s, u) ∷ ys)
      → p ≢ 0
      → NotIn p (xs ++ (s, u) ∷ ys)
      → Apart (xs ++ (s, u) ∷ (p, v) ∷ ys)
  Apart-insert xs ys s p u v apart p0 off =
      let (ax, ay, ao) = Apart-split xs ((s, u) ∷ ys) apart in
      let (ox, oy) = NotIn-split p xs ((s, u) ∷ ys) off in
      Apart-append xs ((s, u) ∷ (p, v) ∷ ys) ax
        (ay.0, ((λ e. oy.0 (sym e)), ay.1), (p0, oy.1, ay.2)) (ao.0, (ox, ao.1))

  insert_loop-round :
      (p s q : ℕ) (ps : List ℕ) (v u w : T) (h : Heap T) (xs ys : Cells T)
      → Chain h 0 (xs ++ (s, u) ∷ (q, w) ∷ ys) 0
      → Apart (xs ++ (s, u) ∷ (q, w) ∷ ys)
      → p ≢ 0
      → h p ≡ none
      → Inserted p s q ps v u w h xs ys
  insert_loop-round p s q ps v u w h xs ys chain apart p0 unused =
      let off = NotIn-unused p h 0 0 (xs ++ (s, u) ∷ (q, w) ∷ ys) unused chain in
      let g = new_node p v h in
      let kept = new_node-keeps p v h 0 0 (xs ++ (s, u) ∷ (q, w) ∷ ys) off chain in
      let (d, e) = Chain-split g 0 0 xs ((s, u) ∷ (q, w) ∷ ys) kept in
      let whole = Apart-insert xs ((q, w) ∷ ys) s p u v apart p0 off in
      let left : Chain g 0 (xs ++ (s, u) ∷ []) q =
        Chain-append g 0 q xs ((s, u) ∷ []) d (e.0, tt) in
      let (ax, ay, ao) = Apart-split xs ((s, u) ∷ (p, v) ∷ (q, w) ∷ ys) whole in
      let start : Apart (xs ++ (s, u) ∷ (p, v) ∷ []) =
        Apart-append xs ((s, u) ∷ (p, v) ∷ []) ax (ay.0, (ay.1.0, tt), (p0, tt, tt))
          (ao.0, (ao.1.0, tt)) in
      let (a, b, c) = join-writes' g 0 0 0 q xs [] s p u v left (new_node-Chain p v h) start in
      let h₁ = start_written g 0 0 0 q xs [] s p u v left (new_node-Chain p v h) start in
      let h₂ = both_written' g 0 0 0 q xs [] s p u v left (new_node-Chain p v h) start in
      let sides = append_assoc xs ((s, u) ∷ []) ((p, v) ∷ []) in
      let sides' = append_assoc xs ((s, u) ∷ []) ((p, v) ∷ (q, w) ∷ ys) in
      let left' : Chain h₂ 0 ((xs ++ (s, u) ∷ []) ++ (p, v) ∷ []) 0 =
        subst (λ k. Chain h₂ 0 k 0) (sym sides) c in
      let whole' : Apart ((xs ++ (s, u) ∷ []) ++ (p, v) ∷ (q, w) ∷ ys) =
        subst (λ k. Apart k) (sym sides') whole in
      let right : Chain h₂ s ((q, w) ∷ ys) 0 =
        Chain-write s _ h₁ s 0 ((q, w) ∷ ys) ay.1.1
          (Chain-write p _ g s 0 ((q, w) ∷ ys) ay.2.1 e.1) in
      let (a', b', c') = join-writes h₂ 0 s 0 0 (xs ++ (s, u) ∷ []) ys p q v w left' right whole' in
      let h₃ = end_written h₂ 0 s 0 0 (xs ++ (s, u) ∷ []) ys p q v w left' right whole' in
      let h₄ = both_written h₂ 0 s 0 0 (xs ++ (s, u) ∷ []) ys p q v w left' right whole' in
      record {
        heap = h₄;
        returns =
            insert_loop-links p q ps v h h₁ h₂ h₃ h₄ (node w s (first ys 0))
              (load-at q g _ ay.2.2.0 e.1.0) a b a' b';
        chain = subst (λ k. Chain h₄ 0 k 0) sides' c';
        apart = whole;
        outside = record {
          same = λ c o.
              let (ox, oy) = NotIn-split c xs ((s, u) ∷ (p, v) ∷ (q, w) ∷ ys) o in
              (join-Outside h₂ 0 s 0 0 (xs ++ (s, u) ∷ []) ys p q v w left' right whole').0.same c
                (subst (λ k. NotIn c k) (sym sides') o)
              ∙ (join-Outside g 0 0 0 q xs [] s p u v left (new_node-Chain p v h) start).1.same c
                  (NotIn-append c xs ((s, u) ∷ (p, v) ∷ []) ox (oy.0, (oy.1.0, tt)))
              ∙ new_node-ne p v h c (λ k. oy.1.0 (sym k));
        };
      }

  -- What the loop of `insert` does: the new nodes stand before `pos`, and `pos` moves to the first.
  record Inserts (o : Option (Heap T × ℕ)) (h : Heap T) (zs : Cells T) (pos : ℕ) : Type 0 where
    heap : Heap T
    returns : o ≡ some (heap, pos)
    chain : Chain heap 0 zs 0
    apart : Apart zs
    outside : Outside zs h heap

  insert_loop-nil : (v : T) (q : ℕ) (h : Heap T) → insert_loop [] v q h ≡ some (h, q)
  unfolding insert_loop
  insert_loop-nil v q h = refl

  still_unused :
      (p : ℕ) (v : T) (h g : Heap T) (a : ℕ × T) (xs ys cs : Cells T)
      → Chain h 0 (xs ++ a ∷ ys) 0
      → Outside (xs ++ a ∷ (p, v) ∷ ys) h g
      → NotIn p cs
      → Freed h cs
      → Freed g cs
  still_unused p v h g a xs ys [] c o d f = tt
  still_unused p v h g a xs ys ((q, w) ∷ cs) c o d f =
      let (ox, oy) = NotIn-split q xs (a ∷ ys) (NotIn-unused q h 0 0 (xs ++ a ∷ ys) f.0 c) in
      (
        o.same q (NotIn-append q xs (a ∷ (p, v) ∷ ys) ox (oy.0, ((λ k. d.0 (sym k)), oy.1))) ∙ f.0,
        still_unused p v h g a xs ys cs c o d.1 f.1,
      )

  NotIn-turned :
      (c : ℕ) (ps : List ℕ) (v : T) (ys : Cells T) → NotIn c (turned_cells ps v ys) → NotIn c ys
  NotIn-turned c [] v ys o = o
  NotIn-turned c (p ∷ ps) v ys o = (NotIn-turned c ps v ((p, v) ∷ ys) o).1

  length-turned :
      (ps : List ℕ) (v : T) (ys : Cells T) → length (turned_cells ps v ys) ≡ length ps + length ys
  length-turned [] v ys = omega arith
  length-turned (p ∷ ps) v ys = omega (arith, length-turned ps v ((p, v) ∷ ys))

  last-turned :
      (b : ℕ) (ps : List ℕ) (v : T) (q : ℕ) (w : T) (ys : Cells T)
      → last b (turned_cells ps v ((q, w) ∷ ys)) ≡ last q ys
  last-turned b [] v q w ys = refl
  last-turned b (p ∷ ps) v q w ys = last-turned b ps v p v ((q, w) ∷ ys)

  insert_loop-Inserts :
      (ps : List ℕ) (s q : ℕ) (v u w : T) (h : Heap T) (xs ys : Cells T)
      → Chain h 0 (xs ++ (s, u) ∷ (q, w) ∷ ys) 0
      → Apart (xs ++ (s, u) ∷ (q, w) ∷ ys)
      → Fresh h (cells ps v)
      → Inserts
          (insert_loop ps v q h)
          h
          (xs ++ (s, u) ∷ turned_cells ps v ((q, w) ∷ ys))
          (first (turned_cells ps v ((q, w) ∷ ys)) 0)
  insert_loop-Inserts [] s q v u w h xs ys chain apart new = record {
    heap = h;
    returns = insert_loop-nil v q h;
    chain = chain;
    apart = apart;
    outside = record { same = λ c o. refl };
  }
  insert_loop-Inserts (p ∷ ps) s q v u w h xs ys chain apart new =
      let step = insert_loop-round p s q ps v u w h xs ys chain apart new.apart.0 new.unused.0 in
      let unused =
        still_unused p v h step.heap (s, u) xs ((q, w) ∷ ys) (cells ps v) chain step.outside
          new.apart.1 new.unused.1 in
      let rest =
        insert_loop-Inserts ps s p v u v step.heap xs ((q, w) ∷ ys) step.chain step.apart
          record { apart = new.apart.2; unused = unused } in
      record {
        heap = rest.heap;
        returns = step.returns ∙ rest.returns;
        chain = rest.chain;
        apart = rest.apart;
        outside = record {
          same = λ c o.
              let (ox, oy) =
                NotIn-split c xs ((s, u) ∷ turned_cells ps v ((p, v) ∷ (q, w) ∷ ys)) o in
              rest.outside.same c o
              ∙ step.outside.same c (
                  NotIn-append c xs ((s, u) ∷ (p, v) ∷ (q, w) ∷ ys) ox
                    (oy.0, NotIn-turned c ps v ((p, v) ∷ (q, w) ∷ ys) oy.1));
        };
      }

  insert-links :
      (q p : ℕ) (ps : List ℕ) (v : T) (h h₁ : Heap T) (l : Fields) (m : Node T)
      → (l.m_size == 0) ≡ false
      → (q == l.m_head) ≡ false
      → load l.m_tail h ≡ some m
      → (q == m.m_next) ≡ false
      → insert_loop ps v q h ≡ some (h₁, p)
      → insert q ps v h l ≡ some (h₁, record l { m_size = l.m_size + length ps }, p)
  unfolding insert
  insert-links q p ps v h h₁ l m some_node not_head a not_end b =
      rw (insert, some_node, not_head, a, not_end, b)

  -- The result of `insert`: the list then has the nodes `zs`, and the iterator is `p`.
  pub record InsertsNodes (q p : ℕ) (ps : List ℕ) (v : T) (h : Heap T) (l : Fields) (zs : Cells T)
      : Type 0 where
    pub heap : Heap T
    pub fields : Fields
    pub returns : insert q ps v h l ≡ some (heap, fields, p)
    pub list : IsList heap fields zs
    pub outside : Outside zs h heap

  -- `insert(pos, n, value)` at a node that is not the first puts `n` nodes before it, the last one made
  -- first, and returns the first of them (or `pos` when there are none). `new` returns addresses where no
  -- node stands. Nothing else in the heap changes.
  pub insert-InsertsNodes :
      (ps : List ℕ) (s q : ℕ) (v u w : T) (h : Heap T) (l : Fields) (xs ys : Cells T)
      → IsList h l (xs ++ (s, u) ∷ (q, w) ∷ ys)
      → Fresh h (cells ps v)
      → InsertsNodes q
          (first (turned_cells ps v ((q, w) ∷ ys)) 0)
          ps
          v
          h
          l
          (xs ++ (s, u) ∷ turned_cells ps v ((q, w) ∷ ys))
  insert-InsertsNodes ps s q v u w h l xs ys is new =
      let made = insert_loop-Inserts ps s q v u w h xs ys is.chain is.apart new in
      let (m, at_tail, ending) = tail_node' h l (s, u) xs ((q, w) ∷ ys) is in
      let (n, some_node) = size-middle h l xs ((q, w) ∷ ys) (s, u) is in
      let (_, ay, ao) = Apart-split xs ((s, u) ∷ (q, w) ∷ ys) is.apart in
      let zs = turned_cells ps v ((q, w) ∷ ys) in
      let head : q ≢ l.m_head =
        subst (λ k. q ≢ k) (sym (is.head ∙ first-append xs ((s, u) ∷ (q, w) ∷ ys) 0))
          (first-NotIn q s xs ao.1.0 (λ k. ay.1.0 (sym k))) in
      record {
        heap = made.heap;
        fields = record l { m_size = l.m_size + length ps };
        returns =
            insert-links q _ ps v h made.heap l m some_node (==_false head) at_tail
              (==_false (λ k. ay.2.0 (k ∙ ending))) made.returns;
        list = record {
          chain = made.chain;
          apart = made.apart;
          head =
              is.head
              ∙ first-append xs ((s, u) ∷ (q, w) ∷ ys) 0
              ∙ sym (first-append xs ((s, u) ∷ zs) 0);
          tail =
              is.tail
              ∙ last-append 0 xs ((s, u) ∷ (q, w) ∷ ys)
              ∙ sym (last-turned s ps v q w ys)
              ∙ sym (last-append 0 xs ((s, u) ∷ zs));
          size = omega (arith, n, length-append xs ((s, u) ∷ zs), length-turned ps v ((q, w) ∷ ys));
        };
        outside = made.outside;
      }
