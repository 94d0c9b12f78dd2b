-- ===== src/LinkedList/Erase.antt =====
-- list/list.inl: `erase` of a node behind the first one, `erase` of a range, and `pop_front`.
use cpp_projects_learning.Common.{
  ℕ, ◌-◌, ◌≡◌, ◌≢◌, refl, sym, ◌∙◌, subst, false, [], ◌∷◌, ◌++◌, Option, none, some, arith, ◌==◌,
  length-append, split_last, ==_false,
}
use cpp_projects_learning.LinkedList.{null, Node, Heap, write, load, set_prev, set_next, delete}
use cpp_projects_learning.LinkedList.Class.{Fields, unless_null, erase}
use cpp_projects_learning.LinkedList.Chain.{
  node, Cells, first, last, Chain, NotIn, Apart, first-append, last-append, NotIn-append,
  NotIn-split, Apart-append, Apart-split, Chain-append, Chain-split, write_self, write-ne,
  Chain-write, load-at, delete-at, IsList,
}
use cpp_projects_learning.LinkedList.Ends.{size-middle}
use cpp_projects_learning.LinkedList.Join.{join-writes, end_written, both_written, Outside, cell-at}

module _ {T : Type 0} where
  pub erase-links :
      (pos : ℕ) (h h₁ h₂ h₃ : Heap T) (l : Fields) (m n : Node T)
      → (l.m_size == 0) ≡ false
      → (pos == l.m_head) ≡ false
      → load l.m_tail h ≡ some m
      → (pos == m.m_next) ≡ false
      → load pos h ≡ some n
      → unless_null n.m_prev (set_next n.m_prev n.m_next h) h ≡ some h₁
      → unless_null n.m_next (set_prev n.m_next n.m_prev h₁) h₁ ≡ some h₂
      → delete pos h₂ ≡ some h₃
      → erase pos h l ≡ some (h₃, record l { m_size = l.m_size - 1 }, n.m_next)
  unfolding erase
  erase-links pos h h₁ h₂ h₃ l m n some_node not_head a not_end b c d f =
      rw (erase, some_node, not_head, a, not_end, b, c, d, f)

  pub unless_null-some :
      (p : ℕ) (o : Option (Heap T)) (h h₁ : Heap T)
      → p ≢ 0
      → o ≡ some h₁
      → unless_null p o h ≡ some h₁
  unless_null-some p o h h₁ ne e = let t : (p == null) ≡ false = ground arith in rw (t) e

  -- The last node, which `end` reads.
  tail_node :
      (h : Heap T) (l : Fields) (x : ℕ × T) (xs : Cells T)
      → IsList h l (x ∷ xs)
      → (m : Node T) × (load l.m_tail h ≡ some m) × (m.m_next ≡ 0)
  tail_node h l x xs is =
      let (mid, (z, q), e) = split_last x xs in
      let is' = subst (λ k. IsList h l k) e is in
      let tail = is'.tail ∙ last-append 0 mid ((z, q) ∷ []) in
      let (_, b, _) = Apart-split mid ((z, q) ∷ []) is'.apart in
      (
        node q (last 0 mid) 0,
        subst (λ k. load k h ≡ some (node q (last 0 mid) 0)) (sym tail)
            (load-at z h _ b.0 (cell-at h 0 0 mid [] z q is'.chain)),
        refl,
      )

  pub tail_node' :
      (h : Heap T) (l : Fields) (x : ℕ × T) (xs ys : Cells T)
      → IsList h l (xs ++ x ∷ ys)
      → (m : Node T) × (load l.m_tail h ≡ some m) × (m.m_next ≡ 0)
  tail_node' h l x [] ys is = tail_node h l x ys is
  tail_node' h l x (y ∷ xs) ys is = tail_node h l y (xs ++ x ∷ ys) is

  pub first-NotIn : (t s : ℕ) (xs : Cells T) → NotIn t xs → t ≢ s → t ≢ first xs s
  first-NotIn t s [] off ne = ne
  first-NotIn t s ((a, v) ∷ xs) off ne = off.0

  -- What `erase` of the node at `t` does: `r` comes back, and `xs` is left.
  pub record Erases (t r : ℕ) (h : Heap T) (l : Fields) (zs xs : Cells T) : Type 0 where
    pub heap : Heap T
    pub fields : Fields
    pub returns : erase t h l ≡ some (heap, fields, r)
    pub list : IsList heap fields xs
    pub freed : heap t ≡ none
    pub outside : Outside zs h heap

  -- `erase` of a node that has a node on each side takes it out of the list, deletes it, and returns the
  -- node behind it. Nothing but the nodes of the list changes in memory.
  pub erase-middle :
      (h : Heap T) (l : Fields) (xs ys : Cells T) (s t r : ℕ) (v w u : T)
      → IsList h l (xs ++ (s, v) ∷ (t, w) ∷ (r, u) ∷ ys)
      → Erases t r h l (xs ++ (s, v) ∷ (t, w) ∷ (r, u) ∷ ys) (xs ++ (s, v) ∷ (r, u) ∷ ys)
  erase-middle h l xs ys s t r v w u is =
      let (d, e) = Chain-split h 0 0 xs ((s, v) ∷ (t, w) ∷ (r, u) ∷ ys) is.chain in
      let (ax, ay, ao) = Apart-split xs ((s, v) ∷ (t, w) ∷ (r, u) ∷ ys) is.apart in
      let left : Chain h 0 (xs ++ (s, v) ∷ []) t =
        Chain-append h 0 t xs ((s, v) ∷ []) d (e.0, tt) in
      let apart : Apart (xs ++ (s, v) ∷ (r, u) ∷ ys) =
        Apart-append xs ((s, v) ∷ (r, u) ∷ ys) ax (ay.0, ay.1.1, ay.2.2) (ao.0, ao.1.1) in
      let (a, b, c) = join-writes h 0 t 0 t xs ys s r v u left e.1.1 apart in
      let h₁ = end_written h 0 t 0 t xs ys s r v u left e.1.1 apart in
      let h₂ = both_written h 0 t 0 t xs ys s r v u left e.1.1 apart in
      let (m, at_tail, ending) = tail_node' h l (s, v) xs ((t, w) ∷ (r, u) ∷ ys) is in
      let (n, some_node) = size-middle h l xs ((t, w) ∷ (r, u) ∷ ys) (s, v) is in
      let st : s ≢ t = ay.1.0 in
      let tr : t ≢ r = ay.2.1.0 in
      let t0 : t ≢ 0 = ay.2.0 in
      let head : t ≢ l.m_head =
        subst (λ k. t ≢ k) (sym (is.head ∙ first-append xs ((s, v) ∷ (t, w) ∷ (r, u) ∷ ys) 0))
          (first-NotIn t s xs ao.1.0 (λ k. st (sym k))) in
      let not_head : (t == l.m_head) ≡ false = ==_false head in
      let not_end : (t == m.m_next) ≡ false = ==_false (λ k. t0 (k ∙ ending)) in
      let off = NotIn-append t xs ((s, v) ∷ (r, u) ∷ ys) ao.1.0 ((λ k. st (sym k)), ay.2.1) in
      record {
        heap = write t none h₂;
        fields = record l { m_size = l.m_size - 1 };
        returns =
            erase-links t h h₁ h₂ _ l m (node w s r) some_node not_head at_tail not_end
              (load-at t h _ t0 e.1.0) (unless_null-some s _ h h₁ ay.0 a)
              (unless_null-some r _ h₁ h₂ ay.2.2.0 b)
              (delete-at t h₂ (node w s r) t0
                (write-ne r t _ h₁ (λ k. tr (sym k)) ∙ write-ne s t _ h st ∙ e.1.0));
        list = record {
          chain = Chain-write t none h₂ 0 0 (xs ++ (s, v) ∷ (r, u) ∷ ys) off c;
          apart = apart;
          head =
              is.head
              ∙ first-append xs ((s, v) ∷ (t, w) ∷ (r, u) ∷ ys) 0
              ∙ sym (first-append xs ((s, v) ∷ (r, u) ∷ ys) 0);
          tail =
              is.tail
              ∙ last-append 0 xs ((s, v) ∷ (t, w) ∷ (r, u) ∷ ys)
              ∙ sym (last-append 0 xs ((s, v) ∷ (r, u) ∷ ys));
          size = omega (arith, n, length-append xs ((s, v) ∷ (r, u) ∷ ys));
        };
        freed = write_self t none h₂;
        outside = record {
          same = λ p o.
              let (_, q) = NotIn-split p xs ((s, v) ∷ (t, w) ∷ (r, u) ∷ ys) o in
              write-ne t p none h₂ (λ k. q.1.0 (sym k))
              ∙ write-ne r p _ h₁ (λ k. q.1.1.0 (sym k))
              ∙ write-ne s p _ h (λ k. q.0 (sym k));
        };
      }
