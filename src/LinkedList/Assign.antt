-- ===== src/LinkedList/Assign.antt =====
-- list/list.inl: the loop of `push_back`s, and `assign`.
use cpp_projects_learning.Common.{
  ℕ, ◌≡◌, refl, sym, ap, ◌∙◌, subst, List, [], ◌∷◌, ◌++◌, append_assoc, append-nil, none, some,
  Option, ◌⊎◌, inl, inr,
}
use cpp_projects_learning.LinkedList.{Heap}
use cpp_projects_learning.LinkedList.Class.{Fields, push_back, clear, push_backs, assign}
use cpp_projects_learning.LinkedList.Chain.{
  Cells, Chain, NotIn, Apart, Off, NotIn-append, NotIn-split, NotIn-unused, IsList,
}
use cpp_projects_learning.LinkedList.Ends.{push_back-IsList}
use cpp_projects_learning.LinkedList.Join.{Outside, Gives}
use cpp_projects_learning.LinkedList.Removal.{Freed, clear-IsList}

module _ {T : Type 0} where
  -- New nodes with the same value.
  abbrev pub cells : List ℕ → T → Cells T
  cells [] v = []
  cells (p ∷ ps) v = (p, v) ∷ cells ps v

  -- What `new` returns: addresses where no node stands, all different.
  pub record Fresh (h : Heap T) (xs : Cells T) : Type 0 where
    pub apart : Apart xs
    pub unused : Freed h xs

  Freed-Outside :
      (h g : Heap T) (zs ys : Cells T) → Outside zs h g → Off zs ys → Freed h ys → Freed g ys
  Freed-Outside h g zs [] o off f = tt
  Freed-Outside h g zs ((a, v) ∷ ys) o off f =
      (o.same a off.0 ∙ f.0, Freed-Outside h g zs ys o off.1 f.1)

  Off-extended :
      (h : Heap T) (xs ys : Cells T) (p : ℕ) (v : T)
      → Chain h 0 xs 0
      → NotIn p ys
      → Freed h ys
      → Off (xs ++ (p, v) ∷ []) ys
  Off-extended h xs [] p v c d f = tt
  Off-extended h xs ((q, w) ∷ ys) p v c d f = (
    NotIn-append q xs ((p, v) ∷ []) (NotIn-unused q h 0 0 xs f.0 c) ((λ e. d.0 (sym e)), tt),
    Off-extended h xs ys p v c d.1 f.1,
  )

  -- What `new` returns later is still not in use when one node was pushed.
  pub Fresh-pushed :
      (p : ℕ) (ps : List ℕ) (v : T) (h : Heap T) (l : Fields) (xs : Cells T)
      → IsList h l xs
      → Fresh h (cells (p ∷ ps) v)
      → (g : Heap T) → Outside (xs ++ (p, v) ∷ []) h g
      → Fresh g (cells ps v)
  Fresh-pushed p ps v h l xs is new g o =
      let off = Off-extended h xs (cells ps v) p v is.chain new.apart.1 new.unused.1 in
      record { apart = new.apart.2; unused = Freed-Outside h g _ _ o off new.unused.1 }

  push_backs-step :
      (p : ℕ) (ps : List ℕ) (v : T) (h h₁ : Heap T) (l l₁ : Fields)
      → push_back p v h l ≡ some (h₁, l₁)
      → push_backs (p ∷ ps) v h l ≡ push_backs ps v h₁ l₁
  unfolding push_backs
  push_backs-step p ps v h h₁ l l₁ e = rw (e)

  push_backs-nil : (v : T) (h : Heap T) (l : Fields) → push_backs [] v h l ≡ some (h, l)
  unfolding push_backs
  push_backs-nil v h l = refl

  -- The nodes that the loop makes stand behind the others.
  pub push_backs-IsList :
      (ps : List ℕ) (v : T) (h : Heap T) (l : Fields) (xs : Cells T)
      → IsList h l xs
      → Fresh h (cells ps v)
      → Gives (push_backs ps v h l) h (xs ++ cells ps v) (xs ++ cells ps v)
  push_backs-IsList [] v h l xs is new = record {
    heap = h;
    fields = l;
    returns = push_backs-nil v h l;
    list = subst (λ k. IsList h l k) (sym (append-nil xs)) is;
    outside = record { same = λ p o. refl };
  }
  push_backs-IsList (p ∷ ps) v h l xs is new =
      let pushed = push_back-IsList h l p v xs is new.apart.0 new.unused.0 in
      let rest =
        push_backs-IsList ps v pushed.heap pushed.fields (xs ++ (p, v) ∷ []) pushed.list
          (Fresh-pushed p ps v h l xs is new pushed.heap pushed.outside) in
      let whole = append_assoc xs ((p, v) ∷ []) (cells ps v) in
      record {
        heap = rest.heap;
        fields = rest.fields;
        returns =
            push_backs-step p ps v h pushed.heap l pushed.fields pushed.returns ∙ rest.returns;
        list = subst (λ k. IsList rest.heap rest.fields k) whole rest.list;
        outside = record {
          same = λ q o.
              let o' = subst (λ k. NotIn q k) (sym whole) o in
              let (o₁, _) = NotIn-split q (xs ++ (p, v) ∷ []) (cells ps v) o' in
              rest.outside.same q o' ∙ pushed.outside.same q o₁;
        };
      }

  assign-step :
      (ps : List ℕ) (v : T) (h h₁ : Heap T) (l l₁ : Fields)
      → clear h l ≡ some (h₁, l₁)
      → assign ps v h l ≡ push_backs ps v h₁ l₁
  unfolding assign
  assign-step ps v h h₁ l l₁ e = rw (assign, e)

  abbrev pub In : ℕ → Cells T → Type 0
  In a [] = ⊥
  In a ((b, v) ∷ xs) = (a ≡ b) ⊎ In a xs

  -- Where `new` can put the nodes `ys` once those of `xs` are deleted.
  abbrev pub Available : Heap T → Cells T → Cells T → Type 0
  Available h xs [] = Unit
  Available h xs ((a, v) ∷ ys) = ((h a ≡ none) ⊎ In a xs) × Available h xs ys

  In-Freed : (a : ℕ) (g : Heap T) (xs : Cells T) → In a xs → Freed g xs → g a ≡ none
  In-Freed a g [] i f = absurd i
  In-Freed a g ((b, v) ∷ xs) (inl e) f = ap g e ∙ f.0
  In-Freed a g ((b, v) ∷ xs) (inr i) f = In-Freed a g xs i f.1

  Available-Freed :
      (h g : Heap T) (xs ys : Cells T)
      → Chain h 0 xs 0
      → Freed g xs
      → Outside xs h g
      → Available h xs ys
      → Freed g ys
  Available-Freed h g xs [] c f o v = tt
  Available-Freed h g xs ((a, w) ∷ ys) c f o v = (
    elim v.0 [ inl e ↦ o.same a (NotIn-unused a h 0 0 xs e c) ∙ e | inr i ↦ In-Freed a g xs i f ],
    Available-Freed h g xs ys c f o v.1,
  )

  -- The list is now `ys`; a node of `xs` whose address was not used again is deleted.
  pub record Assigns (o : Option (Heap T × Fields)) (h : Heap T) (xs ys : Cells T) : Type 0 where
    pub gives : Gives o h (xs ++ ys) ys
    pub freed : (a : ℕ) → In a xs → NotIn a ys → gives.heap a ≡ none

  -- `assign` deletes every node and makes the new ones: their number is that of the addresses that `new`
  -- returns. These are not null and different, and each is not in use before the call or is that of a
  -- node of the list, which `clear` has deleted. A node of the list whose address `new` does not return
  -- again is gone, and nothing else in memory changes.
  pub assign-IsList :
      (ps : List ℕ) (v : T) (h : Heap T) (l : Fields) (xs : Cells T)
      → IsList h l xs
      → Apart (cells ps v)
      → Available h xs (cells ps v)
      → Assigns (assign ps v h l) h xs (cells ps v)
  assign-IsList ps v h l xs is apart free =
      let cleared = clear-IsList h l xs is in
      let g = cleared.gives.heap in
      let unused = Available-Freed h g xs _ is.chain cleared.freed cleared.gives.outside free in
      let made =
        push_backs-IsList ps v g cleared.gives.fields [] cleared.gives.list
          record { apart = apart; unused = unused } in
      record {
        gives = record {
          heap = made.heap;
          fields = made.fields;
          returns =
              assign-step ps v h g l cleared.gives.fields cleared.gives.returns ∙ made.returns;
          list = made.list;
          outside = record {
            same = λ q o.
                let (o₁, o₂) = NotIn-split q xs (cells ps v) o in
                made.outside.same q o₂ ∙ cleared.gives.outside.same q o₁;
          };
        };
        freed = λ a i off. made.outside.same a off ∙ In-Freed a g xs i cleared.freed;
      }
