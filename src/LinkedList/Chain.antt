-- ===== src/LinkedList/Chain.antt =====
-- list/list.inl: chains of nodes in memory, which `m_prev` and `m_next` lead along, and what writes to
-- the memory do to them.
use cpp_projects_learning.Common.{
  ℕ, ◌≡◌, ◌≢◌, refl, sym, ap, ◌∙◌, false, List, [], ◌∷◌, ◌++◌, Option, none, some, arith, ◌==◌,
  length, ==_self,
}
use cpp_projects_learning.LinkedList.{null, Node, Heap, write, load, set_prev, set_next, delete}
use cpp_projects_learning.LinkedList.Class.{Fields}

abbrev pub node : {T : Type 0} → T → ℕ → ℕ → Node T
node v p n = record { m_value = v; m_prev = p; m_next = n }

-- The nodes of a list in order: address and value of each.
abbrev pub Cells : Type 0 → Type 0
Cells T = List (ℕ × T)

module _ {T : Type 0} where
  -- The address of the first node, or what stands behind; the address of the last, or what stands before.
  abbrev pub first : Cells T → ℕ → ℕ
  first [] after = after
  first ((a, v) ∷ xs) after = a

  abbrev pub last : ℕ → Cells T → ℕ
  last before [] = before
  last before ((a, v) ∷ xs) = last a xs

  -- The nodes stand in the heap, linked both ways.
  abbrev pub Chain : Heap T → ℕ → Cells T → ℕ → Type 0
  Chain h before [] after = Unit
  Chain h before ((a, v) ∷ xs) after =
      (h a ≡ some (node v before (first xs after))) × Chain h a xs after

  -- None of the nodes has this address.
  abbrev pub NotIn : ℕ → Cells T → Type 0
  NotIn a [] = Unit
  NotIn a ((b, v) ∷ xs) = (a ≢ b) × NotIn a xs

  -- The addresses are not null, and different.
  abbrev pub Apart : Cells T → Type 0
  Apart [] = Unit
  Apart ((a, v) ∷ xs) = (a ≢ 0) × NotIn a xs × Apart xs

  -- No address of the second list is one of the first.
  abbrev pub Off : Cells T → Cells T → Type 0
  Off xs [] = Unit
  Off xs ((a, v) ∷ ys) = NotIn a xs × Off xs ys

  pub first-append : (xs ys : Cells T) (n : ℕ) → first (xs ++ ys) n ≡ first xs (first ys n)
  first-append [] ys n = refl
  first-append ((a, v) ∷ xs) ys n = refl

  pub last-append : (b : ℕ) (xs ys : Cells T) → last b (xs ++ ys) ≡ last (last b xs) ys
  last-append b [] ys = refl
  last-append b ((a, v) ∷ xs) ys = last-append a xs ys

  pub NotIn-append : (a : ℕ) (xs ys : Cells T) → NotIn a xs → NotIn a ys → NotIn a (xs ++ ys)
  NotIn-append a [] ys p q = q
  NotIn-append a ((b, v) ∷ xs) ys p q = (p.0, NotIn-append a xs ys p.1 q)

  pub NotIn-split : (a : ℕ) (xs ys : Cells T) → NotIn a (xs ++ ys) → NotIn a xs × NotIn a ys
  NotIn-split a [] ys p = (tt, p)
  NotIn-split a ((b, v) ∷ xs) ys p = let (q, r) = NotIn-split a xs ys p.1 in ((p.0, q), r)

  Off-nil : (ys : Cells T) → Off [] ys
  Off-nil [] = tt
  Off-nil ((a, v) ∷ ys) = (tt, Off-nil ys)

  Off-cons : (a : ℕ) (v : T) (xs ys : Cells T) → NotIn a ys → Off xs ys → Off ((a, v) ∷ xs) ys
  Off-cons a v xs [] p q = tt
  Off-cons a v xs ((b, w) ∷ ys) p q = ((λ e. p.0 (sym e), q.0), Off-cons a v xs ys p.1 q.1)

  Off-uncons : (a : ℕ) (v : T) (xs ys : Cells T) → Off ((a, v) ∷ xs) ys → NotIn a ys × Off xs ys
  Off-uncons a v xs [] p = (tt, tt)
  Off-uncons a v xs ((b, w) ∷ ys) p =
      let (q, r) = Off-uncons a v xs ys p.1 in ((λ e. p.0.0 (sym e), q), (p.0.1, r))

  pub Off-sym : (xs ys : Cells T) → Off xs ys → Off ys xs
  Off-sym [] ys p = tt
  Off-sym ((a, v) ∷ xs) ys p = let (q, r) = Off-uncons a v xs ys p in (q, Off-sym xs ys r)

  pub Apart-append : (xs ys : Cells T) → Apart xs → Apart ys → Off xs ys → Apart (xs ++ ys)
  Apart-append [] ys p q r = q
  Apart-append ((a, v) ∷ xs) ys p q r =
      let (s, t) = Off-uncons a v xs ys r in
      (p.0, NotIn-append a xs ys p.1 s, Apart-append xs ys p.2 q t)

  pub Apart-split : (xs ys : Cells T) → Apart (xs ++ ys) → Apart xs × Apart ys × Off xs ys
  Apart-split [] ys p = (tt, p, Off-nil ys)
  Apart-split ((a, v) ∷ xs) ys p =
      let (q, r) = NotIn-split a xs ys p.1 in
      let (s, t, u) = Apart-split xs ys p.2 in ((p.0, q, s), t, Off-cons a v xs ys r u)

  pub Chain-append :
      (h : Heap T) (b n : ℕ) (xs ys : Cells T)
      → Chain h b xs (first ys n)
      → Chain h (last b xs) ys n
      → Chain h b (xs ++ ys) n
  Chain-append h b n [] ys c d = d
  Chain-append h b n ((a, v) ∷ xs) ys c d = (
    c.0 ∙ ap (λ k. some (node v b k)) (sym (first-append xs ys n)),
    Chain-append h a n xs ys c.1 d,
  )

  pub Chain-split :
      (h : Heap T) (b n : ℕ) (xs ys : Cells T)
      → Chain h b (xs ++ ys) n
      → Chain h b xs (first ys n) × Chain h (last b xs) ys n
  Chain-split h b n [] ys c = (tt, c)
  Chain-split h b n ((a, v) ∷ xs) ys c =
      let (d, e) = Chain-split h a n xs ys c.1 in
      ((c.0 ∙ ap (λ k. some (node v b k)) (first-append xs ys n), d), e)

  pub write_self : (p : ℕ) (c : Option (Node T)) (h : Heap T) → write p c h p ≡ c
  unfolding write
  write_self p c h = rw (==_self p)

  pub write-ne : (p q : ℕ) (c : Option (Node T)) (h : Heap T) → p ≢ q → write p c h q ≡ h q
  unfolding write
  write-ne p q c h d = ground arith

  -- A chain stays when a node elsewhere is written.
  pub Chain-write :
      (p : ℕ) (c : Option (Node T)) (h : Heap T) (b n : ℕ) (xs : Cells T)
      → NotIn p xs
      → Chain h b xs n
      → Chain (write p c h) b xs n
  Chain-write p c h b n [] d k = tt
  Chain-write p c h b n ((a, v) ∷ xs) d k =
      (write-ne p a c h d.0 ∙ k.0, Chain-write p c h a n xs d.1 k.1)

  -- `new` returns an address where no node stands.
  pub NotIn-unused :
      (p : ℕ) (h : Heap T) (b n : ℕ) (xs : Cells T) → h p ≡ none → Chain h b xs n → NotIn p xs
  NotIn-unused p h b n [] e k = tt
  NotIn-unused p h b n ((a, v) ∷ xs) e k =
      (λ same. absurd (absent (sym e ∙ ap h same ∙ k.0)), NotIn-unused p h a n xs e k.1)
    where
      absent : {m : Node T} → none ≡ some m → ⊥
      absent q = cc

  module _ (p : ℕ) (h : Heap T) (m : Node T) (there : p ≢ 0) (at : h p ≡ some m) where
    pub load-at : load p h ≡ some m
    unfolding load
    load-at = ground arith

    pub set_prev-at : (q : ℕ) → set_prev p q h ≡ some (write p (some (record m { m_prev = q })) h)
    unfolding set_prev
    set_prev-at q = rw load-at

    pub set_next-at : (q : ℕ) → set_next p q h ≡ some (write p (some (record m { m_next = q })) h)
    unfolding set_next
    set_next-at q = rw load-at

    pub delete-at : delete p h ≡ some (write p none h)
    unfolding delete
    delete-at = let not_null : (p == null) ≡ false = ground arith in rw (not_null, at)

-- The members of a list object whose nodes these are.
pub record IsList {T : Type 0} (h : Heap T) (l : Fields) (xs : Cells T) : Type 0 where
  pub chain : Chain h 0 xs 0
  pub apart : Apart xs
  pub head : l.m_head ≡ first xs 0
  pub tail : l.m_tail ≡ last 0 xs
  pub size : l.m_size ≡ length xs
