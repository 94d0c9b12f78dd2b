-- ===== src/Vector/Layout.antt =====
-- vector/version03/vector.cpp: what building, moving and destroying elements does to a block that is
-- given as a front, the slots in question, and what stands behind.
use cpp_projects_learning.Common.{
  ℕ, zero, suc, ◌+◌, ◌<◌, ◌≡◌, refl, ap, ◌∙◌, true, List, [], ◌∷◌, ◌++◌, append_assoc, some, arith,
  ltb, length, get_elem?, set, replicate, length-append, lt→ltb,
}
use cpp_projects_learning.Vector.{
  Slot, raw, live, moved, Memory, Outcome, returns, ◌>>=◌, raws, construct, destroy_at, value_at,
  take_at, assign, move_slot, move_down, destroy, copy_to, values, move_out,
}

-- The slots of these elements.
abbrev pub lives : {T : Type 0} → List T → Memory T
lives [] = []
lives (x ∷ xs) = live x ∷ lives xs

-- There is an element in the slot, possibly one that was moved from.
abbrev pub Built : {T : Type 0} → Slot T → Type 0
Built raw = ⊥
Built (live x) = Unit
Built moved = Unit

abbrev pub AllBuilt : {T : Type 0} → Memory T → Type 0
AllBuilt [] = Unit
AllBuilt (s ∷ m) = Built s × AllBuilt m

pub >>=-returns :
    {A B : Type 0} {o : Outcome A} {a : A} (f : A → Outcome B) → o ≡ returns a → (o >>= f) ≡ f a
>>=-returns f e = rw e

module _ {ℓ} {A : Type ℓ} where
  pub get_elem?-append :
      (pre post : List A) (i : ℕ) (x : A) → i ≡ length pre → get_elem? (pre ++ x ∷ post) i ≡ some x
  get_elem?-append [] post zero x e = refl
  get_elem?-append [] post (suc i) x e = absurd (omega arith)
  get_elem?-append (y ∷ pre) post zero x e = absurd (omega arith)
  get_elem?-append (y ∷ pre) post (suc i) x e = get_elem?-append pre post i x (omega arith)

  pub set-append :
      (pre post : List A) (i : ℕ) (x y : A)
      → i ≡ length pre
      → set (pre ++ x ∷ post) i y ≡ pre ++ y ∷ post
  set-append [] post zero x y e = refl
  set-append [] post (suc i) x y e = absurd (omega arith)
  set-append (z ∷ pre) post zero x y e = absurd (omega arith)
  set-append (z ∷ pre) post (suc i) x y e = ap (◌∷◌ z) (set-append pre post i x y (omega arith))

module _ {T : Type 0} where
  pub lives-append : (xs ys : List T) → lives (xs ++ ys) ≡ lives xs ++ lives ys
  lives-append [] ys = refl
  lives-append (x ∷ xs) ys = ap (◌∷◌ (live x)) (lives-append xs ys)

  pub length-lives : (xs : List T) → length (lives xs) ≡ length xs
  length-lives [] = refl
  length-lives (x ∷ xs) = ap suc (length-lives xs)

  pub lives-AllBuilt : (xs : List T) → AllBuilt (lives xs)
  lives-AllBuilt [] = tt
  lives-AllBuilt (x ∷ xs) = (tt, lives-AllBuilt xs)

  pub AllBuilt-append : (m n : Memory T) → AllBuilt m → AllBuilt n → AllBuilt (m ++ n)
  AllBuilt-append [] n h k = k
  AllBuilt-append (s ∷ m) n h k = (h.0, AllBuilt-append m n h.1 k)

  module _ (pre post : Memory T) (i : ℕ) (e : i ≡ length pre) where
    pub construct-slot :
        (s : Slot T) (x : T) → construct i x (pre ++ s ∷ post) ≡ returns (pre ++ live x ∷ post)
    unfolding construct
    construct-slot s x =
        let inside : ltb i (length (pre ++ s ∷ post)) ≡ true =
          lt→ltb i _ (omega (arith, length-append pre (s ∷ post))) in
        rw (inside, set-append pre post i s (live x) e)

    pub destroy_at-slot :
        (s : Slot T) → Built s → destroy_at i (pre ++ s ∷ post) ≡ returns (pre ++ raw ∷ post)
    unfolding destroy_at
    destroy_at-slot raw b = elim b [ ]
    destroy_at-slot (live x) b =
        rw (get_elem?-append pre post i (live x) e, destroy_at)
          (rw (set-append pre post i (live x) raw e))
    destroy_at-slot moved b =
        rw (get_elem?-append pre post i moved e, destroy_at)
          (rw (set-append pre post i moved raw e))

    pub value_at-slot : (x : T) → value_at i (pre ++ live x ∷ post) ≡ returns x
    unfolding value_at
    value_at-slot x = rw (get_elem?-append pre post i (live x) e, value_at)

    pub take_at-slot : (x : T) → take_at i (pre ++ live x ∷ post) ≡ returns (x, pre ++ moved ∷ post)
    unfolding take_at
    take_at-slot x = rw (value_at-slot x, set-append pre post i (live x) moved e)

    pub assign-slot :
        (s : Slot T) (x : T)
        → Built s
        → assign i x (pre ++ s ∷ post) ≡ returns (pre ++ live x ∷ post)
    unfolding assign
    assign-slot raw x b = elim b [ ]
    assign-slot (live y) x b =
        rw (get_elem?-append pre post i (live y) e, assign)
          (rw (set-append pre post i (live y) (live x) e))
    assign-slot moved x b =
        rw (get_elem?-append pre post i moved e, assign)
          (rw (set-append pre post i moved (live x) e))

  -- Destroying slots leaves raw memory.
  pub destroy-slots :
      (pre gs post : Memory T) (n i : ℕ)
      → i ≡ length pre
      → n ≡ length gs
      → AllBuilt gs
      → destroy n i (pre ++ (gs ++ post)) ≡ returns (pre ++ (raws n ++ post))
  unfolding destroy
  destroy-slots pre [] post zero i e l b = refl
  destroy-slots pre (g ∷ gs) post (suc n) i e l b =
      let step = destroy_at-slot pre (gs ++ post) i e g b.0 in
      let rest =
        destroy-slots (pre ++ raw ∷ []) gs post n (i + 1)
          (omega (arith, length-append pre (raw ∷ []))) (omega arith) b.1 in
      >>=-returns (destroy n (i + 1)) step ∙ (simp append_assoc at rest)
  destroy-slots pre [] post (suc n) i e l b = absurd (omega arith)
  destroy-slots pre (g ∷ gs) post zero i e l b = absurd (omega arith)

  -- Copies go to raw memory, or over what stands there.
  pub copy_to-slots :
      (pre gs post : Memory T) (xs : List T) (i : ℕ)
      → i ≡ length pre
      → length gs ≡ length xs
      → copy_to xs i (pre ++ (gs ++ post)) ≡ returns (pre ++ (lives xs ++ post))
  unfolding copy_to
  copy_to-slots pre [] post [] i e l = refl
  copy_to-slots pre (g ∷ gs) post (x ∷ xs) i e l =
      let step = construct-slot pre (gs ++ post) i e g x in
      let rest =
        copy_to-slots (pre ++ live x ∷ []) gs post xs (i + 1)
          (omega (arith, length-append pre (live x ∷ []))) (omega arith) in
      >>=-returns (copy_to xs (i + 1)) step ∙ (simp append_assoc at rest)
  copy_to-slots pre [] post (x ∷ xs) i e l = absurd (omega arith)
  copy_to-slots pre (g ∷ gs) post [] i e l = absurd (omega arith)

  pub values-slots :
      (pre post : Memory T) (xs : List T) (i : ℕ)
      → i ≡ length pre
      → values (length xs) i (pre ++ (lives xs ++ post)) ≡ returns xs
  unfolding values
  values-slots pre post [] i e = refl
  values-slots pre post (x ∷ xs) i e =
      let rest =
        values-slots (pre ++ live x ∷ []) post xs (i + 1)
          (omega (arith, length-append pre (live x ∷ []))) in
      let rest' : values (length xs) (i + 1) (pre ++ (live x ∷ (lives xs ++ post))) ≡ returns xs =
        simp append_assoc at rest in
      >>=-returns _ (value_at-slot pre (lives xs ++ post) i e x) ∙ >>=-returns _ rest'

  -- The elements go to the other block, and leave slots to destroy.
  pub move_out-slots :
      (pre post pre' gs post' : Memory T) (xs : List T) (i : ℕ)
      → i ≡ length pre
      → i ≡ length pre'
      → length gs ≡ length xs
      → move_out (length xs) i (pre ++ (lives xs ++ post)) (pre' ++ (gs ++ post'))
        ≡ returns (pre ++ (replicate (length xs) moved ++ post), pre' ++ (lives xs ++ post'))
  unfolding move_out
  move_out-slots pre post pre' [] post' [] i e e' l = refl
  move_out-slots pre post pre' (g ∷ gs) post' (x ∷ xs) i e e' l =
      let took = take_at-slot pre (lives xs ++ post) i e x in
      let built = construct-slot pre' (gs ++ post') i e' g x in
      let rest =
        move_out-slots (pre ++ moved ∷ []) post (pre' ++ live x ∷ []) gs post' xs (i + 1)
          (omega (arith, length-append pre (moved ∷ [])))
          (omega (arith, length-append pre' (live x ∷ []))) (omega arith) in
      >>=-returns _ took ∙ >>=-returns _ built ∙ (simp append_assoc at rest)
  move_out-slots pre post pre' [] post' (x ∷ xs) i e e' l = absurd (omega arith)
  move_out-slots pre post pre' (g ∷ gs) post' [] i e e' l = absurd (omega arith)

  -- An element goes to a slot in front of it.
  move_slot-down :
      (pre gs post : Memory T) (g : Slot T) (x : T) (src dst : ℕ)
      → dst ≡ length pre
      → src ≡ length pre + length (g ∷ gs)
      → Built g
      → move_slot src dst (pre ++ (g ∷ (gs ++ (live x ∷ post))))
        ≡ returns (pre ++ (live x ∷ (gs ++ (moved ∷ post))))
  unfolding move_slot
  move_slot-down pre gs post g x src dst e e' b =
      let took =
        take_at-slot (pre ++ g ∷ gs) post src (omega (arith, length-append pre (g ∷ gs))) x in
      let took' : take_at src (pre ++ (g ∷ (gs ++ (live x ∷ post))))
          ≡ returns (x, pre ++ (g ∷ (gs ++ (moved ∷ post)))) =
        simp append_assoc at took in
      >>=-returns _ took' ∙ assign-slot pre (gs ++ (moved ∷ post)) dst e g x b

  -- `std::move` over a gap: the elements close it, and as wide a gap is behind them.
  pub move_down-slots :
      (pre gs : Memory T) (xs : List T) (post : Memory T) (src dst : ℕ)
      → dst ≡ length pre
      → src ≡ length pre + length gs
      → 0 < length gs
      → AllBuilt gs
      → (hs : Memory T) × (length hs ≡ length gs)
        × AllBuilt hs
        × (move_down (length xs) src dst (pre ++ (gs ++ (lives xs ++ post)))
            ≡ returns (pre ++ (lives xs ++ (hs ++ post))))
  unfolding move_down
  move_down-slots pre gs [] post src dst e e' p b = (gs, refl, b, refl)
  move_down-slots pre [] (x ∷ xs) post src dst e e' p b = absurd (omega arith)
  move_down-slots pre (g ∷ gs) (x ∷ xs) post src dst e e' p b =
      let l = length-append gs (moved ∷ []) in
      let l' = length-append pre (live x ∷ []) in
      let (hs, same, built, rest) =
        move_down-slots (pre ++ live x ∷ []) (gs ++ moved ∷ []) xs post (src + 1) (dst + 1)
          (omega (arith, l')) (omega (arith, l, l')) (omega (arith, l))
          (AllBuilt-append gs (moved ∷ []) b.1 (tt, tt)) in
      (
        hs,
        omega (arith, same, l),
        built,
        >>=-returns _ (move_slot-down pre gs (lives xs ++ post) g x src dst e e' b.0)
            ∙ (simp append_assoc at rest),
      )
