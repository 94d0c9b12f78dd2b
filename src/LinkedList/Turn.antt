-- ===== src/LinkedList/Turn.antt =====
-- list/list.inl: `reserve`, which turns a list round, and `find`.
use cpp_projects_learning.Common.{
  ℕ, zero, suc, ◌≡◌, inl, inr, refl, sym, ap, ◌∙◌, subst, Bool, true, false, [], ◌∷◌, ◌++◌, Option,
  some, arith, ltb, ◌==◌, if◌then◌else◌, length, length-append, ==_false, last_cases, reverse,
  reverse-cons, reverse-append,
}
use cpp_projects_learning.LinkedList.{null, Node, Heap, ◌>>=◌, write, load, set_prev, set_next}
use cpp_projects_learning.LinkedList.Class.{Fields, reserve_loop, reserve, find_loop, find}
use cpp_projects_learning.LinkedList.Chain.{
  node, Cells, first, last, Chain, NotIn, Apart, first-append, last-append, NotIn-append,
  NotIn-split, Apart-append, Apart-split, Chain-split, write_self, write-ne, Chain-write, load-at,
  set_prev-at, set_next-at, IsList,
}
use cpp_projects_learning.LinkedList.Join.{Outside, Gives}

if-false : {A : Type 0} (b : Bool) (x y : A) → b ≡ false → (if b then x else y) ≡ y
if-false b x y e = rw (e)

>>=-returns : {A B : Type 0} {o : Option A} (a : A) (f : A → Option B) → o ≡ some a → o >>= f ≡ f a
>>=-returns a f e = rw (e)

some-if :
    {A : Type 0} (b : Bool) (x y : A) → (if b then some x else some y) ≡ some (if b then x else y)
some-if true x y = refl
some-if false x y = refl

module _ {T : Type 0} where
  first-reverse : (n : ℕ) (xs : Cells T) → first (reverse xs) n ≡ last n xs
  first-reverse n [] = refl
  first-reverse n ((a, v) ∷ xs) =
      ap (λ k. first k n) (reverse-cons (a, v) xs)
      ∙ first-append (reverse xs) ((a, v) ∷ []) n
      ∙ first-reverse a xs

  last-reverse : (n : ℕ) (xs : Cells T) → last n (reverse xs) ≡ first xs n
  last-reverse n [] = refl
  last-reverse n ((a, v) ∷ xs) =
      ap (last n) (reverse-cons (a, v) xs) ∙ last-append n (reverse xs) ((a, v) ∷ [])

  length-reverse : (xs : Cells T) → length (reverse xs) ≡ length xs
  length-reverse [] = refl
  length-reverse (x ∷ xs) =
      let e = ap length (reverse-cons x xs) ∙ length-append (reverse xs) (x ∷ []) in
      omega (arith, e, length-reverse xs)

  NotIn-reverse : (a : ℕ) (xs : Cells T) → NotIn a xs → NotIn a (reverse xs)
  NotIn-reverse a [] o = tt
  NotIn-reverse a ((b, v) ∷ xs) o =
      subst (NotIn a) (sym (reverse-cons (b, v) xs))
        (NotIn-append a (reverse xs) ((b, v) ∷ []) (NotIn-reverse a xs o.1) (o.0, tt))

  Apart-reverse : (xs : Cells T) → Apart xs → Apart (reverse xs)
  Apart-reverse [] p = tt
  Apart-reverse ((a, v) ∷ xs) p = subst Apart (sym (reverse-cons (a, v) xs)) (
      Apart-append (reverse xs) ((a, v) ∷ []) (Apart-reverse xs p.2) (p.0, tt, tt)
        (NotIn-reverse a xs p.1, tt))

  -- What the loop leaves: the nodes linked the other way round, before what stood behind them.
  record Turns (o : Option (Heap T)) (h : Heap T) (n : ℕ) (xs : Cells T) : Type 0 where
    heap : Heap T
    returns : o ≡ some heap
    chain : Chain heap n (reverse xs) 0
    outside : Outside xs h heap

  reserve_loop-null : (fuel : ℕ) (h : Heap T) → reserve_loop fuel 0 h ≡ some h
  unfolding reserve_loop
  reserve_loop-null zero h = refl
  reserve_loop-null (suc fuel) h = refl

  reserve_loop-links :
      (fuel t : ℕ) (h h₁ h₂ : Heap T) (m : Node T)
      → (t == null) ≡ false
      → load t h ≡ some m
      → set_next t m.m_prev h ≡ some h₁
      → set_prev t m.m_next h₁ ≡ some h₂
      → reserve_loop (suc fuel) t h ≡ reserve_loop fuel m.m_prev h₂
  unfolding reserve_loop
  reserve_loop-links fuel t h h₁ h₂ m not_null a b c =
      if-false (t == null) _ _ not_null
      ∙ >>=-returns m _ a
      ∙ >>=-returns h₁ _ b
      ∙ >>=-returns h₂ _ c

  -- One round, at the last of the nodes that are left.
  reserve_loop-round :
      (fuel : ℕ) (h : Heap T) (n t : ℕ) (w : T) (xs : Cells T)
      → Chain h 0 (xs ++ (t, w) ∷ []) n
      → Apart (xs ++ (t, w) ∷ [])
      → ((g : Heap T) → Chain g 0 xs t → Turns (reserve_loop fuel (last 0 xs) g) g t xs)
      → Turns (reserve_loop (suc fuel) t h) h n (xs ++ (t, w) ∷ [])
  reserve_loop-round fuel h n t w xs chain apart rest =
      let (d, e) = Chain-split h 0 n xs ((t, w) ∷ []) chain in
      let (_, ay, ao) = Apart-split xs ((t, w) ∷ []) apart in
      let h₁ = write t (some (node w (last 0 xs) (last 0 xs))) h in
      let h₂ = write t (some (node w n (last 0 xs))) h₁ in
      let turned = rest h₂ (Chain-write t _ h₁ 0 t xs ao.0 (Chain-write t _ h 0 t xs ao.0 d)) in
      record {
        heap = turned.heap;
        returns =
            reserve_loop-links fuel t h h₁ h₂ (node w (last 0 xs) n) (==_false ay.0)
              (load-at t h _ ay.0 e.0) (set_next-at t h _ ay.0 e.0 (last 0 xs))
              (set_prev-at t h₁ _ ay.0 (write_self t _ h) n)
            ∙ turned.returns;
        chain =
            subst (λ k. Chain turned.heap n k 0) (sym (reverse-append xs ((t, w) ∷ [])))
              (
                turned.outside.same t ao.0
                    ∙ write_self t _ h₁
                    ∙ ap (λ k. some (node w n k)) (sym (first-reverse 0 xs)),
                turned.chain,
              );
        outside = record {
          same = λ p o.
              let (ox, oy) = NotIn-split p xs ((t, w) ∷ []) o in
              turned.outside.same p ox
              ∙ write-ne t p _ h₁ (λ k. oy.0 (sym k))
              ∙ write-ne t p _ h (λ k. oy.0 (sym k));
        };
      }

  reserve_loop-Turns :
      (fuel : ℕ) (h : Heap T) (n : ℕ) (xs : Cells T)
      → Chain h 0 xs n
      → Apart xs
      → length xs ≡ fuel
      → Turns (reserve_loop fuel (last 0 xs) h) h n xs
  reserve_loop-Turns zero h n [] chain apart size = record {
    heap = h;
    returns = reserve_loop-null 0 h;
    chain = tt;
    outside = record { same = λ p o. refl };
  }
  reserve_loop-Turns zero h n (x ∷ xs) chain apart size = absurd (omega (arith, size))
  reserve_loop-Turns (suc fuel) h n xs chain apart size = elim (last_cases xs) [
    | inl none_left ↦ absurd (let f = ap length none_left in omega (arith, f, size))
    | inr m ↦
        let (mid, (t, w), whole) = m in
        let apart' = subst Apart whole apart in
        let len = ap length whole ∙ length-append mid ((t, w) ∷ []) in
        let (am, _, _) = Apart-split mid ((t, w) ∷ []) apart' in
        subst (λ k. Turns (reserve_loop (suc fuel) (last 0 k) h) h n k) (sym whole)
          (subst (λ k. Turns (reserve_loop (suc fuel) k h) h n (mid ++ (t, w) ∷ []))
            (sym (last-append 0 mid ((t, w) ∷ [])))
            (reserve_loop-round fuel h n t w mid (subst (λ k. Chain h 0 k n) whole chain) apart'
              (λ g c. reserve_loop-Turns fuel g t mid c am (omega (arith, len, size)))))
  ]

  reserve-links :
      (h h₁ : Heap T) (l : Fields)
      → ltb l.m_size 2 ≡ false
      → reserve_loop l.m_size l.m_tail h ≡ some h₁
      → reserve h l ≡ some (h₁, record l { m_head = l.m_tail; m_tail = l.m_head })
  unfolding reserve
  reserve-links h h₁ l more a = rw (reserve, more, a)

  reserve-short : (h : Heap T) (l : Fields) → ltb l.m_size 2 ≡ true → reserve h l ≡ some (h, l)
  unfolding reserve
  reserve-short h l short = rw (reserve, short)

  -- `reserve()` turns a list round: the same nodes in the opposite order. Nothing else in the heap changes.
  pub reserve-reverse :
      (h : Heap T) (l : Fields) (xs : Cells T)
      → IsList h l xs
      → Gives (reserve h l) h xs (reverse xs)
  reserve-reverse h l [] is =
      let n = is.size in
      record {
        heap = h;
        fields = l;
        returns = reserve-short h l (ground (arith, n));
        list = is;
        outside = record { same = λ p o. refl };
      }
  reserve-reverse h l (x ∷ []) is =
      let n = is.size in
      record {
        heap = h;
        fields = l;
        returns = reserve-short h l (ground (arith, n));
        list = is;
        outside = record { same = λ p o. refl };
      }
  reserve-reverse h l (x ∷ y ∷ xs) is =
      let n = is.size in
      let turned = reserve_loop-Turns l.m_size h 0 (x ∷ y ∷ xs) is.chain is.apart (sym n) in
      record {
        heap = turned.heap;
        fields = record l { m_head = l.m_tail; m_tail = l.m_head };
        returns = reserve-links h turned.heap l (ground (arith, n)) (
            subst (λ k. reserve_loop l.m_size k h ≡ some turned.heap) (sym is.tail) turned.returns);
        list = record {
          chain = turned.chain;
          apart = Apart-reverse (x ∷ y ∷ xs) is.apart;
          head = is.tail ∙ sym (first-reverse 0 (x ∷ y ∷ xs));
          tail = is.head ∙ sym (last-reverse 0 (x ∷ y ∷ xs));
          size = is.size ∙ sym (length-reverse (x ∷ y ∷ xs));
        };
        outside = turned.outside;
      }

module _ {T : Type 0} (eq : T → T → Bool) where
  -- The address of the first node whose value equals `v`, or the null pointer.
  abbrev pub address_of : T → Cells T → ℕ
  address_of v [] = null
  address_of v ((a, w) ∷ xs) = if eq w v then a else address_of v xs

  find_loop-lem :
      (fuel : ℕ) (v : T) (h : Heap T) (b : ℕ) (xs : Cells T)
      → Chain h b xs 0
      → Apart xs
      → length xs ≡ fuel
      → find_loop eq fuel v (first xs 0) h ≡ some (address_of v xs)
  unfolding find_loop
  find_loop-lem zero v h b [] c ap' e = refl
  find_loop-lem zero v h b (x ∷ xs) c ap' e = absurd (omega (arith, e))
  find_loop-lem (suc fuel) v h b [] c ap' e = refl
  find_loop-lem (suc fuel) v h b ((a, w) ∷ xs) c ap' e =
      let rest = find_loop-lem fuel v h a xs c.1 ap'.2 (omega (arith, e)) in
      let at = load-at a h _ ap'.0 c.0 in
      let not_null : (a == null) ≡ false = ==_false ap'.0 in
      rw (at, not_null, rest) (some-if (eq w v) a (address_of v xs))

  -- `find` returns the pointer to the first node with an equal value, or a null pointer.
  pub find-address_of :
      (v : T) (h : Heap T) (l : Fields) (xs : Cells T)
      → IsList h l xs
      → find eq v h l ≡ some (address_of v xs)
  unfolding find
  find-address_of v h l xs is =
      subst (λ k. find_loop eq l.m_size v k h ≡ some (address_of v xs)) (sym is.head)
        (find_loop-lem l.m_size v h 0 xs is.chain is.apart (sym is.size))
