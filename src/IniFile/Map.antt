-- ===== src/IniFile/Map.antt =====
-- ini-parse/inifile.cpp: the lists that stand for `std::map`: the order of strings, lookup, and entries
-- that are put behind the others.
use cpp_projects_learning.Common.{
  ◌≡◌, refl, sym, ap, ◌∙◌, subst, true, false, [], ◌∷◌, ◌++◌, some, arith, ==_self, Bool-cases, inl,
  inr,
}
use cpp_projects_learning.IniFile.{Text, same_text, less, Map, find, put, at_key}

pub less_self : (s : Text) → less s s ≡ false
unfolding less
less_self [] = refl
less_self (c ∷ s) = rw (==_self c) (less_self s)

pub less_asym : (s t : Text) → less s t ≡ true → less t s ≡ false
unfolding less
less_asym [] [] e = refl
less_asym [] (d ∷ t) e = refl
less_asym (c ∷ s) [] e = ground (arith, e)
less_asym (c ∷ s) (d ∷ t) e = let rest = less_asym s t in ground (arith, rest, e)

pub same_text_self : (s : Text) → same_text s s ≡ true
unfolding same_text
same_text_self [] = refl
same_text_self (c ∷ s) = rw (==_self c) (same_text_self s)

pub same_text_eq : (s t : Text) → same_text s t ≡ true → s ≡ t
unfolding same_text
same_text_eq [] [] e = refl
same_text_eq [] (d ∷ t) e = ground (arith, e)
same_text_eq (c ∷ s) [] e = ground (arith, e)
same_text_eq (c ∷ s) (d ∷ t) e =
    let first : c ≡ d = ground (arith, e) in
    let rest : same_text s t ≡ true = ground (arith, e) in
    ap (λ k. k ∷ s) first ∙ ap (λ k. d ∷ k) (same_text_eq s t rest)

less-differ : (s t : Text) → less s t ≡ true → same_text s t ≡ false
less-differ s t e = elim (Bool-cases (same_text s t)) [
  | inl same ↦ absurd (
      let o = less_self s in
      let p = subst (λ k. less s k ≡ true) (sym (same_text_eq s t same)) e in ground (arith, o, p))
  | inr differ ↦ differ
]

module _ {V : Type 0} where
  -- Every key stands before this one.
  abbrev pub Below : Map V → Text → Type 0
  Below [] key = Unit
  Below ((k, v) ∷ m) key = (less k key ≡ true) × Below m key

  -- Every key stands behind this one.
  abbrev pub Above : Text → Map V → Type 0
  Above key [] = Unit
  Above key ((k, v) ∷ m) = (less key k ≡ true) × Above key m

  -- The keys go up, as in a `std::map`.
  abbrev pub Sorted : Map V → Type 0
  Sorted [] = Unit
  Sorted ((k, v) ∷ m) = Above k m × Sorted m

  -- Every key of the first stands before every key of the second.
  abbrev pub Before : Map V → Map V → Type 0
  Before m [] = Unit
  Before m ((k, v) ∷ n) = Below m k × Before m n

  Below-append : (m n : Map V) (key : Text) → Below m key → Below n key → Below (m ++ n) key
  Below-append [] n key p q = q
  Below-append ((k, v) ∷ m) n key p q = (p.0, Below-append m n key p.1 q)

  pub Before-step :
      (m n : Map V) (k : Text) (v : V) → Before m n → Above k n → Before (m ++ (k, v) ∷ []) n
  Before-step m [] k v p q = tt
  Before-step m ((j, w) ∷ n) k v p q =
      (Below-append m ((k, v) ∷ []) j p.0 (q.0, tt), Before-step m n k v p.1 q.1)

  pub Before-nil : (n : Map V) → Before [] n
  Before-nil [] = tt
  Before-nil ((k, v) ∷ n) = (tt, Before-nil n)

  -- A key behind the others is put behind them; the last key is replaced.
  pub put-Below : (m : Map V) (key : Text) (v : V) → Below m key → put key v m ≡ m ++ (key, v) ∷ []
  unfolding put
  put-Below [] key v p = refl
  put-Below ((k, w) ∷ m) key v p = rw (less_asym k key p.0, p.0, put-Below m key v p.1)

  pub put-last :
      (m : Map V) (key : Text) (v w : V)
      → Below m key
      → put key v (m ++ (key, w) ∷ []) ≡ m ++ (key, v) ∷ []
  unfolding put
  put-last [] key v w p = rw (less_self key)
  put-last ((k, u) ∷ m) key v w p = rw (less_asym k key p.0, p.0, put-last m key v w p.1)

  find-last :
      (m : Map V) (key : Text) (w : V) → Below m key → find key (m ++ (key, w) ∷ []) ≡ some w
  unfolding find
  find-last [] key w p = rw (same_text_self key)
  find-last ((k, u) ∷ m) key w p =
      let differ : same_text k key ≡ false = less-differ k key p.0 in
      rw (differ, find-last m key w p.1)

  pub at_key-last :
      (made : V) (m : Map V) (key : Text) (w : V)
      → Below m key
      → at_key made key (m ++ (key, w) ∷ []) ≡ w
  unfolding at_key
  at_key-last made m key w p = rw (at_key, find-last m key w p)
