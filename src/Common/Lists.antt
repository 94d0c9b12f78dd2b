-- ===== src/Common/Lists.antt =====
-- Lists measured and indexed by native numbers, under the library's names.
use Prim.Native.Nat.{ℕ, zero, suc, ◌+◌, ◌≤◌, ◌<◌}
use mathlib.Core.Logic.{◌≢◌, ◌⊎◌, inl, inr}
use mathlib.Core.Path.{◌≡◌, refl, ap}
use mathlib.Core.List.{List, [], ◌∷◌, ◌++◌}
use mathlib.Core.Option.{Option, none, some}
use native.Mathlib.Omega.{arith}

module _ {ℓ} {A : Type ℓ} where
  abbrev pub length : List A → ℕ
  length [] = 0
  length (x ∷ xs) = suc (length xs)

  abbrev pub get_elem? : List A → ℕ → Option A
  get_elem? [] i = none
  get_elem? (x ∷ xs) zero = some x
  get_elem? (x ∷ xs) (suc i) = get_elem? xs i

  -- A write out of bounds changes nothing.
  abbrev pub set : List A → ℕ → A → List A
  set [] i v = []
  set (x ∷ xs) zero v = v ∷ xs
  set (x ∷ xs) (suc i) v = x ∷ set xs i v

  abbrev pub take : ℕ → List A → List A
  take zero xs = []
  take (suc n) [] = []
  take (suc n) (x ∷ xs) = x ∷ take n xs

  abbrev pub drop : ℕ → List A → List A
  drop zero xs = xs
  drop (suc n) [] = []
  drop (suc n) (x ∷ xs) = drop n xs

  abbrev pub replicate : ℕ → A → List A
  replicate zero a = []
  replicate (suc n) a = a ∷ replicate n a

module _ {ℓ} {A : Type ℓ} where
  pub length-append : (xs ys : List A) → length (xs ++ ys) ≡ length xs + length ys
  length-append [] ys = omega arith
  length-append (x ∷ xs) ys = omega (arith, length-append xs ys)

  pub length-set : (xs : List A) (i : ℕ) (v : A) → length (set xs i v) ≡ length xs
  length-set [] i v = refl
  length-set (x ∷ xs) zero v = refl
  length-set (x ∷ xs) (suc i) v = ap suc (length-set xs i v)

  pub length-replicate : (n : ℕ) (a : A) → length (replicate n a) ≡ n
  length-replicate zero a = refl
  length-replicate (suc n) a = ap suc (length-replicate n a)

  pub drop-length-append : (xs ys : List A) → drop (length xs) (xs ++ ys) ≡ ys
  drop-length-append [] ys = refl
  drop-length-append (x ∷ xs) ys = drop-length-append xs ys

  pub drop-add : (i j k : ℕ) (xs : List A) → k ≡ i + j → drop k xs ≡ drop j (drop i xs)
  drop-add zero j k xs e = let e' : k ≡ j = omega arith in rw e'
  drop-add (suc i) j zero xs e = absurd (omega arith)
  drop-add (suc i) zero (suc k) [] e = refl
  drop-add (suc i) (suc j) (suc k) [] e = refl
  drop-add (suc i) j (suc k) (x ∷ xs) e = drop-add i j k xs (omega arith)

  pub get_elem?-drop :
      (i : ℕ) (xs : List A) {y : A} {ys : List A} → drop i xs ≡ y ∷ ys → get_elem? xs i ≡ some y
  get_elem?-drop zero [] e = cc
  get_elem?-drop (suc i) [] e = cc
  get_elem?-drop zero (x ∷ xs) e = cc
  get_elem?-drop (suc i) (x ∷ xs) e = get_elem?-drop i xs e

module _ {ℓ} {A : Type ℓ} where
  pub get_elem?-set_self :
      (xs : List A) (i : ℕ) (v : A) → i < length xs → get_elem? (set xs i v) i ≡ some v
  get_elem?-set_self [] i v h = elim h [ ]
  get_elem?-set_self (x ∷ xs) zero v h = refl
  get_elem?-set_self (x ∷ xs) (suc i) v h = get_elem?-set_self xs i v (omega arith)

  pub get_elem?-set_ne :
      (xs : List A) (i j : ℕ) (v : A) → i ≢ j → get_elem? (set xs i v) j ≡ get_elem? xs j
  get_elem?-set_ne [] i j v h = refl
  get_elem?-set_ne (x ∷ xs) zero zero v h = absurd (h refl)
  get_elem?-set_ne (x ∷ xs) zero (suc j) v h = refl
  get_elem?-set_ne (x ∷ xs) (suc i) zero v h = refl
  get_elem?-set_ne (x ∷ xs) (suc i) (suc j) v h = get_elem?-set_ne xs i j v (λ e. h (ap suc e))

module _ {ℓ} {A : Type ℓ} where
  pub take-drop : (n : ℕ) (xs : List A) → take n xs ++ drop n xs ≡ xs
  take-drop zero xs = refl
  take-drop (suc n) [] = refl
  take-drop (suc n) (x ∷ xs) = ap (◌∷◌ x) (take-drop n xs)

  pub length-take-drop :
      (n : ℕ) (xs : List A)
      → n ≤ length xs
      → (length (take n xs) ≡ n) × (n + length (drop n xs) ≡ length xs)
  length-take-drop zero xs h = omega arith
  length-take-drop (suc n) [] h = absurd (omega arith)
  length-take-drop (suc n) (x ∷ xs) h = omega (arith, length-take-drop n xs)

  pub drop_all : (n : ℕ) (xs : List A) → length xs ≤ n → drop n xs ≡ []
  drop_all zero [] h = refl
  drop_all zero (x ∷ xs) h = absurd (omega arith)
  drop_all (suc n) [] h = refl
  drop_all (suc n) (x ∷ xs) h = drop_all n xs (omega arith)

  pub take_all : (n : ℕ) (xs : List A) → length xs ≤ n → take n xs ≡ xs
  take_all zero [] h = refl
  take_all zero (x ∷ xs) h = absurd (omega arith)
  take_all (suc n) [] h = refl
  take_all (suc n) (x ∷ xs) h = ap (◌∷◌ x) (take_all n xs (omega arith))

  pub get_elem?-set :
      (xs : List A) (i j : ℕ) (v y : A)
      → get_elem? (set xs i v) j ≡ some y
      → ((i ≡ j) × (y ≡ v)) ⊎ (get_elem? xs j ≡ some y)
  get_elem?-set [] i j v y e = inr e
  get_elem?-set (x ∷ xs) zero zero v y e = ground arith
  get_elem?-set (x ∷ xs) zero (suc j) v y e = inr e
  get_elem?-set (x ∷ xs) (suc i) zero v y e = inr e
  get_elem?-set (x ∷ xs) (suc i) (suc j) v y e = elim (get_elem?-set xs i j v y e) [
    | inl (p, q) ↦ inl (ap suc p, q)
    | inr q ↦ inr q
  ]

  pub get_elem?-replicate : (n i : ℕ) (x y : A) → get_elem? (replicate n x) i ≡ some y → y ≡ x
  get_elem?-replicate zero i x y e = cc
  get_elem?-replicate (suc n) zero x y e = ground arith
  get_elem?-replicate (suc n) (suc i) x y e = get_elem?-replicate n i x y e

  -- A list is empty or has a last element.
  pub split_last : (x : A) (xs : List A) → (mid : List A) × (last : A) × (x ∷ xs ≡ mid ++ last ∷ [])
  split_last x [] = ([], x, refl)
  split_last x (y ∷ xs) = let (mid, last, e) = split_last y xs in (x ∷ mid, last, ap (◌∷◌ x) e)

  pub last_cases :
      (xs : List A) → (xs ≡ []) ⊎ ((mid : List A) × (last : A) × (xs ≡ mid ++ last ∷ []))
  last_cases [] = inl refl
  last_cases (x ∷ xs) = inr (split_last x xs)
