-- ===== src/LookupTable/Buckets.antt =====
-- 第六章/threadsafe_look_up.cpp: what the changes of one bucket do to its values.
use cpp_projects_learning.Common.{
  ◌≡◌, ◌↔◌, inl, inr, refl, sym, ◌∙◌, Bool, true, false, List, [], ◌∷◌, subst, arith, if◌then◌else◌,
  Bool-cases,
}
use cpp_projects_learning.LookupTable.{find_entry_for, bucket_value_for, bucket_add, bucket_remove}

-- A key that is not the one is not the other either.
apart :
    {K : Type 0} (eq : K → K → Bool) (eq_iff : (a b : K) → (eq a b ≡ true) ↔ (a ≡ b))
    (key k other : K)
    → eq k key ≡ false
    → eq k other ≡ true
    → eq key other ≡ false
apart eq eq_iff key k other e a = elim (Bool-cases (eq key other)) [
  | inr no_match ↦ no_match
  | inl b ↦
      let same : k ≡ key = (eq_iff k other).0 a ∙ sym ((eq_iff key other).0 b) in
      let e' = (eq_iff k key).1 same in absurd (ground arith)
]

differ :
    {K : Type 0} (eq : K → K → Bool) (eq_iff : (a b : K) → (eq a b ≡ true) ↔ (a ≡ b)) (k key : K)
    → eq k key ≡ false
    → eq key k ≡ false
differ eq eq_iff k key e = elim (Bool-cases (eq key k)) [
  | inr n ↦ n
  | inl b ↦ let e' = (eq_iff k key).1 (sym ((eq_iff key k).0 b)) in absurd (ground arith)
]

module _ {K V : Type 0} (eq : K → K → Bool) (eq_iff : (a b : K) → (eq a b ≡ true) ↔ (a ≡ b)) where
  value_for-step :
      (key k : K) (v default : V) (entries : List (K × V))
      → bucket_value_for eq key default ((k, v) ∷ entries)
        ≡ (if eq k key then v else bucket_value_for eq key default entries)
  unfolding bucket_value_for find_entry_for
  value_for-step key k v default entries = ground arith

  add-step :
      (key k : K) (value v : V) (entries : List (K × V))
      → bucket_add eq key value ((k, v) ∷ entries)
        ≡ (if eq k key then (k, value) ∷ entries else (k, v) ∷ bucket_add eq key value entries)
  unfolding bucket_add find_entry_for
  add-step key k value v entries = ground arith

  remove-step :
      (key k : K) (v : V) (entries : List (K × V))
      → bucket_remove eq key ((k, v) ∷ entries)
        ≡ (if eq k key then entries else (k, v) ∷ bucket_remove eq key entries)
  unfolding bucket_remove find_entry_for
  remove-step key k v entries = ground arith

  -- A bucket after an update.
  pub value_for-add :
      (key other : K) (value default : V) (entries : List (K × V))
      → bucket_value_for eq other default (bucket_add eq key value entries)
        ≡ (if eq key other then value else bucket_value_for eq other default entries)
  value_for-add key other value default [] =
      unfold bucket_add find_entry_for in value_for-step other key value default []
  value_for-add key other value default ((k, v) ∷ entries) = elim (Bool-cases (eq k key)) [
    | inl here ↦
        let same : k ≡ key = (eq_iff k key).0 here in
        rw
          (
            add-step key k value v entries,
            here,
            value_for-step other k value default entries,
            value_for-step other k v default entries,
          )
          (rw same (ground arith))
    | inr later ↦
        rw
          (
            add-step key k value v entries,
            later,
            value_for-step other k v default (bucket_add eq key value entries),
            value_for-add key other value default entries,
            value_for-step other k v default entries,
          )
          (ground (arith, apart eq eq_iff key k other later))
  ]

  -- The key stands in none of the entries.
  abbrev pub Absent : K → List (K × V) → Type 0
  Absent key [] = Unit
  Absent key ((k, v) ∷ entries) = (eq k key ≡ false) × Absent key entries

  -- No key stands in two entries.
  abbrev pub Distinct : List (K × V) → Type 0
  Distinct [] = Unit
  Distinct ((k, v) ∷ entries) = Absent k entries × Distinct entries

  value_for-Absent :
      (key : K) (default : V) (entries : List (K × V))
      → Absent key entries
      → bucket_value_for eq key default entries ≡ default
  value_for-Absent key default [] h = unfold bucket_value_for find_entry_for in refl
  value_for-Absent key default ((k, v) ∷ entries) h =
      rw (value_for-step key k v default entries, h.0) (value_for-Absent key default entries h.1)

  -- A bucket after a removal.
  pub value_for-remove :
      (key other : K) (default : V) (entries : List (K × V))
      → Distinct entries
      → bucket_value_for eq other default (bucket_remove eq key entries)
        ≡ (if eq key other then default else bucket_value_for eq other default entries)
  value_for-remove key other default [] h =
      unfold bucket_value_for bucket_remove find_entry_for in ground arith
  value_for-remove key other default ((k, v) ∷ entries) h = elim (Bool-cases (eq k key)) [
    | inl here ↦
        let same : k ≡ key = (eq_iff k key).0 here in
        let gone : eq key other ≡ true → bucket_value_for eq other default entries ≡ default = λ e.
          let reached : k ≡ other = same ∙ (eq_iff key other).0 e in
          value_for-Absent other default entries (subst (λ a. Absent a entries) reached h.0) in
        rw (remove-step key k v entries, here, value_for-step other k v default entries)
          (rw same (ground (arith, gone)))
    | inr later ↦
        rw
          (
            remove-step key k v entries,
            later,
            value_for-step other k v default (bucket_remove eq key entries),
            value_for-remove key other default entries h.1,
            value_for-step other k v default entries,
          )
          (ground (arith, apart eq eq_iff key k other later))
  ]

  Absent-add :
      (key other : K) (value : V) (entries : List (K × V))
      → eq key other ≡ false
      → Absent other entries
      → Absent other (bucket_add eq key value entries)
  Absent-add key other value [] n h = unfold bucket_add find_entry_for in (n, tt)
  Absent-add key other value ((k, v) ∷ entries) n h = elim (Bool-cases (eq k key)) [
    | inl here ↦ rw (add-step key k value v entries, here) h
    | inr later ↦
        rw (add-step key k value v entries, later) (h.0, Absent-add key other value entries n h.1)
  ]

  Absent-remove :
      (key other : K) (entries : List (K × V))
      → Absent other entries
      → Absent other (bucket_remove eq key entries)
  Absent-remove key other [] h = unfold bucket_remove find_entry_for in tt
  Absent-remove key other ((k, v) ∷ entries) h = elim (Bool-cases (eq k key)) [
    | inl here ↦ rw (remove-step key k v entries, here) h.1
    | inr later ↦ rw (remove-step key k v entries, later) (h.0, Absent-remove key other entries h.1)
  ]

  pub Distinct-add :
      (key : K) (value : V) (entries : List (K × V))
      → Distinct entries
      → Distinct (bucket_add eq key value entries)
  Distinct-add key value [] h = unfold bucket_add find_entry_for in (tt, tt)
  Distinct-add key value ((k, v) ∷ entries) h = elim (Bool-cases (eq k key)) [
    | inl here ↦ rw (add-step key k value v entries, here) h
    | inr later ↦
        rw (add-step key k value v entries, later)
          (
            Absent-add key k value entries (differ eq eq_iff k key later) h.0,
            Distinct-add key value entries h.1,
          )
  ]

  pub Distinct-remove :
      (key : K) (entries : List (K × V))
      → Distinct entries
      → Distinct (bucket_remove eq key entries)
  Distinct-remove key [] h = unfold bucket_remove find_entry_for in tt
  Distinct-remove key ((k, v) ∷ entries) h = elim (Bool-cases (eq k key)) [
    | inl here ↦ rw (remove-step key k v entries, here) h.1
    | inr later ↦
        rw (remove-step key k v entries, later)
          (Absent-remove key k entries h.0, Distinct-remove key entries h.1)
  ]
