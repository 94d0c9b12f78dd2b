-- ===== src/IniFile/Access.antt =====
-- ini-parse/inifile.cpp: what `get` and `has` see after `set` and `remove`.
use cpp_projects_learning.Common.{
  ◌≡◌, refl, sym, ap, ◌∙◌, subst, Bool, true, false, ◌&&◌, not, [], ◌∷◌, Option, none, some, arith,
  if◌then◌else◌, Bool-cases, inl, inr,
}
use cpp_projects_learning.IniFile.{
  Text, same_text, less, Map, find, erase_key, put, at_key, Value, empty_value, Sections, IniFile,
  set_entry, get, set, has, is_some, remove,
}
use cpp_projects_learning.IniFile.Map.{less_self, same_text_self, same_text_eq}

less_trichotomy : (s t : Text) → less s t ≡ false → less t s ≡ false → s ≡ t
unfolding less
less_trichotomy [] [] a b = refl
less_trichotomy [] (d ∷ t) a b = ground (arith, a)
less_trichotomy (c ∷ s) [] a b = ground (arith, b)
less_trichotomy (c ∷ s) (d ∷ t) a b =
    let first : c ≡ d = ground (arith, a, b) in
    let a' : less s t ≡ false = ground (arith, a, first) in
    let b' : less t s ≡ false = ground (arith, b, first) in
    ap (λ k. k ∷ s) first ∙ ap (λ k. d ∷ k) (less_trichotomy s t a' b')

-- Two keys cannot both be the first one's.
same_text_unique :
    (s t u : Text) → same_text s t ≡ false → same_text s u ≡ true → same_text t u ≡ false
same_text_unique s t u ne e = elim (Bool-cases (same_text t u)) [
  | inl same ↦
      let joined : s ≡ t = same_text_eq s u e ∙ sym (same_text_eq t u same) in
      let o = subst (λ k. same_text s k ≡ true) joined (same_text_self s) in ground (arith, o, ne)
  | inr differ ↦ differ
]

less-differs : (s t : Text) → less s t ≡ true → same_text s t ≡ false
less-differs s t e = elim (Bool-cases (same_text s t)) [
  | inl same ↦
      let o = less_self s in
      let p = subst (λ k. less s k ≡ true) (sym (same_text_eq s t same)) e in ground (arith, o, p)
  | inr differ ↦ differ
]

-- An entry with another key is not the one looked for, when that one is found.
other_entry :
    {A : Type 0} (key j k : Text) (found at rest : A)
    → same_text j key ≡ false
    → (if same_text j k then at else if same_text key k then found else rest)
      ≡ (if same_text key k then found else if same_text j k then at else rest)
other_entry key j k found at rest differ = elim (Bool-cases (same_text j k)) [
  | inl e ↦ let f = same_text_unique j key k differ e in rw (e, f)
  | inr e ↦ rw (e)
]

-- An entry with the same key is never reached.
same_entry :
    {A : Type 0} (key j k : Text) (found at rest : A)
    → key ≡ j
    → (if same_text key k then found else rest)
      ≡ (if same_text key k then found else if same_text j k then at else rest)
same_entry key j k found at rest same = elim (Bool-cases (same_text key k)) [
  | inl e ↦ rw (e)
  | inr e ↦ let f = subst (λ i. same_text i k ≡ false) same e in rw (e, f)
]

module _ {V : Type 0} where
  find-put :
      (key : Text) (v : V) (m : Map V) (k : Text)
      → find k (put key v m) ≡ (if same_text key k then some v else find k m)
  unfolding find put
  find-put key v [] k = refl
  find-put key v ((j, w) ∷ m) k = elim (Bool-cases (less key j)) [
    | inl before ↦ rw (before) refl
    | inr not_before ↦ elim (Bool-cases (less j key)) [
      | inl behind ↦
          rw (not_before, behind, find-put key v m k)
            (other_entry key j k (some v) (some w) (find k m) (less-differs j key behind))
      | inr not_behind ↦
          rw (not_before, not_behind)
            (same_entry key j k (some v) (some w) (find k m)
              (less_trichotomy key j not_before not_behind))
    ]
  ]

  find-erase_key :
      (key : Text) (m : Map V) (k : Text)
      → find k (erase_key key m) ≡ (if same_text key k then none else find k m)
  unfolding find erase_key
  find-erase_key key [] k = elim (Bool-cases (same_text key k)) [ inl e ↦ rw (e) | inr e ↦ rw (e) ]
  find-erase_key key ((j, w) ∷ m) k = elim (Bool-cases (same_text j key)) [
    | inl same ↦
        rw (same, find-erase_key key m k)
          (same_entry key j k none (some w) (find k m) (sym (same_text_eq j key same)))
    | inr differ ↦
        rw (differ, find-erase_key key m k) (other_entry key j k none (some w) (find k m) differ)
  ]

ap-if :
    {A B : Type 0} (f : A → B) (b : Bool) (x y : A)
    → f (if b then x else y) ≡ (if b then f x else f y)
ap-if f true x y = refl
ap-if f false x y = refl

abbrev or_made : {V : Type 0} → V → Option V → V
or_made made none = made
or_made made (some v) = v

module _ {V : Type 0} (made : V) where
  match_made : (o : Option V) → (elim o [ none ↦ made | some v ↦ v ]) ≡ or_made made o
  match_made none = refl
  match_made (some v) = refl

  at_key-find : (key : Text) (m : Map V) → at_key made key m ≡ or_made made (find key m)
  unfolding at_key
  at_key-find key m = match_made (find key m)

at_key-put :
    {V : Type 0} (made : V) (key : Text) (v : V) (m : Map V) (k : Text)
    → at_key made k (put key v m) ≡ (if same_text key k then v else at_key made k m)
at_key-put made key v m k =
    at_key-find made k (put key v m)
    ∙ ap (or_made made) (find-put key v m k)
    ∙ ap-if (or_made made) (same_text key k) (some v) (find k m)
    ∙ ap (λ a. if same_text key k then v else a) (sym (at_key-find made k m))

-- The value of a key in a section, if both are there.
abbrev pub lookup : Text → Text → Map Sections → Option Value
lookup section key m = find key (at_key [] section m)

abbrev pub same_place : Text → Text → Text → Text → Bool
same_place s k t l = same_text s t && same_text k l

-- A section is replaced by one in which only a key differs.
lookup-put :
    (s k t l : Text) (entries : Sections) (o : Option Value) (m : Map Sections)
    → find l entries ≡ (if same_text k l then o else find l (at_key [] s m))
    → lookup t l (put s entries m) ≡ (if same_place s k t l then o else lookup t l m)
lookup-put s k t l entries o m e =
    ap (find l) (at_key-put [] s entries m t) ∙ elim (Bool-cases (same_text s t)) [
      | inl same ↦
          let f =
            subst (λ i. find l entries ≡ (if same_text k l then o else find l (at_key [] i m)))
              (same_text_eq s t same) e in
          rw (same) f
      | inr differ ↦ rw (differ)
    ]

lookup-set_entry :
    (s k t l : Text) (v : Value) (m : Map Sections)
    → lookup t l (set_entry s k v m) ≡ (if same_place s k t l then some v else lookup t l m)
unfolding set_entry
lookup-set_entry s k t l v m =
    lookup-put s k t l (put k v (at_key [] s m)) (some v) m (find-put k v (at_key [] s m) l)

get-lookup :
    (s k : Text) (f : IniFile) → (get s k f).1 ≡ or_made empty_value (lookup s k f.m_sections)
unfolding get
get-lookup s k f = at_key-find empty_value k (at_key [] s f.m_sections)

tested_twice : (b : Bool) → (if not b then false else true) ≡ b
tested_twice true = refl
tested_twice false = refl

has_test :
    (k : Text) (o : Option Sections)
    → (if not (is_some o)
        then false
        else if not (is_some (find k (or_made [] o)))
        then false
        else true)
      ≡ is_some (find k (or_made [] o))
unfolding find
has_test k none = refl
has_test k (some entries) = tested_twice (is_some (find k entries))

has-lookup : (s k : Text) (f : IniFile) → has s k f ≡ is_some (lookup s k f.m_sections)
unfolding has
has-lookup s k f =
    subst
      (λ a.
        (if not (is_some (find s f.m_sections))
          then false
          else if not (is_some (find k a))
          then false
          else true)
        ≡ is_some (find k a))
      (sym (at_key-find [] s f.m_sections)) (has_test k (find s f.m_sections))

-- `get` after `set`: the value that was set for this section and key, and what it was for any other.
pub get-set :
    (s k t l : Text) (v : Value) (f : IniFile)
    → (get t l (set s k v f)).1 ≡ (if same_place s k t l then v else (get t l f).1)
unfolding set
get-set s k t l v f =
    get-lookup t l (set s k v f)
    ∙ ap (or_made empty_value) (lookup-set_entry s k t l v f.m_sections)
    ∙ ap-if (or_made empty_value) (same_place s k t l) (some v) (lookup t l f.m_sections)
    ∙ ap (λ a. if same_place s k t l then v else a) (sym (get-lookup t l f))

-- `has` after `set`: true for this section and key, and what it was for any other.
pub has-set :
    (s k t l : Text) (v : Value) (f : IniFile)
    → has t l (set s k v f) ≡ (if same_place s k t l then true else has t l f)
unfolding set
has-set s k t l v f =
    has-lookup t l (set s k v f)
    ∙ ap is_some (lookup-set_entry s k t l v f.m_sections)
    ∙ ap-if is_some (same_place s k t l) (some v) (lookup t l f.m_sections)
    ∙ ap (λ a. if same_place s k t l then true else a) (sym (has-lookup t l f))

if_absent :
    (s k t l : Text) (m : Map Sections)
    → is_some (lookup s k m) ≡ false
    → is_some (lookup t l m) ≡ (if same_place s k t l then false else is_some (lookup t l m))
if_absent s k t l m e = elim (Bool-cases (same_text s t)) [
  | inl a ↦ elim (Bool-cases (same_text k l)) [
    | inl b ↦
        let f = subst (λ i. is_some (lookup s i m) ≡ false) (same_text_eq k l b) e in
        let g = subst (λ i. is_some (lookup i l m) ≡ false) (same_text_eq s t a) f in rw (a, b, g)
    | inr b ↦ rw (a, b)
  ]
  | inr a ↦ rw (a)
]

remove-present :
    (s k : Text) (f : IniFile)
    → has s k f ≡ true
    → remove s k f
      ≡ record f { m_sections = put s (erase_key k (at_key [] s f.m_sections)) f.m_sections }
unfolding remove
remove-present s k f e = rw (remove, e)

remove-absent : (s k : Text) (f : IniFile) → has s k f ≡ false → remove s k f ≡ f
unfolding remove
remove-absent s k f e = rw (remove, e)

-- `has` after `remove(section, key)`: false for this section and key, and what it was for any other.
pub has-remove :
    (s k t l : Text) (f : IniFile)
    → has t l (remove s k f) ≡ (if same_place s k t l then false else has t l f)
has-remove s k t l f = elim (Bool-cases (has s k f)) [
  | inl there ↦
      ap (has t l) (remove-present s k f there)
      ∙ has-lookup t l _
      ∙ ap is_some (
          lookup-put s k t l (erase_key k (at_key [] s f.m_sections)) none f.m_sections
            (find-erase_key k (at_key [] s f.m_sections) l))
      ∙ ap-if is_some (same_place s k t l) none (lookup t l f.m_sections)
      ∙ ap (λ a. if same_place s k t l then false else a) (sym (has-lookup t l f))
  | inr missing ↦
      ap (has t l) (remove-absent s k f missing)
      ∙ has-lookup t l f
      ∙ if_absent s k t l f.m_sections (sym (has-lookup s k f) ∙ missing)
      ∙ ap (λ a. if same_place s k t l then false else a) (sym (has-lookup t l f))
]
