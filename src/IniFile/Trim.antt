-- ===== src/IniFile/Trim.antt =====
-- ini-parse/inifile.cpp: what `trim`, the searches for a character and `getline` make of the lines that
-- `str` writes.
use cpp_projects_learning.Common.{
  ℕ, ◌≡◌, refl, ap, ◌∙◌, subst, false, [], ◌∷◌, ◌++◌, append_assoc, some, ◌==◌, ==_self,
}
use cpp_projects_learning.IniFile.{
  Text, newline, space, left_bracket, right_bracket, equals_sign, is_space, erase_front, erase_last,
  erase_back, trim, split_at, key_value, section_name, lines, Value, Map, Sections, put, set_entry,
  load_line, assign_text,
}

-- The character does not occur.
abbrev pub Free : ℕ → Text → Type 0
Free c [] = Unit
Free c (d ∷ s) = ((d == c) ≡ false) × Free c s

-- A text on one line with nothing to trim.
abbrev pub StartsVisible : Text → Type 0
StartsVisible [] = Unit
StartsVisible (c ∷ s) = is_space c ≡ false

pub record IsTrimmed (s : Text) : Type 0 where
  pub front : StartsVisible s
  pub back : erase_back s ≡ s
  pub one_line : Free newline s

erase_front-visible : (s : Text) → StartsVisible s → erase_front s ≡ s
unfolding erase_front
erase_front-visible [] v = refl
erase_front-visible (c ∷ s) v = rw (v)

pub trim-IsTrimmed : (s : Text) → IsTrimmed s → trim s ≡ s
unfolding trim
trim-IsTrimmed s t = ap erase_back (erase_front-visible s t.front) ∙ t.back

erase_last-append :
    (x : ℕ) (a : Text) (c : ℕ) (t : Text) → erase_last x (a ++ c ∷ t) ≡ x ∷ (a ++ c ∷ t)
erase_last-append x [] c t = refl
erase_last-append x (b ∷ a) c t = refl

erase_back-append :
    (a b : Text) (c : ℕ) (t : Text) → erase_back b ≡ c ∷ t → erase_back (a ++ b) ≡ a ++ c ∷ t
unfolding erase_back
erase_back-append [] b c t e = e
erase_back-append (x ∷ a) b c t e =
    ap (erase_last x) (erase_back-append a b c t e) ∙ erase_last-append x a c t

erase_back-space : (a : Text) → erase_back (a ++ space ∷ []) ≡ erase_back a
unfolding erase_back
erase_back-space [] = refl
erase_back-space (x ∷ a) = ap (erase_last x) (erase_back-space a)

-- What stands behind the `=` in the line of an entry, when the line is trimmed.
abbrev pub spaced : Text → Text
spaced [] = []
spaced (d ∷ s) = space ∷ d ∷ s

erase_back-spaced : (v : Text) → erase_back v ≡ v → erase_back (space ∷ v) ≡ spaced v
unfolding erase_back
erase_back-spaced [] e = refl
erase_back-spaced (d ∷ s) e = ap (erase_last space) e

erase_last-visible : (c : ℕ) (s : Text) → is_space c ≡ false → erase_last c s ≡ c ∷ s
erase_last-visible c [] e = rw (e)
erase_last-visible c (d ∷ s) e = refl

erase_back-entry :
    (v : Text)
    → erase_back v ≡ v
    → erase_back (space ∷ equals_sign ∷ space ∷ v) ≡ space ∷ equals_sign ∷ spaced v
unfolding erase_back
erase_back-entry v e =
    ap (λ k. erase_last space (erase_last equals_sign k)) (erase_back-spaced v e)
    ∙ ap (erase_last space) (erase_last-visible equals_sign (spaced v) refl)

skipped : (s : Text) → erase_front (space ∷ s) ≡ erase_front s
unfolding erase_front
skipped s = refl

trim-spaced : (v : Text) → IsTrimmed v → trim (spaced v) ≡ v
unfolding trim
trim-spaced [] t = refl
trim-spaced (d ∷ s) t =
    ap erase_back (skipped (d ∷ s) ∙ erase_front-visible (d ∷ s) t.front) ∙ t.back

split_at-Free : (c : ℕ) (a b : Text) → Free c a → split_at c (a ++ c ∷ b) ≡ some (a, b)
unfolding split_at
split_at-Free c [] b f = rw (==_self c)
split_at-Free c (d ∷ a) b f = rw (f.0, split_at-Free c a b f.1)

pub lines-Free : (a b : Text) → Free newline a → lines (a ++ newline ∷ b) ≡ a ∷ lines b
unfolding lines
lines-Free [] b f = refl
lines-Free (c ∷ a) b f = rw (f.0, lines-Free a b f.1)

pub Free-append : (c : ℕ) (a b : Text) → Free c a → Free c b → Free c (a ++ b)
Free-append c [] b f g = g
Free-append c (d ∷ a) b f g = (f.0, Free-append c a b f.1 g)

-- A key: text before which no section starts, without a `=`.
abbrev pub StartsEntry : Text → Type 0
StartsEntry [] = ⊥
StartsEntry (c ∷ s) = (c == left_bracket) ≡ false

pub record IsKey (s : Text) : Type 0 where
  pub trimmed : IsTrimmed s
  pub no_equals : Free equals_sign s
  pub starts : StartsEntry s

-- A section's name: text without a `]`.
pub record IsName (s : Text) : Type 0 where
  pub trimmed : IsTrimmed s
  pub no_bracket : Free right_bracket s

front-entry : (key b : Text) → IsKey key → StartsVisible (key ++ b)
front-entry [] b k = absurd k.starts
front-entry (c ∷ s) b k = k.trimmed.front

trim-entry :
    (key v : Text)
    → IsKey key
    → IsTrimmed v
    → trim (key ++ space ∷ equals_sign ∷ space ∷ v) ≡ key ++ space ∷ equals_sign ∷ spaced v
unfolding trim
trim-entry key v k t =
    ap erase_back (erase_front-visible _ (front-entry key (space ∷ equals_sign ∷ space ∷ v) k))
    ∙ erase_back-append key _ space (equals_sign ∷ spaced v) (erase_back-entry v t.back)

trim-key : (key : Text) → IsKey key → trim (key ++ space ∷ []) ≡ key
unfolding trim
trim-key key k =
    ap erase_back (erase_front-visible _ (front-entry key (space ∷ []) k))
    ∙ erase_back-space key
    ∙ k.trimmed.back

key_value-found :
    (line before behind : Text)
    → split_at equals_sign line ≡ some (before, behind)
    → key_value line ≡ (trim before, trim behind)
unfolding key_value
key_value-found line before behind e = rw (key_value, e)

section_name-found :
    (rest before behind : Text)
    → split_at right_bracket rest ≡ some (before, behind)
    → section_name rest ≡ trim before
unfolding section_name
section_name-found rest before behind e = rw (section_name, e)

-- The key of an entry's line is its key, the value its value.
key_value-entry :
    (key v : Text)
    → IsKey key
    → IsTrimmed v
    → key_value (key ++ space ∷ equals_sign ∷ spaced v) ≡ (key, v)
key_value-entry key v k t =
    let found : split_at equals_sign (key ++ space ∷ equals_sign ∷ spaced v)
        ≡ some (key ++ space ∷ [], spaced v) =
      subst (λ s. split_at equals_sign s ≡ some (key ++ space ∷ [], spaced v))
        (append_assoc key (space ∷ []) (equals_sign ∷ spaced v))
        (split_at-Free equals_sign (key ++ space ∷ []) (spaced v)
          (Free-append equals_sign key (space ∷ []) k.no_equals (refl, tt))) in
    key_value-found _ _ _ found
    ∙ ap (λ a. (a, trim (spaced v))) (trim-key key k)
    ∙ ap (λ a. (key, a)) (trim-spaced v t)

section_name-line : (name : Text) → IsName name → section_name (name ++ right_bracket ∷ []) ≡ name
section_name-line name n =
    section_name-found _ _ _ (split_at-Free right_bracket name [] n.no_bracket)
    ∙ trim-IsTrimmed name n.trimmed

load_line-other :
    (c : ℕ) (s key v : Text) (m : Map Sections) (section : Text)
    → (c == left_bracket) ≡ false
    → key_value (c ∷ s) ≡ (key, v)
    → load_line (c ∷ s) (m, section) ≡ (set_entry section key record { m_value = v } m, section)
unfolding load_line assign_text set_entry
load_line-other c s key v m section e f = rw (load_line, e, f)

load_line-bracket :
    (s : Text) (m : Map Sections) (section : Text)
    → load_line (left_bracket ∷ s) (m, section) ≡ (put (section_name s) [] m, section_name s)
unfolding load_line
load_line-bracket s m section = refl

-- The line of an entry sets it.
pub load_line-entry :
    (key : Text) (v : Value) (m : Map Sections) (section : Text)
    → IsKey key
    → IsTrimmed v.m_value
    → load_line (trim (key ++ space ∷ equals_sign ∷ space ∷ v.m_value)) (m, section)
      ≡ (set_entry section key v m, section)
load_line-entry [] v m section k t = absurd k.starts
load_line-entry (c ∷ s) v m section k t =
    ap (λ line. load_line line (m, section)) (trim-entry (c ∷ s) v.m_value k t)
    ∙ load_line-other c _ (c ∷ s) v.m_value m section k.starts
        (key_value-entry (c ∷ s) v.m_value k t)

trim-section :
    (name : Text)
    → trim (left_bracket ∷ (name ++ right_bracket ∷ []))
      ≡ left_bracket ∷ (name ++ right_bracket ∷ [])
unfolding trim
trim-section name =
    erase_back-append (left_bracket ∷ name) (right_bracket ∷ []) right_bracket [] refl

-- The line of a section makes it, without entries.
pub load_line-section :
    (name : Text) (m : Map Sections) (section : Text)
    → IsName name
    → load_line (trim (left_bracket ∷ (name ++ right_bracket ∷ []))) (m, section)
      ≡ (put name [] m, name)
load_line-section name m section n =
    ap (λ line. load_line line (m, section)) (trim-section name)
    ∙ load_line-bracket (name ++ right_bracket ∷ []) m section
    ∙ ap (λ k. (put k [] m, k)) (section_name-line name n)
