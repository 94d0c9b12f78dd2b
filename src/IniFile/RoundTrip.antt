-- ===== src/IniFile/RoundTrip.antt =====
-- ini-parse/inifile.cpp: `load` of what `str` writes.
use cpp_projects_learning.Common.{
  ◌≡◌, refl, sym, ap, ◌∙◌, true, List, [], ◌∷◌, ◌++◌, append_assoc, append-nil,
}
use cpp_projects_learning.IniFile.{
  Text, newline, space, left_bracket, right_bracket, equals_sign, trim, Value, Map, Sections,
  IniFile, put, set_entry, State, load_line, lines, load_lines, load, str_entries, str_sections,
  str, save,
}
use cpp_projects_learning.IniFile.Trim.{
  Free, Free-append, IsTrimmed, IsKey, IsName, lines-Free, load_line-entry, load_line-section,
}
use cpp_projects_learning.IniFile.Map.{
  Below, Sorted, Before, Before-step, Before-nil, put-Below, put-last, at_key-last,
}

-- What `str` can write so that `load` reads the same: the entries of a section, and all sections.
abbrev pub EntriesFit : Sections → Type 0
EntriesFit [] = Unit
EntriesFit ((key, v) ∷ more) = IsKey key × IsTrimmed v.m_value × EntriesFit more

abbrev pub SectionsFit : Map Sections → Type 0
SectionsFit [] = Unit
SectionsFit ((name, entries) ∷ more) =
    (IsName name × Sorted entries × EntriesFit entries) × SectionsFit more

pub record Fits (m : Map Sections) : Type 0 where
  pub sorted : Sorted m
  pub fit : SectionsFit m

load_lines-cons :
    (line : Text) (more : List Text) (s s' : State)
    → load_line (trim line) s ≡ s'
    → load_lines (line ∷ more) s ≡ load_lines more s'
unfolding load_lines
load_lines-cons line more s s' e = ap (load_lines more) e

Free-entry :
    (key : Text) (v : Value)
    → IsKey key
    → IsTrimmed v.m_value
    → Free newline (key ++ space ∷ equals_sign ∷ space ∷ v.m_value)
Free-entry key v k t =
    Free-append newline key (space ∷ equals_sign ∷ space ∷ v.m_value) k.trimmed.one_line
      (refl, (refl, (refl, t.one_line)))

Free-section :
    (name : Text) → IsName name → Free newline (left_bracket ∷ (name ++ right_bracket ∷ []))
Free-section name n =
    (refl, Free-append newline name (right_bracket ∷ []) n.trimmed.one_line (refl, tt))

set_entry-last :
    (m : Map Sections) (name : Text) (entries : Sections) (key : Text) (v : Value)
    → Below m name
    → Below entries key
    → set_entry name key v (m ++ (name, entries) ∷ []) ≡ m ++ (name, entries ++ (key, v) ∷ []) ∷ []
unfolding set_entry
set_entry-last m name entries key v b c =
    ap (λ k. put name (put key v k) (m ++ (name, entries) ∷ [])) (at_key-last [] m name entries b)
    ∙ ap (λ k. put name k (m ++ (name, entries) ∷ [])) (put-Below entries key v c)
    ∙ put-last m name (entries ++ (key, v) ∷ []) entries b

entry_line :
    (key v e rest : Text)
    → (key ++ space ∷ equals_sign ∷ space ∷ (v ++ newline ∷ e)) ++ rest
      ≡ (key ++ space ∷ equals_sign ∷ space ∷ v) ++ newline ∷ (e ++ rest)
entry_line key v e rest =
    append_assoc key (space ∷ equals_sign ∷ space ∷ (v ++ newline ∷ e)) rest
    ∙ ap (λ k. key ++ space ∷ equals_sign ∷ space ∷ k) (append_assoc v (newline ∷ e) rest)
    ∙ sym (append_assoc key (space ∷ equals_sign ∷ space ∷ v) (newline ∷ (e ++ rest)))

section_line :
    (name e rest : Text)
    → left_bracket ∷ (name ++ right_bracket ∷ newline ∷ (e ++ rest))
      ≡ (left_bracket ∷ (name ++ right_bracket ∷ [])) ++ newline ∷ (e ++ rest)
section_line name e rest =
    ap (λ k. left_bracket ∷ k)
      (sym (append_assoc name (right_bracket ∷ []) (newline ∷ (e ++ rest))))

load_lines-line :
    (line rest : Text) (s s' : State)
    → Free newline line
    → load_line (trim line) s ≡ s'
    → load_lines (lines (line ++ newline ∷ rest)) s ≡ load_lines (lines rest) s'
load_lines-line line rest s s' f e =
    ap (λ k. load_lines k s) (lines-Free line rest f) ∙ load_lines-cons line (lines rest) s s' e

-- The lines of the entries of one section, and what follows them.
load_lines-entries :
    (entries done : Sections) (m : Map Sections) (name rest : Text)
    → EntriesFit entries
    → Sorted entries
    → Before done entries
    → Below m name
    → load_lines (lines (str_entries entries ++ rest)) (m ++ (name, done) ∷ [], name)
      ≡ load_lines (lines rest) (m ++ (name, done ++ entries) ∷ [], name)
unfolding str_entries
load_lines-entries [] done m name rest f s b c =
    ap (λ k. load_lines (lines rest) (m ++ (name, k) ∷ [], name)) (sym (append-nil done))
load_lines-entries ((key, v) ∷ more) done m name rest f s b c =
    ap (λ k. load_lines (lines k) (m ++ (name, done) ∷ [], name))
      (entry_line key v.m_value (str_entries more) rest)
    ∙ load_lines-line _ _ _ _ (Free-entry key v f.0 f.1) (
        load_line-entry key v (m ++ (name, done) ∷ []) name f.0 f.1
        ∙ ap (λ k. (k, name)) (set_entry-last m name done key v c b.0))
    ∙ load_lines-entries more (done ++ (key, v) ∷ []) m name rest f.2 s.1
        (Before-step done more key v b.1 s.0) c
    ∙ ap (λ k. load_lines (lines rest) (m ++ (name, k) ∷ [], name))
        (append_assoc done ((key, v) ∷ []) more)

load_lines-nil : (s : State) → load_lines (lines []) s ≡ s
unfolding load_lines lines
load_lines-nil s = refl

-- The lines of all sections, behind those that are loaded.
load_lines-sections :
    (m done : Map Sections) (section : Text)
    → SectionsFit m
    → Sorted m
    → Before done m
    → (load_lines (lines (str_sections m)) (done, section)).0 ≡ done ++ m
unfolding str_sections
load_lines-sections [] done section f s b =
    ap (λ k. k.0) (load_lines-nil (done, section)) ∙ sym (append-nil done)
load_lines-sections ((name, entries) ∷ more) done section f s b =
    let fits = f.0 in
    ap (λ k. k.0)
      (ap (λ k. load_lines (lines k) (done, section))
          (section_line name (str_entries entries) (str_sections more))
        ∙ load_lines-line _ _ _ _ (Free-section name fits.0) (
            load_line-section name done section fits.0
            ∙ ap (λ k. (k, name)) (put-Below done name [] b.0))
        ∙ load_lines-entries entries [] done name (str_sections more) fits.2 fits.1
            (Before-nil entries) b.0)
    ∙ load_lines-sections more (done ++ (name, entries) ∷ []) name f.1 s.1
        (Before-step done more name entries b.1 s.0)
    ∙ append_assoc done ((name, entries) ∷ []) more

-- `load`, into an object without sections, of what `save` has written gives the same sections, when the
-- keys of the maps go up, names, keys and values have nothing to trim and no newline, names no `]`, and
-- keys are not empty, have no `=` and do not start with `[`.
pub load-save :
    (f : IniFile) (filename : Text)
    → Fits f.m_sections
    → load filename (save true f).0 record { m_filename = []; m_sections = [] }
      ≡ (record f { m_filename = filename }, true)
unfolding load save str
load-save f filename fits =
    ap (λ k. (record { m_filename = filename; m_sections = k }, true))
      (load_lines-sections f.m_sections [] [] fits.fit fits.sorted (Before-nil f.m_sections))
