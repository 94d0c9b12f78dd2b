-- ===== src/IniFile.antt =====
-- ini-parse/inifile.cpp and ini-parse/inifile.h: values, sections and the file object. A string is the
-- list of its characters; a `std::map` is the list of its entries in the order of the keys. Printing and
-- the members that convert to and from numbers are left out.
pub mod Trim
pub mod Map
pub mod Access
pub mod RoundTrip
mod Tests
use cpp_projects_learning.Common.{
  ℕ, ◌+◌, ◌-◌, Bool, true, false, ◌&&◌, ◌||◌, not, List, [], ◌∷◌, ◌++◌, Option, none, some, ltb,
  ◌==◌, if◌then◌else◌,
}

abbrev pub Text : Type 0
Text = List ℕ

abbrev pub newline : ℕ
newline = 10

abbrev pub carriage_return : ℕ
carriage_return = 13

abbrev pub space : ℕ
space = 32

abbrev pub left_bracket : ℕ
left_bracket = 91

abbrev pub right_bracket : ℕ
right_bracket = 93

abbrev pub equals_sign : ℕ
equals_sign = 61

-- == and < on strings.
unfoldable pub same_text : Text → Text → Bool
same_text [] [] = true
same_text [] (d ∷ t) = false
same_text (c ∷ s) [] = false
same_text (c ∷ s) (d ∷ t) = c == d && same_text s t

unfoldable pub less : Text → Text → Bool
less s [] = false
less [] (d ∷ t) = true
less (c ∷ s) (d ∷ t) = let rest = less s t in if c == d then rest else ltb c d

-- `std::map`: its entries, `find`, `erase(key)`, and the assignment `m[key] = value`.
abbrev pub Map : Type 0 → Type 0
Map V = List (Text × V)

module _ {V : Type 0} where
  unfoldable pub find : Text → Map V → Option V
  unfolding same_text
  find key [] = none
  find key ((k, v) ∷ m) = let rest = find key m in if same_text k key then some v else rest

  unfoldable pub erase_key : Text → Map V → Map V
  unfolding same_text
  erase_key key [] = []
  erase_key key ((k, v) ∷ m) =
      let rest = erase_key key m in if same_text k key then rest else (k, v) ∷ rest

  unfoldable pub put : Text → V → Map V → Map V
  unfolding less
  put key value [] = (key, value) ∷ []
  put key value ((k, v) ∷ m) =
      let rest = put key value m in
      if less key k
      then (key, value) ∷ (k, v) ∷ m
      else if less k key
      then (k, v) ∷ rest
      else (key, value) ∷ m

  -- What `m[key]` refers to; a missing key is made with the value `made`.
  unfoldable pub at_key : V → Text → Map V → V
  unfolding find
  at_key made key m = elim (find key m) [ none ↦ made | some v ↦ v ]

pub record Value : Type 0 where
  pub m_value : Text

-- `Value()`, and the assignments. The one from an int compares where it means to assign.
abbrev pub empty_value : Value
empty_value = record { m_value = [] }

abbrev pub true_text : Text
true_text = 116 ∷ 114 ∷ 117 ∷ 101 ∷ []

abbrev pub false_text : Text
false_text = 102 ∷ 97 ∷ 108 ∷ 115 ∷ 101 ∷ []

unfoldable pub assign_bool : Bool → Value → Value
assign_bool b v = record v { m_value = if b then true_text else false_text }

unfoldable pub assign_int : Text → Value → Value
unfolding same_text
assign_int digits v = let compared = same_text v.m_value digits in v

unfoldable pub assign_text : Text → Value → Value
assign_text s v = record v { m_value = s }

-- The constructors, which assign to the empty value.
unfoldable pub value_of_bool : Bool → Value
unfolding assign_bool
value_of_bool b = assign_bool b empty_value

unfoldable pub value_of_int : Text → Value
unfolding assign_int
value_of_int digits = assign_int digits empty_value

unfoldable pub value_of_text : Text → Value
value_of_text s = record { m_value = s }

unfoldable pub same_value : Value → Value → Bool
unfolding same_text
same_value v w = same_text v.m_value w.m_value

unfoldable pub other_value : Value → Value → Bool
unfolding same_text
other_value v w = not (same_text v.m_value w.m_value)

unfoldable pub to_bool : Value → Bool
unfolding same_text
to_bool v = if same_text v.m_value true_text then true else false

abbrev pub Sections : Type 0
Sections = Map Value

pub record IniFile : Type 0 where
  pub m_filename : Text
  pub m_sections : Map Sections

-- `trim`: " \n\r" is taken off both ends.
unfoldable pub is_space : ℕ → Bool
is_space c = c == space || c == newline || c == carriage_return

unfoldable pub erase_front : Text → Text
unfolding is_space
erase_front [] = []
erase_front (c ∷ s) = let rest = erase_front s in if is_space c then rest else c ∷ s

abbrev pub erase_last : ℕ → Text → Text
erase_last c [] = if is_space c then [] else c ∷ []
erase_last c (d ∷ s) = c ∷ d ∷ s

unfoldable pub erase_back : Text → Text
unfolding is_space
erase_back [] = []
erase_back (c ∷ s) = erase_last c (erase_back s)

unfoldable pub trim : Text → Text
unfolding erase_front erase_back
trim s = erase_back (erase_front s)

-- `find_first_of(c)`, with what stands before and behind the character.
abbrev pub put_before : ℕ → Option (Text × Text) → Option (Text × Text)
put_before d none = none
put_before d (some (before, behind)) = some (d ∷ before, behind)

unfoldable pub split_at : ℕ → Text → Option (Text × Text)
split_at c [] = none
split_at c (d ∷ s) = let rest = split_at c s in if d == c then some ([], s) else put_before d rest

-- The key and the value of a line; a line without `=` is both.
unfoldable pub key_value : Text → Text × Text
unfolding split_at trim
key_value line = elim (split_at equals_sign line) [
  | none ↦ (trim line, trim line)
  | some (before, behind) ↦ (trim before, trim behind)
]

-- The name in a line that starts with `[`; without `]` it is all that follows.
unfoldable pub section_name : Text → Text
unfolding split_at trim
section_name rest = elim (split_at right_bracket rest) [
  | none ↦ trim rest
  | some (before, behind) ↦ trim before
]

-- One round of the loop of `load`, on the sections and the section that the file is in.
abbrev pub State : Type 0
State = Map Sections × Text

unfoldable pub set_entry : Text → Text → Value → Map Sections → Map Sections
unfolding put at_key
set_entry section key value m = put section (put key value (at_key [] section m)) m

unfoldable pub load_line : Text → State → State
unfolding section_name key_value set_entry
load_line [] (m, section) = (m, section)
load_line (c ∷ s) (m, section) =
    if c == left_bracket
    then (put (section_name s) [] m, section_name s)
    else (let (key, value) = key_value (c ∷ s) in
        (
          set_entry section key (assign_text value (at_key empty_value key (at_key [] section m)))
              m,
          section,
        ))

-- `getline` until the file ends: the last line may lack its newline.
abbrev pub add_char : ℕ → List Text → List Text
add_char c [] = (c ∷ []) ∷ []
add_char c (line ∷ more) = (c ∷ line) ∷ more

unfoldable pub lines : Text → List Text
lines [] = []
lines (c ∷ s) = let rest = lines s in if c == newline then [] ∷ rest else add_char c rest

unfoldable pub load_lines : List Text → State → State
unfolding load_line trim
load_lines [] state = state
load_lines (line ∷ more) state = load_lines more (load_line (trim line) state)

-- `load`: the file has these characters, or cannot be opened.
unfoldable pub load : Text → Option Text → IniFile → IniFile × Bool
unfolding load_lines lines
load filename none f = (record f { m_filename = filename }, false)
load filename (some contents) f = (
  record { m_filename = filename; m_sections = (load_lines (lines contents) (f.m_sections, [])).0 },
  true,
)

-- `get` makes what is missing, and returns the value.
unfoldable pub get : Text → Text → IniFile → IniFile × Value
unfolding at_key set_entry
get section key f =
    let value = at_key empty_value key (at_key [] section f.m_sections) in
    (record f { m_sections = set_entry section key value f.m_sections }, value)

unfoldable pub set : Text → Text → Value → IniFile → IniFile
unfolding set_entry
set section key value f = record f { m_sections = set_entry section key value f.m_sections }

abbrev pub is_some : {A : Type 0} → Option A → Bool
is_some none = false
is_some (some a) = true

unfoldable pub has : Text → Text → IniFile → Bool
unfolding find at_key
has section key f =
    if not (is_some (find section f.m_sections))
    then false
    else if not (is_some (find key (at_key [] section f.m_sections)))
    then false
    else true

-- `remove(section)` and `remove(section, key)`.
unfoldable pub remove_section : Text → IniFile → IniFile
unfolding find erase_key
remove_section section f =
    if not (is_some (find section f.m_sections))
    then f
    else record f { m_sections = erase_key section f.m_sections }

unfoldable pub remove : Text → Text → IniFile → IniFile
unfolding has put at_key erase_key
remove section key f = if not (has section key f) then f else record f {
  m_sections = put section (erase_key key (at_key [] section f.m_sections)) f.m_sections;
}

unfoldable pub clear : IniFile → IniFile
clear f = record f { m_sections = [] }

-- `str`: the inner loop, the outer one, and the whole.
unfoldable pub str_entries : Sections → Text
str_entries [] = []
str_entries ((key, value) ∷ more) =
    key ++ (space ∷ equals_sign ∷ space ∷ (value.m_value ++ newline ∷ str_entries more))

unfoldable pub str_sections : Map Sections → Text
unfolding str_entries
str_sections [] = []
str_sections ((name, entries) ∷ more) =
    left_bracket ∷ (name ++ right_bracket ∷ newline ∷ (str_entries entries ++ str_sections more))

unfoldable pub str : IniFile → Text
unfolding str_sections
str f = str_sections f.m_sections

-- `save`: what the file then holds, if it can be opened, and the result.
unfoldable pub save : Bool → IniFile → Option Text × Bool
unfolding str
save opens f = if opens then (some (str f), true) else (none, false)
