-- ===== src/IniFile/Tests.antt =====
-- ini-parse/inifile.cpp: a file like demo.ini, and the theorems applied to it.
use cpp_projects_learning.Common.{◌≡◌, refl, true, false, [], ◌∷◌, if◌then◌else◌}
use cpp_projects_learning.IniFile.{
  Text, less, is_space, erase_back, Value, Map, Sections, IniFile, load, save, get, set, has,
  remove,
}
use cpp_projects_learning.IniFile.Trim.{IsTrimmed, IsKey, IsName}
use cpp_projects_learning.IniFile.RoundTrip.{Fits, load-save}
use cpp_projects_learning.IniFile.Access.{same_place, get-set, has-set, has-remove}

-- `ip = 1.2` and `port = ` in the section `net`.
abbrev net : Text
net = 110 ∷ 101 ∷ 116 ∷ []

abbrev ip : Text
ip = 105 ∷ 112 ∷ []

abbrev port : Text
port = 112 ∷ 111 ∷ 114 ∷ 116 ∷ []

abbrev address : Value
address = record { m_value = 49 ∷ 46 ∷ 50 ∷ [] }

abbrev nothing : Value
nothing = record { m_value = [] }

abbrev sections : Map Sections
sections = (net, (ip, address) ∷ (port, nothing) ∷ []) ∷ []

abbrev file : IniFile
file = record { m_filename = []; m_sections = sections }

address-IsTrimmed : IsTrimmed address.m_value
unfolding is_space erase_back
address-IsTrimmed = record { front = refl; back = refl; one_line = (refl, (refl, (refl, tt))) }

nothing-IsTrimmed : IsTrimmed nothing.m_value
unfolding erase_back
nothing-IsTrimmed = record { front = tt; back = refl; one_line = tt }

ip-IsKey : IsKey ip
unfolding is_space erase_back
ip-IsKey = record {
  trimmed = record { front = refl; back = refl; one_line = (refl, (refl, tt)) };
  no_equals = (refl, (refl, tt));
  starts = refl;
}

port-IsKey : IsKey port
unfolding is_space erase_back
port-IsKey = record {
  trimmed = record { front = refl; back = refl; one_line = (refl, (refl, (refl, (refl, tt)))) };
  no_equals = (refl, (refl, (refl, (refl, tt))));
  starts = refl;
}

net-IsName : IsName net
unfolding is_space erase_back
net-IsName = record {
  trimmed = record { front = refl; back = refl; one_line = (refl, (refl, (refl, tt))) };
  no_bracket = (refl, (refl, (refl, tt)));
}

sections-Fits : Fits sections
unfolding less
sections-Fits = record {
  sorted = (tt, tt);
  fit = (
    (
      net-IsName,
      ((refl, tt), (tt, tt)),
      (ip-IsKey, address-IsTrimmed, (port-IsKey, nothing-IsTrimmed, tt)),
    ),
    tt,
  );
}

load-save_example :
    load ip (save true file).0 record { m_filename = []; m_sections = [] }
    ≡ (record file { m_filename = ip }, true)
load-save_example = load-save file ip sections-Fits

get-set_example :
    (get net port (set net port address file)).1
    ≡ (if same_place net port net port then address else (get net port file).1)
get-set_example = get-set net port net port address file

has-set_example :
    has net ip (set ip port address file)
    ≡ (if same_place ip port net ip then true else has net ip file)
has-set_example = has-set ip port net ip address file

has-remove_example :
    has net port (remove net ip file)
    ≡ (if same_place net ip net port then false else has net port file)
has-remove_example = has-remove net ip net port file
