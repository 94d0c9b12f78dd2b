-- ===== src/LookupTable.antt =====
-- The table of 第六章/threadsafe_look_up.cpp: buckets of entries, each operation under its bucket's lock.
-- Keys compare with `eq`, the == of their type, and `hash` is the hasher.
pub mod Buckets
pub mod Values
mod Tests
use cpp_projects_learning.Common.{
  ℕ, ◌%◌, Bool, true, false, List, [], ◌∷◌, ◌++◌, Option, none, some, ◌==◌, if◌then◌else◌, length,
  get_elem?, set, replicate,
}

-- An iterator at an entry: the entries before it, its key and value, and those behind it.
pub record Found (K V : Type 0) : Type 0 where
  pub before : List (K × V)
  pub first : K
  pub second : V
  pub after : List (K × V)

abbrev pub behind : {K V : Type 0} → K × V → Option (Found K V) → Option (Found K V)
behind entry none = none
behind entry (some f) = some (record f { before = entry ∷ f.before })

-- `num_buckets` empty buckets.
abbrev pub empty_table : {K V : Type 0} → ℕ → List (List (K × V))
empty_table num_buckets = replicate num_buckets []

module _ {K V : Type 0} (eq : K → K → Bool) where
  -- `bucket_type::find_entry_for`; `none` is `data.end()`.
  unfoldable pub find_entry_for : K → List (K × V) → Option (Found K V)
  find_entry_for key [] = none
  find_entry_for key ((k, v) ∷ entries) =
      let later = behind (k, v) (find_entry_for key entries) in
      if eq k key
      then some (record { before = []; first = k; second = v; after = entries })
      else later

  unfoldable pub bucket_value_for : K → V → List (K × V) → V
  bucket_value_for key default_value entries = elim (find_entry_for key entries) [
    | none ↦ default_value
    | some found ↦ found.second
  ]

  unfoldable pub bucket_add : K → V → List (K × V) → List (K × V)
  bucket_add key value entries = elim (find_entry_for key entries) [
    | none ↦ entries ++ (key, value) ∷ []
    | some found ↦ found.before ++ (found.first, value) ∷ found.after
  ]

  unfoldable pub bucket_remove : K → List (K × V) → List (K × V)
  bucket_remove key entries = elim (find_entry_for key entries) [
    | none ↦ entries
    | some found ↦ found.before ++ found.after
  ]

  module _ (hash : K → ℕ) where
    -- `hasher(key) % buckets.size()`; without buckets this divides by 0, and the operations are `none`.
    abbrev pub bucket_index : K → List (List (K × V)) → ℕ
    bucket_index key buckets = hash key % length buckets

    abbrev pub get_bucket : K → List (List (K × V)) → Option (List (K × V))
    get_bucket key buckets =
        let found = get_elem? buckets (bucket_index key buckets) in
        if length buckets == 0 then none else found

    unfoldable pub value_for : K → V → List (List (K × V)) → Option V
    unfolding bucket_value_for
    value_for key default_value buckets = elim (get_bucket key buckets) [
      | none ↦ none
      | some entries ↦ some (bucket_value_for key default_value entries)
    ]

    unfoldable pub add_or_update_mapping :
        K → V → List (List (K × V)) → Option (List (List (K × V)))
    unfolding bucket_add
    add_or_update_mapping key value buckets = elim (get_bucket key buckets) [
      | none ↦ none
      | some entries ↦ some (set buckets (bucket_index key buckets) (bucket_add key value entries))
    ]

    unfoldable pub remove_mapping : K → List (List (K × V)) → Option (List (List (K × V)))
    unfolding bucket_remove
    remove_mapping key buckets = elim (get_bucket key buckets) [
      | none ↦ none
      | some entries ↦ some (set buckets (bucket_index key buckets) (bucket_remove key entries))
    ]
