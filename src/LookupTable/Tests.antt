-- ===== src/LookupTable/Tests.antt =====
-- 第六章/threadsafe_look_up.cpp: two buckets of numbers by their remainder.
use cpp_projects_learning.Common.{ℕ, ◌≡◌, ◌↔◌, refl, true, List, [], ◌∷◌, some, arith, ◌==◌, ==_iff}
use cpp_projects_learning.LookupTable.{
  value_for, add_or_update_mapping, remove_mapping, bucket_add, find_entry_for,
}
use cpp_projects_learning.LookupTable.Values.{
  AllDistinct, Reached, fresh, added, value_for-add_or_update_mapping, value_for-remove_mapping,
  Reached-AllDistinct,
}

abbrev same : (a b : ℕ) → ((a == b) ≡ true) ↔ (a ≡ b)
same a b = ==_iff a b

abbrev itself : ℕ → ℕ
itself n = n

-- The keys 1 and 3 share a bucket.
abbrev two_buckets : List (List (ℕ × ℕ))
two_buckets = [] ∷ ((1, 10) ∷ (3, 30) ∷ []) ∷ []

run : Reached ◌==◌ same itself 2 two_buckets
unfolding add_or_update_mapping bucket_add find_entry_for
run = added {t = [] ∷ ((1, 10) ∷ []) ∷ []} 3 30 (added {t = [] ∷ [] ∷ []} 1 10 fresh refl) refl

value_for-add_or_update_mapping_example :
    (after : List (List (ℕ × ℕ))) × (old : ℕ) × (add_or_update_mapping ◌==◌ itself 3 31 two_buckets
      ≡ some after)
    × (value_for ◌==◌ itself 3 0 two_buckets ≡ some old)
    × (value_for ◌==◌ itself 3 0 after ≡ some 31)
value_for-add_or_update_mapping_example =
    value_for-add_or_update_mapping ◌==◌ same itself 3 3 31 0 two_buckets (omega arith)

value_for-remove_mapping_example :
    (after : List (List (ℕ × ℕ))) × (old : ℕ) × (remove_mapping ◌==◌ itself 1 two_buckets
      ≡ some after)
    × (value_for ◌==◌ itself 3 0 two_buckets ≡ some old)
    × (value_for ◌==◌ itself 3 0 after ≡ some old)
value_for-remove_mapping_example =
    value_for-remove_mapping ◌==◌ same itself 1 3 0 two_buckets (omega arith)
      (Reached-AllDistinct ◌==◌ same itself 2 two_buckets run)

Reached-AllDistinct_example : AllDistinct ◌==◌ same itself two_buckets
Reached-AllDistinct_example = Reached-AllDistinct ◌==◌ same itself 2 two_buckets run
