-- ===== src/LookupTable/Values.antt =====
-- 第六章/threadsafe_look_up.cpp: the table against a map, by what `value_for` returns after a change.
use native.Mathlib.Nat.{mod-lt}
use cpp_projects_learning.Common.{
  ℕ, zero, suc, ◌%◌, ◌<◌, ◌≡◌, ◌≢◌, ◌↔◌, inl, inr, refl, sym, ap, ◌∙◌, Bool, true, false, List, [],
  ◌∷◌, none, some, subst, arith, ◌==◌, if◌then◌else◌, length, get_elem?, set, Bool-cases,
  Option-cases, length-set, get_elem?-set, get_elem?-replicate, get_elem?-set_self,
  get_elem?-set_ne, ==_iff,
}
use cpp_projects_learning.LookupTable.{
  bucket_value_for, bucket_add, bucket_remove, bucket_index, get_bucket, value_for,
  add_or_update_mapping, remove_mapping, empty_table,
}
use cpp_projects_learning.LookupTable.Buckets.{
  Distinct, value_for-add, value_for-remove, Distinct-add, Distinct-remove,
}

get_elem?-inside {ℓ} :
    {A : Type ℓ} (xs : List A) (i : ℕ) → i < length xs → (x : A) × (get_elem? xs i ≡ some x)
get_elem?-inside [] i h = absurd (omega arith)
get_elem?-inside (x ∷ xs) zero h = (x, refl)
get_elem?-inside (x ∷ xs) (suc i) h = get_elem?-inside xs i (omega arith)

module _ {K V : Type 0} (eq : K → K → Bool) (eq_iff : (a b : K) → (eq a b ≡ true) ↔ (a ≡ b))
    (hash : K → ℕ) where
  get_bucket-at :
      (key : K) (buckets : List (List (K × V))) (b : List (K × V))
      → 0 < length buckets
      → get_elem? buckets (bucket_index eq hash key buckets) ≡ some b
      → get_bucket eq hash key buckets ≡ some b
  get_bucket-at key buckets b h e =
      let some_buckets : (length buckets == 0) ≡ false = ground arith in rw some_buckets e

  value_for-bucket :
      (key : K) (default : V) (buckets : List (List (K × V))) (b : List (K × V))
      → 0 < length buckets
      → get_elem? buckets (bucket_index eq hash key buckets) ≡ some b
      → value_for eq hash key default buckets ≡ some (bucket_value_for eq key default b)
  unfolding value_for
  value_for-bucket key default buckets b h e = rw (get_bucket-at key buckets b h e, value_for)

  bucket_index-lt :
      (key : K) (buckets : List (List (K × V)))
      → 0 < length buckets
      → bucket_index eq hash key buckets < length buckets
  bucket_index-lt key buckets h = mod-lt (hash key) h

  -- A change of the bucket of `key`, by what it does to the values of the keys in that bucket.
  set-value_for :
      (key other : K) (default new : V) (b b' : List (K × V)) (buckets : List (List (K × V)))
      → 0 < length buckets
      → get_elem? buckets (bucket_index eq hash key buckets) ≡ some b
      → bucket_value_for eq other default b'
        ≡ (if eq key other then new else bucket_value_for eq other default b)
      → (old : V) × (value_for eq hash other default buckets ≡ some old)
        × (value_for eq hash other default (set buckets (bucket_index eq hash key buckets) b')
            ≡ some (if eq key other then new else old))
  set-value_for key other default new b b' buckets h at change =
      let i = bucket_index eq hash key buckets in
      let j = bucket_index eq hash other buckets in
      let after = set buckets i b' in
      let (c, found) = get_elem?-inside buckets j (bucket_index-lt other buckets h) in
      let long : length after ≡ length buckets = length-set buckets i b' in
      let same_place : bucket_index eq hash other after ≡ j = ap (λ n. hash other % n) long in
      let h' : 0 < length after = omega arith in
      let then_at : (d : List (K × V))
          → get_elem? after j ≡ some d
          → value_for eq hash other default after ≡ some (bucket_value_for eq other default d) =
        λ d e.
          value_for-bucket other default after d h'
            (subst (λ n. get_elem? after n ≡ some d) (sym same_place) e) in
      (
        bucket_value_for eq other default c,
        value_for-bucket other default buckets c h found,
        elim (Bool-cases (i == j)) [
          | inl together ↦
              let e : i ≡ j = (==_iff i j).0 together in
              let changed : get_elem? after j ≡ some b' =
                subst (λ n. get_elem? after n ≡ some b') e
                  (get_elem?-set_self buckets i b' (bucket_index-lt key buckets h)) in
              let one : b ≡ c =
                ap (λ o. elim o [ none ↦ b | some x ↦ x ])
                  (sym at ∙ ap (get_elem? buckets) e ∙ found) in
              then_at b' changed
              ∙ ap some (
                  subst
                    (λ x.
                      bucket_value_for eq other default b'
                      ≡ (if eq key other then new else bucket_value_for eq other default x))
                    one change)
          | inr elsewhere ↦
              let ne : i ≢ j = λ e. absurd (ground (arith, (==_iff i j).1 e)) in
              let kept = get_elem?-set_ne buckets i j b' ne ∙ found in
              let different : eq key other ≡ false = elim (Bool-cases (eq key other)) [
                | inr n ↦ n
                | inl y ↦ absurd (ne (ap (λ k. hash k % length buckets) ((eq_iff key other).0 y)))
              ] in
              then_at c kept ∙ rw different
        ],
      )

  -- After an update, every key has the value that it had, but for the key that was updated, which has
  -- the new value. There is at least one bucket, and == on keys is equality.
  pub value_for-add_or_update_mapping :
      (key other : K) (value default : V) (buckets : List (List (K × V)))
      → 0 < length buckets
      → (after : List (List (K × V))) × (old : V) × (add_or_update_mapping eq hash key value buckets
          ≡ some after)
        × (value_for eq hash other default buckets ≡ some old)
        × (value_for eq hash other default after ≡ some (if eq key other then value else old))
  unfolding add_or_update_mapping
  value_for-add_or_update_mapping key other value default buckets h =
      let i = bucket_index eq hash key buckets in
      let (b, found) = get_elem?-inside buckets i (bucket_index-lt key buckets h) in
      let b' = bucket_add eq key value b in
      let (old, before, after) =
        set-value_for key other default value b b' buckets h found
          (value_for-add eq eq_iff key other value default b) in
      (
        set buckets i b',
        old,
        rw (get_bucket-at key buckets b h found, add_or_update_mapping),
        before,
        after,
      )

  -- In no bucket a key stands in two entries.
  pub record AllDistinct (buckets : List (List (K × V))) : Type 0 where
    pub each : (i : ℕ) (b : List (K × V)) → get_elem? buckets i ≡ some b → Distinct eq eq_iff b

  -- After a removal, every key has the value that it had, but for the key that was removed, which has
  -- the default. There is at least one bucket, == on keys is equality, and no bucket holds a key twice.
  pub value_for-remove_mapping :
      (key other : K) (default : V) (buckets : List (List (K × V)))
      → 0 < length buckets
      → AllDistinct buckets
      → (after : List (List (K × V))) × (old : V) × (remove_mapping eq hash key buckets
          ≡ some after)
        × (value_for eq hash other default buckets ≡ some old)
        × (value_for eq hash other default after ≡ some (if eq key other then default else old))
  unfolding remove_mapping
  value_for-remove_mapping key other default buckets h distinct =
      let i = bucket_index eq hash key buckets in
      let (b, found) = get_elem?-inside buckets i (bucket_index-lt key buckets h) in
      let b' = bucket_remove eq key b in
      let (old, before, after) =
        set-value_for key other default default b b' buckets h found
          (value_for-remove eq eq_iff key other default b (distinct.each i b found)) in
      (
        set buckets i b',
        old,
        rw (get_bucket-at key buckets b h found, remove_mapping),
        before,
        after,
      )

  -- What the operations make of a new table.
  pub data Reached (num_buckets : ℕ) : List (List (K × V)) → Type 0 where
    fresh : Reached num_buckets (empty_table num_buckets)
    added :
        {t t' : List (List (K × V))} (key : K) (value : V)
        → Reached num_buckets t
        → add_or_update_mapping eq hash key value t ≡ some t'
        → Reached num_buckets t'
    removed :
        {t t' : List (List (K × V))} (key : K)
        → Reached num_buckets t
        → remove_mapping eq hash key t ≡ some t'
        → Reached num_buckets t'

  set-AllDistinct :
      (buckets : List (List (K × V))) (i : ℕ) (b : List (K × V))
      → AllDistinct buckets
      → Distinct eq eq_iff b
      → AllDistinct (set buckets i b)
  set-AllDistinct buckets i b h d = record {
    each = λ j c e. elim (get_elem?-set buckets i j b c e) [
      | inl (_, same) ↦ rw same d
      | inr old ↦ h.each j c old
    ];
  }

  bucket-Distinct :
      (key : K) (t : List (List (K × V))) (b : List (K × V))
      → AllDistinct t
      → get_bucket eq hash key t ≡ some b
      → Distinct eq eq_iff b
  bucket-Distinct key t b h e = h.each (bucket_index eq hash key t) b (ground arith)

  add_or_update_mapping-AllDistinct :
      (key : K) (value : V) (t t' : List (List (K × V)))
      → add_or_update_mapping eq hash key value t ≡ some t'
      → AllDistinct t
      → AllDistinct t'
  unfolding add_or_update_mapping
  add_or_update_mapping-AllDistinct key value t t' e h =
      elim (Option-cases (get_bucket eq hash key t)) [
        | inl without ↦ absurd (ground arith)
        | inr (b, found) ↦
            let done =
              set-AllDistinct t (bucket_index eq hash key t) (bucket_add eq key value b) h
                (Distinct-add eq eq_iff key value b (bucket-Distinct key t b h found)) in
            subst AllDistinct (ground arith) done
      ]

  remove_mapping-AllDistinct :
      (key : K) (t t' : List (List (K × V)))
      → remove_mapping eq hash key t ≡ some t'
      → AllDistinct t
      → AllDistinct t'
  unfolding remove_mapping
  remove_mapping-AllDistinct key t t' e h = elim (Option-cases (get_bucket eq hash key t)) [
    | inl without ↦ absurd (ground arith)
    | inr (b, found) ↦
        let done =
          set-AllDistinct t (bucket_index eq hash key t) (bucket_remove eq key b) h
            (Distinct-remove eq eq_iff key b (bucket-Distinct key t b h found)) in
        subst AllDistinct (ground arith) done
  ]

  -- Whatever updates and removals were made since the table was new, no bucket holds a key twice, if ==
  -- on keys is equality.
  pub Reached-AllDistinct :
      (num_buckets : ℕ) (t : List (List (K × V))) → Reached num_buckets t → AllDistinct t
  Reached-AllDistinct num_buckets t fresh = record {
    each =
        λ i b e. let nothing : b ≡ [] = get_elem?-replicate num_buckets i [] b e in rw nothing tt;
  }
  Reached-AllDistinct num_buckets t (added {t = s} key value r made) =
      add_or_update_mapping-AllDistinct key value s t made (Reached-AllDistinct num_buckets s r)
  Reached-AllDistinct num_buckets t (removed {t = s} key r made) =
      remove_mapping-AllDistinct key s t made (Reached-AllDistinct num_buckets s r)
