-- ===== src/Serialize/Containers.antt =====
-- cpp-serialize/DataStream.h: `write` and `read` of vector, list, set and map. The element types are
-- template parameters: their overloads of `write` and `read` are given by `Element`.
use cpp_projects_learning.Common.{
  ℕ, zero, suc, ◌+◌, ◌-◌, ◌/◌, ◌^◌, Bool, true, List, [], ◌∷◌, none, some, ltb, if◌then◌else◌,
  length,
}
use cpp_projects_learning.Serialize.{DataType, vector, list, set, map, Action, pure, ◌>>=◌, ◌>>◌}
use cpp_projects_learning.Serialize.Scalars.{
  write_tag, write_int32, read_checked, read_length, to_int, is_negative,
}

-- What the templates use of an element type: the overloads, and the value of `T v;`.
pub record Element (T : Type 0) : Type 0 where
  pub write : T → Action (Unit {0})
  pub read : T → Action (Bool × T)
  pub fresh : T

-- `m_pos += len` for an `int` given by its bit pattern. A position below 0 counts as undefined.
unfoldable pub skip : ℕ → Action (Unit {0})
skip len s =
    if is_negative len
    then (let back = 2 ^ 32 - len in
        if ltb s.m_pos back then none else some (tt, record s { m_pos = s.m_pos - back }))
    else some (tt, record s { m_pos = s.m_pos + len })

-- The rounds of `for(int i = 0; i < len; i++)`.
abbrev pub rounds : ℕ → ℕ
rounds len = if is_negative len then 0 else len

-- The tag, the size as an `int`, and the elements.
abbrev pub write_sized : DataType → ℕ → Action (Unit {0}) → Action (Unit {0})
write_sized t n body = do write_tag t; write_int32 (to_int n); body

-- The head of each `read` of a container, its loop, and `m_pos += len` behind the loop.
abbrev pub read_sized : {A : Type 0} → DataType → A → (ℕ → Action A) → Action (Bool × A)
read_sized t cleared loop =
    read_checked t cleared do len ← read_length; a ← loop (rounds len); skip len; pure (true, a)

module _ {T : Type 0} (element : Element T) where
  unfoldable pub write_each : List T → Action (Unit {0})
  write_each [] = pure tt
  write_each (v ∷ vs) = do element.write v; write_each vs

  unfoldable pub write_vector : List T → Action (Unit {0})
  unfolding write_each write_int32
  write_vector value = write_sized vector (length value) (write_each value)

  unfoldable pub write_set : List T → Action (Unit {0})
  unfolding write_each write_int32
  write_set value = write_sized set (length value) (write_each value)

  -- The tag is that of a vector in the source, too.
  unfoldable pub write_list : List T → Action (Unit {0})
  unfolding write_each write_int32
  write_list value = write_sized vector (length value) (write_each value)

  -- `T v; read(v); value.push_back(v);`
  unfoldable pub read_each : ℕ → Action (List T)
  read_each zero = pure []
  read_each (suc n) = do (got, v) ← element.read element.fresh; vs ← read_each n; pure (v ∷ vs)

  unfoldable pub read_vector : List T → Action (Bool × List T)
  unfolding read_checked read_length read_each skip
  read_vector value = read_sized vector [] read_each

  unfoldable pub read_list : List T → Action (Bool × List T)
  unfolding read_checked read_length read_each skip
  read_list value = read_sized list [] read_each

  module _ (less : T → T → Bool) where
    -- `value.insert(v)`: a `std::set` is its elements in order.
    unfoldable pub set_insert : T → List T → List T
    set_insert v [] = v ∷ []
    set_insert v (x ∷ xs) =
        let later = x ∷ set_insert v xs in
        if less v x then v ∷ x ∷ xs else if less x v then later else x ∷ xs

    unfoldable pub read_set_each : ℕ → List T → Action (List T)
    unfolding set_insert
    read_set_each zero value = pure value
    read_set_each (suc n) value = do
      (got, v) ← element.read element.fresh
      read_set_each n (set_insert v value)

    unfoldable pub read_set : List T → Action (Bool × List T)
    unfolding read_checked read_length read_set_each skip
    read_set value = read_sized set [] (λ n. read_set_each n [])

module _ {K V : Type 0} (key : Element K) (val : Element V) where
  unfoldable pub write_pairs : List (K × V) → Action (Unit {0})
  write_pairs [] = pure tt
  write_pairs ((k, v) ∷ rest) = do key.write k; val.write v; write_pairs rest

  unfoldable pub write_map : List (K × V) → Action (Unit {0})
  unfolding write_pairs write_int32
  write_map value = write_sized map (length value) (write_pairs value)

  module _ (less : K → K → Bool) where
    -- `value[key] = val`: a `std::map` is its entries in the order of the keys.
    unfoldable pub map_assign : K → V → List (K × V) → List (K × V)
    map_assign k v [] = (k, v) ∷ []
    map_assign k v ((j, w) ∷ m) =
        let later = (j, w) ∷ map_assign k v m in
        if less k j then (k, v) ∷ (j, w) ∷ m else if less j k then later else (j, v) ∷ m

    unfoldable pub read_pairs : ℕ → List (K × V) → Action (List (K × V))
    unfolding map_assign
    read_pairs zero value = pure value
    read_pairs (suc n) value = do
      (got, k) ← key.read key.fresh
      (got', v) ← val.read val.fresh
      read_pairs n (map_assign k v value)

    -- The loop counts `i += 2`, so it makes one round for every two entries.
    unfoldable pub read_map : List (K × V) → Action (Bool × List (K × V))
    unfolding read_checked read_length read_pairs skip
    read_map value = read_sized map [] (λ n. read_pairs ((n + 1) / 2) [])
