-- ===== src/Vector.antt =====
-- vector/version03/vector.cpp: the memory that the vector allocates, slot by slot, and the functions
-- of the standard library that build, move and destroy elements there. The class is in `Class`.
pub mod Class
pub mod Layout
pub mod Shift
pub mod Contents
pub mod Growth
pub mod Erase
pub mod Insert
pub mod Assign
pub mod Resize
pub mod Operations
pub mod Copy
mod Tests
use cpp_projects_learning.Common.{
  ℕ, zero, suc, ◌+◌, List, [], ◌∷◌, none, some, ltb, if◌then◌else◌, length, get_elem?, set,
  replicate,
}

-- A slot without an element, with one, or with one that was moved from and whose value is not known.
pub data Slot (T : Type 0) : Type 0 where
  raw : Slot T
  live : T → Slot T
  moved : Slot T

abbrev pub Memory : Type 0 → Type 0
Memory T = List (Slot T)

-- A call returns or throws; an access outside the block, or to a slot in the wrong state, is
-- undefined. The elements' own constructors do not throw.
pub data Outcome (A : Type 0) : Type 0 where
  returns : A → Outcome A
  throws_length_error throws_out_of_range undefined : Outcome A

infixl 5 ◌>>=◌
abbrev pub ◌>>=◌ : {A B : Type 0} → Outcome A → (A → Outcome B) → Outcome B
returns a >>= f = f a
throws_length_error >>= f = throws_length_error
throws_out_of_range >>= f = throws_out_of_range
undefined >>= f = undefined

abbrev pub raws : {T : Type 0} → ℕ → Memory T
raws n = replicate n raw

module _ {T : Type 0} where
  -- `allocator_traits::construct` at `i`, whatever stood there.
  unfoldable pub construct : ℕ → T → Memory T → Outcome (Memory T)
  construct i x m = if ltb i (length m) then returns (set m i (live x)) else undefined

  -- `destroy_at`
  unfoldable pub destroy_at : ℕ → Memory T → Outcome (Memory T)
  destroy_at i m = elim (get_elem? m i) [
    | none ↦ undefined
    | some raw ↦ undefined
    | some (live x) ↦ returns (set m i raw)
    | some moved ↦ returns (set m i raw)
  ]

  -- The element at `i`.
  unfoldable pub value_at : ℕ → Memory T → Outcome T
  value_at i m = elim (get_elem? m i) [
    | none ↦ undefined
    | some raw ↦ undefined
    | some (live x) ↦ returns x
    | some moved ↦ undefined
  ]

  -- `std::move(data_[i])`, by whoever takes it.
  unfoldable pub take_at : ℕ → Memory T → Outcome (T × Memory T)
  unfolding value_at
  take_at i m = do x ← value_at i m; returns (x, set m i moved)

  -- Assignment to the element at `i`, which must be there.
  unfoldable pub assign : ℕ → T → Memory T → Outcome (Memory T)
  assign i x m = elim (get_elem? m i) [
    | none ↦ undefined
    | some raw ↦ undefined
    | some (live y) ↦ returns (set m i (live x))
    | some moved ↦ returns (set m i (live x))
  ]

  unfoldable pub move_slot : ℕ → ℕ → Memory T → Outcome (Memory T)
  unfolding take_at assign
  move_slot src dst m = do (x, m₁) ← take_at src m; assign dst x m₁

  -- `std::move` of `n` elements from `src` on to `dst` on.
  unfoldable pub move_down : ℕ → ℕ → ℕ → Memory T → Outcome (Memory T)
  unfolding move_slot
  move_down zero src dst m = returns m
  move_down (suc n) src dst m = do m₁ ← move_slot src dst m; move_down n (src + 1) (dst + 1) m₁

  -- `std::move_backward`, the same from the last element on.
  unfoldable pub move_up : ℕ → ℕ → ℕ → Memory T → Outcome (Memory T)
  unfolding move_slot
  move_up zero src dst m = returns m
  move_up (suc n) src dst m = do m₁ ← move_slot (src + n) (dst + n) m; move_up n src dst m₁

  -- `std::destroy` of `n` elements from `i` on.
  unfoldable pub destroy : ℕ → ℕ → Memory T → Outcome (Memory T)
  unfolding destroy_at
  destroy zero i m = returns m
  destroy (suc n) i m = do m₁ ← destroy_at i m; destroy n (i + 1) m₁

  -- `std::uninitialized_copy` of these values to `i` on.
  unfoldable pub copy_to : List T → ℕ → Memory T → Outcome (Memory T)
  unfolding construct
  copy_to [] i m = returns m
  copy_to (x ∷ xs) i m = do m₁ ← construct i x m; copy_to xs (i + 1) m₁

  -- The `n` elements from `i` on.
  unfoldable pub values : ℕ → ℕ → Memory T → Outcome (List T)
  unfolding value_at
  values zero i m = returns []
  values (suc n) i m = do x ← value_at i m; xs ← values n (i + 1) m; returns (x ∷ xs)

  -- `std::uninitialized_move` of `n` elements from `i` on to the same places of another block.
  unfoldable pub move_out : ℕ → ℕ → Memory T → Memory T → Outcome (Memory T × Memory T)
  unfolding take_at construct
  move_out zero i old new = returns (old, new)
  move_out (suc n) i old new = do
    (x, old₁) ← take_at i old
    new₁ ← construct i x new
    move_out n (i + 1) old₁ new₁
