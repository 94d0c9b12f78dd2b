-- ===== src/Vector/Class.antt =====
-- vector/version03/vector.cpp: the class `vector`, for elements of any type and `std::allocator`.
-- An iterator is its distance from `begin()`.
use mathlib.Core.Option
use cpp_projects_learning.Common.{
  ℕ, ◌+◌, ◌-◌, ◌*◌, List, [], Option, none, some, ltb, leb, ◌==◌, if◌then◌else◌, length, replicate,
}
use cpp_projects_learning.Vector.{
  Memory, Outcome, returns, throws_length_error, throws_out_of_range, undefined, ◌>>=◌, raws,
  construct, destroy_at, value_at, take_at, move_down, move_up, destroy, copy_to, values, move_out,
}

-- `data_` is null or points to a block.
pub record Vector (T : Type 0) : Type 0 where
  pub data_ : Option (Memory T)
  pub size_ : ℕ
  pub capacity_ : ℕ

-- What `data_` points to; a null pointer has no slots.
abbrev pub memory : {T : Type 0} → Vector T → Memory T
memory v = elim v.data_ [ none ↦ [] | some m ↦ m ]

abbrev pub with_memory : {T : Type 0} → Memory T → Vector T → Vector T
with_memory m v = record v { data_ = Option.map (λ _. m) v.data_ }

abbrev pub empty_vector : {T : Type 0} → Vector T
empty_vector = record { data_ = none; size_ = 0; capacity_ = 0 }

abbrev pub next_capacity : ℕ → ℕ
next_capacity capacity = if capacity == 0 then 1 else capacity * 2

-- `max_size()` is the allocator's.
module _ {T : Type 0} (max_size : ℕ) where
  unfoldable pub allocate : ℕ → Outcome (Memory T)
  allocate n = if ltb max_size n then throws_length_error else returns (raws n)

  -- The elements move to a new block if there was an old one.
  unfoldable pub reallocate : ℕ → Vector T → Outcome (Vector T)
  unfolding allocate
  reallocate new_capacity v = do
    new_data ← allocate new_capacity
    elim v.data_ [
      | none ↦ returns (record v { data_ = some new_data; capacity_ = new_capacity })
      | some old ↦ do
        (old₁, new₁) ← move_out v.size_ 0 old new_data
        gone ← destroy v.size_ 0 old₁
        returns (record v { data_ = some new₁; capacity_ = new_capacity })
    ]

  -- `vector(std::initializer_list<T>)`, and with equal values `vector(count, value)`.
  unfoldable pub from_list : List T → Outcome (Vector T)
  unfolding allocate
  from_list init =
      if ltb 0 (length init)
      then (do
        block ← allocate (length init)
        m ← copy_to init 0 block
        returns (record { data_ = some m; size_ = length init; capacity_ = length init }))
      else returns empty_vector

  unfoldable pub reserve : ℕ → Vector T → Outcome (Vector T)
  unfolding reallocate
  reserve new_capacity v =
      if ltb v.capacity_ new_capacity then reallocate new_capacity v else returns v

  unfoldable pub shrink_to_fit : Vector T → Outcome (Vector T)
  unfolding reallocate
  shrink_to_fit v = if ltb v.size_ v.capacity_ then reallocate v.size_ v else returns v

  -- `emplace_back`, which is `push_back`, up to the construction of the element.
  unfoldable pub make_room : Vector T → Outcome (Vector T)
  unfolding reallocate
  make_room v =
      if leb v.capacity_ v.size_ then reallocate (next_capacity v.capacity_) v else returns v

  unfoldable pub emplace_back : T → Vector T → Outcome (Vector T)
  unfolding make_room
  emplace_back x v = do
    w ← make_room v
    m ← construct w.size_ x (memory w)
    returns (record (with_memory m w) { size_ = w.size_ + 1 })

  -- `emplace`, which is `insert`; the assertion fails behind the end.
  unfoldable pub emplace : ℕ → T → Vector T → Outcome (Vector T)
  unfolding make_room emplace_back
  emplace pos x v =
      if ltb v.size_ pos then undefined else if pos == v.size_ then emplace_back x v else (do
        w ← make_room v
        (last, m₁) ← take_at (w.size_ - 1) (memory w)
        m₂ ← construct w.size_ last m₁
        m₃ ← move_up (w.size_ - 1 - pos) pos (pos + 1) m₂
        m₄ ← destroy_at pos m₃
        m₅ ← construct pos x m₄
        returns (record (with_memory m₅ w) { size_ = w.size_ + 1 }))

  unfoldable pub resize : ℕ → T → Vector T → Outcome (Vector T)
  unfolding reallocate
  resize new_size value v =
      if ltb v.size_ new_size
      then (do
        w ← if ltb v.capacity_ new_size then reallocate new_size v else returns v
        m ← copy_to (replicate (new_size - v.size_) value) w.size_ (memory w)
        returns (record (with_memory m w) { size_ = new_size }))
      else if ltb new_size v.size_
      then (do
        m ← destroy (v.size_ - new_size) new_size (memory v)
        returns (record (with_memory m v) { size_ = new_size }))
      else returns (record v { size_ = new_size })

module _ {T : Type 0} where
  unfoldable pub clear : Vector T → Outcome (Vector T)
  clear v = elim v.data_ [
    | none ↦ returns v
    | some m ↦ do gone ← destroy v.size_ 0 m; returns (record v { data_ = some gone; size_ = 0 })
  ]

  -- `erase(first, last)`; the assertion fails outside the vector.
  unfoldable pub erase_range : ℕ → ℕ → Vector T → Outcome (Vector T)
  erase_range first last v =
      if ltb last first
      then undefined
      else if ltb v.size_ last
      then undefined
      else if first == last
      then returns v
      else (do
        m₁ ← move_down (v.size_ - last) last first (memory v)
        m₂ ← destroy (last - first) (first + (v.size_ - last)) m₁
        returns (record (with_memory m₂ v) { size_ = v.size_ - (last - first) }))

  unfoldable pub erase : ℕ → Vector T → Outcome (Vector T)
  erase pos v = if leb v.size_ pos then undefined else (do
    m₁ ← move_down (v.size_ - (pos + 1)) (pos + 1) pos (memory v)
    m₂ ← destroy_at (v.size_ - 1) m₁
    returns (record (with_memory m₂ v) { size_ = v.size_ - 1 }))

  unfoldable pub pop_back : Vector T → Outcome (Vector T)
  pop_back v =
      if ltb 0 v.size_
      then (do
        m ← destroy_at (v.size_ - 1) (memory v)
        returns (record (with_memory m v) { size_ = v.size_ - 1 }))
      else returns v

  unfoldable pub at : ℕ → Vector T → Outcome T
  at pos v = if leb v.size_ pos then throws_out_of_range else value_at pos (memory v)

-- `operator =` from another vector. `std::allocator` does not propagate.
module _ {T : Type 0} (max_size : ℕ) where
  unfoldable pub copy_room : ℕ → Vector T → Outcome (Vector T)
  unfolding clear allocate
  copy_room size v =
      if ltb v.capacity_ size
      then (do
        w ← clear v
        block ← allocate max_size size
        returns (record w { data_ = some block; capacity_ = size }))
      else returns v

  unfoldable pub copy_assign : Vector T → Vector T → Outcome (Vector T)
  unfolding copy_room
  copy_assign other v = do
    w ← copy_room other.size_ v
    xs ← values other.size_ 0 (memory other)
    m ← copy_to xs 0 (memory w)
    returns (record (with_memory m w) { size_ = other.size_ })

  -- The copy constructor.
  unfoldable pub copied : Vector T → Outcome (Vector T)
  unfolding allocate
  copied other =
      if ltb 0 other.size_
      then (do
        block ← allocate max_size other.size_
        xs ← values other.size_ 0 (memory other)
        m ← copy_to xs 0 block
        returns (record { data_ = some m; size_ = other.size_; capacity_ = other.size_ }))
      else returns (record { data_ = none; size_ = other.size_; capacity_ = other.size_ })

module _ {T : Type 0} where
  -- The move constructor: the new vector, and what is left of the other one.
  unfoldable pub moved_from : Vector T → Vector T × Vector T
  moved_from other = (
    record { data_ = other.data_; size_ = other.size_; capacity_ = other.capacity_ },
    record { data_ = none; size_ = 0; capacity_ = 0 },
  )

  -- `operator =` that moves from another vector.
  unfoldable pub move_assign : Vector T → Vector T → Outcome (Vector T × Vector T)
  unfolding clear
  move_assign other v = do
    w ← clear v
    returns (
      record { data_ = other.data_; size_ = other.size_; capacity_ = other.capacity_ },
      record { data_ = none; size_ = 0; capacity_ = 0 },
    )

  -- `swap(other)`: both vectors.
  unfoldable pub swap : Vector T → Vector T → Vector T × Vector T
  swap other v = (
    record { data_ = v.data_; size_ = v.size_; capacity_ = v.capacity_ },
    record { data_ = other.data_; size_ = other.size_; capacity_ = other.capacity_ },
  )
