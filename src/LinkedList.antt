-- ===== src/LinkedList.antt =====
-- list/list.inl and list/node.h: the nodes in memory, and reads and writes through their pointers. The
-- member functions are in `Class`.
pub mod Class
pub mod Chain
pub mod Ends
pub mod Join
pub mod Removal
pub mod Assign
pub mod Erase
pub mod Dangling
pub mod Range
pub mod Insert
pub mod Turn
pub mod Resize
pub mod Grow
mod Tests
use cpp_projects_learning.Common.{
  ℕ, ◌≡◌, Bool, true, false, Option, none, some, ◌==◌, if◌then◌else◌,
}

-- A pointer is an address; `nullptr` is 0.
abbrev pub null : ℕ
null = 0

pub record Node (T : Type 0) : Type 0 where
  pub m_value : T
  pub m_prev : ℕ
  pub m_next : ℕ

-- The nodes that were made by `new` and not deleted. An access anywhere else is undefined: `none`.
abbrev pub Heap : Type 0 → Type 0
Heap T = ℕ → Option (Node T)

infixl 5 ◌>>=◌
abbrev pub ◌>>=◌ : {A B : Type 0} → Option A → (A → Option B) → Option B
o >>= f = elim o [ none ↦ none | some a ↦ f a ]

module _ {T : Type 0} where
  unfoldable pub write : ℕ → Option (Node T) → Heap T → Heap T
  write p c h q = if p == q then c else h q

  unfoldable pub load : ℕ → Heap T → Option (Node T)
  load p h = if p == null then none else h p

  -- `p -> m_prev = q` and `p -> m_next = q`
  unfoldable pub set_prev : ℕ → ℕ → Heap T → Option (Heap T)
  unfolding load write
  set_prev p q h = do n ← load p h; some (write p (some (record n { m_prev = q })) h)

  unfoldable pub set_next : ℕ → ℕ → Heap T → Option (Heap T)
  unfolding load write
  set_next p q h = do n ← load p h; some (write p (some (record n { m_next = q })) h)

  -- `new Node(value)`, where `new` returns `p`.
  unfoldable pub new_node : ℕ → T → Heap T → Heap T
  unfolding write
  new_node p value h = write p (some (record { m_value = value; m_prev = null; m_next = null })) h

  -- `delete p`; nothing happens at `nullptr`.
  unfoldable pub delete : ℕ → Heap T → Option (Heap T)
  unfolding load write
  delete p h = if p == null then some h else (do n ← load p h; some (write p none h))
