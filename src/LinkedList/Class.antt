-- ===== src/LinkedList/Class.antt =====
-- list/list.inl: the member functions of the list. `new` returns the addresses that are given, and an
-- iterator is its pointer. An `int` is a number that is not negative and does not overflow.
use cpp_projects_learning.Common.{
  ℕ, zero, suc, ◌+◌, ◌-◌, Bool, List, [], ◌∷◌, Option, none, some, ltb, ◌==◌, if◌then◌else◌, length,
}
use cpp_projects_learning.LinkedList.{
  null, Node, Heap, ◌>>=◌, load, set_prev, set_next, new_node, delete,
}

-- The members of `List`.
pub record Fields : Type 0 where
  pub m_head : ℕ
  pub m_tail : ℕ
  pub m_size : ℕ

abbrev pub empty_list : Fields
empty_list = record { m_head = null; m_tail = null; m_size = 0 }

-- `swap(other)` of two objects.
unfoldable pub swap : Fields → Fields → Fields × Fields
swap l other = (
  record { m_head = other.m_head; m_tail = other.m_tail; m_size = other.m_size },
  record { m_head = l.m_head; m_tail = l.m_tail; m_size = l.m_size },
)

-- What `front` and `back` do.
pub data Access (T : Type 0) : Type 0 where
  value : T → Access T
  throws_out_of_range undefined : Access T

abbrev pub value_of : {T : Type 0} → Option (Node T) → Access T
value_of none = undefined
value_of (some n) = value n.m_value

-- How the loop of `erase(first, last)` ends: an undefined call of `erase(it)` and a node that `it++`
-- cannot read are told apart.
pub data Ranged (T : Type 0) : Type 0 where
  erased : Heap T → Fields → Ranged T
  erase_undefined : Ranged T
  next_undefined : Ranged T
  out_of_fuel : Ranged T

abbrev pub or_else : {T A : Type 0} → Ranged T → Option A → (A → Ranged T) → Ranged T
or_else fault none f = fault
or_else fault (some a) f = f a

module _ {T : Type 0} where
  unfoldable pub front : Heap T → Fields → Access T
  unfolding load
  front h l = if l.m_size == 0 then throws_out_of_range else value_of (load l.m_head h)

  unfoldable pub back : Heap T → Fields → Access T
  unfolding load
  back h l = if l.m_size == 0 then throws_out_of_range else value_of (load l.m_tail h)

  unfoldable pub push_front : ℕ → T → Heap T → Fields → Option (Heap T × Fields)
  unfolding set_prev set_next new_node
  push_front node v h l =
      if l.m_size == 0
      then some (new_node node v h, record { m_head = node; m_tail = node; m_size = l.m_size + 1 })
      else (do
        h₁ ← set_prev l.m_head node (new_node node v h)
        h₂ ← set_next node l.m_head h₁
        some (h₂, record l { m_head = node; m_size = l.m_size + 1 }))

  unfoldable pub push_back : ℕ → T → Heap T → Fields → Option (Heap T × Fields)
  unfolding set_prev set_next new_node
  push_back node v h l =
      if l.m_size == 0
      then some (new_node node v h, record { m_head = node; m_tail = node; m_size = l.m_size + 1 })
      else (do
        h₁ ← set_next l.m_tail node (new_node node v h)
        h₂ ← set_prev node l.m_tail h₁
        some (h₂, record l { m_tail = node; m_size = l.m_size + 1 }))

  -- `delete head` deletes the second node, which stays the head.
  unfoldable pub pop_front : Heap T → Fields → Option (Heap T × Fields)
  unfolding load set_prev delete
  pop_front h l =
      if l.m_size == 0
      then some (h, l)
      else if l.m_size == 1
      then (do
        h₁ ← delete l.m_head h
        some (h₁, record { m_head = null; m_tail = null; m_size = l.m_size - 1 }))
      else (do
        n ← load l.m_head h
        h₁ ← set_prev n.m_next null h
        h₂ ← delete n.m_next h₁
        some (h₂, record l { m_head = n.m_next; m_size = l.m_size - 1 }))

  unfoldable pub pop_back : Heap T → Fields → Option (Heap T × Fields)
  unfolding load set_next delete
  pop_back h l =
      if l.m_size == 0
      then some (h, l)
      else if l.m_size == 1
      then (do
        h₁ ← delete l.m_head h
        some (h₁, record { m_head = null; m_tail = null; m_size = l.m_size - 1 }))
      else (do
        n ← load l.m_tail h
        h₁ ← set_next n.m_prev null h
        h₂ ← delete l.m_tail h₁
        some (h₂, record l { m_tail = n.m_prev; m_size = l.m_size - 1 }))

  -- `while(m_size > 0) pop_back();` on fuel; `none` when it runs out.
  unfoldable pub clear_loop : ℕ → Heap T → Fields → Option (Heap T × Fields)
  unfolding pop_back
  clear_loop zero h l = if ltb 0 l.m_size then none else some (h, l)
  clear_loop (suc fuel) h l =
      let popped = (do (h₁, l₁) ← pop_back h l; clear_loop fuel h₁ l₁) in
      if ltb 0 l.m_size then popped else some (h, l)

  -- Each round takes one off `m_size`.
  unfoldable pub clear : Heap T → Fields → Option (Heap T × Fields)
  unfolding clear_loop
  clear h l = clear_loop l.m_size h l

  -- The loops that push a value once for every node that `new` returns.
  unfoldable pub push_fronts : List ℕ → T → Heap T → Fields → Option (Heap T × Fields)
  unfolding push_front
  push_fronts [] v h l = some (h, l)
  push_fronts (node ∷ nodes) v h l = do (h₁, l₁) ← push_front node v h l; push_fronts nodes v h₁ l₁

  unfoldable pub push_backs : List ℕ → T → Heap T → Fields → Option (Heap T × Fields)
  unfolding push_back
  push_backs [] v h l = some (h, l)
  push_backs (node ∷ nodes) v h l = do (h₁, l₁) ← push_back node v h l; push_backs nodes v h₁ l₁

  unfoldable pub assign : List ℕ → T → Heap T → Fields → Option (Heap T × Fields)
  unfolding clear push_backs
  assign nodes v h l = do (h₁, l₁) ← clear h l; push_backs nodes v h₁ l₁

  -- `end()`; of an empty list it has no pointer.
  unfoldable pub end : Heap T → Fields → Option ℕ
  unfolding load
  end h l = if l.m_size == 0 then none else (do n ← load l.m_tail h; some n.m_next)

  -- The loop of `insert` in the middle: each node goes in front of the one before.
  unfoldable pub insert_loop : List ℕ → T → ℕ → Heap T → Option (Heap T × ℕ)
  unfolding load set_prev set_next new_node
  insert_loop [] v pos h = some (h, pos)
  insert_loop (node ∷ nodes) v pos h = do
    n ← load pos (new_node node v h)
    h₁ ← set_prev node n.m_prev (new_node node v h)
    h₂ ← set_next n.m_prev node h₁
    h₃ ← set_next node pos h₂
    h₄ ← set_prev pos node h₃
    insert_loop nodes v node h₄

  -- `insert(pos, n, value)`, with the iterator that it returns.
  unfoldable pub insert : ℕ → List ℕ → T → Heap T → Fields → Option (Heap T × Fields × ℕ)
  unfolding push_fronts push_backs end insert_loop
  insert pos nodes v h l =
      if pos == l.m_head
      then (do (h₁, l₁) ← push_fronts nodes v h l; some (h₁, l₁, l₁.m_head))
      else (do
        e ← end h l
        if pos == e then (do (h₁, l₁) ← push_backs nodes v h l; some (h₁, l₁, l.m_tail)) else (do
          (h₁, p) ← insert_loop nodes v pos h
          some (h₁, record l { m_size = l.m_size + length nodes }, p)))

  -- `if(node -> m_prev != nullptr)` and `if(node -> m_next != nullptr)` of `erase`.
  abbrev pub unless_null : ℕ → Option (Heap T) → Heap T → Option (Heap T)
  unless_null p o h = if p == null then some h else o

  -- `erase(pos)`; `m_tail` is not changed in the middle. Of an empty list it would make the size -1, and
  -- counts as undefined.
  unfoldable pub erase : ℕ → Heap T → Fields → Option (Heap T × Fields × ℕ)
  unfolding load set_prev set_next delete end
  erase pos h l =
      if l.m_size == 0
      then none
      else if pos == l.m_head
      then (if ltb 1 l.m_size
          then (do
            n ← load l.m_head h
            h₁ ← set_prev n.m_next null h
            h₂ ← delete l.m_head h₁
            some (h₂, record l { m_head = n.m_next; m_size = l.m_size - 1 }, n.m_next))
          else (do
            h₁ ← delete l.m_head h
            some (h₁, record { m_head = null; m_tail = null; m_size = l.m_size - 1 }, null)))
      else (do
        e ← end h l
        if pos == e then some (h, l, pos) else (do
          n ← load pos h
          h₁ ← unless_null n.m_prev (set_next n.m_prev n.m_next h) h
          h₂ ← unless_null n.m_next (set_prev n.m_next n.m_prev h₁) h₁
          h₃ ← delete pos h₂
          some (h₃, record l { m_size = l.m_size - 1 }, n.m_next)))

  -- The loop of `erase(first, last)`; `it++` reads the node that `erase(it)` has deleted.
  unfoldable pub erase_range : ℕ → ℕ → ℕ → Heap T → Fields → Ranged T
  unfolding load erase
  erase_range zero it last h l = out_of_fuel
  erase_range (suc fuel) it last h l =
      let more = or_else erase_undefined (erase it h l) (λ (h₁, l₁, next).
        or_else next_undefined (load it h₁) (λ n. erase_range fuel n.m_next last h₁ l₁)) in
      if it == last then erased h l else more

  -- The loops of `resize`: `m_size` changes while they run, and `i` goes up.
  unfoldable pub shrink_loop : ℕ → ℕ → ℕ → Heap T → Fields → Option (Heap T × Fields)
  unfolding pop_back
  shrink_loop zero i size h l = none
  shrink_loop (suc fuel) i size h l =
      let popped = (do (h₁, l₁) ← pop_back h l; shrink_loop fuel (i + 1) size h₁ l₁) in
      if ltb (size + i) l.m_size then popped else some (h, l)

  unfoldable pub grow_loop : List ℕ → ℕ → ℕ → T → Heap T → Fields → Option (Heap T × Fields)
  unfolding push_back
  grow_loop [] i size v h l = if ltb (l.m_size + i) size then none else some (h, l)
  grow_loop (node ∷ nodes) i size v h l =
      let pushed = (do (h₁, l₁) ← push_back node v h l; grow_loop nodes (i + 1) size v h₁ l₁) in
      if ltb (l.m_size + i) size then pushed else some (h, l)

  -- `resize(size)`, with the value `T()`.
  unfoldable pub resize : ℕ → List ℕ → T → Heap T → Fields → Option (Heap T × Fields)
  unfolding shrink_loop grow_loop
  resize size nodes v h l =
      if ltb size l.m_size
      then shrink_loop (l.m_size + 1) 0 size h l
      else grow_loop nodes 0 size v h l

  -- `merge(other)`: this list, and the other one behind it.
  unfoldable pub merge : Heap T → Fields → Fields → Option (Heap T × Fields × Fields)
  unfolding set_next set_prev
  merge h l other = do
    h₁ ← set_next l.m_tail other.m_head h
    h₂ ← set_prev other.m_head l.m_tail h₁
    some (h₂, record l { m_tail = other.m_tail; m_size = l.m_size + other.m_size }, empty_list)

  -- The loop of `reserve()`, which turns the list round, on fuel.
  unfoldable pub reserve_loop : ℕ → ℕ → Heap T → Option (Heap T)
  unfolding load set_prev set_next
  reserve_loop zero node h = if node == null then some h else none
  reserve_loop (suc fuel) node h =
      let turned = (do
        n ← load node h
        h₁ ← set_next node n.m_prev h
        h₂ ← set_prev node n.m_next h₁
        reserve_loop fuel n.m_prev h₂) in
      if node == null then some h else turned

  unfoldable pub reserve : Heap T → Fields → Option (Heap T × Fields)
  unfolding reserve_loop
  reserve h l = if ltb l.m_size 2 then some (h, l) else (do
    h₁ ← reserve_loop l.m_size l.m_tail h
    some (h₁, record l { m_head = l.m_tail; m_tail = l.m_head }))

  module _ (eq : T → T → Bool) where
    -- The loops of `remove`, on fuel. The first reads `m_prev` of the next node, which may be null, and
    -- does not change it; the second goes on behind the node that follows a removed one.
    unfoldable pub remove_front : ℕ → T → Heap T → Fields → Option (Heap T × Fields)
    unfolding load delete
    remove_front zero v h l = none
    remove_front (suc fuel) v h l =
        let again = (do
          n ← load l.m_head h
          next ← load n.m_next h
          h₁ ← delete l.m_head h
          remove_front fuel v h₁ (record l { m_head = n.m_next; m_size = l.m_size - 1 })) in
        if l.m_head == null
        then some (h, l)
        else (do n ← load l.m_head h; if eq n.m_value v then again else some (h, l))

    unfoldable pub remove_behind : ℕ → T → ℕ → Heap T → Fields → Option (Heap T × Fields)
    unfolding load set_next set_prev delete
    remove_behind zero v node h l = none
    remove_behind (suc fuel) v node h l =
        let again =
          (λ (g : Heap T) (k : Fields). do n ← load node g; remove_behind fuel v n.m_next g k) in
        if node == null then some (h, l) else (do
          n ← load node h
          if n.m_next == null then some (h, l) else (do
            temp ← load n.m_next h
            if eq temp.m_value v
                then (do
                  h₁ ← set_next node temp.m_next h
                  h₂ ← set_prev temp.m_next node h₁
                  h₃ ← delete n.m_next h₂
                  again h₃ (record l { m_size = l.m_size - 1 }))
                else again h l))

    unfoldable pub remove : T → Heap T → Fields → Option (Heap T × Fields)
    unfolding remove_front remove_behind
    remove v h l = if l.m_size == 0 then some (h, l) else (do
      (h₁, l₁) ← remove_front (l.m_size + 1) v h l
      remove_behind (l₁.m_size + 1) v l₁.m_head h₁ l₁)

    -- `find`, on fuel: the pointer to the first node with the value, or `nullptr`.
    unfoldable pub find_loop : ℕ → T → ℕ → Heap T → Option ℕ
    unfolding load
    find_loop zero v node h = if node == null then some null else none
    find_loop (suc fuel) v node h =
        let looked = (do
          n ← load node h
          let rest = find_loop fuel v n.m_next h
          if eq n.m_value v then some node else rest) in
        if node == null then some null else looked

    unfoldable pub find : T → Heap T → Fields → Option ℕ
    unfolding find_loop
    find v h l = find_loop l.m_size v l.m_head h
