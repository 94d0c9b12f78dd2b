-- ===== src/Serialize.antt =====
-- cpp-serialize/DataStream.h: the byte buffer of `DataStream`, its growth, and raw access to it.
pub mod Scalars
pub mod Codec
pub mod RoundTrip
pub mod Containers
pub mod Sequences
pub mod Ordered
pub mod Rounds
pub mod Display
mod Tests
use mathlib.Core.Option
use mathlib.Core.Option.{Option}
use cpp_projects_learning.Common.{
  ℕ, zero, suc, ◌+◌, ◌*◌, ◌/◌, ◌%◌, ◌^◌, max, List, [], ◌∷◌, none, some, ltb, leb, ◌==◌,
  if◌then◌else◌, length, get_elem?, drop,
}

-- `enum DataType`, in the order of the source.
pub data DataType : Type 0 where
  bool char int16 int32 int64 float double string vector list set map custom : DataType

abbrev pub tag : DataType → ℕ
tag bool = 0
tag char = 1
tag int16 = 2
tag int32 = 3
tag int64 = 4
tag float = 5
tag double = 6
tag string = 7
tag vector = 8
tag list = 9
tag set = 10
tag map = 11
tag custom = 12

-- `vector<char> m_buf` with its capacity, and the read position. A `char` is a byte, 0 to 255.
pub record DataStream : Type 0 where
  pub m_buf : List ℕ
  pub capacity : ℕ
  pub m_pos : ℕ

abbrev pub empty_stream : DataStream
empty_stream = record { m_buf = []; capacity = 0; m_pos = 0 }

-- A member function: it returns a value and the new stream. `none` is undefined behaviour: an
-- access outside the buffer, a read of an uninitialised variable, or an `int` that overflows.
abbrev pub Action : Type 0 → Type 0
Action A = DataStream → Option (A × DataStream)

abbrev pub pure : {A : Type 0} → A → Action A
pure a s = some (a, s)

abbrev pub undefined : {A : Type 0} → Action A
undefined s = none

infixl 5 ◌>>=◌ ◌>>◌
abbrev pub ◌>>=◌ : {A B : Type 0} → Action A → (A → Action B) → Action B
◌>>=◌ m f s = elim (m s) [ none ↦ none | some (a, s') ↦ f a s' ]

abbrev pub ◌>>◌ : {B : Type 0} → Action (Unit {0}) → Action B → Action B
m >> k = m >>= λ _. k

abbrev pub int_limit : ℕ
int_limit = 2 ^ 31

-- One round of the loop in `reserve`.
unfoldable pub doubled : ℕ → ℕ
doubled room = if room == 0 then 1 else room * 2

-- `while(size + len > cap)`; `none` if `cap` overflows an `int`, or the fuel runs out.
unfoldable pub grow : ℕ → ℕ → ℕ → Option ℕ
unfolding doubled
grow zero need room = none
grow (suc fuel) need room =
    let rest = if leb int_limit (doubled room) then none else grow fuel need (doubled room) in
    if ltb room need then rest else some room

-- From 0 the loop passes 2 ^ 30 after 31 rounds.
abbrev pub grow_fuel : ℕ
grow_fuel = 33

-- `m_buf.reserve(cap)` of the standard library makes the capacity at least `room`.
unfoldable pub reserve : ℕ → Action (Unit {0})
reserve len s =
    let need = length s.m_buf + len in
    if ltb s.capacity need
    then Option.map (λ room. (tt, record s { capacity = max s.capacity room }))
        (grow grow_fuel need s.capacity)
    else some (tt, s)

-- `m_buf.resize(n)`: new places hold 0.
abbrev pub resize : ℕ → List ℕ → List ℕ
resize zero xs = []
resize (suc n) [] = 0 ∷ resize n []
resize (suc n) (x ∷ xs) = x ∷ resize n xs

-- `memcpy(&m_buf[at], data, len)`, inside the buffer.
abbrev pub memcpy : ℕ → List ℕ → List ℕ → List ℕ
memcpy zero [] xs = xs
memcpy zero (d ∷ ds) [] = []
memcpy zero (d ∷ ds) (x ∷ xs) = d ∷ memcpy zero ds xs
memcpy (suc i) ds [] = []
memcpy (suc i) ds (x ∷ xs) = x ∷ memcpy i ds xs

-- `write(const char * data, int len)`. With no bytes `&m_buf[size]` is an access behind the end.
unfoldable pub write_bytes : List ℕ → Action (Unit {0})
write_bytes bytes = do
  reserve (length bytes)
  λ s.
      let size = length s.m_buf in
      let copied = memcpy size bytes (resize (size + length bytes) s.m_buf) in
      if length bytes == 0 then none else some (tt, record s { m_buf = copied })

-- `m_buf[m_pos]`
unfoldable pub peek : Action ℕ
peek s = Option.map (λ b. (b, s)) (get_elem? s.m_buf s.m_pos)

-- `m_pos += n`
unfoldable pub advance : ℕ → Action (Unit {0})
advance n s = some (tt, record s { m_pos = s.m_pos + n })

-- The first `n` bytes, if there are so many.
abbrev pub split_first : ℕ → List ℕ → Option (List ℕ)
split_first zero xs = some []
split_first (suc n) [] = none
split_first (suc n) (x ∷ xs) = Option.map (λ ys. x ∷ ys) (split_first n xs)

-- The `n` bytes at `&m_buf[m_pos]`, which is an access to the first of them also when `n` is 0. The
-- address may have any alignment.
unfoldable pub load : ℕ → Action (List ℕ)
unfolding peek
load n = do first ← peek; λ s. Option.map (λ bs. (bs, s)) (split_first n (drop s.m_pos s.m_buf))

-- An integer in memory, least byte first.
abbrev pub le_bytes : ℕ → ℕ → List ℕ
le_bytes zero n = []
le_bytes (suc k) n = (n % 256) ∷ le_bytes k (n / 256)

abbrev pub le_value : List ℕ → ℕ
le_value [] = 0
le_value (b ∷ bs) = b + 256 * le_value bs
