-- ===== src/Serialize/Scalars.antt =====
-- cpp-serialize/DataStream.h: `write` and `read` of the scalar types and of strings, and the
-- operators << and >> on them. A `char`, an integer or a floating-point number is its bit pattern,
-- a number below 2 ^ w: the code only copies it. A string is its bytes.
use cpp_projects_learning.Common.{
  ℕ, ◌%◌, ◌^◌, Bool, true, false, not, List, [], ◌∷◌, leb, ◌==◌, if◌then◌else◌, length,
}
use cpp_projects_learning.Serialize.{
  DataType, bool, char, int16, int32, int64, float, double, string, tag, Action, pure, undefined,
  ◌>>=◌, ◌>>◌, int_limit, write_bytes, peek, advance, load, le_bytes, le_value,
}

abbrev pub write_tag : DataType → Action (Unit {0})
write_tag t = write_bytes (tag t ∷ [])

-- The common shape of the scalar overloads of `write`: the tag, then `sizeof` bytes.
abbrev pub write_word : DataType → ℕ → ℕ → Action (Unit {0})
write_word t size value = do write_tag t; write_bytes (le_bytes size value)

unfoldable pub write_bool : Bool → Action (Unit {0})
write_bool value = do write_tag bool; write_bytes ((if value then 1 else 0) ∷ [])

unfoldable pub write_char : ℕ → Action (Unit {0})
write_char value = do write_tag char; write_bytes (value ∷ [])

unfoldable pub write_int16 : ℕ → Action (Unit {0})
write_int16 = write_word int16 2

unfoldable pub write_int32 : ℕ → Action (Unit {0})
write_int32 = write_word int32 4

unfoldable pub write_int64 : ℕ → Action (Unit {0})
write_int64 = write_word int64 8

unfoldable pub write_float : ℕ → Action (Unit {0})
write_float = write_word float 4

unfoldable pub write_double : ℕ → Action (Unit {0})
write_double = write_word double 8

-- `int len = value.size()` keeps the low 32 bits.
abbrev pub to_int : ℕ → ℕ
to_int n = n % 2 ^ 32

unfoldable pub write_string : List ℕ → Action (Unit {0})
unfolding write_int32
write_string value = do write_tag string; write_int32 (to_int (length value)); write_bytes value

-- The test at the head of each `read`: `value` stays as it was when the tag is another.
unfoldable pub read_checked : {A : Type 0} → DataType → A → Action (Bool × A) → Action (Bool × A)
read_checked t value body = do
  b ← peek
  if not (b == tag t) then pure (false, value) else (do advance 1; body)

abbrev pub read_tagged : {A : Type 0} → DataType → A → Action A → Action (Bool × A)
read_tagged t value body = read_checked t value do v ← body; pure (true, v)

-- `value = *((T *)(&m_buf[m_pos])); m_pos += size;`
abbrev pub read_word : ℕ → Action ℕ
read_word size = do bs ← load size; advance size; pure (le_value bs)

unfoldable pub read_bool : Bool → Action (Bool × Bool)
unfolding read_checked
read_bool value = read_tagged bool value do b ← peek; advance 1; pure (not (b == 0))

unfoldable pub read_char : ℕ → Action (Bool × ℕ)
unfolding read_checked
read_char value = read_tagged char value do b ← peek; advance 1; pure b

unfoldable pub read_int16 : ℕ → Action (Bool × ℕ)
unfolding read_checked
read_int16 value = read_tagged int16 value (read_word 2)

unfoldable pub read_int32 : ℕ → Action (Bool × ℕ)
unfolding read_checked
read_int32 value = read_tagged int32 value (read_word 4)

unfoldable pub read_int64 : ℕ → Action (Bool × ℕ)
unfolding read_checked
read_int64 value = read_tagged int64 value (read_word 8)

unfoldable pub read_float : ℕ → Action (Bool × ℕ)
unfolding read_checked
read_float value = read_tagged float value (read_word 4)

unfoldable pub read_double : ℕ → Action (Bool × ℕ)
unfolding read_checked
read_double value = read_tagged double value (read_word 8)

-- `int len; read(len);`: when `read` fails, `len` is used with no value.
unfoldable pub read_length : Action ℕ
unfolding read_int32
read_length = do (got, len) ← read_int32 0; if got then pure len else undefined

-- `len < 0`
abbrev pub is_negative : ℕ → Bool
is_negative len = leb int_limit len

-- `read(string & value)` behind the tag.
unfoldable pub read_string_body : List ℕ → Action (Bool × List ℕ)
unfolding read_length
read_string_body value = do
  len ← read_length
  if is_negative len
      then pure (false, value)
      else (do bytes ← load len; advance len; pure (true, bytes))

unfoldable pub read_string : List ℕ → Action (Bool × List ℕ)
unfolding read_checked read_string_body
read_string value = read_checked string value (read_string_body value)

-- A value of one of the types that the scalar overloads take.
pub data Scalar : Type 0 where
  bool_of : Bool → Scalar
  char_of int16_of int32_of int64_of float_of double_of : ℕ → Scalar
  string_of : List ℕ → Scalar

abbrev pub kind : Scalar → DataType
kind (bool_of b) = bool
kind (char_of c) = char
kind (int16_of n) = int16
kind (int32_of n) = int32
kind (int64_of n) = int64
kind (float_of n) = float
kind (double_of n) = double
kind (string_of s) = string

-- `stream << value`: the overload is chosen by the type.
unfoldable pub write : Scalar → Action (Unit {0})
write (bool_of b) = write_bool b
write (char_of c) = write_char c
write (int16_of n) = write_int16 n
write (int32_of n) = write_int32 n
write (int64_of n) = write_int64 n
write (float_of n) = write_float n
write (double_of n) = write_double n
write (string_of s) = write_string s

abbrev pub wrap : {A : Type 0} → (A → Scalar) → Action (Bool × A) → Action (Bool × Scalar)
wrap f m = do (got, a) ← m; pure (got, f a)

-- `read(value)` into a variable that holds a value of its type.
unfoldable pub read : Scalar → Action (Bool × Scalar)
read (bool_of b) = wrap bool_of (read_bool b)
read (char_of c) = wrap char_of (read_char c)
read (int16_of n) = wrap int16_of (read_int16 n)
read (int32_of n) = wrap int32_of (read_int32 n)
read (int64_of n) = wrap int64_of (read_int64 n)
read (float_of n) = wrap float_of (read_float n)
read (double_of n) = wrap double_of (read_double n)
read (string_of s) = wrap string_of (read_string s)

-- `stream << a << b << ...`
unfoldable pub insert : List Scalar → Action (Unit {0})
insert [] = pure tt
insert (v ∷ vs) = do write v; insert vs

-- `stream >> a >> b >> ...`, which drops what `read` returns; the new values of the variables.
unfoldable pub extract : List Scalar → Action (List Scalar)
extract [] = pure []
extract (v ∷ vs) = do (got, w) ← read v; ws ← extract vs; pure (w ∷ ws)
