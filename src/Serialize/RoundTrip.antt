-- ===== src/Serialize/RoundTrip.antt =====
-- cpp-serialize/DataStream.h: what operator >> reads is what operator << wrote.
use cpp_projects_learning.Common.{
  ℕ, suc, ◌+◌, ◌^◌, ◌≤◌, ◌<◌, ◌≡◌, refl, ◌∙◌, Bool, true, false, not, List, [], ◌∷◌, ◌++◌,
  append-nil, some, arith, ◌==◌, if◌then◌else◌, length, length-append, drop-length-append, sym,
  ==_self,
}
use cpp_projects_learning.Serialize.{
  DataType, bool, char, int16, int32, int64, float, double, string, tag, DataStream, Action, pure,
  ◌>>=◌, ◌>>◌, int_limit, peek, advance, le_bytes, le_value,
}
use cpp_projects_learning.Serialize.Codec.{
  size_limit, Writes, write_bytes-Writes, pure-Writes, >>-Writes, rest, Reads, pure-Reads,
  >>=-Reads, >>=-run, peek-head, load-Reads, le_value-bytes, length-le_bytes, rest-advance,
}
use cpp_projects_learning.Serialize.Scalars.{
  write_tag, write_word, write_bool, write_char, write_int16, write_int32, write_int64, write_float,
  write_double, write_string, read_checked, read_tagged, read_word, read_bool, read_char,
  read_int16, read_int32, read_int64, read_float, read_double, read_length, read_string_body,
  read_string, to_int, is_negative, Scalar, bool_of, char_of, int16_of, int32_of, int64_of,
  float_of, double_of, string_of, kind, write, read, insert, extract, wrap,
}

-- The layout in the buffer.
abbrev pub encode : Scalar → List ℕ
encode (bool_of b) = tag bool ∷ (if b then 1 else 0) ∷ []
encode (char_of c) = tag char ∷ c ∷ []
encode (int16_of n) = tag int16 ∷ le_bytes 2 n
encode (int32_of n) = tag int32 ∷ le_bytes 4 n
encode (int64_of n) = tag int64 ∷ le_bytes 8 n
encode (float_of n) = tag float ∷ le_bytes 4 n
encode (double_of n) = tag double ∷ le_bytes 8 n
encode (string_of s) = tag string ∷ tag int32 ∷ (le_bytes 4 (length s) ++ s)

-- The bit patterns of each type, and the strings whose length is an `int`.
abbrev pub Fits : Scalar → Type 0
Fits (bool_of b) = Unit
Fits (char_of c) = Unit
Fits (int16_of n) = n < 2 ^ 16
Fits (int32_of n) = n < 2 ^ 32
Fits (int64_of n) = n < 2 ^ 64
Fits (float_of n) = n < 2 ^ 32
Fits (double_of n) = n < 2 ^ 64
Fits (string_of s) = length s < int_limit

-- The strings that are not empty.
abbrev pub Filled : Scalar → Type 0
Filled (string_of s) = 0 < length s
Filled _ = Unit

pub write_tag-Writes : (t : DataType) → Writes (write_tag t) (tag t ∷ [])
write_tag-Writes t = write_bytes-Writes (tag t ∷ []) (omega arith)

pub write_word-Writes :
    (t : DataType) (size n : ℕ) → 0 < size → Writes (write_word t size n) (tag t ∷ le_bytes size n)
write_word-Writes t size n h =
    >>-Writes _ _ (tag t ∷ []) _ (write_tag-Writes t)
      (write_bytes-Writes (le_bytes size n) (omega (arith, length-le_bytes size n)))

write_string-Writes :
    (s : List ℕ)
    → length s < int_limit
    → 0 < length s
    → Writes (write_string s) (encode (string_of s))
unfolding write_string
write_string-Writes s h filled =
    let whole : to_int (length s) ≡ length s = omega arith in
    rw whole (
      >>-Writes _ _ (tag string ∷ []) _ (write_tag-Writes string) (
        >>-Writes _ _ (tag int32 ∷ le_bytes 4 (length s)) s
          (write_word-Writes int32 4 (length s) (omega arith)) (write_bytes-Writes s filled)))

-- `<<` appends the encoding.
write-Writes : (v : Scalar) → Fits v → Filled v → Writes (write v) (encode v)
unfolding write write_bool write_char write_int16 write_int32 write_int64 write_float write_double
write-Writes (bool_of b) h f =
    >>-Writes _ _ (tag bool ∷ []) _ (write_tag-Writes bool) (write_bytes-Writes _ (omega arith))
write-Writes (char_of c) h f =
    >>-Writes _ _ (tag char ∷ []) _ (write_tag-Writes char) (write_bytes-Writes _ (omega arith))
write-Writes (int16_of n) h f = write_word-Writes int16 2 n (omega arith)
write-Writes (int32_of n) h f = write_word-Writes int32 4 n (omega arith)
write-Writes (int64_of n) h f = write_word-Writes int64 8 n (omega arith)
write-Writes (float_of n) h f = write_word-Writes float 4 n (omega arith)
write-Writes (double_of n) h f = write_word-Writes double 8 n (omega arith)
write-Writes (string_of s) h f = write_string-Writes s h f

module _ {A : Type 0} (t : DataType) (old : A) (body : Action (Bool × A)) where
  -- With the right tag in front the body runs, one byte further.
  pub read_checked-run :
      (post : List ℕ) (s : DataStream)
      → rest s ≡ tag t ∷ post
      → read_checked t old body s ≡ body (record s { m_pos = s.m_pos + 1 })
  unfolding read_checked advance
  read_checked-run post s e = >>=-run peek _ s (peek-head s (tag t) post e) ∙ rw (==_self (tag t))

  pub read_checked-Reads :
      (bytes : List ℕ) (a : Bool × A)
      → Reads body bytes a
      → Reads (read_checked t old body) (tag t ∷ bytes) a
  read_checked-Reads bytes a h s post e =
      let next = record s { m_pos = s.m_pos + 1 } in
      let got = h next post (rest-advance s (tag t ∷ []) (bytes ++ post) e) in
      let l : s.m_pos + 1 + length bytes ≡ s.m_pos + suc (length bytes) = omega arith in
      read_checked-run (bytes ++ post) s e ∙ got ∙ rw l

  -- Another tag is refused: nothing is read, and the variable keeps its value.
  pub read_checked-refuses :
      (b : ℕ) (post : List ℕ) (s : DataStream)
      → rest s ≡ b ∷ post
      → (b == tag t) ≡ false
      → read_checked t old body s ≡ some ((false, old), s)
  unfolding read_checked
  read_checked-refuses b post s e n = >>=-run peek _ s (peek-head s b post e) ∙ rw n

read_tagged-Reads :
    {A : Type 0} (t : DataType) (old : A) (body : Action A) (bytes : List ℕ) (a : A)
    → Reads body bytes a
    → Reads (read_tagged t old body) (tag t ∷ bytes) (true, a)
read_tagged-Reads t old body bytes a h =
    read_checked-Reads t old _ bytes (true, a) (λ s post e. >>=-run body _ s (h s post e))

-- `value = m_buf[m_pos]; ++m_pos;`
byte-Reads :
    {A : Type 0} (f : ℕ → A) (c : ℕ) → Reads (do b ← peek; advance 1; pure (f b)) (c ∷ []) (f c)
unfolding advance
byte-Reads f c s post e = >>=-run peek _ s (peek-head s c post e)

word-Reads : (size n : ℕ) → 0 < size → n < 256 ^ size → Reads (read_word size) (le_bytes size n) n
word-Reads size n p h =
    rw (le_value-bytes size n h) at
      (load-Reads le_value size (le_bytes size n) (length-le_bytes size n) p)

pub tagged_word-Reads :
    (t : DataType) (size old n : ℕ)
    → 0 < size
    → n < 256 ^ size
    → Reads (read_tagged t old (read_word size)) (tag t ∷ le_bytes size n) (true, n)
tagged_word-Reads t size old n p h =
    read_tagged-Reads t old (read_word size) (le_bytes size n) n (word-Reads size n p h)

pub length-Reads : (n : ℕ) → n < 2 ^ 32 → Reads read_length (tag int32 ∷ le_bytes 4 n) n
unfolding read_length read_int32
length-Reads n h s post e =
    >>=-run (read_tagged int32 0 (read_word 4)) _ s
      (tagged_word-Reads int32 4 0 n (omega arith) h s post e)

string-Reads :
    (old s : List ℕ)
    → length s < int_limit
    → 0 < length s
    → Reads (read_string old) (encode (string_of s)) (true, s)
unfolding read_string read_string_body
string-Reads old s h filled =
    let short : is_negative (length s) ≡ false = ground arith in
    let body : Reads (read_string_body old) (tag int32 ∷ (le_bytes 4 (length s) ++ s)) (true, s) =
      >>=-Reads read_length _ (tag int32 ∷ le_bytes 4 (length s)) s (length s) _
        (length-Reads (length s) (omega arith))
        (rw short (load-Reads (λ bytes. (true, bytes)) (length s) s refl filled)) in
    read_checked-Reads string old (read_string_body old) (tag int32 ∷ (le_bytes 4 (length s) ++ s))
      (true, s) body

wrap-Reads :
    {A : Type 0} (f : A → Scalar) (r : Action (Bool × A)) (bytes : List ℕ) (a : A)
    → Reads r bytes (true, a)
    → Reads (wrap f r) bytes (true, f a)
wrap-Reads f r bytes a h s post e = >>=-run r _ s (h s post e)

bool-Reads : (old b : Bool) → Reads (read_bool old) (encode (bool_of b)) (true, b)
unfolding read_bool
bool-Reads old false =
    read_tagged-Reads bool old _ (0 ∷ []) false (byte-Reads (λ c. not (c == 0)) 0)
bool-Reads old true = read_tagged-Reads bool old _ (1 ∷ []) true (byte-Reads (λ c. not (c == 0)) 1)

char-Reads : (old c : ℕ) → Reads (read_char old) (encode (char_of c)) (true, c)
unfolding read_char
char-Reads old c = read_tagged-Reads char old _ (c ∷ []) c (byte-Reads (λ b. b) c)

-- `>>` into a variable of the same type takes the encoding back.
pub read-Reads :
    (old v : Scalar) → kind old ≡ kind v → Fits v → Filled v → Reads (read old) (encode v) (true, v)
unfolding read read_int16 read_int32 read_int64 read_float read_double
read-Reads (bool_of a) (bool_of b) k h f =
    wrap-Reads bool_of _ (encode (bool_of b)) b (bool-Reads a b)
read-Reads (char_of a) (char_of b) k h f =
    wrap-Reads char_of _ (encode (char_of b)) b (char-Reads a b)
read-Reads (int16_of a) (int16_of b) k h f =
    wrap-Reads int16_of _ (encode (int16_of b)) b
      (tagged_word-Reads int16 2 a b (omega arith) (omega arith))
read-Reads (int32_of a) (int32_of b) k h f =
    wrap-Reads int32_of _ (encode (int32_of b)) b
      (tagged_word-Reads int32 4 a b (omega arith) (omega arith))
read-Reads (int64_of a) (int64_of b) k h f =
    wrap-Reads int64_of _ (encode (int64_of b)) b
      (tagged_word-Reads int64 8 a b (omega arith) (omega arith))
read-Reads (float_of a) (float_of b) k h f =
    wrap-Reads float_of _ (encode (float_of b)) b
      (tagged_word-Reads float 4 a b (omega arith) (omega arith))
read-Reads (double_of a) (double_of b) k h f =
    wrap-Reads double_of _ (encode (double_of b)) b
      (tagged_word-Reads double 8 a b (omega arith) (omega arith))
read-Reads (string_of a) (string_of b) k h f =
    wrap-Reads string_of _ (encode (string_of b)) b (string-Reads a b h f)
read-Reads _ _ k h f = cc

abbrev pub AllFit : List Scalar → Type 0
AllFit [] = Unit
AllFit (v ∷ vs) = Fits v × AllFit vs

abbrev pub AllFilled : List Scalar → Type 0
AllFilled [] = Unit
AllFilled (v ∷ vs) = Filled v × AllFilled vs

-- Variables of the types of the values, in order.
abbrev pub SameKinds : List Scalar → List Scalar → Type 0
SameKinds [] [] = Unit
SameKinds (old ∷ olds) (v ∷ vs) = (kind old ≡ kind v) × SameKinds olds vs
SameKinds _ _ = ⊥

abbrev pub encode_all : List Scalar → List ℕ
encode_all [] = []
encode_all (v ∷ vs) = encode v ++ encode_all vs

insert-Writes : (vs : List Scalar) → AllFit vs → AllFilled vs → Writes (insert vs) (encode_all vs)
unfolding insert
insert-Writes [] h f = pure-Writes
insert-Writes (v ∷ vs) h f =
    >>-Writes (write v) (insert vs) (encode v) (encode_all vs) (write-Writes v h.0 f.0)
      (insert-Writes vs h.1 f.1)

extract-Reads :
    (olds vs : List Scalar)
    → SameKinds olds vs
    → AllFit vs
    → AllFilled vs
    → Reads (extract olds) (encode_all vs) vs
unfolding extract
extract-Reads [] [] k h f = pure-Reads []
extract-Reads [] (v ∷ vs) k h f = elim k [ ]
extract-Reads (old ∷ olds) [] k h f = elim k [ ]
extract-Reads (old ∷ olds) (v ∷ vs) k h f =
    >>=-Reads (read old) _ (encode v) (encode_all vs) (true, v) (v ∷ vs)
      (read-Reads old v k.0 h.0 f.0)
      (λ s post e. >>=-run (extract olds) _ s (extract-Reads olds vs k.1 h.1 f.1 s post e))

-- Whatever scalars and strings are written with << onto a stream that has been read to its end,
-- operator >> into variables of the same types gives the same values back, in order, and is then at
-- the end of the stream again. The values have the bit patterns of their types, the strings are not
-- empty and shorter than 2 ^ 31, and the buffer stays within 2 ^ 30 bytes. Neither side accesses a
-- byte outside the buffer, reads a variable without a value or overflows the capacity; a number may
-- be read at any address.
pub extract-insert :
    (olds vs : List Scalar) (start : DataStream)
    → start.m_pos ≡ length start.m_buf
    → SameKinds olds vs
    → AllFit vs
    → AllFilled vs
    → length start.m_buf + length (encode_all vs) ≤ size_limit
    → (written done : DataStream) × (insert vs start ≡ some (tt, written))
      × (extract olds written ≡ some (vs, done))
      × (done.m_buf ≡ start.m_buf ++ encode_all vs)
      × (done.m_pos ≡ length done.m_buf)
extract-insert olds vs start e k h f fits =
    let bytes = encode_all vs in
    let (room, w) = insert-Writes vs h f start fits in
    let written = record start { m_buf = start.m_buf ++ bytes; capacity = room } in
    let left : rest written ≡ bytes ++ [] =
      rw e (drop-length-append start.m_buf bytes) ∙ sym (append-nil bytes) in
    (
      written,
      record written { m_pos = written.m_pos + length bytes },
      w,
      extract-Reads olds vs k h f written [] left,
      refl,
      omega (arith, length-append start.m_buf bytes),
    )
