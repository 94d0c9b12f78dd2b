-- ===== src/Serialize/Rounds.antt =====
-- cpp-serialize/DataStream.h: `display`, which prints the values of the buffer one by one, and what
-- one round of its loop does.
use cpp_projects_learning.Common.{
  ℕ, zero, suc, ◌+◌, ◌^◌, ◌<◌, ◌≡◌, refl, ap, ◌∙◌, true, false, not, List, [], ◌∷◌, ◌++◌, Option,
  none, some, arith, ◌==◌, if◌then◌else◌, length, get_elem?, drop, drop-add, drop-length-append,
  get_elem?-drop,
}
use cpp_projects_learning.Serialize.{
  DataType, bool, char, int16, int32, int64, float, double, string, tag, DataStream, split_first,
  le_bytes, le_value, int_limit,
}
use cpp_projects_learning.Serialize.Scalars.{
  Scalar, bool_of, char_of, int16_of, int32_of, int64_of, float_of, double_of, string_of,
  is_negative,
}
use cpp_projects_learning.Serialize.Codec.{split_first-append, le_value-bytes, length-le_bytes}
use cpp_projects_learning.Serialize.RoundTrip.{encode, Fits}

-- One round of the loop: a value is printed and `i` moves on, or `i` stays, or the round fails.
pub data Round : Type 0 where
  printed : Scalar → ℕ → Round
  stays throws_logic_error throws_length_error out_of_bounds : Round

module _ (buf : List ℕ) (i : ℕ) where
  -- The value of the `size` bytes at `&m_buf[++i]`; then `i += size`.
  abbrev pub show_word : (ℕ → Scalar) → ℕ → Round
  show_word of size = elim (split_first size (drop (i + 1) buf)) [
    | none ↦ out_of_bounds
    | some bytes ↦ printed (of (le_value bytes)) (i + 1 + size)
  ]

  abbrev pub show_byte : (ℕ → Scalar) → Round
  show_byte of = elim (get_elem? buf (i + 1)) [
    | none ↦ out_of_bounds
    | some b ↦ printed (of b) (i + 2)
  ]

  abbrev pub show_bytes : ℕ → Option (List ℕ) → Round
  show_bytes len none = out_of_bounds
  show_bytes len (some bytes) = printed (string_of bytes) (i + 6 + len)

  -- `string(&m_buf[i], len)`, where a negative `len` is too long for a string. With `len` 0 too it
  -- accesses `m_buf[i]`.
  abbrev pub show_text : ℕ → Round
  show_text len = elim (get_elem? buf (i + 6)) [
    | none ↦ out_of_bounds
    | some first ↦ show_bytes len (split_first len (drop (i + 6) buf))
  ]

  unfoldable pub show_length : Option (List ℕ) → Round
  show_length none = out_of_bounds
  show_length (some bytes) =
      if is_negative (le_value bytes) then throws_length_error else show_text (le_value bytes)

  -- `case DataType::STRING`: the length stands behind a tag of its own.
  unfoldable pub show_string : Option ℕ → Round
  unfolding show_length
  show_string none = out_of_bounds
  show_string (some b) =
      if b == tag int32 then show_length (split_first 4 (drop (i + 2) buf)) else throws_logic_error

  -- `switch((DataType)m_buf[i])`; the containers and the default case only `break`.
  unfoldable pub show_tag : ℕ → Round
  unfolding show_string
  show_tag b =
      if b == tag bool
      then show_byte (λ c. bool_of (not (c == 0)))
      else if b == tag char
      then show_byte char_of
      else if b == tag int16
      then show_word int16_of 2
      else if b == tag int32
      then show_word int32_of 4
      else if b == tag int64
      then show_word int64_of 8
      else if b == tag float
      then show_word float_of 4
      else if b == tag double
      then show_word double_of 8
      else if b == tag string
      then show_string (get_elem? buf (i + 1))
      else stays

-- How `display` ends, with what it has printed if it ends by the loop's test.
pub data Display : Type 0 where
  shown : List Scalar → Display
  running logic_error length_error undefined_access : Display

abbrev pub print : Scalar → Display → Display
print v (shown vs) = shown (v ∷ vs)
print v d = d

-- The loop on fuel; `i < size` fails where `buf` has no element `i`. `running` means that it has
-- not ended after so many rounds.
unfoldable pub display_loop : List ℕ → ℕ → ℕ → Display
unfolding show_tag
display_loop buf zero i = running
display_loop buf (suc fuel) i = elim (get_elem? buf i) [
  | none ↦ shown []
  | some b ↦ elim (show_tag buf i b) [
    | printed v j ↦ print v (display_loop buf fuel j)
    | stays ↦ display_loop buf fuel i
    | throws_logic_error ↦ logic_error
    | throws_length_error ↦ length_error
    | out_of_bounds ↦ undefined_access
  ]
]

unfoldable pub display : ℕ → DataStream → Display
unfolding display_loop
display fuel s = display_loop s.m_buf fuel 0

pub drop-next :
    (buf : List ℕ) (i : ℕ) (xs ys : List ℕ) → drop i buf ≡ xs ++ ys → drop (i + length xs) buf ≡ ys
drop-next buf i xs ys e = drop-add i (length xs) _ buf refl ∙ rw e (drop-length-append xs ys)

pub get_elem?-end : (i : ℕ) (xs : List ℕ) → drop i xs ≡ [] → get_elem? xs i ≡ none
get_elem?-end i [] e = refl
get_elem?-end zero (x ∷ xs) e = cc
get_elem?-end (suc i) (x ∷ xs) e = get_elem?-end i xs e

get_elem?-first :
    (i : ℕ) (xs ys : List ℕ) → 0 < length ys → drop i xs ≡ ys → (y : ℕ) × (get_elem? xs i ≡ some y)
get_elem?-first i xs [] n e = elim n [ ]
get_elem?-first i xs (y ∷ ys) n e = (y, get_elem?-drop i xs e)

module _ (buf : List ℕ) (i : ℕ) (post : List ℕ) where
  show_word-encode :
      (t : DataType) (of : ℕ → Scalar) (size n : ℕ)
      → n < 256 ^ size
      → drop i buf ≡ (tag t ∷ le_bytes size n) ++ post
      → show_word buf i of size ≡ printed (of n) (i + 1 + size)
  show_word-encode t of size n h e =
      let bytes = le_bytes size n in
      let next : drop (i + 1) buf ≡ bytes ++ post =
        drop-next buf i (tag t ∷ []) (bytes ++ post) e in
      let found : split_first size (bytes ++ post) ≡ some bytes =
        rw (length-le_bytes size n) at (split_first-append bytes post) in
      rw (show_word, next, found) (rw (le_value-bytes size n h))

  show_byte-encode :
      (t : DataType) (of : ℕ → Scalar) (b : ℕ)
      → drop i buf ≡ tag t ∷ b ∷ post
      → show_byte buf i of ≡ printed (of b) (i + 2)
  show_byte-encode t of b e =
      let next : get_elem? buf (i + 1) ≡ some b =
        get_elem?-drop (i + 1) buf (drop-next buf i (tag t ∷ []) (b ∷ post) e) in
      rw (show_byte, next)

  -- The text of a string, or what stands behind it, is in the buffer.
  abbrev pub Readable : Scalar → Type 0
  Readable (string_of s) = 0 < length (s ++ post)
  Readable _ = Unit

  -- Up to the text of a string.
  show_string-length :
      (s : List ℕ)
      → length s < int_limit
      → drop i buf ≡ encode (string_of s) ++ post
      → show_string buf i (get_elem? buf (i + 1)) ≡ show_text buf i (length s)
  unfolding show_string
  show_string-length s h e =
      let size = le_bytes 4 (length s) in
      let at_tag : get_elem? buf (i + 1) ≡ some (tag int32) =
        get_elem?-drop (i + 1) buf
          (drop-next buf i (tag string ∷ []) (tag int32 ∷ (size ++ (s ++ post))) e) in
      let at_size : drop (i + 2) buf ≡ size ++ (s ++ post) =
        drop-next buf i (tag string ∷ tag int32 ∷ []) (size ++ (s ++ post)) e in
      let count : le_value size ≡ length s = le_value-bytes 4 (length s) (omega arith) in
      let short : is_negative (length s) ≡ false = ground arith in
      rw (at_tag, at_size, count, short)

  at_text : (s : List ℕ) → drop i buf ≡ encode (string_of s) ++ post → drop (i + 6) buf ≡ s ++ post
  at_text s e = drop-next buf i (tag string ∷ tag int32 ∷ le_bytes 4 (length s)) (s ++ post) e

  show_text-encode :
      (s : List ℕ)
      → 0 < length (s ++ post)
      → drop i buf ≡ encode (string_of s) ++ post
      → show_text buf i (length s) ≡ printed (string_of s) (i + 6 + length s)
  show_text-encode s r e =
      let (b, at) = get_elem?-first (i + 6) buf (s ++ post) r (at_text s e) in
      rw (show_text, at) (rw (at_text s e, split_first-append s post))

  show_string-encode :
      (s : List ℕ)
      → length s < int_limit
      → 0 < length (s ++ post)
      → drop i buf ≡ encode (string_of s) ++ post
      → show_string buf i (get_elem? buf (i + 1)) ≡ printed (string_of s) (i + 6 + length s)
  show_string-encode s h r e = show_string-length s h e ∙ show_text-encode s r e

  -- One round prints one value and moves behind it.
  pub show_tag-encode :
      (v : Scalar)
      → Fits v
      → Readable v
      → drop i buf ≡ encode v ++ post
      → (b : ℕ) × (get_elem? buf i ≡ some b)
        × (show_tag buf i b ≡ printed v (i + length (encode v)))
  unfolding show_tag
  show_tag-encode (bool_of false) h r e =
      (tag bool, get_elem?-drop i buf e, show_byte-encode bool _ 0 e)
  show_tag-encode (bool_of true) h r e =
      (tag bool, get_elem?-drop i buf e, show_byte-encode bool _ 1 e)
  show_tag-encode (char_of c) h r e =
      (tag char, get_elem?-drop i buf e, show_byte-encode char _ c e)
  show_tag-encode (int16_of n) h r e = (
    tag int16,
    get_elem?-drop i buf e,
    show_word-encode int16 int16_of 2 n (omega arith) e ∙ ap (printed (int16_of n)) (omega arith),
  )
  show_tag-encode (int32_of n) h r e = (
    tag int32,
    get_elem?-drop i buf e,
    show_word-encode int32 int32_of 4 n (omega arith) e ∙ ap (printed (int32_of n)) (omega arith),
  )
  show_tag-encode (int64_of n) h r e = (
    tag int64,
    get_elem?-drop i buf e,
    show_word-encode int64 int64_of 8 n (omega arith) e ∙ ap (printed (int64_of n)) (omega arith),
  )
  show_tag-encode (float_of n) h r e = (
    tag float,
    get_elem?-drop i buf e,
    show_word-encode float float_of 4 n (omega arith) e ∙ ap (printed (float_of n)) (omega arith),
  )
  show_tag-encode (double_of n) h r e = (
    tag double,
    get_elem?-drop i buf e,
    show_word-encode double double_of 8 n (omega arith) e
        ∙ ap (printed (double_of n)) (omega arith),
  )
  show_tag-encode (string_of s) h r e = (
    tag string,
    get_elem?-drop i buf e,
    show_string-encode s h r e ∙ ap (printed (string_of s)) (omega arith),
  )

-- A round at an empty string that ends the buffer accesses the element behind it.
pub show_tag-empty :
    (buf : List ℕ) (i : ℕ)
    → drop i buf ≡ encode (string_of [])
    → show_tag buf i (tag string) ≡ out_of_bounds
unfolding show_tag
show_tag-empty buf i e =
    let past = get_elem?-end (i + 6) buf (at_text buf i [] [] e) in
    show_string-length buf i [] [] (omega arith) e ∙ rw (show_text, past)
