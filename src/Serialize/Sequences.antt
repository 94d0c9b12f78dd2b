-- ===== src/Serialize/Sequences.antt =====
-- cpp-serialize/DataStream.h: what `read` gives back of a vector or a list that was written, and
-- where it leaves the position.
use cpp_projects_learning.Common.{
  ℕ, ◌+◌, ◌≤◌, ◌<◌, ◌≡◌, refl, sym, ◌∙◌, true, false, List, [], ◌∷◌, ◌++◌, append-nil, some, arith,
  length, length-append, drop-length-append,
}
use cpp_projects_learning.Serialize.{
  DataType, vector, list, int32, tag, DataStream, Action, int_limit, le_bytes,
}
use cpp_projects_learning.Serialize.Codec.{
  size_limit, Writes, pure-Writes, >>-Writes, rest, Reads, pure-Reads, >>=-Reads, >>=-run,
  rest-advance,
}
use cpp_projects_learning.Serialize.RoundTrip.{
  write_tag-Writes, write_word-Writes, length-Reads, read_checked-refuses, read_checked-run,
}
use cpp_projects_learning.Serialize.Scalars.{read_length, to_int, is_negative, write_int32}
use cpp_projects_learning.Serialize.Containers.{
  Element, skip, rounds, write_sized, read_sized, write_each, write_vector, write_list, read_each,
  read_vector, read_list,
}

-- The laws of an element type: its overloads write an encoding of the values in `Ok`, and take it
-- back, whatever the variable held.
pub record Codec {T : Type 0} (element : Element T) : Type 1 where
  pub encode : T → List ℕ
  pub Ok : T → Type 0
  pub writes : (v : T) → Ok v → Writes (element.write v) (encode v)
  pub reads : (old v : T) → Ok v → Reads (element.read old) (encode v) (true, v)

-- The tag and the size in front of the elements.
abbrev pub sized : DataType → ℕ → List ℕ → List ℕ
sized t n bytes = tag t ∷ tag int32 ∷ (le_bytes 4 n ++ bytes)

-- The stream has been read to its end.
abbrev pub AtEnd : DataStream → Type 0
AtEnd s = s.m_pos ≡ length s.m_buf

pub sized-Writes :
    (t : DataType) (n : ℕ) (body : Action (Unit {0})) (bytes : List ℕ)
    → n < int_limit
    → Writes body bytes
    → Writes (write_sized t n body) (sized t n bytes)
unfolding write_int32
sized-Writes t n body bytes h w =
    let whole : to_int n ≡ n = omega arith in
    rw whole (
      >>-Writes _ _ (tag t ∷ []) _ (write_tag-Writes t) (
        >>-Writes _ _ (tag int32 ∷ le_bytes 4 n) bytes (write_word-Writes int32 4 n (omega arith))
          w))

skip-forward :
    (n : ℕ) (s : DataStream)
    → n < int_limit
    → skip n s ≡ some (tt, record s { m_pos = s.m_pos + n })
unfolding skip
skip-forward n s h = let short : is_negative n ≡ false = ground arith in rw short

-- A loop that reads what stands behind the size leaves the position `n` bytes too far.
pub sized-run :
    {A : Type 0} (t : DataType) (cleared : A) (loop : ℕ → Action A) (n : ℕ) (bytes : List ℕ) (a : A)
    → n < int_limit
    → Reads (loop (rounds n)) bytes a
    → (s : DataStream) (post : List ℕ) → rest s ≡ sized t n bytes ++ post
    → read_sized t cleared loop s
      ≡ some ((true, a), record s { m_pos = s.m_pos + length (sized t n bytes) + n })
sized-run {A} t cleared loop n bytes a h r s post e =
    let count = tag int32 ∷ le_bytes 4 n in
    let s₁ = record s { m_pos = s.m_pos + 1 } in
    let s₂ = record s { m_pos = s.m_pos + 1 + length count } in
    let s₃ = record s { m_pos = s.m_pos + 1 + length count + length bytes } in
    let e₁ : rest s₁ ≡ count ++ (bytes ++ post) =
      rest-advance s (tag t ∷ []) (count ++ (bytes ++ post)) e in
    let e₂ : rest s₂ ≡ bytes ++ post = rest-advance s₁ count (bytes ++ post) e₁ in
    let end : s.m_pos + 1 + length count + length bytes + n
        ≡ s.m_pos + length (sized t n bytes) + n =
      omega arith in
    read_checked-run t cleared _ (count ++ (bytes ++ post)) s e
    ∙ >>=-run read_length _ s₁ (length-Reads n (omega arith) s₁ (bytes ++ post) e₁)
    ∙ >>=-run (loop (rounds n)) _ s₂ (r s₂ post e₂)
    ∙ >>=-run (skip n) _ s₃ (skip-forward n s₃ h)
    ∙ rw end

-- A writer and a reader that fit, one after the other, from the end of a stream.
pub trip :
    {A : Type 0} (t : DataType) (n : ℕ) (w : Action (Unit {0})) (bytes : List ℕ) (r : DataType)
    (cleared : A) (loop : ℕ → Action A) (a : A)
    → t ≡ r
    → Writes (write_sized t n w) (sized t n bytes)
    → n < int_limit
    → Reads (loop (rounds n)) bytes a
    → (start : DataStream) → AtEnd start
    → length start.m_buf + length (sized t n bytes) ≤ size_limit
    → (written done : DataStream) × (write_sized t n w start ≡ some (tt, written))
      × (read_sized r cleared loop written ≡ some ((true, a), done))
      × (written.m_buf ≡ start.m_buf ++ sized t n bytes)
      × (done.m_buf ≡ written.m_buf)
      × (done.m_pos ≡ length written.m_buf + n)
trip t n w bytes r cleared loop a same writes h reads start e fits =
    let all = sized t n bytes in
    let (room, wrote) = writes start fits in
    let written = record start { m_buf = start.m_buf ++ all; capacity = room } in
    let left : rest written ≡ all ++ [] =
      rw e (drop-length-append start.m_buf all) ∙ sym (append-nil all) in
    (
      written,
      record written { m_pos = written.m_pos + length all + n },
      wrote,
      rw (← same) (sized-run t cleared loop n bytes a h reads written [] left),
      refl,
      refl,
      omega (arith, length-append start.m_buf all),
    )

pub rounds_lt : (n : ℕ) → n < int_limit → rounds n ≡ n
rounds_lt n h = let short : is_negative n ≡ false = ground arith in rw short

module _ {T : Type 0} (element : Element T) (codec : Codec element) where
  abbrev pub encode_each : List T → List ℕ
  encode_each [] = []
  encode_each (v ∷ vs) = codec.encode v ++ encode_each vs

  abbrev pub AllOk : List T → Type 0
  AllOk [] = Unit
  AllOk (v ∷ vs) = codec.Ok v × AllOk vs

  pub write_each-Writes : (vs : List T) → AllOk vs → Writes (write_each element vs) (encode_each vs)
  unfolding write_each
  write_each-Writes [] h = pure-Writes
  write_each-Writes (v ∷ vs) h =
      >>-Writes (element.write v) _ (codec.encode v) (encode_each vs) (codec.writes v h.0)
        (write_each-Writes vs h.1)

  read_each-Reads :
      (vs : List T) → AllOk vs → Reads (read_each element (length vs)) (encode_each vs) vs
  unfolding read_each
  read_each-Reads [] h = pure-Reads []
  read_each-Reads (v ∷ vs) h =
      >>=-Reads (element.read element.fresh) _ (codec.encode v) (encode_each vs) (true, v) (v ∷ vs)
        (codec.reads element.fresh v h.0)
        (λ s post e. >>=-run (read_each element (length vs)) _ s (read_each-Reads vs h.1 s post e))

  -- `read(vector)` gives back the elements that `write(vector)` wrote, in order, whatever the
  -- variable held, and then leaves the position too far: `m_pos += len` behind the loop moves it
  -- past the end of the vector by the number of elements. The stream was read to its end before,
  -- the values are such that the element type's overloads restore them, there are fewer than 2 ^ 31,
  -- and the buffer stays within 2 ^ 30 bytes.
  pub read_vector-write_vector :
      (old vs : List T) (start : DataStream)
      → AtEnd start
      → AllOk vs
      → length vs < int_limit
      → length start.m_buf + length (sized vector (length vs) (encode_each vs)) ≤ size_limit
      → (written done : DataStream) × (write_vector element vs start ≡ some (tt, written))
        × (read_vector element old written ≡ some ((true, vs), done))
        × (written.m_buf ≡ start.m_buf ++ sized vector (length vs) (encode_each vs))
        × (done.m_buf ≡ written.m_buf)
        × (done.m_pos ≡ length written.m_buf + length vs)
  unfolding write_vector read_vector
  read_vector-write_vector old vs start e h n fits =
      trip vector (length vs) (write_each element vs) (encode_each vs) vector [] (read_each element)
        vs refl (sized-Writes vector (length vs) _ (encode_each vs) n (write_each-Writes vs h)) n
        (rw (rounds_lt (length vs) n) (read_each-Reads vs h)) start e fits

  -- `write(list)` writes the tag of a vector, so `read(list)` refuses what it wrote: it returns
  -- false, empties the list, and does not move, whatever the values.
  pub read_list-write_list :
      (old vs : List T) (start : DataStream)
      → AtEnd start
      → AllOk vs
      → length vs < int_limit
      → length start.m_buf + length (sized vector (length vs) (encode_each vs)) ≤ size_limit
      → (written : DataStream) × (write_list element vs start ≡ some (tt, written))
        × (read_list element old written ≡ some ((false, []), written))
  unfolding write_list read_list
  read_list-write_list old vs start e h n fits =
      let bytes = sized vector (length vs) (encode_each vs) in
      let (room, wrote) =
        sized-Writes vector (length vs) _ (encode_each vs) n (write_each-Writes vs h) start fits in
      let written = record start { m_buf = start.m_buf ++ bytes; capacity = room } in
      let left : rest written ≡ bytes = rw e (drop-length-append start.m_buf bytes) in
      (
        written,
        wrote,
        read_checked-refuses list [] _ (tag vector)
            (tag int32 ∷ (le_bytes 4 (length vs) ++ encode_each vs)) written left refl,
      )
