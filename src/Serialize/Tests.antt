-- ===== src/Serialize/Tests.antt =====
-- cpp-serialize/DataStream.h: runs of the buffer on small values, and the round trips at them.
use cpp_projects_learning.Common.{
  ℕ, ◌+◌, ◌≤◌, ◌<◌, ◌^◌, ◌≡◌, refl, true, false, List, [], ◌∷◌, ◌++◌, some, arith, ltb, length,
}
use cpp_projects_learning.Serialize.{
  vector, set, map, int32, tag, DataStream, empty_stream, reserve, peek, le_bytes,
}
use cpp_projects_learning.Serialize.Codec.{reserve-room}
use cpp_projects_learning.Serialize.RoundTrip.{
  write_word-Writes, tagged_word-Reads, encode_all, extract-insert,
}
use cpp_projects_learning.Serialize.Scalars.{
  Scalar, bool_of, int32_of, string_of, write_int32, read_int32, read_checked, read_string, insert,
  extract,
}
use cpp_projects_learning.Serialize.Containers.{
  Element, write_vector, read_vector, write_list, read_list, write_set, read_set, write_map,
  read_map,
}
use cpp_projects_learning.Serialize.Sequences.{
  Codec, sized, encode_each, read_vector-write_vector, read_list-write_list,
}
use cpp_projects_learning.Serialize.Ordered.{encode_pairs, read_set-write_set, read_map-write_map}
use cpp_projects_learning.Serialize.Rounds.{shown, running, display}
use cpp_projects_learning.Serialize.Display.{display-encode_all, display_runs_on}

abbrev values : List Scalar
values = int32_of 7 ∷ bool_of true ∷ string_of (104 ∷ 105 ∷ []) ∷ []

abbrev variables : List Scalar
variables = int32_of 0 ∷ bool_of false ∷ string_of [] ∷ []

abbrev int32_element : Element ℕ
int32_element = record { write = write_int32; read = read_int32; fresh = 0 }

abbrev int32_codec : Codec int32_element
unfolding write_int32 read_int32
int32_codec = record {
  encode = λ n. tag int32 ∷ le_bytes 4 n;
  Ok = λ n. n < 2 ^ 32;
  writes = λ n h. write_word-Writes int32 4 n (omega arith);
  reads = λ old n h. tagged_word-Reads int32 4 old n (omega arith) h;
}

-- A wrong tag leaves the variable alone, and the position where it was.
wrong_type :
    read_string [] (record { m_buf = 1 ∷ 65 ∷ []; capacity = 2; m_pos = 0 })
    ≡ some ((false, []), record { m_buf = 1 ∷ 65 ∷ []; capacity = 2; m_pos = 0 })
unfolding read_string read_checked peek
wrong_type = refl

reserve-room_example :
    (room : ℕ) × (reserve 3 empty_stream ≡ some (tt, record empty_stream { capacity = room }))
    × (3 ≤ room)
    × (0 ≤ room)
reserve-room_example = reserve-room 3 empty_stream (omega arith)

extract-insert_example :
    (written done : DataStream) × (insert values empty_stream ≡ some (tt, written))
    × (extract variables written ≡ some (values, done))
    × (done.m_buf ≡ encode_all values)
    × (done.m_pos ≡ length done.m_buf)
extract-insert_example =
    extract-insert variables values empty_stream refl (refl, (refl, (refl, tt)))
      (omega arith, (tt, (omega arith, tt))) (tt, (tt, (omega arith, tt))) (omega arith)

read_vector-write_vector_example :
    (written done : DataStream) × (write_vector int32_element (7 ∷ 9 ∷ []) empty_stream
      ≡ some (tt, written))
    × (read_vector int32_element (1 ∷ []) written ≡ some ((true, 7 ∷ 9 ∷ []), done))
    × (written.m_buf ≡ sized vector 2 (encode_each int32_element int32_codec (7 ∷ 9 ∷ [])))
    × (done.m_buf ≡ written.m_buf)
    × (done.m_pos ≡ length written.m_buf + 2)
unfolding int32_codec
read_vector-write_vector_example =
    read_vector-write_vector int32_element int32_codec (1 ∷ []) (7 ∷ 9 ∷ []) empty_stream refl
      (omega arith, (omega arith, tt)) (omega arith) (omega arith)

read_list-write_list_example :
    (written : DataStream) × (write_list int32_element (7 ∷ 9 ∷ []) empty_stream
      ≡ some (tt, written))
    × (read_list int32_element (1 ∷ []) written ≡ some ((false, []), written))
unfolding int32_codec
read_list-write_list_example =
    read_list-write_list int32_element int32_codec (1 ∷ []) (7 ∷ 9 ∷ []) empty_stream refl
      (omega arith, (omega arith, tt)) (omega arith) (omega arith)

read_set-write_set_example :
    (written done : DataStream) × (write_set int32_element (7 ∷ 9 ∷ []) empty_stream
      ≡ some (tt, written))
    × (read_set int32_element ltb [] written ≡ some ((true, 7 ∷ 9 ∷ []), done))
    × (written.m_buf ≡ sized set 2 (encode_each int32_element int32_codec (7 ∷ 9 ∷ [])))
    × (done.m_buf ≡ written.m_buf)
    × (done.m_pos ≡ length written.m_buf + 2)
unfolding int32_codec
read_set-write_set_example =
    read_set-write_set int32_element int32_codec ltb [] (7 ∷ 9 ∷ []) empty_stream
      (tt, (((refl, refl), tt), tt)) refl (omega arith, (omega arith, tt)) (omega arith)
      (omega arith)

read_map-write_map_example :
    (written done : DataStream) × (write_map int32_element int32_element
        ((1, 10) ∷ (2, 20) ∷ [])
        empty_stream
      ≡ some (tt, written))
    × (read_map int32_element int32_element ltb [] written ≡ some ((true, (1, 10) ∷ []), done))
    × (done.m_pos
        ≡ length (
            sized map 2
              (encode_pairs int32_element int32_element int32_codec int32_codec ((1, 10) ∷ [])))
          + 2)
unfolding int32_codec
read_map-write_map_example =
    read_map-write_map int32_element int32_element int32_codec int32_codec ltb [] ((1, 10) ∷ [])
      ((2, 20) ∷ []) empty_stream refl (tt, tt) refl
      (omega arith, omega arith, (omega arith, omega arith, tt)) (omega arith) (omega arith)

display-encode_all_example :
    display 4 (record { m_buf = encode_all values; capacity = 32; m_pos = 0 }) ≡ shown values
display-encode_all_example =
    display-encode_all values 4 (record { m_buf = encode_all values; capacity = 32; m_pos = 0 })
      refl (omega arith, (tt, (omega arith, tt))) (omega arith)

display_runs_on_example :
    display 50 (record { m_buf = encode_all values ++ (8 ∷ 3 ∷ []); capacity = 32; m_pos = 0 })
    ≡ running
display_runs_on_example =
    display_runs_on values 8 (3 ∷ []) 50
      (record { m_buf = encode_all values ++ (8 ∷ 3 ∷ []); capacity = 32; m_pos = 0 }) refl
      (omega arith, (tt, (omega arith, tt))) (omega arith)
