-- ===== src/Serialize/Ordered.antt =====
-- cpp-serialize/DataStream.h: what `read` gives back of a set or a map that was written. Both are
-- their elements in order; reading inserts them one by one.
use cpp_projects_learning.Common.{
  ℕ, ◌+◌, ◌/◌, ◌≤◌, ◌<◌, ◌≡◌, refl, sym, ◌∙◌, Bool, true, false, List, [], ◌∷◌, ◌++◌, append-nil,
  append_assoc, some, length, drop-length-append,
}
use cpp_projects_learning.Serialize.{set, map, DataStream, int_limit}
use cpp_projects_learning.Serialize.Codec.{
  size_limit, Writes, pure-Writes, >>-Writes, rest, Reads, pure-Reads, >>=-Reads,
}
use cpp_projects_learning.Serialize.Containers.{
  Element, rounds, write_set, write_each, set_insert, read_set_each, read_set, write_pairs,
  write_map, map_assign, read_pairs, read_map,
}
use cpp_projects_learning.Serialize.Sequences.{
  Codec, sized, AtEnd, sized-Writes, sized-run, trip, encode_each, AllOk, write_each-Writes,
  rounds_lt,
}

module _ {T : Type 0} (less : T → T → Bool) where
  -- `v` belongs behind each of these.
  abbrev pub Behind : T → List T → Type 0
  Behind v [] = Unit
  Behind v (x ∷ xs) = ((less v x ≡ false) × (less x v ≡ true)) × Behind v xs

  -- Each of the second list belongs behind all that stand before it, in either list.
  abbrev pub InOrder : List T → List T → Type 0
  InOrder before [] = Unit
  InOrder before (x ∷ xs) = Behind x before × InOrder (before ++ x ∷ []) xs

module _ {T : Type 0} (element : Element T) (codec : Codec element) (less : T → T → Bool) where
  set_insert-Behind :
      (v : T) (xs : List T) → Behind less v xs → set_insert element less v xs ≡ xs ++ v ∷ []
  unfolding set_insert
  set_insert-Behind v [] h = refl
  set_insert-Behind v (x ∷ xs) h = rw (h.0.0, h.0.1, set_insert-Behind v xs h.1)

  read_set_each-Reads :
      (before vs : List T)
      → InOrder less before vs
      → AllOk element codec vs
      → Reads
          (read_set_each element less (length vs) before)
          (encode_each element codec vs)
          (before ++ vs)
  unfolding read_set_each
  read_set_each-Reads before [] o h = rw append-nil (pure-Reads before)
  read_set_each-Reads before (v ∷ vs) o h =
      let later = read_set_each-Reads (before ++ v ∷ []) vs o.1 h.1 in
      >>=-Reads (element.read element.fresh) _ (codec.encode v) (encode_each element codec vs)
        (true, v) (before ++ v ∷ vs) (codec.reads element.fresh v h.0)
        (rw (set_insert-Behind v before o.0) (rw (append_assoc before (v ∷ []) vs) at later))

  -- `read(set)` gives back the elements of the set that `write(set)` wrote, whatever the variable
  -- held, and leaves the position past the end of the set by the number of elements. The set is in
  -- the order of its comparison, the stream was read to its end before, the element type's overloads
  -- restore the values, there are fewer than 2 ^ 31, and the buffer stays within 2 ^ 30 bytes.
  pub read_set-write_set :
      (old vs : List T) (start : DataStream)
      → InOrder less [] vs
      → AtEnd start
      → AllOk element codec vs
      → length vs < int_limit
      → length start.m_buf + length (sized set (length vs) (encode_each element codec vs))
        ≤ size_limit
      → (written done : DataStream) × (write_set element vs start ≡ some (tt, written))
        × (read_set element less old written ≡ some ((true, vs), done))
        × (written.m_buf ≡ start.m_buf ++ sized set (length vs) (encode_each element codec vs))
        × (done.m_buf ≡ written.m_buf)
        × (done.m_pos ≡ length written.m_buf + length vs)
  unfolding write_set read_set
  read_set-write_set old vs start o e h n fits =
      let bytes = encode_each element codec vs in
      trip set (length vs) (write_each element vs) bytes set []
        (λ n. read_set_each element less n []) vs refl
        (sized-Writes set (length vs) _ bytes n (write_each-Writes element codec vs h)) n
        (rw (rounds_lt (length vs) n) (read_set_each-Reads [] vs o h)) start e fits

module _ {K V : Type 0} (key : Element K) (val : Element V) (keys : Codec key)
    (vals : Codec val) where
  abbrev pub encode_pairs : List (K × V) → List ℕ
  encode_pairs [] = []
  encode_pairs ((k, v) ∷ rest) = keys.encode k ++ (vals.encode v ++ encode_pairs rest)

  abbrev pub PairsOk : List (K × V) → Type 0
  PairsOk [] = Unit
  PairsOk ((k, v) ∷ rest) = keys.Ok k × vals.Ok v × PairsOk rest

  write_pairs-Writes :
      (m : List (K × V)) → PairsOk m → Writes (write_pairs key val m) (encode_pairs m)
  unfolding write_pairs
  write_pairs-Writes [] h = pure-Writes
  write_pairs-Writes ((k, v) ∷ m) h =
      >>-Writes (key.write k) _ (keys.encode k) (vals.encode v ++ encode_pairs m)
        (keys.writes k h.0)
        (>>-Writes (val.write v) _ (vals.encode v) (encode_pairs m) (vals.writes v h.1)
          (write_pairs-Writes m h.2))

  module _ (less : K → K → Bool) where
    -- The key belongs behind the keys of these entries.
    abbrev pub BehindKeys : K → List (K × V) → Type 0
    BehindKeys k [] = Unit
    BehindKeys k ((j, w) ∷ m) = ((less k j ≡ false) × (less j k ≡ true)) × BehindKeys k m

    abbrev pub KeysInOrder : List (K × V) → List (K × V) → Type 0
    KeysInOrder before [] = Unit
    KeysInOrder before ((k, v) ∷ m) = BehindKeys k before × KeysInOrder (before ++ (k, v) ∷ []) m

    map_assign-BehindKeys :
        (k : K) (v : V) (m : List (K × V))
        → BehindKeys k m
        → map_assign key val less k v m ≡ m ++ (k, v) ∷ []
    unfolding map_assign
    map_assign-BehindKeys k v [] h = refl
    map_assign-BehindKeys k v ((j, w) ∷ m) h = rw (h.0.0, h.0.1, map_assign-BehindKeys k v m h.1)

    read_pairs-Reads :
        (before m : List (K × V))
        → KeysInOrder before m
        → PairsOk m
        → Reads (read_pairs key val less (length m) before) (encode_pairs m) (before ++ m)
    unfolding read_pairs
    read_pairs-Reads before [] o h = rw append-nil (pure-Reads before)
    read_pairs-Reads before ((k, v) ∷ m) o h =
        let later = read_pairs-Reads (before ++ (k, v) ∷ []) m o.1 h.2 in
        >>=-Reads (key.read key.fresh) _ (keys.encode k) (vals.encode v ++ encode_pairs m) (true, k)
          (before ++ (k, v) ∷ m) (keys.reads key.fresh k h.0)
          (>>=-Reads (val.read val.fresh) _ (vals.encode v) (encode_pairs m) (true, v)
            (before ++ (k, v) ∷ m) (vals.reads val.fresh v h.1)
            (rw (map_assign-BehindKeys k v before o.0)
              (rw (append_assoc before ((k, v) ∷ []) m) at later)))

  encode_pairs-append :
      (m n : List (K × V)) → encode_pairs (m ++ n) ≡ encode_pairs m ++ encode_pairs n
  encode_pairs-append [] n = refl
  encode_pairs-append ((k, v) ∷ m) n = simp (encode_pairs-append m n, append_assoc)

  PairsOk-front : (m n : List (K × V)) → PairsOk (m ++ n) → PairsOk m
  PairsOk-front [] n h = tt
  PairsOk-front ((k, v) ∷ m) n h = (h.0, h.1, PairsOk-front m n h.2)

  -- Of a map `front ++ back` that `write(map)` wrote, `read(map)` gives back `front` alone, where
  -- `front` is half the entries, rounded up: the loop counts `i += 2`. It returns true, and moves
  -- past the entries of `front` by the number of all entries. The map is in the order of its
  -- comparison, the stream was read to its end before, the overloads of the keys' and the values'
  -- types restore them, there are fewer than 2 ^ 31, and the buffer stays within 2 ^ 30 bytes.
  pub read_map-write_map :
      (less : K → K → Bool) (old front back : List (K × V)) (start : DataStream)
      → length front ≡ (length (front ++ back) + 1) / 2
      → KeysInOrder less [] front
      → AtEnd start
      → PairsOk (front ++ back)
      → length (front ++ back) < int_limit
      → length start.m_buf
          + length (sized map (length (front ++ back)) (encode_pairs (front ++ back)))
        ≤ size_limit
      → (written done : DataStream) × (write_map key val (front ++ back) start ≡ some (tt, written))
        × (read_map key val less old written ≡ some ((true, front), done))
        × (done.m_pos
            ≡ start.m_pos
              + length (sized map (length (front ++ back)) (encode_pairs front))
              + length (front ++ back))
  unfolding write_map read_map
  read_map-write_map less old front back start half o e h n fits =
      let count = length (front ++ back) in
      let bytes = encode_pairs (front ++ back) in
      let all = sized map count bytes in
      let (room, wrote) =
        sized-Writes map count (write_pairs key val (front ++ back)) bytes n
          (write_pairs-Writes (front ++ back) h) start fits in
      let written = record start { m_buf = start.m_buf ++ all; capacity = room } in
      let left : rest written ≡ sized map count (encode_pairs front) ++ encode_pairs back = rw e (
        drop-length-append start.m_buf all ∙ simp (encode_pairs-append front back, append_assoc)) in
      let whole : (rounds count + 1) / 2 ≡ length front = rw (rounds_lt count n) (sym half) in
      let loop = λ (n : ℕ). read_pairs key val less ((n + 1) / 2) [] in
      (
        written,
        record written {
          m_pos = written.m_pos + length (sized map count (encode_pairs front)) + count;
        },
        wrote,
        sized-run map [] loop count (encode_pairs front) front n
            (rw whole (read_pairs-Reads less [] front o (PairsOk-front front back h))) written
            (encode_pairs back) left,
        refl,
      )
