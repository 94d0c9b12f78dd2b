-- ===== src/Serialize/Codec.antt =====
-- What a writer appends to a `DataStream` and what a reader takes from it
-- (cpp-serialize/DataStream.h), and how the two compose: the tools of the round-trip proofs.
use native.Mathlib.Nat.{pow-succ'}
use cpp_projects_learning.Common.{
  ◌==◌, ℕ, zero, suc, ◌+◌, ◌*◌, ◌/◌, ◌^◌, ◌≤◌, ◌<◌, max, ◌≡◌, refl, ◌∙◌, ap, inl, inr, false, List,
  [], ◌∷◌, ◌++◌, append-nil, append_assoc, some, arith, ltb, leb, Bool-cases, length, drop,
  length-append, drop-length-append, drop-add, get_elem?-drop, ltb→le, ltb→lt, le→ltb,
}
use cpp_projects_learning.Serialize.{
  DataStream, Action, pure, ◌>>=◌, ◌>>◌, int_limit, doubled, grow, grow_fuel, reserve, resize,
  memcpy, write_bytes, peek, advance, split_first, load, le_bytes, le_value,
}

-- A bind runs its first action.
pub >>=-run :
    {A B : Type 0} (m : Action A) (f : A → Action B) (s : DataStream) {a : A} {s' : DataStream}
    → m s ≡ some (a, s')
    → (m >>= f) s ≡ f a s'
>>=-run m f s e = rw (e, ◌>>=◌)

-- The sizes for which no capacity overflows an `int`.
abbrev pub size_limit : ℕ
size_limit = 2 ^ 30

doubled_lem : (room : ℕ) → 0 < room → doubled room ≡ room * 2
unfolding doubled
doubled_lem room p = ground arith

-- The loop ends with room enough when the fuel passes the doublings that are left.
grow-returns :
    (rounds fuel need room : ℕ)
    → rounds < fuel
    → need ≤ size_limit
    → 0 < room
    → size_limit ≤ room * 2 ^ rounds
    → (c : ℕ) × (grow fuel need room ≡ some c) × (need ≤ c) × (room ≤ c)
unfolding grow
grow-returns rounds zero need room f n p m = absurd (omega arith)
grow-returns zero (suc fuel) need room f n p m =
    let full : ltb room need ≡ false = le→ltb _ _ (omega arith) in
    (room, rw full, omega arith, omega arith)
grow-returns (suc rounds) (suc fuel) need room f n p m = elim (Bool-cases (ltb room need)) [
  | inr full ↦ (room, rw full, ltb→le _ _ full, omega arith)
  | inl short ↦
      let under : room < need = ltb→lt _ _ short in
      let fits : leb int_limit (room * 2) ≡ false = ground arith in
      let half : room * 2 ^ suc rounds ≡ room * 2 * 2 ^ rounds = rw pow-succ' (omega arith) in
      let (c, e, l, k) =
        grow-returns rounds fuel need (room * 2) (omega arith) n (omega arith) (omega arith) in
      (c, rw (short, doubled_lem room p, fits) e, l, omega arith)
]

grow-fits :
    (need room : ℕ)
    → need ≤ size_limit
    → (c : ℕ) × (grow grow_fuel need room ≡ some c) × (need ≤ c) × (room ≤ c)
unfolding grow doubled
grow-fits need (suc room) n =
    grow-returns 30 grow_fuel need (suc room) (omega arith) n (omega arith) (omega arith)
grow-fits need zero n = elim (Bool-cases (ltb 0 need)) [
  | inr full ↦ (0, rw full, ltb→le _ _ full, omega arith)
  | inl short ↦
      let (c, e, l, k) = grow-returns 30 32 need 1 (omega arith) n (omega arith) (omega arith) in
      (c, rw short e, l, omega arith)
]

-- `reserve` neither overflows nor runs out of fuel while the contents stay within 2 ^ 30 bytes; it
-- leaves contents and position alone, and the capacity holds what was asked for.
pub reserve-room :
    (len : ℕ) (s : DataStream)
    → length s.m_buf + len ≤ size_limit
    → (room : ℕ) × (reserve len s ≡ some (tt, record s { capacity = room }))
      × (length s.m_buf + len ≤ room)
      × (s.capacity ≤ room)
unfolding reserve
reserve-room len s h = elim (Bool-cases (ltb s.capacity (length s.m_buf + len))) [
  | inr full ↦ (s.capacity, rw full, ltb→le _ _ full, omega arith)
  | inl short ↦
      let (c, e, l, k) = grow-fits (length s.m_buf + len) s.capacity h in
      (max s.capacity c, rw (short, e), omega arith, omega arith)
]

memcpy_all : (ds : List ℕ) → memcpy 0 ds (resize (length ds) []) ≡ ds
memcpy_all [] = refl
memcpy_all (d ∷ ds) = ap (◌∷◌ d) (memcpy_all ds)

memcpy-resize :
    (xs ds : List ℕ) (n : ℕ)
    → n ≡ length xs + length ds
    → memcpy (length xs) ds (resize n xs) ≡ xs ++ ds
memcpy-resize [] ds n e = let e' : n ≡ length ds = omega arith in rw e' (memcpy_all ds)
memcpy-resize (x ∷ xs) ds zero e = absurd (omega arith)
memcpy-resize (x ∷ xs) ds (suc n) e = ap (◌∷◌ x) (memcpy-resize xs ds n (omega arith))

-- `w` appends `bytes` and changes the capacity at most, as long as the result is within the limit.
abbrev pub Writes : Action (Unit {0}) → List ℕ → Type 0
Writes w bytes =
    (s : DataStream)
    → length s.m_buf + length bytes ≤ size_limit
    → (room : ℕ) × (w s ≡ some (tt, record s { m_buf = s.m_buf ++ bytes; capacity = room }))

pub write_bytes-Writes : (bytes : List ℕ) → 0 < length bytes → Writes (write_bytes bytes) bytes
unfolding write_bytes
write_bytes-Writes bytes filled s h =
    let some_byte : (length bytes == 0) ≡ false = ground arith in
    let (room, e, _, _) = reserve-room (length bytes) s h in
    let copied = memcpy-resize s.m_buf bytes (length s.m_buf + length bytes) refl in
    (room, >>=-run (reserve (length bytes)) _ s e ∙ rw (some_byte, copied))

pub pure-Writes : Writes (pure tt) []
pure-Writes s h = (s.capacity, rw append-nil)

pub >>-Writes :
    (v w : Action (Unit {0})) (xs ys : List ℕ)
    → Writes v xs
    → Writes w ys
    → Writes (v >> w) (xs ++ ys)
>>-Writes v w xs ys hv hw s h =
    let l = length-append xs ys in
    let l' = length-append s.m_buf xs in
    let (room, e) = hv s (omega arith) in
    let (room', e') = hw (record s { m_buf = s.m_buf ++ xs; capacity = room }) (omega arith) in
    (room', >>=-run v (λ _. w) s e ∙ e' ∙ rw append_assoc)

-- What is left to read.
abbrev pub rest : DataStream → List ℕ
rest s = drop s.m_pos s.m_buf

-- `r` takes `bytes` from what is left and returns `a`.
abbrev pub Reads : {A : Type 0} → Action A → List ℕ → A → Type 0
Reads r bytes a =
    (s : DataStream) (post : List ℕ)
    → rest s ≡ bytes ++ post
    → r s ≡ some (a, record s { m_pos = s.m_pos + length bytes })

pub pure-Reads : {A : Type 0} (a : A) → Reads (pure a) [] a
pure-Reads a s post e = let z : s.m_pos + 0 ≡ s.m_pos = omega arith in rw z

pub rest-advance :
    (s : DataStream) (bytes post : List ℕ)
    → rest s ≡ bytes ++ post
    → rest (record s { m_pos = s.m_pos + length bytes }) ≡ post
rest-advance s bytes post e =
    drop-add s.m_pos (length bytes) (s.m_pos + length bytes) s.m_buf refl
    ∙ rw e (drop-length-append bytes post)

pub >>=-Reads :
    {A B : Type 0} (r : Action A) (f : A → Action B) (xs ys : List ℕ) (a : A) (b : B)
    → Reads r xs a
    → Reads (f a) ys b
    → Reads (r >>= f) (xs ++ ys) b
>>=-Reads r f xs ys a b hr hf s post e =
    let e' : rest s ≡ xs ++ (ys ++ post) = e ∙ append_assoc xs ys post in
    let first = hr s (ys ++ post) e' in
    let second =
      hf (record s { m_pos = s.m_pos + length xs }) post (rest-advance s xs (ys ++ post) e') in
    let l : s.m_pos + length xs + length ys ≡ s.m_pos + length (xs ++ ys) =
      omega (arith, length-append xs ys) in
    >>=-run r f s first ∙ second ∙ rw l

-- `m_buf[m_pos]` reads the next byte and stays.
pub peek-head : (s : DataStream) (b : ℕ) (post : List ℕ) → rest s ≡ b ∷ post → peek s ≡ some (b, s)
unfolding peek
peek-head s b post e = rw (get_elem?-drop s.m_pos s.m_buf e)

pub split_first-append : (xs ys : List ℕ) → split_first (length xs) (xs ++ ys) ≡ some xs
split_first-append [] ys = refl
split_first-append (x ∷ xs) ys = rw (split_first-append xs ys)

load-run :
    (y : ℕ) (ys post : List ℕ) (s : DataStream)
    → rest s ≡ (y ∷ ys) ++ post
    → load (length (y ∷ ys)) s ≡ some (y ∷ ys, s)
unfolding load
load-run y ys post s e =
    >>=-run peek _ s (peek-head s y (ys ++ post) e) ∙ rw (e, split_first-append (y ∷ ys) post)

-- `load` and `advance` together take a block that is not empty.
pub load-Reads :
    {A : Type 0} (k : List ℕ → A) (n : ℕ) (ys : List ℕ)
    → length ys ≡ n
    → 0 < n
    → Reads (do xs ← load n; advance n; pure (k xs)) ys (k ys)
unfolding advance
load-Reads k n [] l some_byte s post e = absurd (omega (arith, l))
load-Reads k n (y ∷ ys) l some_byte s post e =
    let found : load n s ≡ some (y ∷ ys, s) = rw (← l) (load-run y ys post s e) in
    >>=-run (load n) _ s found ∙ rw l

pub le_value-bytes : (k n : ℕ) → n < 256 ^ k → le_value (le_bytes k n) ≡ n
le_value-bytes zero n h = omega arith
le_value-bytes (suc k) n h =
    let p : 256 ^ suc k ≡ 256 * 256 ^ k = pow-succ' 256 k in
    omega (arith, le_value-bytes k (n / 256))

pub length-le_bytes : (k n : ℕ) → length (le_bytes k n) ≡ k
length-le_bytes zero n = refl
length-le_bytes (suc k) n = ap suc (length-le_bytes k (n / 256))
