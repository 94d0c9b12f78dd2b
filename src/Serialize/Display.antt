-- ===== src/Serialize/Display.antt =====
-- cpp-serialize/DataStream.h: what `display` prints, and when it ends.
use cpp_projects_learning.Common.{
  ℕ, zero, suc, ◌+◌, ◌<◌, ◌≡◌, refl, ap, ◌∙◌, Bool, true, false, List, [], ◌∷◌, ◌++◌, append_assoc,
  arith, if◌then◌else◌, length, drop, get_elem?-drop, length-append,
}
use cpp_projects_learning.Serialize.{string, tag, DataStream}
use cpp_projects_learning.Serialize.Scalars.{Scalar, bool_of, string_of}
use cpp_projects_learning.Serialize.RoundTrip.{encode, Fits, AllFit, encode_all}
use cpp_projects_learning.Serialize.Rounds.{
  stays, show_tag, Display, shown, running, undefined_access, print, display_loop, display,
  drop-next, get_elem?-end, Readable, show_tag-encode, show_tag-empty,
}

display_loop-print :
    (buf : List ℕ) (fuel i : ℕ) (v : Scalar) (post : List ℕ)
    → Fits v
    → Readable buf i post v
    → drop i buf ≡ encode v ++ post
    → display_loop buf (suc fuel) i ≡ print v (display_loop buf fuel (i + length (encode v)))
unfolding display_loop
display_loop-print buf fuel i v post h r e =
    let (b, at, shows) = show_tag-encode buf i post v h r e in
    rw (at, display_loop) (rw (shows, display_loop))

Readable-before :
    (buf : List ℕ) (i : ℕ) (post : List ℕ) (v : Scalar) → 0 < length post → Readable buf i post v
Readable-before buf i post (string_of s) h = omega (arith, length-append s post)
Readable-before buf i post _ h = tt

length-encode : (v : Scalar) (post : List ℕ) → 0 < length (encode v ++ post)
length-encode (bool_of b) post = omega arith
length-encode (string_of s) post = omega arith
length-encode _ post = omega arith

abbrev is_empty : Scalar → Bool
is_empty (string_of []) = true
is_empty _ = false

-- The last value is an empty string.
abbrev ends_empty : List Scalar → Bool
ends_empty [] = false
ends_empty (v ∷ []) = is_empty v
ends_empty (v ∷ w ∷ vs) = ends_empty (w ∷ vs)

-- What `display` makes of the encoding of these values.
abbrev displayed : List Scalar → Display
displayed vs = if ends_empty vs then undefined_access else shown vs

print-if :
    (v : Scalar) (vs : List Scalar) (b : Bool)
    → print v (if b then undefined_access else shown vs)
      ≡ (if b then undefined_access else shown (v ∷ vs))
print-if v vs true = refl
print-if v vs false = refl

display_loop-end :
    (buf : List ℕ) (fuel i : ℕ) → drop i buf ≡ [] → display_loop buf (suc fuel) i ≡ shown []
unfolding display_loop
display_loop-end buf fuel i e = rw (get_elem?-end i buf e, display_loop)

display_loop-one :
    (buf : List ℕ) (fuel i : ℕ) (v : Scalar)
    → Fits v
    → Readable buf i [] v
    → drop i buf ≡ encode v ++ []
    → display_loop buf (suc (suc fuel)) i ≡ shown (v ∷ [])
display_loop-one buf fuel i v h r e =
    display_loop-print buf (suc fuel) i v [] h r e
    ∙ ap (print v)
        (display_loop-end buf fuel (i + length (encode v)) (drop-next buf i (encode v) [] e))

display_loop-last :
    (buf : List ℕ) (fuel i : ℕ) (v : Scalar)
    → Fits v
    → drop i buf ≡ encode v ++ []
    → display_loop buf (suc (suc fuel)) i ≡ displayed (v ∷ [])
unfolding display_loop
display_loop-last buf fuel i (string_of []) h e =
    rw (get_elem?-drop i buf e, display_loop) (rw (show_tag-empty buf i e, display_loop))
display_loop-last buf fuel i (string_of (c ∷ s)) h e =
    display_loop-one buf fuel i (string_of (c ∷ s)) h (omega arith) e
display_loop-last buf fuel i v h e = display_loop-one buf fuel i v h tt e

display_loop-encode_all :
    (buf : List ℕ) (fuel i : ℕ) (vs : List Scalar)
    → AllFit vs
    → length vs < fuel
    → drop i buf ≡ encode_all vs
    → display_loop buf fuel i ≡ displayed vs
display_loop-encode_all buf zero i vs h n e = elim n [ ]
display_loop-encode_all buf (suc fuel) i [] h n e = display_loop-end buf fuel i e
display_loop-encode_all buf (suc zero) i (v ∷ []) h n e = absurd (omega arith)
display_loop-encode_all buf (suc (suc fuel)) i (v ∷ []) h n e = display_loop-last buf fuel i v h.0 e
display_loop-encode_all buf (suc fuel) i (v ∷ w ∷ vs) h n e =
    let rest = encode_all (w ∷ vs) in
    let more = Readable-before buf i rest v (length-encode w (encode_all vs)) in
    let next = drop-next buf i (encode v) rest e in
    display_loop-print buf fuel i v rest h.0 more e
    ∙ ap (print v)
        (display_loop-encode_all buf fuel (i + length (encode v)) (w ∷ vs) h.1 (omega arith) next)
    ∙ print-if v (w ∷ vs) (ends_empty (w ∷ vs))

-- `display` prints every value of a buffer of scalars and strings, in order, and ends, unless the last
-- value is an empty string: then it accesses the element behind the buffer. One round more than there
-- are values is enough. The values have the bit patterns of their types, and the strings are shorter
-- than 2 ^ 31; a number may be read at any address.
pub display-encode_all :
    (vs : List Scalar) (fuel : ℕ) (s : DataStream)
    → s.m_buf ≡ encode_all vs
    → AllFit vs
    → length vs < fuel
    → display fuel s ≡ (if ends_empty vs then undefined_access else shown vs)
unfolding display
display-encode_all vs fuel s e h n = display_loop-encode_all s.m_buf fuel 0 vs h n e

display_loop-stays :
    (buf : List ℕ) (fuel i b : ℕ) (vs : List Scalar) (post : List ℕ)
    → AllFit vs
    → tag string < b
    → drop i buf ≡ encode_all vs ++ (b ∷ post)
    → display_loop buf fuel i ≡ running
unfolding display_loop
display_loop-stays buf zero i b vs post h n e = refl
display_loop-stays buf (suc fuel) i b [] post h n e =
    let stuck : show_tag buf i b ≡ stays = unfold show_tag in ground arith in
    rw (get_elem?-drop i buf e, display_loop)
      (rw (stuck, display_loop) (display_loop-stays buf fuel i b [] post h n e))
display_loop-stays buf (suc fuel) i b (v ∷ vs) post h n e =
    let tail = encode_all vs ++ (b ∷ post) in
    let e' : drop i buf ≡ encode v ++ tail =
      e ∙ append_assoc (encode v) (encode_all vs) (b ∷ post) in
    let next = drop-next buf i (encode v) tail e' in
    display_loop-print buf fuel i v tail h.0
      (Readable-before buf i tail v (omega (arith, length-append (encode_all vs) (b ∷ post)))) e'
    ∙ ap (print v) (display_loop-stays buf fuel (i + length (encode v)) b vs post h.1 n next)

-- `display` never ends on a buffer that holds, behind any scalars and strings, a tag above that of a
-- string, such as the tag of a vector, a list, a set or a map: no number of rounds is enough.
pub display_runs_on :
    (vs : List Scalar) (b : ℕ) (post : List ℕ) (fuel : ℕ) (s : DataStream)
    → s.m_buf ≡ encode_all vs ++ (b ∷ post)
    → AllFit vs
    → tag string < b
    → display fuel s ≡ running
unfolding display
display_runs_on vs b post fuel s e h n = display_loop-stays s.m_buf fuel 0 b vs post h n e
