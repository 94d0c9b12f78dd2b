-- ===== src/EpollServer/Table.antt =====
-- epoll/main.c: the entries of `g_events` stay consistent, whatever clients and system calls do.
use cpp_projects_learning.Common.{
  ℕ, zero, suc, ◌+◌, ◌≤◌, ◌<◌, ◌≡◌, ◌≢◌, inl, inr, refl, sym, ap, ◌∙◌, Bool, true, false, ◌&&◌,
  List, [], ◌∷◌, Option, none, some, arith, leb, ◌==◌, Bool-cases, Option-cases, length, get_elem?,
  set, take, length-set, subst,
}
use cpp_projects_learning.EpollServer.{
  max_events, buflen, epollin, epollout, has_in, has_out, Callback, unset, acceptconn_callback,
  recvdata_callback, senddata_callback, Event, Server, entry, calling, closes, sends, eventset,
  eventdel, Accepted, accept_failed, connected, first_free, install, acceptconn, Received, got,
  peer_closed, recv_failed, Sent, sent, send_failed, overwrite, recvdata, senddata, Answers,
  run_callback, call_entry, then_call, handle,
}
use cpp_projects_learning.EpollServer.Slots.{
  IsValid, SlotOk, calling-IsValid, eventadd-IsValid, eventdel-IsValid, fresh-SlotOk, mode,
}

first_free-lt : (n : ℕ) (es : List Event) (i : ℕ) → first_free n es ≡ some i → i < n
unfolding first_free
first_free-lt zero es i e = cc
first_free-lt (suc n) [] i e = cc
first_free-lt (suc n) (x ∷ es) i e = elim (Option-cases (first_free n es)) [
  | inl taken ↦ ground arith
  | inr (k, found) ↦ ground (arith, first_free-lt n es k found)
]

install-IsValid :
    (i cfd now : ℕ) (o : Option Event) (s : Server)
    → i < max_events
    → o ≡ entry s i
    → IsValid s
    → IsValid (install i cfd now o s)
install-IsValid i cfd now none s c e v = v
install-IsValid i cfd now (some x) s c e v =
    let ok = v.slots i x (sym e) in
    eventadd-IsValid i epollin (eventset i cfd recvdata_callback now x) s v
      (fresh-SlotOk i cfd now recvdata_callback x c (inl refl) ok.buf_size ok.len_fits)

acceptconn-IsValid :
    (a : Accepted) (now : ℕ) (s : Server) → IsValid s → IsValid (acceptconn a now s)
unfolding acceptconn
acceptconn-IsValid accept_failed now s v = v
acceptconn-IsValid (connected cfd false) now s v =
    elim (Option-cases (first_free max_events s.g_events)) [
      | inl full ↦ rw (full, acceptconn) v
      | inr (i, free) ↦ rw (free, acceptconn) v
    ]
acceptconn-IsValid (connected cfd true) now s v =
    elim (Option-cases (first_free max_events s.g_events)) [
      | inl full ↦ rw (full, acceptconn) v
      | inr (i, free) ↦
          rw (free, acceptconn)
            (install-IsValid i cfd now (entry s i) s (first_free-lt max_events s.g_events i free)
              refl v)
    ]

-- A callback gives a result, and a consistent table.
abbrev pub Yields : Option Server → Type 0
Yields none = ⊥
Yields (some s) = IsValid s

length-overwrite :
    (bytes buf : List ℕ) → length bytes ≤ length buf → length (overwrite bytes buf) ≡ length buf
length-overwrite [] buf h = refl
length-overwrite (b ∷ bytes) [] h = elim h [ ]
length-overwrite (b ∷ bytes) (x ∷ buf) h = ap suc (length-overwrite bytes buf (omega arith))

-- `recv` fills at most the buffer.
abbrev pub Short : Received → Type 0
Short (got bytes) = length bytes < buflen
Short _ = Unit

module _ (i : ℕ) (e : Event) (s : Server) (c : i < max_events) (v : IsValid s)
    (ok : SlotOk i e) where
  closed-Yields : (x : Event) → SlotOk i x → Yields (some (calling (closes e.fd) (eventdel i x s)))
  closed-Yields x okx = calling-IsValid _ (eventdel i x s) (eventdel-IsValid i x s c v okx)

  filled-SlotOk :
      (bytes : List ℕ) → length bytes < buflen → SlotOk i (record e { buf = overwrite bytes e.buf })
  filled-SlotOk bytes h = record {
    events_fit = ok.events_fit;
    in_use = ok.in_use;
    points = ok.points;
    client = ok.client;
    listens = ok.listens;
    buf_size = length-overwrite bytes e.buf (omega (arith, ok.buf_size)) ∙ ok.buf_size;
    len_fits = ok.len_fits;
  }

  recvdata-Yields : (r : Received) (now : ℕ) → Short r → Yields (recvdata i r now e s)
  unfolding recvdata
  recvdata-Yields peer_closed now h = closed-Yields e ok
  recvdata-Yields recv_failed now h = closed-Yields e ok
  recvdata-Yields (got bytes) now h =
      let filled = record e { buf = overwrite bytes e.buf } in
      let okf = filled-SlotOk bytes h in
      let ended = record filled {
        status = false;
        len = length bytes;
        buf = set filled.buf (length bytes) 0;
      } in
      let fits : leb buflen (length bytes) ≡ false = ground arith in
      elim (Bool-cases (length bytes == 0)) [
        | inl nothing ↦ rw nothing (closed-Yields filled okf)
        | inr some_bytes ↦
            rw (some_bytes, fits)
              (eventadd-IsValid i epollout (eventset i e.fd senddata_callback now ended)
                (eventdel i filled s) (eventdel-IsValid i filled s c v okf)
                (fresh-SlotOk i e.fd now senddata_callback ended c (inr refl)
                  (length-set filled.buf (length bytes) 0 ∙ okf.buf_size) h))
      ]

  senddata-Yields : (r : Sent) (now : ℕ) → Yields (senddata i r now e s)
  unfolding senddata
  senddata-Yields send_failed now =
      let asked = calling (sends e.fd (take e.len e.buf)) s in
      calling-IsValid _ _ (eventdel-IsValid i e asked c (calling-IsValid _ s v) ok)
  senddata-Yields (sent n) now =
      let asked = calling (sends e.fd (take e.len e.buf)) s in
      let removed =
        eventdel-IsValid i e asked c (calling-IsValid (sends e.fd (take e.len e.buf)) s v) ok in
      elim (Bool-cases (n == 0)) [
        | inl nothing ↦ rw nothing (calling-IsValid _ _ removed)
        | inr some_bytes ↦ rw some_bytes (
            eventadd-IsValid i epollin
              (eventset i e.fd recvdata_callback now (record e { status = false })) _ removed
              (fresh-SlotOk i e.fd now recvdata_callback (record e { status = false }) c (inl refl)
                ok.buf_size ok.len_fits))
      ]

run_callback-Yields :
    (cb : Callback) (i : ℕ) (a : Answers) (e : Event) (s : Server)
    → e.call_back ≡ cb
    → cb ≢ unset
    → Short a.received
    → i < max_events + 1
    → IsValid s
    → SlotOk i e
    → Yields (run_callback cb i a e s)
unfolding run_callback
run_callback-Yields unset i a e s k n h l v ok = absurd (n refl)
run_callback-Yields acceptconn_callback i a e s k n h l v ok =
    acceptconn-IsValid a.accepted a.now s v
run_callback-Yields recvdata_callback i a e s k n h l v ok =
    let c : i < max_events = grind (arith, ok.listens) in
    recvdata-Yields i e s c v ok a.received a.now h
run_callback-Yields senddata_callback i a e s k n h l v ok =
    let c : i < max_events = grind (arith, ok.listens) in
    senddata-Yields i e s c v ok a.answer_to_send a.now

pub get_elem?-inside : (xs : List Event) (i : ℕ) → i < length xs → get_elem? xs i ≢ none
get_elem?-inside [] i h e = elim h [ ]
get_elem?-inside (x ∷ xs) zero h e = cc
get_elem?-inside (x ∷ xs) (suc i) h e = get_elem?-inside xs i (omega arith) e

-- A callback runs only for an event that the entry waits for.
not_wanted :
    (has : ℕ → Bool) (ready events : ℕ)
    → has 0 ≡ false
    → events ≡ 0
    → (has ready && has events) ≢ true
not_wanted has ready events z e w = let off : has events ≡ false = rw e z in ground arith

call_entry-Yields :
    (has : ℕ → Bool) (i ready : ℕ) (a : Answers) (o : Option Event) (s : Server)
    → has 0 ≡ false
    → Short a.received
    → i < max_events + 1
    → o ≡ entry s i
    → IsValid s
    → Yields (call_entry has i ready a o s)
call_entry-Yields has i ready a none s z h l e v =
    absurd (get_elem?-inside s.g_events i (omega (arith, v.size)) (sym e))
call_entry-Yields has i ready a (some x) s z h l e v =
    let ok = v.slots i x (sym e) in
    elim (Bool-cases (has ready && has x.events)) [
      | inr idle ↦ rw idle v
      | inl wanted ↦
          let known : x.call_back ≢ unset =
            λ u. not_wanted has ready x.events z (ok.events_fit ∙ ap mode u) wanted in
          let run = run_callback-Yields x.call_back i a x s refl known h l v ok in
          rw wanted
            (subst (λ j. Yields (run_callback x.call_back j a x s)) (sym (ok.points known)) run)
    ]

then_call-Yields :
    (i ready : ℕ) (a : Answers) (o : Option Server)
    → Short a.received
    → i < max_events + 1
    → Yields o
    → Yields (then_call has_out i ready a o)
then_call-Yields i ready a none h l y = elim y [ ]
then_call-Yields i ready a (some s) h l y =
    call_entry-Yields has_out i ready a (entry s i) s refl h l refl y

-- Whatever event `epoll_wait` reports for an entry of the table, and whatever the system calls in the
-- callbacks return, the callbacks end with a result and leave the table consistent: each entry waits
-- for what its callback handles, and the last entry alone is the listening socket, in use. `recv` must
-- have filled less than the whole buffer.
pub handle-Yields :
    (i ready : ℕ) (a b : Answers) (s : Server)
    → Short a.received
    → Short b.received
    → i < max_events + 1
    → IsValid s
    → Yields (handle i ready a b s)
unfolding handle
handle-Yields i ready a b s ha hb l v =
    then_call-Yields i ready b (call_entry has_in i ready a (entry s i) s) hb l
      (call_entry-Yields has_in i ready a (entry s i) s refl ha l refl v)
