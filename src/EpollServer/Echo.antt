-- ===== src/EpollServer/Echo.antt =====
-- epoll/main.c: what a client sends comes back, through `recvdata` and then `senddata`.
use cpp_projects_learning.Common.{
  ℕ, zero, suc, ◌<◌, ◌≡◌, refl, ap, true, false, List, [], ◌∷◌, ◌++◌, append_assoc, some, arith,
  leb, ◌==◌, length, set, take, drop, get_elem?-set_self, length-set,
}
use cpp_projects_learning.EpollServer.{
  buflen, epollin, epollout, recvdata_callback, senddata_callback, Event, ctl_add, ctl_del, sends,
  Server, entry, got, sent, overwrite, recvdata, senddata,
}
use cpp_projects_learning.EpollServer.Slots.{get_elem?-lt}

take-ended :
    (bytes tail : List ℕ) → take (length bytes) (set (bytes ++ tail) (length bytes) 0) ≡ bytes
take-ended [] tail = refl
take-ended (b ∷ bytes) tail = ap (◌∷◌ b) (take-ended bytes tail)

-- The entry after `recvdata` has stored what came.
abbrev received_entry : ℕ → List ℕ → ℕ → Event → Event
received_entry i bytes now e = record e {
  call_back = senddata_callback;
  events = epollout;
  arg = i;
  status = true;
  len = length bytes;
  buf = set (overwrite bytes e.buf) (length bytes) 0;
  last_active = now;
}

set-set {ℓ} : {A : Type ℓ} (xs : List A) (i : ℕ) (x y : A) → set (set xs i x) i y ≡ set xs i y
set-set [] i x y = refl
set-set (z ∷ xs) zero x y = refl
set-set (z ∷ xs) (suc i) x y = ap (◌∷◌ z) (set-set xs i x y)

recvdata_lem :
    (i now : ℕ) (bytes : List ℕ) (e : Event) (s : Server)
    → e.status ≡ true
    → 0 < length bytes
    → length bytes < buflen
    → recvdata i (got bytes) now e s
      ≡ some (record s {
        g_events = set s.g_events i (received_entry i bytes now e);
        calls = (s.calls ++ ctl_del e.fd ∷ []) ++ ctl_add e.fd epollout ∷ [];
      })
unfolding recvdata
recvdata_lem i now bytes e s on p l =
    let some_bytes : (length bytes == 0) ≡ false = ground arith in
    let fits : leb buflen (length bytes) ≡ false = ground arith in
    rw (some_bytes, fits, on) (rw set-set)

senddata_lem :
    (i now n : ℕ) (e : Event) (s : Server)
    → e.status ≡ true
    → 0 < n
    → senddata i (sent n) now e s
      ≡ some (record s {
        g_events = set s.g_events i (record e {
          call_back = recvdata_callback;
          events = epollin;
          arg = i;
          status = true;
          last_active = now;
        });
        calls =
            ((s.calls ++ sends e.fd (take e.len e.buf) ∷ []) ++ ctl_del e.fd ∷ [])
            ++ ctl_add e.fd epollin ∷ [];
      })
unfolding senddata
senddata_lem i now n e s on p =
    let some_bytes : (n == 0) ≡ false = ground arith in rw (some_bytes, on) (rw set-set)

-- A client in use sends `bytes`, fewer than the buffer holds and at least one. `recvdata` stores them
-- and makes the entry wait until it can write; `senddata`, whenever it runs on that entry and whatever
-- part `send` takes, then asks to send exactly `bytes` to the same client, and the entry waits for
-- reading again, in use.
pub senddata-recvdata :
    (i now later n : ℕ) (bytes : List ℕ) (e : Event) (s : Server)
    → entry s i ≡ some e
    → e.status ≡ true
    → 0 < length bytes
    → length bytes < buflen
    → 0 < n
    → (e' : Event) × (f : Event) × (t : Server) × (u : Server) × (recvdata i (got bytes) now e s
        ≡ some t)
      × (entry t i ≡ some e')
      × (e'.call_back ≡ senddata_callback)
      × (senddata i (sent n) later e' t ≡ some u)
      × (u.calls ≡ t.calls ++ sends e.fd bytes ∷ ctl_del e.fd ∷ ctl_add e.fd epollin ∷ [])
      × (entry u i ≡ some f)
      × (f.call_back ≡ recvdata_callback)
      × (f.status ≡ true)
senddata-recvdata i now later n bytes e s at on p l q =
    let e' = received_entry i bytes now e in
    let t = record s {
      g_events = set s.g_events i e';
      calls = (s.calls ++ ctl_del e.fd ∷ []) ++ ctl_add e.fd epollout ∷ [];
    } in
    let f = record e' { call_back = recvdata_callback; events = epollin; last_active = later } in
    let u = record t {
      g_events = set t.g_events i f;
      calls =
          ((t.calls ++ sends e.fd (take e'.len e'.buf) ∷ []) ++ ctl_del e.fd ∷ [])
          ++ ctl_add e.fd epollin ∷ [];
    } in
    let inside = get_elem?-lt s.g_events i e at in
    let inside' : i < length t.g_events = omega (arith, length-set s.g_events i e') in
    (
      e',
      f,
      t,
      u,
      recvdata_lem i now bytes e s on p l,
      get_elem?-set_self s.g_events i e' inside,
      refl,
      senddata_lem i later n e' t refl q,
      rw (take-ended bytes (drop (length bytes) e.buf)) (simp append_assoc),
      get_elem?-set_self t.g_events i f inside',
      refl,
      refl,
    )
