-- ===== src/EpollServer.antt =====
-- epoll/main.c: the table of connections of the echo server, its callbacks, and the rounds of `main`.
-- What the system calls return is an argument; what the program asks of them is kept in `calls`.
pub mod Table
pub mod Slots
pub mod Echo
pub mod Sweep
pub mod Start
mod Tests
use mathlib.Core.Option
use cpp_projects_learning.Common.{
  ℕ, zero, suc, ◌+◌, ◌-◌, ◌/◌, ◌%◌, Bool, true, false, not, ◌&&◌, List, [], ◌∷◌, ◌++◌, Option, none,
  some, ltb, leb, ◌==◌, if◌then◌else◌, length, get_elem?, set, take, drop, replicate,
}

abbrev pub max_events : ℕ
max_events = 1024

abbrev pub buflen : ℕ
buflen = 128

-- `EPOLLIN` and `EPOLLOUT`, and the tests of these bits.
abbrev pub epollin : ℕ
epollin = 1

abbrev pub epollout : ℕ
epollout = 4

abbrev pub has_in : ℕ → Bool
has_in events = events % 2 == 1

abbrev pub has_out : ℕ → Bool
has_out events = events / 4 % 2 == 1

-- The functions that `call_back` can point to.
pub data Callback : Type 0 where
  unset acceptconn_callback recvdata_callback senddata_callback : Callback

-- `struct myevent_s`; `arg` always points to the struct itself, and is the index of the entry.
pub record Event : Type 0 where
  pub fd : ℕ
  pub events : ℕ
  pub arg : ℕ
  pub call_back : Callback
  pub status : Bool
  pub buf : List ℕ
  pub len : ℕ
  pub last_active : ℕ

-- The calls whose effect is outside the program.
pub data Call : Type 0 where
  ctl_add ctl_mod : ℕ → ℕ → Call
  ctl_del : ℕ → Call
  closes : ℕ → Call
  sends : ℕ → List ℕ → Call

pub record Server : Type 0 where
  pub g_events : List Event
  pub checkpos : ℕ
  pub calls : List Call

-- A static array is filled with zeros.
abbrev pub zero_event : Event
zero_event = record {
  fd = 0;
  events = 0;
  arg = 0;
  call_back = unset;
  status = false;
  buf = replicate buflen 0;
  len = 0;
  last_active = 0;
}

abbrev pub entry : Server → ℕ → Option Event
entry s i = get_elem? s.g_events i

abbrev pub store : Server → ℕ → Event → Server
store s i e = record s { g_events = set s.g_events i e }

abbrev pub calling : Call → Server → Server
calling c s = record s { calls = s.calls ++ c ∷ [] }

-- `eventset(&g_events[i], fd, call_back, &g_events[i])` at the time `now`.
unfoldable pub eventset : ℕ → ℕ → Callback → ℕ → Event → Event
eventset i fd call_back now e = record e {
  fd = fd;
  call_back = call_back;
  events = 0;
  arg = i;
  status = false;
  last_active = now;
}

-- `eventadd(g_efd, events, &g_events[i])`, on the entry `e`.
unfoldable pub eventadd : ℕ → ℕ → Event → Server → Server
eventadd i events e s =
    let added = record e { events = events; status = true } in
    calling (if e.status then ctl_mod e.fd events else ctl_add e.fd events) (store s i added)

-- `eventdel(g_efd, &g_events[i])`, on the entry `e`.
unfoldable pub eventdel : ℕ → Event → Server → Server
eventdel i e s =
    if not e.status then s else calling (ctl_del e.fd) (store s i (record e { status = false }))

-- What `accept` and `fcntl` return for a new connection.
pub data Accepted : Type 0 where
  accept_failed : Accepted
  connected : ℕ → Bool → Accepted

-- The first of the first `n` entries that is not in use.
unfoldable pub first_free : ℕ → List Event → Option ℕ
first_free zero es = none
first_free (suc n) [] = none
first_free (suc n) (e ∷ es) =
    let later = Option.map suc (first_free n es) in if not e.status then some zero else later

abbrev pub install : ℕ → ℕ → ℕ → Option Event → Server → Server
install i cfd now none s = s
install i cfd now (some e) s =
    let fresh = eventset i cfd recvdata_callback now e in eventadd i epollin fresh s

-- `acceptconn`: with no free entry, or if `fcntl` fails, the connection stays open and forgotten.
unfoldable pub acceptconn : Accepted → ℕ → Server → Server
unfolding eventset eventadd
acceptconn accept_failed now s = s
acceptconn (connected cfd nonblocking) now s = elim (first_free max_events s.g_events) [
  | none ↦ s
  | some i ↦ if not nonblocking then s else install i cfd now (entry s i) s
]

-- What `recv` and `send` return.
pub data Received : Type 0 where
  got : List ℕ → Received
  peer_closed recv_failed : Received

pub data Sent : Type 0 where
  sent : ℕ → Sent
  send_failed : Sent

-- `recv` stores the bytes at the start of the buffer.
abbrev pub overwrite : List ℕ → List ℕ → List ℕ
overwrite bytes buf = bytes ++ drop (length bytes) buf

-- `recvdata` on the entry `i`. `none` is undefined behaviour: the 0 that ends the text is written
-- behind the buffer.
unfoldable pub recvdata : ℕ → Received → ℕ → Event → Server → Option Server
unfolding eventset eventadd eventdel
recvdata i (got bytes) now e s =
    let filled = record e { buf = overwrite bytes e.buf } in
    let removed = eventdel i filled s in
    let ended = record filled {
      status = false;
      len = length bytes;
      buf = set filled.buf (length bytes) 0;
    } in
    if length bytes == 0
    then some (calling (closes e.fd) removed)
    else if leb buflen (length bytes)
    then none
    else some (eventadd i epollout (eventset i e.fd senddata_callback now ended) removed)
recvdata i peer_closed now e s = some (calling (closes e.fd) (eventdel i e s))
recvdata i recv_failed now e s = some (calling (closes e.fd) (eventdel i e s))

-- `senddata` on the entry `i`; what `send` did not take is not sent again.
unfoldable pub senddata : ℕ → Sent → ℕ → Event → Server → Option Server
unfolding eventset eventadd eventdel
senddata i (sent n) now e s =
    let asked = calling (sends e.fd (take e.len e.buf)) s in
    let removed = eventdel i e asked in
    let idle = record e { status = false } in
    some (
      if n == 0
      then calling (closes e.fd) removed
      else eventadd i epollin (eventset i e.fd recvdata_callback now idle) removed)
senddata i send_failed now e s =
    some (calling (closes e.fd) (eventdel i e (calling (sends e.fd (take e.len e.buf)) s)))

-- What the system answers to whichever callback runs, and the time.
pub record Answers : Type 0 where
  pub accepted : Accepted
  pub received : Received
  pub answer_to_send : Sent
  pub now : ℕ

-- `ev->call_back(ev->fd, events[i].events, ev->arg)`; a null pointer is undefined behaviour.
unfoldable pub run_callback : Callback → ℕ → Answers → Event → Server → Option Server
unfolding acceptconn recvdata senddata
run_callback unset i a e s = none
run_callback acceptconn_callback i a e s = some (acceptconn a.accepted a.now s)
run_callback recvdata_callback i a e s = recvdata i a.received a.now e s
run_callback senddata_callback i a e s = senddata i a.answer_to_send a.now e s

abbrev pub call_entry : (ℕ → Bool) → ℕ → ℕ → Answers → Option Event → Server → Option Server
call_entry has i ready a none s = none
call_entry has i ready a (some e) s =
    if has ready && has e.events then run_callback e.call_back e.arg a e s else some s

abbrev pub then_call : (ℕ → Bool) → ℕ → ℕ → Answers → Option Server → Option Server
then_call has i ready a none = none
then_call has i ready a (some s) = call_entry has i ready a (entry s i) s

-- One ready event of `epoll_wait`: the test for reading and then, on the entry as it is by then, the
-- test for writing.
unfoldable pub handle : ℕ → ℕ → Answers → Answers → Server → Option Server
unfolding run_callback
handle i ready a b s = then_call has_out i ready b (call_entry has_in i ready a (entry s i) s)

abbrev pub expire : ℕ → ℕ → Option Event → Server → Server
expire i now none s = s
expire i now (some e) s =
    if e.status && leb 60 (now - e.last_active) then eventdel i e (calling (closes e.fd) s) else s

-- The loop over 100 entries from `checkpos` on, at the time `now`.
unfoldable pub sweep : ℕ → ℕ → Server → Server
unfolding eventdel
sweep zero now s = s
sweep (suc rounds) now s =
    let pos = if s.checkpos == max_events then 0 else s.checkpos in
    let checked = expire pos now (entry s pos) (record s { checkpos = pos }) in
    sweep rounds now (record checked { checkpos = pos + 1 })

-- `initlistensocket`, with the socket `lfd`.
unfoldable pub initlistensocket : ℕ → ℕ → Server → Server
unfolding eventset eventadd
initlistensocket lfd now s =
    eventadd max_events epollin (eventset max_events lfd acceptconn_callback now zero_event) s

abbrev pub empty_server : Server
empty_server = record { g_events = replicate (max_events + 1) zero_event; checkpos = 0; calls = [] }
