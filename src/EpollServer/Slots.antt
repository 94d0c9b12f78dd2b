-- ===== src/EpollServer/Slots.antt =====
-- epoll/main.c: when the table of connections is consistent, and the functions that change one entry.
use cpp_projects_learning.Common.{
  get_elem?-set, ℕ, zero, suc, ◌+◌, ◌<◌, ◌≡◌, ◌≢◌, ◌⊎◌, inl, inr, refl, ◌∙◌, true, false, List, [],
  ◌∷◌, some, arith, Bool-cases, length, get_elem?, length-set,
}
use cpp_projects_learning.EpollServer.{
  max_events, buflen, epollin, epollout, Callback, unset, acceptconn_callback, recvdata_callback,
  senddata_callback, Event, Call, Server, entry, store, calling, eventset, eventadd, eventdel,
}

-- The events that an entry waits for with this callback.
abbrev pub mode : Callback → ℕ
mode unset = 0
mode acceptconn_callback = epollin
mode recvdata_callback = epollin
mode senddata_callback = epollout

-- The i-th entry waits for what its callback handles, points to itself, and has its length within the
-- buffer; the last entry, and no other, is the listening socket.
pub record SlotOk (i : ℕ) (e : Event) : Type 0 where
  pub events_fit : e.events ≡ mode e.call_back
  pub in_use : e.status ≡ true → e.call_back ≢ unset
  pub points : e.call_back ≢ unset → e.arg ≡ i
  pub client : i < max_events → e.call_back ≢ acceptconn_callback
  pub listens : i ≡ max_events → (e.call_back ≡ acceptconn_callback) × (e.status ≡ true)
  pub buf_size : length e.buf ≡ buflen
  pub len_fits : e.len < buflen

pub record IsValid (s : Server) : Type 0 where
  pub size : length s.g_events ≡ max_events + 1
  pub slots : (i : ℕ) (e : Event) → entry s i ≡ some e → SlotOk i e

module _ {ℓ} {A : Type ℓ} where
  pub get_elem?-lt : (xs : List A) (i : ℕ) (x : A) → get_elem? xs i ≡ some x → i < length xs
  get_elem?-lt [] i x e = cc
  get_elem?-lt (y ∷ xs) zero x e = omega arith
  get_elem?-lt (y ∷ xs) (suc i) x e = omega (arith, get_elem?-lt xs i x e)

pub store-IsValid :
    (s : Server) (i : ℕ) (e : Event) → IsValid s → SlotOk i e → IsValid (store s i e)
store-IsValid s i e v ok = record {
  size = length-set s.g_events i e ∙ v.size;
  slots = λ j d at. elim (get_elem?-set s.g_events i j e d at) [
    | inl (p, q) ↦ rw (← p, q) ok
    | inr old ↦ v.slots j d old
  ];
}

pub calling-IsValid : (c : Call) (s : Server) → IsValid s → IsValid (calling c s)
calling-IsValid c s v = record { size = v.size; slots = v.slots }

pub eventadd-IsValid :
    (i events : ℕ) (e : Event) (s : Server)
    → IsValid s
    → SlotOk i (record e { events = events; status = true })
    → IsValid (eventadd i events e s)
unfolding eventadd
eventadd-IsValid i events e s v ok =
    calling-IsValid _ (store s i (record e { events = events; status = true }))
      (store-IsValid s i _ v ok)

-- Only a client's entry is given up.
pub eventdel-IsValid :
    (i : ℕ) (e : Event) (s : Server)
    → i < max_events
    → IsValid s
    → SlotOk i e
    → IsValid (eventdel i e s)
unfolding eventdel
eventdel-IsValid i e s c v ok = elim (Bool-cases e.status) [
  | inr off ↦ rw off v
  | inl on ↦ rw on (
      calling-IsValid _ (store s i (record e { status = false })) (
        store-IsValid s i _ v (record {
          events_fit = ok.events_fit;
          in_use = λ h. cc;
          points = ok.points;
          client = ok.client;
          listens = λ h. absurd (omega arith);
          buf_size = ok.buf_size;
          len_fits = ok.len_fits;
        })))
]

-- An entry that a callback has set up anew for a client.
pub fresh-SlotOk :
    (i fd now : ℕ) (cb : Callback) (e : Event)
    → i < max_events
    → (cb ≡ recvdata_callback) ⊎ (cb ≡ senddata_callback)
    → length e.buf ≡ buflen
    → e.len < buflen
    → SlotOk i (record (eventset i fd cb now e) { events = mode cb; status = true })
unfolding eventset
fresh-SlotOk i fd now cb e c k b l = record {
  events_fit = refl;
  in_use = λ h. ground arith;
  points = λ h. refl;
  client = λ h. ground arith;
  listens = λ h. absurd (omega arith);
  buf_size = b;
  len_fits = l;
}
