-- ===== src/EpollServer/Start.antt =====
-- epoll/main.c: the table that `initlistensocket` leaves.
use cpp_projects_learning.Common.{
  get_elem?-set, get_elem?-replicate, ℕ, ◌+◌, ◌<◌, ◌≡◌, inl, inr, refl, sym, ap, ◌∙◌, true, List,
  none, some, ◌==◌, ==_iff, Bool-cases, arith, length, get_elem?, set, replicate, length-set,
  length-replicate, get_elem?-set_self,
}
use cpp_projects_learning.EpollServer.{
  max_events, epollin, acceptconn_callback, Event, zero_event, eventset, eventadd, initlistensocket,
  empty_server,
}
use cpp_projects_learning.EpollServer.Slots.{SlotOk, IsValid, get_elem?-lt}

zero-SlotOk : (i : ℕ) → i < max_events → SlotOk i zero_event
zero-SlotOk i l = record {
  events_fit = refl;
  in_use = λ h. cc;
  points = λ h. absurd (h refl);
  client = λ _ h. cc;
  listens = λ h. absurd (omega arith);
  buf_size = refl;
  len_fits = omega arith;
}

abbrev listening : ℕ → ℕ → Event
listening lfd now = record zero_event {
  fd = lfd;
  events = epollin;
  arg = max_events;
  call_back = acceptconn_callback;
  status = true;
  last_active = now;
}

listening-SlotOk : (lfd now : ℕ) → SlotOk max_events (listening lfd now)
listening-SlotOk lfd now = record {
  events_fit = refl;
  in_use = λ h. cc;
  points = λ h. refl;
  client = λ h. absurd (omega arith);
  listens = λ h. (refl, refl);
  buf_size = refl;
  len_fits = omega arith;
}

module _ (n : ℕ) (x : Event) (m : n ≡ max_events) (ok : SlotOk n x) where
  table : List Event
  table = set (replicate (n + 1) zero_event) n x

  length-table : length table ≡ n + 1
  unfolding table
  length-table = length-set (replicate (n + 1) zero_event) n x ∙ length-replicate (n + 1) zero_event

  last-table : get_elem? table n ≡ some x
  unfolding table
  last-table =
      get_elem?-set_self (replicate (n + 1) zero_event) n x
        (omega (arith, length-replicate (n + 1) zero_event))

  old-SlotOk :
      (i : ℕ) (e : Event)
      → get_elem? table i ≡ some e
      → get_elem? (replicate (n + 1) zero_event) i ≡ some e
      → SlotOk i e
  old-SlotOk i e at old =
      let inside : i < n + 1 = omega (arith, get_elem?-lt table i e at, length-table) in
      elim (Bool-cases (i == n)) [
        | inl last ↦
            let here : i ≡ n = (==_iff i n).0 last in
            let at' : get_elem? table n ≡ some e = rw here at at in
            let same : x ≡ e = ap (λ o. elim o [ none ↦ x | some y ↦ y ]) (sym last-table ∙ at') in
            rw (here, ← same) ok
        | inr before ↦
            let zeroed = get_elem?-replicate (n + 1) i zero_event e old in
            let lt : i < max_events = ground (arith, inside, m) in rw zeroed (zero-SlotOk i lt)
      ]

  table-SlotOk : (i : ℕ) (e : Event) → get_elem? table i ≡ some e → SlotOk i e
  table-SlotOk i e at =
      elim (get_elem?-set (replicate (n + 1) zero_event) n i x e (unfold table in at)) [
        | inl (p, q) ↦ rw (← p, q) ok
        | inr old ↦ old-SlotOk i e at old
      ]

-- `initlistensocket`, on the zeros of a static array, leaves a consistent table: each entry waits for
-- what its callback handles, and the last entry alone is the listening socket, in use.
pub initlistensocket-IsValid : (lfd now : ℕ) → IsValid (initlistensocket lfd now empty_server)
unfolding initlistensocket eventadd eventset table
initlistensocket-IsValid lfd now = record {
  size = length-table max_events (listening lfd now) refl (listening-SlotOk lfd now);
  slots = table-SlotOk max_events (listening lfd now) refl (listening-SlotOk lfd now);
}
