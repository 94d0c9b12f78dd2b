-- ===== src/EpollServer/Sweep.antt =====
-- epoll/main.c: the loop of `main` that closes the connections that were silent for 60 seconds.
use cpp_projects_learning.Common.{
  ℕ, zero, suc, ◌+◌, ◌-◌, ◌≤◌, ◌<◌, ◌≡◌, ◌≢◌, ◌⊎◌, inl, inr, refl, sym, ◌∙◌, true, false, ◌&&◌,
  Option, none, some, arith, leb, ◌==◌, if◌then◌else◌, Bool-cases, get_elem?-set_self,
  get_elem?-set_ne, subst, ==_iff,
}
use cpp_projects_learning.EpollServer.{
  max_events, Event, closes, Server, entry, calling, eventdel, expire, sweep,
}
use cpp_projects_learning.EpollServer.Slots.{
  IsValid, get_elem?-lt, eventdel-IsValid, calling-IsValid,
}

-- The position that a round looks at.
abbrev pub wrapped : ℕ → ℕ
wrapped pos = if pos == max_events then 0 else pos

expire-IsValid :
    (i now : ℕ) (o : Option Event) (s : Server)
    → i < max_events
    → o ≡ entry s i
    → IsValid s
    → IsValid (expire i now o s)
expire-IsValid i now none s c e v = v
expire-IsValid i now (some x) s c e v =
    elim (Bool-cases (x.status && leb 60 (now - x.last_active))) [
      | inr kept ↦ rw kept v
      | inl idle ↦ rw idle (
          eventdel-IsValid i x (calling (closes x.fd) s) c (calling-IsValid (closes x.fd) s v)
            (v.slots i x (sym e)))
    ]

-- In use only if it was heard of in the last 60 seconds.
abbrev pub Fresh : ℕ → Option Event → Type 0
Fresh now none = Unit
Fresh now (some e) = e.status ≡ true → now - e.last_active < 60

-- A round changes at most the entry that it looks at, and leaves no entry silent that was not.
module _ (now : ℕ) where
  eventdel-entry : (i j : ℕ) (x : Event) (s : Server) → i ≢ j → entry (eventdel i x s) j ≡ entry s j
  unfolding eventdel
  eventdel-entry i j x s n = elim (Bool-cases x.status) [
    | inr off ↦ rw off
    | inl on ↦ rw on (get_elem?-set_ne s.g_events i j (record x { status = false }) n)
  ]

  expire-entry :
      (i j : ℕ) (o : Option Event) (s : Server) → i ≢ j → entry (expire i now o s) j ≡ entry s j
  expire-entry i j none s n = refl
  expire-entry i j (some x) s n = elim (Bool-cases (x.status && leb 60 (now - x.last_active))) [
    | inr kept ↦ rw kept
    | inl idle ↦ rw idle (eventdel-entry i j x (calling (closes x.fd) s) n)
  ]

  expire-Fresh :
      (i : ℕ) (o : Option Event) (s : Server)
      → o ≡ entry s i
      → Fresh now (entry (expire i now o s) i)
  unfolding eventdel
  expire-Fresh i none s e = rw (← e) tt
  expire-Fresh i (some x) s e = elim (Bool-cases (x.status && leb 60 (now - x.last_active))) [
    | inr kept ↦ rw kept (rw (← e) (λ on. ground arith))
    | inl idle ↦
        let on : x.status ≡ true = ground arith in
        rw (idle, on)
          (rw
            (get_elem?-set_self s.g_events i (record x { status = false })
              (get_elem?-lt s.g_events i x (sym e)))
            (λ h. cc))
  ]

-- One round of the loop.
abbrev pub sweep_once : ℕ → Server → Server
sweep_once now s =
    let pos = wrapped s.checkpos in
    let checked = expire pos now (entry s pos) (record s { checkpos = pos }) in
    record checked { checkpos = pos + 1 }

wrapped-lt : (pos : ℕ) → pos ≤ max_events → wrapped pos < max_events
wrapped-lt pos h = ground arith

sweep_once-IsValid :
    (now : ℕ) (s : Server) → s.checkpos ≤ max_events → IsValid s → IsValid (sweep_once now s)
sweep_once-IsValid now s h v =
    let pos = wrapped s.checkpos in
    let start = record s { checkpos = pos } in
    let ok =
      expire-IsValid pos now (entry s pos) start (wrapped-lt s.checkpos h) refl
        (record { size = v.size; slots = v.slots }) in
    record { size = ok.size; slots = ok.slots }

-- An entry that is fresh stays so, in a round at any position.
sweep_once-Fresh :
    (now j : ℕ) (s : Server)
    → (wrapped s.checkpos ≡ j) ⊎ Fresh now (entry s j)
    → Fresh now (entry (sweep_once now s) j)
sweep_once-Fresh now j s f = elim (Bool-cases (wrapped s.checkpos == j)) [
  | inl here ↦
      let pos = wrapped s.checkpos in
      let at : pos ≡ j = (==_iff pos j).0 here in
      subst (λ k. Fresh now (entry (sweep_once now s) k)) at
        (expire-Fresh now pos (entry s pos) (record s { checkpos = pos }) refl)
  | inr away ↦
      let pos = wrapped s.checkpos in
      let apart : pos ≢ j = λ e. ground arith in
      rw (expire-entry now pos j (entry s pos) (record s { checkpos = pos }) apart)
        (elim f [ inl e ↦ absurd (apart e) | inr old ↦ old ])
]

-- The loop comes by at `j`: before the end of the table, or after it went on at its beginning.
abbrev pub ComesBy : ℕ → ℕ → ℕ → Type 0
ComesBy rounds pos j = ((pos ≤ j) × (j < pos + rounds)) ⊎ (max_events + j < pos + rounds)

ComesBy-next :
    (rounds pos j : ℕ)
    → pos ≤ max_events
    → j < max_events
    → ComesBy (suc rounds) pos j
    → (wrapped pos ≡ j) ⊎ ComesBy rounds (wrapped pos + 1) j
ComesBy-next rounds pos j h l (inl (a, b)) = elim (Bool-cases (pos == j)) [
  | inl here ↦ inl (ground arith)
  | inr away ↦
      let at : wrapped pos ≡ pos = ground arith in
      inr (inl (ground (arith, at), ground (arith, at)))
]
ComesBy-next rounds pos j h l (inr b) = elim (Bool-cases (pos == max_events)) [
  | inr inside ↦ let at : wrapped pos ≡ pos = rw inside in inr (inr (omega (arith, at)))
  | inl end ↦
      let at : wrapped pos ≡ 0 = rw end in
      let e : pos ≡ max_events = (==_iff pos max_events).0 end in
      elim (Bool-cases (j == 0)) [
        | inl first ↦ inl (ground (arith, at))
        | inr later ↦ inr (inl (ground (arith, at), omega (arith, at)))
      ]
]

-- After the loop, an entry of a client is not both in use and silent for 60 seconds or more, if the
-- loop came by at it, before the end of the table or after it went on at its beginning, or if it was
-- so before. The position is within the table before.
pub sweep-Fresh :
    (rounds now j : ℕ) (s : Server)
    → s.checkpos ≤ max_events
    → j < max_events
    → ComesBy rounds s.checkpos j ⊎ Fresh now (entry s j)
    → Fresh now (entry (sweep rounds now s) j)
unfolding sweep
sweep-Fresh zero now j s h l (inl (inl (a, b))) = absurd (omega arith)
sweep-Fresh zero now j s h l (inl (inr b)) = absurd (omega arith)
sweep-Fresh zero now j s h l (inr f) = f
sweep-Fresh (suc rounds) now j s h l f =
    let once = sweep_once now s in
    let moved : once.checkpos ≤ max_events = omega (arith, wrapped-lt s.checkpos h) in
    sweep-Fresh rounds now j once moved l (elim f [
      | inr old ↦ inr (sweep_once-Fresh now j s (inr old))
      | inl by ↦ elim (ComesBy-next rounds s.checkpos j h l by) [
        | inl here ↦ inr (sweep_once-Fresh now j s (inl here))
        | inr later ↦ inl later
      ]
    ])

sweep_once-listener :
    (now : ℕ) (s : Server)
    → s.checkpos ≤ max_events
    → entry (sweep_once now s) max_events ≡ entry s max_events
sweep_once-listener now s h =
    let pos = wrapped s.checkpos in
    let below = wrapped-lt s.checkpos h in
    expire-entry now pos max_events (entry s pos) (record s { checkpos = pos }) (λ e. omega arith)

-- The loop of `main`, however many entries it looks at, keeps the table consistent and its position
-- within the table, and never touches the entry of the listening socket. The table is consistent and
-- the position within it before.
pub sweep_lem :
    (rounds now : ℕ) (s : Server)
    → s.checkpos ≤ max_events
    → IsValid s
    → IsValid (sweep rounds now s)
      × ((sweep rounds now s).checkpos ≤ max_events)
      × (entry (sweep rounds now s) max_events ≡ entry s max_events)
unfolding sweep
sweep_lem zero now s h v = (v, h, refl)
sweep_lem (suc rounds) now s h v =
    let once = sweep_once now s in
    let moved : once.checkpos ≤ max_events = omega (arith, wrapped-lt s.checkpos h) in
    let (v', h', e) = sweep_lem rounds now once moved (sweep_once-IsValid now s h v) in
    (v', h', e ∙ sweep_once-listener now s h)
