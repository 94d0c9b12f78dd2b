-- ===== src/EpollServer/Tests.antt =====
-- epoll/main.c: the server after it has started to listen, and one client in a small table.
use cpp_projects_learning.Common.{inr, ◌≤◌, ◌≡◌, refl, inl, true, [], ◌∷◌, ◌++◌, some, arith}
use cpp_projects_learning.EpollServer.{
  max_events, epollin, recvdata_callback, senddata_callback, Event, Server, zero_event, entry,
  ctl_del, ctl_add, sends, connected, got, sent, Answers, recvdata, senddata, handle, sweep,
  initlistensocket, empty_server, eventset, eventadd,
}
use cpp_projects_learning.EpollServer.Table.{Yields, handle-Yields}
use cpp_projects_learning.EpollServer.Slots.{IsValid}
use cpp_projects_learning.EpollServer.Start.{initlistensocket-IsValid}
use cpp_projects_learning.EpollServer.Sweep.{Fresh, sweep_lem, sweep-Fresh}
use cpp_projects_learning.EpollServer.Echo.{senddata-recvdata}

-- The server after `initlistensocket`, with the listening socket 3, at the time 5.
abbrev listening_server : Server
listening_server = initlistensocket 3 5 empty_server

-- A new client, whatever comes next from it.
abbrev answers : Answers
answers = record {
  accepted = connected 7 true;
  received = got (104 ∷ 105 ∷ []);
  answer_to_send = sent 2;
  now = 6;
}

abbrev client : Event
client = record zero_event {
  fd = 7;
  events = epollin;
  call_back = recvdata_callback;
  status = true;
  last_active = 6;
}

abbrev one_client : Server
one_client = record { g_events = client ∷ []; checkpos = 0; calls = [] }

handle-Yields_example : Yields (handle max_events epollin answers answers listening_server)
handle-Yields_example =
    handle-Yields max_events epollin answers answers listening_server (omega arith) (omega arith)
      (omega arith) (initlistensocket-IsValid 3 5)

sweep_lem_example :
    IsValid (sweep 100 70 listening_server)
    × ((sweep 100 70 listening_server).checkpos ≤ max_events)
    × (entry (sweep 100 70 listening_server) max_events ≡ entry listening_server max_events)
unfolding initlistensocket eventadd eventset
sweep_lem_example = sweep_lem 100 70 listening_server (omega arith) (initlistensocket-IsValid 3 5)

-- The loop stopped at the end of the table before.
abbrev at_end : Server
at_end = record one_client { checkpos = max_events }

sweep-Fresh_example : Fresh 70 (entry (sweep 100 70 at_end) 0)
sweep-Fresh_example =
    sweep-Fresh 100 70 0 at_end (omega arith) (omega arith) (inl (inr (omega arith)))

senddata-recvdata_example :
    (e' : Event) × (f : Event) × (t : Server) × (u : Server) × (recvdata 0
        (got (104 ∷ 105 ∷ []))
        8
        client
        one_client
      ≡ some t)
    × (entry t 0 ≡ some e')
    × (e'.call_back ≡ senddata_callback)
    × (senddata 0 (sent 2) 9 e' t ≡ some u)
    × (u.calls ≡ t.calls ++ sends 7 (104 ∷ 105 ∷ []) ∷ ctl_del 7 ∷ ctl_add 7 epollin ∷ [])
    × (entry u 0 ≡ some f)
    × (f.call_back ≡ recvdata_callback)
    × (f.status ≡ true)
senddata-recvdata_example =
    senddata-recvdata 0 8 9 2 (104 ∷ 105 ∷ []) client one_client refl refl (omega arith)
      (omega arith) (omega arith)
