-- ===== src/EpollServer/Tests/Watch.antt =====
-- The same server over a system with one epoll object.
use mathlib.Core.Option.{none-ne-some}
use cpp100net.Common.{
  ◌≡◌, ◌≢◌, refl, sym, ap, true, false, Option, none, some, List, [], ◌∷◌, ◌==◌, Returns,
  if◌then◌else◌, Bool-cases, inl, inr, arith,
}
use cpp100net.Common.Int.{pos}
use cpp100net.Sockets.{Socket}
use cpp100net.Client.{Client}
use cpp100net.Epoll.{System, Events, Data, ptr, Event, Answer, interrupted, failed, happened}
use cpp100net.Epoll.Table.{Interest, Reported, nothing, one}
use cpp100net.Server.{rank}
use cpp100net.EpollServer.{find}
use cpp100net.EpollServer.Fates.{IsMap}
use cpp100net.EpollServer.Maps.{rank-injective}
use cpp100net.EpollServer.Asked.{Watched}
use cpp100net.EpollServer.Watch.{do_net_event-Watched}
use cpp100net.EpollServer.Round.{EpollServer, wanted, watch_all, do_net_event}
use cpp100net.EpollServer.Tests.{
  clients, client, server, leavers, closed_recv, small_send, recv_within, send_within,
  clients-IsMap,
}

-- A system with one epoll object, which reports the socket 3 when it is watched.
abbrev Table : Type 0
Table = Socket → Option (Events × Data)

abbrev report : Option (Events × Data) → Answer
report none = happened []
report (some (ev, d)) = happened (record { events = ev; about = d } ∷ [])

abbrev system : System Table
system = record {
  epoll_create = λ n w. (some 9, w);
  epoll_ctl = λ ep op s ev d w. (true, λ t. if rank t == rank s then some (ev, d) else w t);
  epoll_wait = λ ep n timeout w. (report (w (some 3)), w);
  close = λ s w. λ t. if rank t == rank s then none else w t;
}

same_rank : (t : Socket) → (rank t == rank t) ≡ true
same_rank t = ground arith

other_rank : (t s : Socket) → t ≢ s → (rank t == rank s) ≡ false
other_rank t s ne = let ne' : rank t ≢ rank s = λ e. ne (rank-injective t s e) in ground arith

abbrev told : Answer → List Event
told interrupted = []
told failed = []
told (happened es) = es

reported :
    (w : Table) (o : Option (Events × Data)) (es : List Event)
    → w (some 3) ≡ o
    → report o ≡ happened es
    → (ss : List Socket) × Reported w es ss
reported w none es there e = rw (← ap told e) ([], nothing)
reported w (some (ev, d)) es there e =
    rw (← ap told e) (some 3 ∷ [], one (some 3) ev ev d there tt nothing)

abbrev laws : Interest system
laws = record {
  interest = λ ep s w. w s;
  mod_there = λ ep s ev d old w there. rw (same_rank s) refl;
  add_new = λ ep s ev d w there. rw (same_rank s) refl;
  ctl_other = λ ep s t op ev d w ne. rw (other_rank t s ne) refl;
  close_gone = λ ep s w. rw (same_rank (some s)) refl;
  close_other = λ ep s t w ne. rw (other_rank t s ne) refl;
  wait_same = λ ep t n timeout w. refl;
  wait_reports = λ ep n timeout w es e. reported w (w (some 3)) es refl e;
}

-- Both clients are watched for reading.
abbrev table : Table
table t =
    if rank t == 4
    then some (record { epoll_in = true; epoll_out = false }, ptr (some 3))
    else if rank t == 6
    then some (record { epoll_in = true; epoll_out = false }, ptr (some 5))
    else none

abbrev epoll_server : EpollServer
epoll_server = record {
  base = server;
  ep = record { p_events = some 10; n_max_events = pos 10; epfd = some 9 };
}

table_there :
    (k : Socket) (c : Client)
    → find k clients ≡ some c
    → (ev : Events) × (laws.interest (some 9) k table ≡ some (ev, ptr k))
unfolding find
table_there k c e = elim (Bool-cases (rank k == 4)) [
  | inl here ↦ let eq = rank-injective k (some 3) (ground (arith, here)) in rw eq (_, refl)
  | inr there ↦ elim (Bool-cases (rank k == 6)) [
    | inl here ↦ let eq = rank-injective k (some 5) (ground (arith, here)) in rw eq (_, refl)
    | inr nowhere ↦ absurd (none-ne-some c (rw (there, nowhere) at e))
  ]
]

table_gone : (k : Socket) → find k clients ≡ none → laws.interest (some 9) k table ≡ none
unfolding find
table_gone k e = elim (Bool-cases (rank k == 4)) [
  | inl here ↦ absurd (none-ne-some (client 3 0) (sym (rw here at e)))
  | inr there ↦ elim (Bool-cases (rank k == 6)) [
    | inl here ↦ absurd (none-ne-some (client 5 1) (sym (rw (there, here) at e)))
    | inr nowhere ↦ rw (there, nowhere) refl
  ]
]

table-Watched : Watched laws (some 9) clients table
unfolding find
table-Watched = record { there = table_there; gone = table_gone; sockets = refl }

do_net_event-Watched_example :
    ((k : Socket) (c : Client)
      → find k clients ≡ some c
      → laws.interest (some 9) k (watch_all system epoll_server.ep clients table)
        ≡ some (wanted c, ptr k))
    × Returns (do_net_event system leavers closed_recv small_send epoll_server table 0) λ r.
      (r.1.ep ≡ epoll_server.ep)
      × IsMap r.1.base.clients
      × Watched laws r.1.ep.epfd r.1.base.clients r.2
do_net_event-Watched_example =
    do_net_event-Watched laws leavers closed_recv small_send epoll_server table 0 recv_within
      send_within clients-IsMap table-Watched
