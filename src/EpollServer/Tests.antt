-- ===== src/EpollServer/Tests.antt =====
-- A server with two clients at the sockets 3 and 5, of which the first has closed its side.
mod Watch
use mathlib.Core.Option.{none-ne-some, some-injective}
use cpp100net.Common.{
  ℕ, ◌≤◌, ◌≡◌, ◌≢◌, refl, sym, ap, ◌∙◌, Bool, true, false, Option, none, some, List, [], ◌∷◌, ◌==◌,
  ◌+◌, Returns, if◌then◌else◌, Bool-cases, inl, inr, replicate, arith,
}
use cpp100net.Common.Int.{ℤ, pos}
use cpp100net.Sockets.{Socket, Ret, socket_error, bytes, Send, Recv, SendWithin, RecvWithin}
use cpp100net.Buffer.{Buffer}
use cpp100net.Buffer
use cpp100net.Client
use cpp100net.Client.{Client}
use cpp100net.Client.Inv.{IsValid}
use cpp100net.Epoll.{
  Epoll, System, Events, Data, Op, ptr, Event, Answer, interrupted, failed, happened,
}
use cpp100net.Epoll.Table.{Interest, Reported, nothing, one}
use cpp100net.Server
use cpp100net.Server.{NetEvent, Clients, Server, rank}
use cpp100net.EpollServer.{find, serve_events}
use cpp100net.EpollServer.Fates.{Orderly, done, serve, IsMap, Entry, Fate, event_of}
use cpp100net.EpollServer.Loop.{serve_events-Fate}
use cpp100net.EpollServer.Maps.{rank-injective}
use cpp100net.EpollServer.Asked.{Watched}
use cpp100net.EpollServer.Watch.{do_net_event-Watched}
use cpp100net.EpollServer.Round.{EpollServer, wanted, watch_all, do_net_event}

abbrev buffer : ℕ → Buffer
buffer waiting = record {
  p_buff = replicate 8 0;
  n_last = waiting;
  n_size = 8;
  full_count = 0;
  io_data = record { sockfd = some 0; len = 0; buf = 0 };
}

abbrev pub client : ℕ → ℕ → Client
client sock waiting = record {
  id = sock;
  server_id = some 1;
  n_recv_msg_id = 1;
  n_send_msg_id = 1;
  sockfd = some sock;
  recv_buff = buffer 0;
  send_buff = buffer waiting;
  dt_heart = 0;
  dt_send = 0;
  is_post_recv = false;
  is_post_send = false;
}

abbrev pub clients : Clients
clients = (some 3, client 3 0) ∷ (some 5, client 5 1) ∷ []

abbrev pub server : Server
server = record {
  clients = clients;
  clients_buff = [];
  old_time = 0;
  id = 1;
  clients_change = false;
}

abbrev pub leavers : NetEvent ℕ
leavers = record {
  on_net_join = λ c n. n;
  on_net_leave = λ c n. n + 1;
  on_net_recv = λ c n. n;
  on_net_msg = λ f r. some r;
}

-- The other side has closed; one byte can be sent.
abbrev pub closed_recv : Recv
closed_recv s n = some []

abbrev pub small_send : Send
small_send s [] = bytes 0
small_send s (x ∷ xs) = bytes 1

pub recv_within : RecvWithin closed_recv
recv_within s n xs e = rw (← some-injective _ _ e) (omega arith)

abbrev count : Ret → ℕ
count socket_error = 0
count (bytes k) = k

pub send_within : SendWithin small_send
send_within s [] k e = omega (arith, ap count e)
send_within s (x ∷ xs) k e = omega (arith, ap count e)

client-IsValid : (sock waiting : ℕ) → waiting ≤ 8 → IsValid (client sock waiting)
client-IsValid sock waiting small = record {
  recv = record { size = refl; within = omega arith };
  send = record { size = refl; within = small };
}

clients-Entry : (k : Socket) (c : Client) → find k clients ≡ some c → Entry k c
unfolding find
clients-Entry k c e = elim (Bool-cases (rank k == 4)) [
  | inl here ↦
      rw (rank-injective k (some 3) (ground (arith, here)), ← some-injective _ _ (rw here at e))
        (refl, client-IsValid 3 0 (omega arith))
  | inr there ↦ elim (Bool-cases (rank k == 6)) [
    | inl here ↦
        rw
          (
            rank-injective k (some 5) (ground (arith, here)),
            ← some-injective _ _ (rw (there, here) at e),
          )
          (refl, client-IsValid 5 1 (omega arith))
    | inr nowhere ↦ absurd (none-ne-some c (rw (there, nowhere) at e))
  ]
]

pub clients-IsMap : IsMap clients
clients-IsMap = record {
  distinct = (((λ e. omega (arith, e)), tt), (tt, tt));
  entry = clients-Entry;
}

-- The first client is told to be readable, the second writable.
abbrev events : List Event
events =
    record { events = record { epoll_in = true; epoll_out = false }; about = ptr (some 3) }
    ∷ record { events = record { epoll_in = false; epoll_out = true }; about = ptr (some 5) }
    ∷ []

events-Orderly : Orderly clients events
unfolding find event_of
events-Orderly = serve (some 3) (client 3 0) refl refl (serve (some 5) (client 5 1) refl refl done)

serve_events-Fate_example :
    Returns (serve_events leavers closed_recv small_send events (server, [], 0)) λ r.
      IsMap r.0.clients
      × ((j : Socket)
          → Fate closed_recv small_send (event_of j events) (find j clients) (find j r.0.clients))
serve_events-Fate_example =
    serve_events-Fate leavers closed_recv small_send events server [] 0 recv_within send_within
      clients-IsMap events-Orderly

-- The first is gone, the second has nothing left to send.
first_left :
    serve_events leavers closed_recv small_send events (server, [], 0)
    ≡ some (
      record server { clients = (some 5, client 5 0) ∷ []; clients_change = true },
      some 3 ∷ [],
      1,
    )
unfolding serve_events Server.recv_data Client.recv_data Client.send_data_real Buffer.read4socket
    Buffer.on_received Buffer.write2socket cpp100net.Common.copy_out Buffer.on_sent Buffer.sent
first_left = refl
