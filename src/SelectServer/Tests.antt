-- ===== src/SelectServer/Tests.antt =====
-- A server with one client at socket 3, and arrays of one byte.
use cpp100net.Common.{
  ℕ, Bool, ltb, ◌==◌, if◌then◌else◌, ◌≡◌, refl, true, false, none, some, [], ◌∷◌, replicate, arith,
  Returns, inl,
}
use cpp100net.Sockets.{socket_error, Recv, Send}
use cpp100net.Buffer
use cpp100net.Server
use cpp100net.Dispatch
use cpp100net.Buffer.{Buffer}
use cpp100net.Client.{Client}
use cpp100net.Client
use cpp100net.Dispatch.{finished}
use cpp100net.FdSet
use cpp100net.FdSet.{FdSet}
use cpp100net.FdSet.Bits.{Shows}
use cpp100net.Server.{NetEvent, Server, Clients, take_clients, check_time}
use cpp100net.SelectServer.Event.{SelectServer, Select, interrupted, prepare, round}
use cpp100net.SelectServer.Sets.{keys, among, among_writers, some_writer, AllBelow}
use cpp100net.SelectServer.Cached.{Cached, prepare_exact}
use cpp100net.SelectServer.Rounds.{round-Cached}

abbrev buffer : Buffer
buffer = record {
  p_buff = replicate 8 0;
  n_last = 0;
  n_size = 8;
  full_count = 0;
  io_data = record { sockfd = some 0; len = 0; buf = 0 };
}

abbrev c : Client
c = record {
  id = 1;
  server_id = some 1;
  n_recv_msg_id = 1;
  n_send_msg_id = 1;
  sockfd = some 3;
  recv_buff = buffer;
  send_buff = buffer;
  dt_heart = 0;
  dt_send = 0;
  is_post_recv = false;
  is_post_send = false;
}

abbrev clear : FdSet
clear = record {
  p_fdset = some (record { n_bytes = 1; bit = λ i. false });
  nfd_size = 1;
  max_sock_fd = 7;
}

clear_shown : Shows 1 (λ i. false) clear
clear_shown = record {
  array = record { n_bytes = 1; bit = λ i. false };
  there = refl;
  bytes = refl;
  size = refl;
  bits = λ i small. refl;
}

abbrev server : SelectServer
server = record {
  base = record {
    clients = (some 3, c) ∷ [];
    clients_buff = [];
    old_time = 0;
    id = 1;
    clients_change = true;
  };
  fd_read = clear;
  fd_write = clear;
  fd_read_bak = clear;
  max_sock = none;
}

server-Cached : Cached 1 server
server-Cached = record {
  p = λ i. false;
  q = λ i. false;
  r = λ i. false;
  read = clear_shown;
  write = clear_shown;
  bak = clear_shown;
  kept = inl refl;
}

prepare_exact_example : Returns (prepare 8 server) λ r.
    Shows 1 (among server.base.clients) r.1.fd_read
    × Shows 1 (among_writers server.base.clients) r.1.fd_write
    × (r.0 ≡ some_writer server.base.clients)
    × AllBelow (keys server.base.clients) r.1.max_sock
    × (r.1.base.clients ≡ server.base.clients)
    × Cached 1 r.1
prepare_exact_example =
    prepare_exact 8 server server-Cached ((3, refl, omega arith, omega arith), tt) (omega arith)

abbrev events : NetEvent ℕ
events = record {
  on_net_join = λ c n. n;
  on_net_leave = λ c n. n;
  on_net_recv = λ c n. n;
  on_net_msg = λ f r. some r;
}

abbrev interrupt : Select
interrupt sock read write = interrupted

abbrev no_recv : Recv
no_recv sock n = none

abbrev no_send : Send
no_send sock xs = socket_error

-- The sets as the round makes them.
abbrev with_bits : (ℕ → Bool) → FdSet
with_bits p = record {
  p_fdset = some (record { n_bytes = 1; bit = p });
  nfd_size = 1;
  max_sock_fd = 7;
}

abbrev zeroed : ℕ → Bool
zeroed i = if ltb i 8 then false else false

abbrev three : ℕ → Bool
three i = if i == 3 then true else zeroed i

-- The client stays, and the kept set is its own.
abbrev served : SelectServer
served = record {
  base = record {
    clients = (some 3, record c { dt_heart = 10 }) ∷ [];
    clients_buff = [];
    old_time = 10;
    id = 1;
    clients_change = false;
  };
  fd_read = with_bits three;
  fd_write = with_bits zeroed;
  fd_read_bak = with_bits (λ i. if ltb i 8 then three i else false);
  max_sock = some 3;
}

one_round : round events 8 5 10 interrupt no_recv no_send server 0 ≡ finished (true, served, 0)
unfolding round FdSet.zero Client.need_write Buffer.need_write Server.do_msg_all Dispatch.do_msg
    Client.has_msg Buffer.has_msg
one_round = refl

round-Cached_example : Cached 1 served
unfolding take_clients check_time
round-Cached_example =
    round-Cached events 8 5 10 interrupt no_recv no_send server 0 true served 0 server-Cached
      ((3, refl, omega arith, omega arith), tt) one_round
