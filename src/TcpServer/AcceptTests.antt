-- ===== src/TcpServer/AcceptTests.antt =====
-- A connection at socket 7 comes in at the listening socket 3 of a server with one CellServer.
use cpp100net.Common.{true, false, ◌==◌, ◌≡◌, refl, some, [], ◌∷◌, arith, Returns}
use cpp100net.Client.{init}
use cpp100net.FdSet.{FdSet}
use cpp100net.FdSet.Bits.{Shows}
use cpp100net.SelectServer.Event.{ready}
use cpp100net.Server.{Server}
use cpp100net.TcpServer.{TcpServer}
use cpp100net.TcpServer.Listen.{time4msg}
use cpp100net.TcpServer.AcceptLoop.{Round, accept_round}
use cpp100net.TcpServer.Accepts.{Outcome, accept_round-Outcome}

abbrev bits : FdSet
bits = record {
  p_fdset = some (record { n_bytes = 1; bit = λ i. false });
  nfd_size = 1;
  max_sock_fd = 7;
}

bits_shown : Shows 1 (λ i. false) bits
bits_shown = record {
  array = record { n_bytes = 1; bit = λ i. false };
  there = refl;
  bytes = refl;
  size = refl;
  bits = λ i small. refl;
}

abbrev cell : Server
cell = record { clients = []; clients_buff = []; old_time = 0; id = 1; clients_change = true }

abbrev listening : TcpServer
listening = record {
  cell_servers = cell ∷ [];
  sock = some 3;
  n_send_buff_size = 8;
  n_recv_buff_size = 8;
  n_max_client = 2;
  counters = record { recv_count = 5; client_accept = 0; msg_count = 5; client_join = 0 };
}

abbrev one_comes : Round
one_comes = record {
  second_passed = true;
  select = λ sock set. ready (λ i. i == 3) (λ i. false);
  answer = some 7;
  id = 1;
  fresh = λ n. [];
}

accept_round-Outcome_example : Returns (accept_round 8 one_comes bits listening) λ x.
    Shows 1 (λ i. i == 3) x.0
    × (x.1.0 ≡ true)
    × Outcome 7 (init 1 (some 7) [] []) (time4msg true listening) x.1.1 x.1.2
accept_round-Outcome_example =
    accept_round-Outcome 8 3 7 one_comes bits listening cell [] (λ i. i == 3) (λ i. false)
      bits_shown refl (omega arith) (omega arith) refl (λ set shown. refl) refl refl
