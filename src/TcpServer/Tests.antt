-- ===== src/TcpServer/Tests.antt =====
-- A server with two CellServers and room for two connections.
use cpp100net.Common.{ℕ, ◌≡◌, refl, ◌≤◌, List, [], ◌∷◌, some, arith}
use cpp100net.Client.{init}
use cpp100net.Server.{Server, add_client, get_client_count, take_clients}
use cpp100net.TcpServer.{TcpServer, create, start, accept, events, new_server, lesser, inc, add_at}
use cpp100net.TcpServer.Balance.{Assigned, add_client_to_cell_server-Assigned}
use cpp100net.TcpServer.Counts.{total, joined}
use cpp100net.TcpServer.Reach.{Step, accepts, takes, Steps, none_yet, one_more, Steps-counts}

abbrev no_bytes : ℕ → List ℕ
no_bytes n = []

abbrev idle : TcpServer
unfolding start create
idle = start 2 (λ n. 100) (create 64 64 2)

abbrev busy : Server
unfolding add_client new_server
busy = add_client (init 0 (some 3) [] []) (new_server 1 0)

-- The second one is idle.
add_client_to_cell_server-Assigned_example :
    Assigned (init 1 (some 4) [] []) (busy ∷ new_server 2 0 ∷ new_server 3 0 ∷ [])
add_client_to_cell_server-Assigned_example =
    add_client_to_cell_server-Assigned (init 1 (some 4) [] []) busy
      (new_server 2 0 ∷ new_server 3 0 ∷ [])

-- One connection came in and was given to the first CellServer.
abbrev one_waits : TcpServer
unfolding new_server
one_waits = record idle {
  cell_servers =
      record (new_server 1 100) { clients_buff = init 0 (some 7) [] [] ∷ [] }
      ∷ new_server 2 100
      ∷ [];
  counters = record { recv_count = 0; client_accept = 1; msg_count = 0; client_join = 0 };
}

one_came : Step idle one_waits
unfolding accept start create new_server init lesser get_client_count inc add_at add_client
one_came = accepts (some 7) 0 no_bytes (some 7) [] one_waits refl

abbrev first : Server
unfolding new_server
first = record (new_server 1 100) { clients_buff = init 0 (some 7) [] [] ∷ [] }

-- The first CellServer has taken it over.
abbrev one_joined : TcpServer
one_joined = record one_waits {
  cell_servers = (take_clients events first one_waits.counters).0 ∷ new_server 2 100 ∷ [];
  counters = (take_clients events first one_waits.counters).1;
}

one_came_and_joined : Steps idle one_joined
unfolding new_server
one_came_and_joined =
    one_more (one_more none_yet one_came) (takes [] (new_server 2 100 ∷ []) first refl (tt, tt, tt))

Steps-counts_example :
    (one_joined.counters.client_accept ≡ total one_joined.cell_servers)
    × (one_joined.counters.client_join ≡ joined one_joined.cell_servers)
    × (total one_joined.cell_servers ≤ one_joined.n_max_client)
unfolding start create
Steps-counts_example =
    Steps-counts 64 64 2 2 (λ n. 100) one_joined (omega arith) one_came_and_joined
