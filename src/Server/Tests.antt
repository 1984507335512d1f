-- ===== src/Server/Tests.antt =====
-- A server with two clients in the map, one of them silent for long, and a third one waiting.
use cpp100net.Common.{ℕ, ◌≡◌, List, [], ◌∷◌, length, some, true, false, arith}
use cpp100net.Client.{Client, init}
use cpp100net.Server.{NetEvent, Server, take_clients, check_time, get_client_count}
use cpp100net.Server.Heart.{check_time_lem, check_time-check_time, kept, gone, leave_all}
use cpp100net.Server.Join.{AreDistinct, take_clients_lem, joined_all}

-- Writes down the ids of those that join and leave.
abbrev record_ids : NetEvent (List ℕ)
record_ids = record {
  on_net_join = λ c ids. c.id ∷ ids;
  on_net_leave = λ c ids. c.id ∷ ids;
  on_net_recv = λ c ids. ids;
  on_net_msg = λ f sc. some sc;
}

abbrev client : ℕ → ℕ → Client
client id silent = record (init id (some id) [] []) { dt_heart = silent }

abbrev server : Server
server = record {
  clients = (some 3, client 3 59000) ∷ (some 5, client 5 10) ∷ [];
  clients_buff = client 4 0 ∷ [];
  old_time = 100;
  id = 1;
  clients_change = false;
}

server-AreDistinct : AreDistinct server.clients_buff server.clients
unfolding init
server-AreDistinct = ((ground arith, (ground arith, tt)), tt, tt)

check_time_lem_example : check_time record_ids 1100 server [] ≡ (
  record server { clients = (some 5, client 5 1010) ∷ []; old_time = 1100; clients_change = true },
  3 ∷ [],
)
unfolding kept gone leave_all init
check_time_lem_example = check_time_lem record_ids 1100 server []

check_time-check_time_example :
    (check_time record_ids 1100 (check_time record_ids 600 server []).0 []).0.clients
    ≡ (check_time record_ids 1100 server []).0.clients
check_time-check_time_example =
    check_time-check_time record_ids 600 1100 server [] [] [] (omega arith) (omega arith)

take_clients_lem_example :
    let (s, ids) = take_clients record_ids server [] in
    (s.clients_buff ≡ [])
    × (get_client_count s ≡ get_client_count server)
    × (length s.clients ≡ 3)
    × (ids ≡ 4 ∷ [])
unfolding joined_all init
take_clients_lem_example = take_clients_lem record_ids server [] server-AreDistinct
