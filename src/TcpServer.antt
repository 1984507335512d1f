-- ===== src/TcpServer.antt =====
-- depends/include/EasyTcpServer.hpp: the server that accepts connections, hands them to its
-- CellServers and counts what they report. `accept` of the operating system is an argument.
pub mod Balance
pub mod Events
pub mod Counts
pub mod Select
pub mod Reach
pub mod Listen
pub mod AcceptLoop
pub mod EpollLoop
pub mod IocpLoop
pub mod Accepts
mod Tests
mod AcceptTests
use cpp100net.Common.{
  ℕ, zero, suc, ◌+◌, ◌-◌, ◌^◌, ◌%◌, Bool, true, Option, none, some, List, [], ◌∷◌, ◌++◌, ltb,
  if◌then◌else◌, ◌>>=◌,
}
use cpp100net.Sockets.{Socket}
use cpp100net.Client.{Client, init}
use cpp100net.Server.{NetEvent, Server, add_client, get_client_count}

-- `std::atomic_int`, by its 32 bits; both operations wrap round.
unfoldable pub inc : ℕ → ℕ
inc n = (n + 1) % 2 ^ 32

unfoldable pub dec : ℕ → ℕ
dec n = (n + (2 ^ 32 - 1)) % 2 ^ 32

-- `<` on signed integers of 32 bits.
unfoldable pub less : ℕ → ℕ → Bool
less a b = ltb ((a + 2 ^ 31) % 2 ^ 32) ((b + 2 ^ 31) % 2 ^ 32)

pub record Counters : Type 0 where
  pub recv_count : ℕ
  pub client_accept : ℕ
  pub msg_count : ℕ
  pub client_join : ℕ

pub record TcpServer : Type 0 where
  pub cell_servers : List Server
  pub sock : Socket
  pub n_send_buff_size : ℕ
  pub n_recv_buff_size : ℕ
  pub n_max_client : ℕ
  pub counters : Counters

-- The constructor; the three numbers come from the configuration.
unfoldable pub create : ℕ → ℕ → ℕ → TcpServer
create send_size recv_size max = record {
  cell_servers = [];
  sock = none;
  n_send_buff_size = send_size;
  n_recv_buff_size = recv_size;
  n_max_client = max;
  counters = record { recv_count = 0; client_accept = 0; msg_count = 0; client_join = 0 };
}

unfoldable pub on_net_join : Client → Counters → Counters
unfolding inc
on_net_join c n = record n { client_join = inc n.client_join }

unfoldable pub on_net_leave : Client → Counters → Counters
unfolding dec
on_net_leave c n = record n { client_accept = dec n.client_accept; client_join = dec n.client_join }

unfoldable pub on_net_msg : Counters → Counters
unfolding inc
on_net_msg n = record n { msg_count = inc n.msg_count }

unfoldable pub on_net_recv : Client → Counters → Counters
unfolding inc
on_net_recv c n = record n { recv_count = inc n.recv_count }

-- `EasyTcpServer` as the `INetEvent` of its CellServers.
abbrev pub events : NetEvent Counters
events = record {
  on_net_join = on_net_join;
  on_net_leave = on_net_leave;
  on_net_recv = on_net_recv;
  on_net_msg = λ memory r. some (on_net_msg r.0, r.1);
}

-- One turn of the loop in `addClientToCellServer`: the place and the count of `pMinServer`.
unfoldable pub lesser : ℕ × ℕ → ℕ → Server → ℕ × ℕ
lesser (i, least) j s =
    if ltb (get_client_count s) least then (j, get_client_count s) else (i, least)

unfoldable pub find_min : ℕ × ℕ → ℕ → List Server → ℕ × ℕ
unfolding lesser
find_min best j [] = best
find_min best j (s ∷ ss) = find_min (lesser best j s) (j + 1) ss

-- `addClient` of the server at a place.
unfoldable pub add_at : ℕ → Client → List Server → Option (List Server)
add_at i c [] = none
add_at zero c (s ∷ ss) = some (add_client c s ∷ ss)
add_at (suc i) c (s ∷ ss) = add_at i c ss >>= λ r. some (s ∷ r)

-- `addClientToCellServer`; `_cellServers[0]` of an empty vector is a fault.
unfoldable pub add_client_to_cell_server : Client → List Server → Option (List Server)
unfolding find_min add_at
add_client_to_cell_server c [] = none
add_client_to_cell_server c (s ∷ ss) =
    add_at (find_min (0, get_client_count s) 0 (s ∷ ss)).0 c (s ∷ ss)

-- What `Accpet` returns, the sockets that it closes, and the new state.
unfoldable pub admit : Client → Socket → TcpServer → Option (Socket × List Socket × TcpServer)
unfolding add_client_to_cell_server less inc
admit c sock t =
    if less t.counters.client_accept t.n_max_client
    then (add_client_to_cell_server c t.cell_servers >>= λ servers. some (
      sock,
      [],
      record t {
        cell_servers = servers;
        counters = record t.counters { client_accept = inc t.counters.client_accept };
      },
    ))
    else some (sock, sock ∷ [], t)

-- `Accpet`: `answer` is the socket from `accept`, `id` the number of the next client, and
-- `fresh n` the memory of a new array of n bytes.
unfoldable pub accept :
    Socket → ℕ → (ℕ → List ℕ) → TcpServer → Option (Socket × List Socket × TcpServer)
unfolding admit
accept none id fresh t = some (none, [], t)
accept (some n) id fresh t =
    admit (init id (some n) (fresh t.n_send_buff_size) (fresh t.n_recv_buff_size)) (some n) t

-- A new CellServer with its number, at the time `now`.
unfoldable pub new_server : ℕ → ℕ → Server
new_server id now = record {
  clients = [];
  clients_buff = [];
  old_time = now;
  id = id;
  clients_change = true;
}

-- The loop of `Start`, from the number `n` on; `clock` gives the time at which each one is made.
unfoldable pub start_from : ℕ → ℕ → (ℕ → ℕ) → List Server
unfolding new_server
start_from n zero clock = []
start_from n (suc left) clock = new_server (n + 1) (clock n) ∷ start_from (n + 1) left clock

unfoldable pub start : ℕ → (ℕ → ℕ) → TcpServer → TcpServer
unfolding start_from
start count clock t = record t { cell_servers = t.cell_servers ++ start_from 0 count clock }
