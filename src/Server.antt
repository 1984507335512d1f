-- ===== src/Server.antt =====
-- depends/include/CellServer.hpp: a thread that serves the connections handed to it. The build
-- without CELL_USE_IOCP; the clock, the network wait and the application are arguments.
pub mod Clients
pub mod Heart
pub mod Join
mod Tests
use cpp100net.Common.{
  ℕ, zero, suc, ◌+◌, ◌-◌, Bool, true, false, ◌||◌, Option, none, some, List, [], ◌∷◌, ◌++◌, length,
  map, ltb, ◌==◌, if◌then◌else◌, ◌>>=◌,
}
use cpp100net.Sockets.{Socket, Ret, socket_error, bytes, Recv}
use cpp100net.Client
use cpp100net.Client.{Client, check_heart}
use cpp100net.Dispatch.{Handler, Run, finished, faulted, out_of_fuel, do_msg}

-- `INetEvent` over the application's state, which may count or record, but changes a client only in
-- the handler of its messages. Where `_pNetEvent` is null the calls do nothing.
pub record NetEvent {ℓ} (S : Type ℓ) : Type ℓ where
  pub on_net_join : Client → S → S
  pub on_net_leave : Client → S → S
  pub on_net_recv : Client → S → S
  pub on_net_msg : Handler S

-- `std::map<SOCKET, CellClient*>`, in the order of the keys; -1 comes first.
abbrev pub Clients : Type 0
Clients = List (Socket × Client)

abbrev pub rank : Socket → ℕ
rank none = 0
rank (some n) = n + 1

-- `_clients[k] = c`
unfoldable pub insert : Socket → Client → Clients → Clients
insert k c [] = (k, c) ∷ []
insert k c ((j, d) ∷ m) =
    if rank k == rank j
    then (k, c) ∷ m
    else if ltb (rank k) (rank j)
    then (k, c) ∷ (j, d) ∷ m
    else (j, d) ∷ insert k c m

pub record Server : Type 0 where
  pub clients : Clients
  pub clients_buff : List Client
  pub old_time : ℕ
  pub id : ℕ
  pub clients_change : Bool

-- `addClient`
unfoldable pub add_client : Client → Server → Server
add_client c s = record s { clients_buff = s.clients_buff ++ (c ∷ []) }

-- `getClientCount`
unfoldable pub get_client_count : Server → ℕ
get_client_count s = length s.clients + length s.clients_buff

-- `Clearclients`, when the thread ends: the sockets that are closed, and the server after.
unfoldable pub clear_clients : Server → List Socket × Server
unfolding Client.destroy
clear_clients s = (
  map (λ e. (Client.destroy e.1).0) s.clients ++ map (λ c. (Client.destroy c).0) s.clients_buff,
  record s { clients = []; clients_buff = [] },
)

abbrev pub with_client {ℓ} : {S : Type ℓ} → Socket → Client → Run (Clients × S) → Run (Clients × S)
with_client k c (finished (m, app)) = finished ((k, c) ∷ m, app)
with_client k c faulted = faulted
with_client k c out_of_fuel = out_of_fuel

-- One client's loop is over: the next clients, unless it failed.
abbrev pub serve_rest {ℓ} :
    {S : Type ℓ} → Socket → Run (S × Client) → (S → Run (Clients × S)) → Run (Clients × S)
serve_rest k (finished (app, c)) others = with_client k c (others app)
serve_rest k faulted others = faulted
serve_rest k out_of_fuel others = out_of_fuel

module _ {ℓ} {S : Type ℓ} (event : NetEvent S) where
  -- One client of `_clientsBuff` is taken over.
  unfoldable pub join : ℕ → Client → Clients × S → Clients × S
  join id c (m, app) = (
    insert c.sockfd (record c { server_id = some id }) m,
    event.on_net_join (record c { server_id = some id }) app,
  )

  unfoldable pub join_all : ℕ → List Client → Clients × S → Clients × S
  unfolding join
  join_all id [] ma = ma
  join_all id (c ∷ cs) ma = join_all id cs (join id c ma)

  -- The part of `OnRun` that empties the buffer of new clients.
  unfoldable pub take_clients : Server → S → Server × S
  unfolding join_all
  take_clients s app =
      let (m, app') = join_all s.id s.clients_buff (s.clients, app) in
      if length s.clients_buff == 0
      then (s, app)
      else (record s { clients = m; clients_buff = []; clients_change = true }, app')

  -- The loop of `CheckTime`: who has been silent too long leaves and is deleted.
  unfoldable pub check_clients : ℕ → Clients → S → Clients × Bool × S
  unfolding check_heart
  check_clients dt [] app = ([], false, app)
  check_clients dt ((k, c) ∷ m) app =
      let (dead, c') = check_heart dt c in
      let (rest, left, app') =
        check_clients dt m (if dead then event.on_net_leave c' app else app) in
      (if dead then rest else (k, c') ∷ rest, dead || left, app')

  -- `CheckTime` at the time `now`. The clock does not run backwards.
  unfoldable pub check_time : ℕ → Server → S → Server × S
  unfolding check_clients
  check_time now s app =
      let (m, left, app') = check_clients (now - s.old_time) s.clients app in
      (record s { clients = m; old_time = now; clients_change = s.clients_change || left }, app')

  -- What `RecvData` does with the answer of the client: `SOCKET_ERROR` stands for an error, a closed
  -- connection and a full buffer alike.
  abbrev pub on_answer : S → Ret × Client → Ret × Client × S
  on_answer app (bytes (suc n), c) = (bytes (suc n), c, event.on_net_recv c app)
  on_answer app (bytes zero, c) = (socket_error, c, app)
  on_answer app (socket_error, c) = (socket_error, c, app)

  -- `RecvData`
  unfoldable pub recv_data : Recv → Client → S → Option (Ret × Client × S)
  recv_data recv c app = Client.recv_data recv c >>= λ r. some (on_answer app r)

  -- `DoMsg`: the loop for each client in turn.
  unfoldable pub do_msg_all : ℕ → Clients → S → Run (Clients × S)
  do_msg_all fuel [] app = finished ([], app)
  do_msg_all fuel ((k, c) ∷ m) app =
      serve_rest k (do_msg event.on_net_msg fuel (app, c)) (do_msg_all fuel m)
