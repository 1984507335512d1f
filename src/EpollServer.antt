-- ===== src/EpollServer.antt =====
-- depends/include/CellEpollServer.hpp: serving the clients that epoll names. A pointer to a client is
-- its socket, by which it is found among the clients; one to a client that was deleted is a fault.
pub mod Maps
pub mod Round
pub mod Alone
pub mod Fates
pub mod Loop
pub mod Asked
pub mod Watch
mod Tests
use cpp100net.Common.{
  Bool, true, false, Option, none, some, List, [], ◌∷◌, ◌++◌, ◌==◌, if◌then◌else◌, ◌>>=◌,
}
use cpp100net.Sockets.{Socket, Ret, socket_error, bytes, Send, Recv}
use cpp100net.Client
use cpp100net.Client.{Client, send_data_real}
use cpp100net.Epoll.{Events, Data, null, fd, ptr, Event}
use cpp100net.Server
use cpp100net.Server.{NetEvent, Clients, Server, rank}

-- `_clients.find(k)`
unfoldable pub find : Socket → Clients → Option Client
find k [] = none
find k ((j, c) ∷ m) = if rank k == rank j then some c else find k m

-- `_clients.erase` of the entry that was found, if one was.
unfoldable pub erase : Socket → Clients → Clients
erase k [] = []
erase k ((j, c) ∷ m) = if rank k == rank j then m else (j, c) ∷ erase k m

-- The client with the socket `k` was changed through its pointer.
unfoldable pub put : Socket → Client → Clients → Clients
put k c [] = []
put k c ((j, d) ∷ m) = if rank k == rank j then (j, c) ∷ m else (j, d) ∷ put k c m

-- `SOCKET_ERROR == ret`
abbrev pub is_error : Ret → Bool
is_error socket_error = true
is_error (bytes n) = false

-- The server, the sockets that were closed, and the application's state.
abbrev pub Served {ℓ} : Type ℓ → Type ℓ
Served S = Server × List Socket × S

module _ {ℓ} {S : Type ℓ} (event : NetEvent S) where
  -- `OnClientLeave`, and `rmClient`.
  unfoldable pub rm_client : Client → Served S → Served S
  unfolding erase Client.destroy
  rm_client c (s, closed, app) = (
    record s { clients = erase c.sockfd s.clients; clients_change = true },
    closed ++ (Client.destroy c).0 ∷ [],
    event.on_net_leave c app,
  )

  -- The two parts of the loop's body: whether the client is to be removed, the client, and the
  -- application's state.
  unfoldable pub serve_in : Recv → Bool → Client → S → Option (Bool × Client × S)
  serve_in recv asked c app =
      if asked
      then (Server.recv_data event recv c app >>= λ r. some (is_error r.0, r.1, r.2))
      else some (false, c, app)

  unfoldable pub serve_out : Send → Bool → Client → S → Option (Bool × Client × S)
  serve_out send asked c app =
      if asked
      then (send_data_real send c >>= λ r. some (is_error r.0, r.1, app))
      else some (false, c, app)

  unfoldable pub serve_client : Recv → Send → Events → Client → S → Option (Bool × Client × S)
  unfolding serve_in serve_out
  serve_client recv send ev c app = serve_in recv ev.epoll_in c app >>= λ r.
      let out = serve_out send ev.epoll_out r.1 r.2 in if r.0 then some r else out

  -- Removed, or kept as it is now.
  abbrev pub settle : Socket → Served S → Bool × Client × S → Served S
  settle k (s, closed, app) (true, c, app') = rm_client c (s, closed, app')
  settle k (s, closed, app) (false, c, app') =
      (record s { clients = put k c s.clients }, closed, app')

  -- One turn of the loop over the events.
  unfoldable pub serve_event : Recv → Send → Event → Served S → Option (Served S)
  unfolding find serve_client rm_client put
  serve_event recv send e (s, closed, app) = elim (e.about) [
    | null ↦ some (s, closed, app)
    | fd k ↦ none
    | ptr k ↦ find k s.clients >>= λ c.
        serve_client recv send e.events c app >>= λ r. some (settle k (s, closed, app) r)
  ]

  unfoldable pub serve_events : Recv → Send → List Event → Served S → Option (Served S)
  unfolding serve_event
  serve_events recv send [] r = some r
  serve_events recv send (e ∷ es) r = serve_event recv send e r >>= serve_events recv send es
