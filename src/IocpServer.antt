-- ===== src/IocpServer.antt =====
-- depends/include/CellIOCPServer.hpp: posting the operations of the clients, and taking the completed
-- ones. A pointer to a client is its number; one to a client that was deleted is a fault.
pub mod Round
pub mod Heart
pub mod Link
pub mod Order
pub mod Posts
pub mod Transfers
mod Tests
use cpp100net.Common.{
  ℕ, zero, suc, ◌==◌, Bool, true, false, Option, none, some, List, [], ◌∷◌, if◌then◌else◌, ◌>>=◌,
}
use cpp100net.Sockets.{Socket}
use cpp100net.Buffer.{IoData}
use cpp100net.Client
use cpp100net.Client.{Client}
use cpp100net.Iocp
use cpp100net.Iocp.{
  Iocp, Windows, IoType, recv_type, send_type, accept_type, Key, ptr, sock_key, IocpEvent,
}
use cpp100net.Server.{NetEvent, Clients, Server}
use cpp100net.EpollServer.{erase, put}

-- `lingering` are the clients that CheckTime took off the map without deleting them.
pub record IocpServer : Type 0 where
  pub base : Server
  pub lingering : Clients
  pub iocp : Iocp

-- The client that a pointer leads to.
unfoldable pub by_id : ℕ → Clients → Option (Socket × Client)
by_id id [] = none
by_id id ((k, c) ∷ m) = if c.id == id then some (k, c) else by_id id m

-- `delete` of a client that is not in the map any more.
unfoldable pub forget : ℕ → Clients → Clients
forget id [] = []
forget id ((k, c) ∷ m) = if c.id == id then m else (k, c) ∷ forget id m

-- A client was changed through its pointer.
unfoldable pub update : Client → Clients → Clients
update c [] = []
update c ((k, d) ∷ m) = if d.id == c.id then (k, c) ∷ m else (k, d) ∷ update c m

module _ {ℓ} {K : Type ℓ} (sys : Windows K) where
  -- `if (pIoData)`: whether the client may stay, the client, and the system.
  abbrev pub posted : (IoData → K → Bool × K) → Option IoData × Client → K → Bool × Client × K
  posted post (none, c) world = (true, c, world)
  posted post (some io, c) world = let (ok, world') = post io world in (ok, c, world')

  unfoldable pub post_send : Client → K → Bool × Client × K
  unfolding Iocp.post_send Client.make_send_io_data
  post_send c world = posted (Iocp.post_send sys) (Client.make_send_io_data c) world

  unfoldable pub post_recv : Client → K → Bool × Client × K
  unfolding Iocp.post_recv Client.make_recv_io_data
  post_recv c world = posted (Iocp.post_recv sys) (Client.make_recv_io_data c) world

  -- The body of the first loop of `DoNetEvent`.
  unfoldable pub post_client : Client → K → Bool × Client × K
  unfolding post_send post_recv
  post_client c world =
      let (ok, c1, world1) = post_send c world in
      if Client.need_write c
      then if ok then post_recv c1 world1 else (false, c1, world1)
      else post_recv c world

  module _ {κ} {S : Type κ} (event : NetEvent S) where
    -- The first loop of `DoNetEvent`: the clients that stay, whether one has left, the system, and the
    -- application's state.
    unfoldable pub post_all : Clients → K → S → Clients × Bool × K × S
    unfolding post_client
    post_all [] world app = ([], false, world, app)
    post_all ((k, c) ∷ m) world app =
        let (ok, c', world1) = post_client c world in
        let (rest, left, world2, app') =
          post_all m world1 (if ok then app else event.on_net_leave c' app) in
        if ok then ((k, c') ∷ rest, left, world2, app') else (rest, true, world2, app')

    -- `OnClientJoin`
    unfoldable pub on_client_join : Iocp → Client → K → Client × K
    unfolding Iocp.reg post_recv
    on_client_join p c world =
        let (registered, world1) = Iocp.reg sys c.sockfd c.id p world in
        let (ok, c', world2) = post_recv c world1 in (c', world2)

module _ {κ} {S : Type κ} (event : NetEvent S) where
  -- `rmClient` and `OnClientLeave`: the client is taken off the map, if it is there, and deleted.
  unfoldable pub rm_client : Client → IocpServer × S → IocpServer × S
  unfolding erase forget
  rm_client c (s, app) = (
    record s {
      base = record (s.base) { clients = erase c.sockfd s.base.clients; clients_change = true };
      lingering = forget c.id s.lingering;
    },
    event.on_net_leave c app,
  )

  -- The client that an event points to, in the map or not.
  abbrev pub pointed : Key → IocpServer → Option Client
  pointed (sock_key k) s = none
  pointed (ptr id) s = elim (by_id id s.base.clients) [
    | some (k, c) ↦ some c
    | none ↦ elim (by_id id s.lingering) [ some (k, c) ↦ some c | none ↦ none ]
  ]

  abbrev pub put_back : Client → IocpServer → IocpServer
  put_back c s = record s {
    base = record (s.base) { clients = update c s.base.clients };
    lingering = update c s.lingering;
  }

  -- A completed operation of a client that stays.
  unfoldable pub complete : IoType → ℕ → Client → S → Option (Client × S)
  unfolding Client.recv4iocp Client.send2iocp
  complete recv_type n c app =
      some (Client.recv4iocp n c, event.on_net_recv (Client.recv4iocp n c) app)
  complete send_type n c app = Client.send2iocp n c >>= λ c'. some (c', app)
  complete accept_type n c app = some (c, app)

  -- What `DoIOCPNetEvent` does with an event; no byte was moved where the client is gone.
  unfoldable pub on_transfer : IocpEvent → IocpServer × S → Option (IocpServer × S)
  unfolding by_id complete rm_client update
  on_transfer e (s, app) = pointed e.about s >>= λ c.
      if e.bytes_trans == 0
      then some (rm_client c (s, app))
      else (complete e.io_data.iotype e.bytes_trans c app >>= λ (c', app').
          some (put_back c' s, app'))

  -- An operation that is neither is only logged.
  unfoldable pub on_event : IocpEvent → IocpServer × S → Option (IocpServer × S)
  unfolding on_transfer
  on_event e r = elim (e.io_data.iotype) [
    | recv_type ↦ on_transfer e r
    | send_type ↦ on_transfer e r
    | accept_type ↦ some r
  ]
