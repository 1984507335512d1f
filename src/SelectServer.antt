-- ===== src/SelectServer.antt =====
-- depends/include/CellSelectServer.hpp: reading from and writing to the clients after `select`, whose
-- answer, the sets of sockets that it left, is an argument. The build without _WIN32.
pub mod Event
pub mod Sets
pub mod Cached
pub mod Keys
pub mod Steps
pub mod Rounds
mod Tests
use cpp100net.Common.{◌&&◌, Bool, true, false, Option, some, [], ◌∷◌, if◌then◌else◌, ◌>>=◌}
use cpp100net.Sockets.{Socket, Ret, socket_error, bytes, Send, Recv}
use cpp100net.Client.{Client, need_write, send_data_real}
use cpp100net.Server
use cpp100net.Server.{NetEvent, Clients, Server}

-- The clients that are left, whether one has left, and the application's state.
abbrev pub Served {ℓ} : Type ℓ → Type ℓ
Served S = Clients × Bool × S

-- The client stays before the others.
abbrev pub stay {ℓ} : {S : Type ℓ} → Socket → Client → Served S → Served S
stay k c (m, change, app) = ((k, c) ∷ m, change, app)

-- A client was erased before the others.
abbrev pub erased {ℓ} : {S : Type ℓ} → Served S → Served S
erased (m, change, app) = (m, true, app)

module _ {ℓ} {S : Type ℓ} (event : NetEvent S) where
  -- One client was read or written: after an error it leaves and is erased.
  unfoldable pub settle : Socket → Ret × Client × S → (S → Option (Served S)) → Option (Served S)
  settle k (socket_error, c, app) others =
      others (event.on_net_leave c app) >>= λ r. some (erased r)
  settle k (bytes n, c, app) others = others app >>= λ r. some (stay k c r)

  -- `ReadData`
  unfoldable pub read_data : (Socket → Bool) → Recv → Clients → S → Option (Served S)
  unfolding settle
  read_data readable recv [] app = some ([], false, app)
  read_data readable recv ((k, c) ∷ m) app =
      let others = read_data readable recv m in
      if readable k
      then (Server.recv_data event recv c app >>= λ r. settle k r others)
      else (others app >>= λ r. some (stay k c r))

  -- `WriteData`
  unfoldable pub write_data : (Socket → Bool) → Send → Clients → S → Option (Served S)
  unfolding settle
  write_data writable send [] app = some ([], false, app)
  write_data writable send ((k, c) ∷ m) app =
      let others = write_data writable send m in
      if need_write c && writable k
      then (send_data_real send c >>= λ r. settle k (r.0, r.1, app) others)
      else (others app >>= λ r. some (stay k c r))

-- The server after either of them.
abbrev pub with_served {ℓ} : {S : Type ℓ} → Server → Served S → Server
with_served s (m, change, app) = record s {
  clients = m;
  clients_change = if change then true else s.clients_change;
}
