-- ===== src/TcpServer/Listen.antt =====
-- depends/include/EasyTcpServer.hpp: the listening socket, from its making to Close. The calls of
-- the system are arguments, and `none` is their error.
use cpp100net.Common.{ℕ, Bool, Option, none, some, List, [], ◌∷◌, ◌++◌, if◌then◌else◌}
use cpp100net.Sockets.{Socket}
use cpp100net.Server.{Server, clear_clients}
use cpp100net.TcpServer.{TcpServer}

-- The CellServers that `Close` deletes: the sockets of their clients are closed when their threads end.
unfoldable pub delete_servers : List Server → List Socket
unfolding clear_clients
delete_servers [] = []
delete_servers (s ∷ ss) = (clear_clients s).0 ++ delete_servers ss

-- `Close`, with the sockets that it closes; the counters stay.
abbrev pub close_by : Socket → TcpServer → List Socket × TcpServer
close_by none t = ([], t)
close_by (some n) t =
    (delete_servers t.cell_servers ++ (some n ∷ []), record t { cell_servers = []; sock = none })

unfoldable pub close : TcpServer → List Socket × TcpServer
unfolding delete_servers
close t = close_by t.sock t

-- `InitSocket`, where `socket` answers `sock`: a socket that was there is closed first.
unfoldable pub init_socket : Socket → TcpServer → Socket × List Socket × TcpServer
unfolding close
init_socket sock t = let (closed, t') = close t in (sock, closed, record t' { sock = sock })

abbrev pub with_socket : Socket → TcpServer → Socket → List Socket × TcpServer
with_socket fresh t none = let (sock, closed, t') = init_socket fresh t in (closed, t')
with_socket fresh t (some n) = ([], t)

-- `Bind`; an address of `none` is INADDR_ANY.
unfoldable pub bind :
    Socket
    → (Socket → Option (List ℕ) → ℕ → Option ℕ)
    → Option (List ℕ)
    → ℕ
    → TcpServer
    → Option ℕ × List Socket × TcpServer
unfolding init_socket
bind fresh sys_bind ip port t =
    let (closed, t') = with_socket fresh t t.sock in (sys_bind t'.sock ip port, closed, t')

-- `Listen`
unfoldable pub listen : (Socket → ℕ → Option ℕ) → ℕ → TcpServer → Option ℕ
listen sys_listen n t = sys_listen t.sock n

-- `time4msg`: once a second the messages and receipts are counted anew.
unfoldable pub time4msg : Bool → TcpServer → TcpServer
time4msg second_passed t = record t {
  counters =
      if second_passed then record (t.counters) { recv_count = 0; msg_count = 0 } else t.counters;
}
