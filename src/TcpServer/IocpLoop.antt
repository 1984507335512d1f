-- ===== src/TcpServer/IocpLoop.antt =====
-- depends/include/EasyIOCPServer.hpp: the loop that accepts connections through a completion port.
use cpp100net.Common.{ℕ, Bool, true, false, Option, none, some, List, [], ◌>>=◌}
use cpp100net.Sockets.{Socket}
use cpp100net.Client.{init}
use cpp100net.Iocp
use cpp100net.Iocp.{
  Iocp, Windows, IoDataBase, IoType, accept_type, recv_type, send_type, IocpEvent, Waited, one,
  below_zero, new_iocp,
}
use cpp100net.TcpServer.{TcpServer, admit}
use cpp100net.TcpServer.Listen.{time4msg}

-- `IOCPAccept`; what it returns, the sockets that it closes, and the server.
unfoldable pub iocp_accept :
    Socket → ℕ → (ℕ → List ℕ) → TcpServer → Option (Socket × List Socket × TcpServer)
unfolding admit
iocp_accept none id fresh t = some (none, [], t)
iocp_accept (some n) id fresh t =
    admit (init id (some n) (fresh t.n_send_buff_size) (fresh t.n_recv_buff_size)) (some n) t

-- `ioData`, with a buffer of 1024 bytes.
abbrev pub first_data : IoDataBase
first_data = record { io = record { sockfd = some 0; len = 1024; buf = 0 }; iotype = accept_type }

module _ {ℓ} {K : Type ℓ} (sys : Windows K) where
  -- What `OnRun` does before its loop: the port, `ioData`, and the system.
  unfoldable pub start_accepting : TcpServer → K → Iocp × IoDataBase × K
  unfolding Iocp.create Iocp.reg_sock Iocp.load_accept_ex Iocp.post_accept
  start_accepting t world =
      let (made, p1, world1) = Iocp.create sys new_iocp world in
      let (registered, world2) = Iocp.reg_sock sys t.sock p1 world1 in
      let (loaded, p2, world3) = Iocp.load_accept_ex sys t.sock p1 world2 in
      let (posted, d, world4) = Iocp.post_accept sys first_data p2 world3 in (p2, d, world4)

  -- A new connection: it is handed on, and the next one is waited for.
  abbrev pub on_accept :
      Iocp
      → ℕ
      → (ℕ → List ℕ)
      → IocpEvent
      → IoDataBase
      → TcpServer
      → K
      → Option (Bool × List Socket × IoDataBase × TcpServer × K)
  on_accept p id fresh e d t world =
      iocp_accept e.io_data.io.sockfd id fresh t >>= λ (sock, closed, t').
      let (posted, d', world') = Iocp.post_accept sys d p world in
      some (true, closed, d', t', world')

  abbrev pub on_event :
      Iocp
      → ℕ
      → (ℕ → List ℕ)
      → IocpEvent
      → IoType
      → IoDataBase
      → TcpServer
      → K
      → Option (Bool × List Socket × IoDataBase × TcpServer × K)
  on_event p id fresh e accept_type d t world = on_accept p id fresh e d t world
  on_event p id fresh e recv_type d t world = some (true, [], d, t, world)
  on_event p id fresh e send_type d t world = some (true, [], d, t, world)

  -- What follows `wait`: whether the loop goes on, the sockets that are closed, `ioData`, the server, and
  -- the system.
  abbrev pub on_waited :
      Iocp
      → ℕ
      → (ℕ → List ℕ)
      → IoDataBase
      → TcpServer
      → Waited × K
      → Option (Bool × List Socket × IoDataBase × TcpServer × K)
  on_waited p id fresh d t (below_zero, world) = some (false, [], d, t, world)
  on_waited p id fresh d t (Waited.zero, world) = some (true, [], d, t, world)
  on_waited p id fresh d t (one e, world) = on_event p id fresh e e.io_data.iotype d t world

  -- One round of the loop in `OnRun`; `id` is the number of the next client.
  unfoldable pub accept_round :
      Bool
      → Iocp
      → ℕ
      → (ℕ → List ℕ)
      → IoDataBase
      → TcpServer
      → K
      → Option (Bool × List Socket × IoDataBase × TcpServer × K)
  unfolding time4msg iocp_accept Iocp.post_accept Iocp.wait
  accept_round second_passed p id fresh d t world =
      on_waited p id fresh d (time4msg second_passed t) (Iocp.wait sys 1 p world)
