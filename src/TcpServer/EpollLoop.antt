-- ===== src/TcpServer/EpollLoop.antt =====
-- depends/include/EasyEpollServer.hpp: the loop that waits for connections with epoll and accepts them.
use cpp100net.Common.{
  ℕ, ◌==◌, ◌+◌, ◌&&◌, Bool, true, false, Option, none, some, List, [], ◌∷◌, ◌++◌, if◌then◌else◌,
  ◌>>=◌,
}
use cpp100net.Sockets.{Socket}
use cpp100net.Epoll
use cpp100net.Epoll.{Epoll, System, Events, Data, null, fd, ptr, Event, new_epoll, epoll_ctl_add}
use cpp100net.Server.{rank}
use cpp100net.TcpServer.{TcpServer, accept}
use cpp100net.TcpServer.Listen.{time4msg}

-- What one call of `Accpet` needs: the socket from `accept`, the number of the next client, and
-- fresh arrays.
pub record Incoming : Type 0 where
  pub answer : Socket
  pub id : ℕ
  pub fresh : ℕ → List ℕ

-- `events[i].data.fd == sockfd()`; the object of this loop watches no client.
abbrev pub is_listening : Socket → Data → Bool
is_listening sock (fd s) = rank s == rank sock
is_listening sock null = false
is_listening sock (ptr s) = false

-- The loop over the events, the first of which has the number `i`: the sockets that are closed, and the
-- server.
unfoldable pub accept_events :
    (ℕ → Incoming) → ℕ → List Event → TcpServer → Option (List Socket × TcpServer)
accept_events incoming i [] t = some ([], t)
accept_events incoming i (e ∷ es) t =
    let rest = accept_events incoming (i + 1) es in
    if is_listening t.sock e.about && e.events.epoll_in
    then (accept (incoming i).answer (incoming i).id (incoming i).fresh t >>= λ (sock, closed, t1).
        rest t1 >>= λ (closed', t2). some (closed ++ closed', t2))
    else rest t

module _ {ℓ} {K : Type ℓ} (sys : System K) where
  -- What `OnRun` does before its loop.
  unfoldable pub start_accepting : TcpServer → K → Epoll × K
  unfolding Epoll.create Epoll.ctl_fd
  start_accepting t world =
      let (d, ep, world1) = Epoll.create sys t.n_max_client new_epoll world in
      let asked : Events = record { epoll_in = true; epoll_out = false } in
      (ep, (Epoll.ctl_fd sys epoll_ctl_add t.sock asked ep world1).1)

  -- Whether the loop goes on, the sockets that are closed, the server, and the system.
  abbrev pub on_waited :
      (ℕ → Incoming)
      → TcpServer
      → Option (List Event) × K
      → Option (Bool × List Socket × TcpServer × K)
  on_waited incoming t (none, world) = some (false, [], t, world)
  on_waited incoming t (some events, world) =
      accept_events incoming 0 events t >>= λ (closed, t'). some (true, closed, t', world)

  -- One round of the loop in `OnRun`.
  unfoldable pub accept_round :
      Bool → (ℕ → Incoming) → Epoll → TcpServer → K → Option (Bool × List Socket × TcpServer × K)
  unfolding accept_events Epoll.wait time4msg
  accept_round second_passed incoming ep t world =
      on_waited incoming (time4msg second_passed t) (Epoll.wait sys 1 ep world)
