-- ===== src/EpollServer/Round.antt =====
-- depends/include/CellEpollServer.hpp: setClientNum, OnClientJoin, DoNetEvent, and the round of
-- CellServer::OnRun around it.
use cpp100net.Common.{
  ℕ, ◌==◌, ◌-◌, Bool, true, false, Option, none, some, List, [], ◌∷◌, length, if◌then◌else◌,
}
use cpp100net.Sockets.{Socket, Send, Recv}
use cpp100net.Client.{Client, need_write, check_heart}
use cpp100net.Dispatch.{Run, finished, faulted, out_of_fuel}
use cpp100net.Epoll
use cpp100net.Epoll.{Epoll, System, Events, Op, epoll_ctl_add, epoll_ctl_mod}
use cpp100net.Server.{NetEvent, Clients, Server, take_clients, check_time, do_msg_all}
use cpp100net.EpollServer.{Served, serve_events}

pub record EpollServer : Type 0 where
  pub base : Server
  pub ep : Epoll

-- The events to watch a client for: it can always be read.
abbrev pub wanted : Client → Events
wanted c = record { epoll_in = true; epoll_out = need_write c }

module _ {ℓ} {K : Type ℓ} (sys : System K) where
  -- `setClientNum`
  unfoldable pub set_client_num : ℕ → EpollServer → K → EpollServer × K
  unfolding Epoll.create
  set_client_num n s world =
      let (d, ep, world') = Epoll.create sys n s.ep world in (record s { ep = ep }, world')

  -- `OnClientJoin`
  unfoldable pub on_client_join : Epoll → Client → K → K
  unfolding Epoll.ctl
  on_client_join ep c world =
      (Epoll.ctl sys epoll_ctl_add c (record { epoll_in = true; epoll_out = false }) ep world).1

  -- `OnClientJoin` for each client that is taken over.
  unfoldable pub join_each : Epoll → List Client → K → K
  unfolding on_client_join
  join_each ep [] world = world
  join_each ep (c ∷ cs) world = join_each ep cs (on_client_join ep c world)

  -- The first loop of `DoNetEvent`.
  unfoldable pub watch_all : Epoll → Clients → K → K
  unfolding Epoll.ctl
  watch_all ep [] world = world
  watch_all ep ((k, c) ∷ m) world =
      watch_all ep m (Epoll.ctl sys epoll_ctl_mod c (wanted c) ep world).1

  -- The sockets of the clients that were deleted are closed.
  unfoldable pub close_each : List Socket → K → K
  close_each [] world = world
  close_each (none ∷ ss) world = close_each ss world
  close_each (some k ∷ ss) world = close_each ss (sys.close (some k) world)

  -- The sockets of the clients that `CheckTime` deletes after `dt` milliseconds.
  unfoldable pub dead_sockets : ℕ → Clients → List Socket
  dead_sockets dt [] = []
  dead_sockets dt ((k, c) ∷ m) =
      if (check_heart dt c).0 then c.sockfd ∷ dead_sockets dt m else dead_sockets dt m

  module _ {κ} {S : Type κ} (event : NetEvent S) (recv : Recv) (send : Send) where
    abbrev pub on_served : EpollServer → K → Option (Served S) → Option (Bool × EpollServer × K × S)
    on_served s world none = none
    on_served s world (some (base, closed, app)) =
        some (true, record s { base = base }, close_each closed world, app)

    -- What follows `wait`.
    abbrev pub on_waited :
        EpollServer → S → Option (List Epoll.Event) × K → Option (Bool × EpollServer × K × S)
    on_waited s app (none, world) = some (false, s, world, app)
    on_waited s app (some events, world) =
        on_served s world (serve_events event recv send events (s.base, [], app))

    -- `DoNetEvent`
    unfoldable pub do_net_event : EpollServer → K → S → Option (Bool × EpollServer × K × S)
    unfolding watch_all Epoll.wait serve_events close_each
    do_net_event s world app =
        on_waited s app (Epoll.wait sys 1 s.ep (watch_all s.ep s.base.clients world))

    abbrev pub with_messages :
        EpollServer → K → Run (Clients × S) → Run (Bool × EpollServer × K × S)
    with_messages s world faulted = faulted
    with_messages s world out_of_fuel = out_of_fuel
    with_messages s world (finished (m, app)) =
        finished (true, record s { base = record (s.base) { clients = m } }, world, app)

    -- `DoMsg`, if `DoNetEvent` went well; else the loop is left.
    abbrev pub after_event :
        ℕ → Option (Bool × EpollServer × K × S) → Run (Bool × EpollServer × K × S)
    after_event fuel none = faulted
    after_event fuel (some (false, s, world, app)) = finished (false, s, world, app)
    after_event fuel (some (true, s, world, app)) =
        with_messages s world (do_msg_all event fuel s.base.clients app)

    -- One round of `CellServer::OnRun` at the time `now`; whether it goes on.
    unfoldable pub round : ℕ → ℕ → EpollServer → K → S → Run (Bool × EpollServer × K × S)
    unfolding join_each take_clients check_time do_net_event dead_sockets
    round fuel now s world app =
        let (base, app1) = take_clients event s.base app in
        let joined = join_each s.ep s.base.clients_buff world in
        let (checked, app2) = check_time event now base app1 in
        let gone = dead_sockets (now - base.old_time) base.clients in
        if length base.clients == 0
        then finished (true, record s { base = record base { old_time = now } }, joined, app1)
        else after_event fuel
            (do_net_event (record s { base = checked }) (close_each gone joined) app2)
