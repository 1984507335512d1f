-- ===== src/TcpClient/EpollClient.antt =====
-- depends/include/EasyEpollClient.hpp: the client over epoll.
use cpp100net.Common.{ℕ, ◌==◌, Bool, true, false, Option, none, some, List, [], ◌∷◌, if◌then◌else◌}
use cpp100net.Sockets.{Socket, Ret, socket_error, bytes, Send, Recv}
use cpp100net.Client
use cpp100net.Client.{Client}
use cpp100net.Dispatch.{Run, finished, faulted, out_of_fuel, Handler}
use cpp100net.Epoll
use cpp100net.Epoll.{
  Epoll, System, Events, Data, null, fd, ptr, Event, epoll_ctl_add, epoll_ctl_mod,
}
use cpp100net.Server.{rank}
use cpp100net.TcpClient
use cpp100net.TcpClient.{TcpClient, is_some}

pub record EpollClient : Type 0 where
  pub base : TcpClient
  pub ep : Epoll

module _ {ℓ} {K : Type ℓ} (sys : System K) where
  -- `Close`
  unfoldable pub close : EpollClient → K → EpollClient × K
  unfolding Epoll.destroy TcpClient.close
  close t world =
      let (ep, world') = Epoll.destroy sys t.ep world in
      (record { base = TcpClient.close t.base; ep = ep }, world')

  -- `OnInitSocket`, called with a new `_pClient`.
  unfoldable pub on_init_socket : Client → EpollClient → K → EpollClient × K
  unfolding Epoll.create Epoll.ctl
  on_init_socket c t world =
      let (d, ep, world1) = Epoll.create sys 1 t.ep world in
      let asked : Events = record { epoll_in = true; epoll_out = false } in
      (record t { ep = ep }, (Epoll.ctl sys epoll_ctl_add c asked ep world1).1)

  module _ {κ} {S : Type κ} (on_net_msg : Handler S) (fuel : ℕ) (recv : Recv) (send : Send) where
    -- `Close` in the loop over the events, which goes on.
    abbrev pub closed : S → EpollClient → K → Run (S × EpollClient × K)
    closed s t world = let (t', world') = close t world in finished (s, t', world')

    abbrev pub after_send : S → EpollClient → K → Option (Ret × Client) → Run (S × EpollClient × K)
    after_send s t world none = faulted
    after_send s t world (some (socket_error, c)) =
        closed s (record t { base = record (t.base) { p_client = some c } }) world
    after_send s t world (some (bytes n, c)) =
        finished (s, record t { base = record (t.base) { p_client = some c } }, world)

    -- The part for EPOLLOUT; the pointer of the event is `_pClient`.
    abbrev pub write_part : Bool → S → EpollClient → K → Option Client → Run (S × EpollClient × K)
    write_part asked s t world none = finished (s, t, world)
    write_part asked s t world (some c) =
        if asked
        then after_send s t world (Client.send_data_real send c)
        else finished (s, t, world)

    abbrev pub after_recv :
        Bool → EpollClient → K → Run (Ret × S × TcpClient) → Run (S × EpollClient × K)
    after_recv asked t world faulted = faulted
    after_recv asked t world out_of_fuel = out_of_fuel
    after_recv asked t world (finished (socket_error, s, base)) =
        closed s (record t { base = base }) world
    after_recv asked t world (finished (bytes n, s, base)) =
        write_part asked s (record t { base = base }) world base.p_client

    -- An event about the client `c`, the one that there is.
    abbrev pub serve_client : Events → S → EpollClient → K → Client → Run (S × EpollClient × K)
    serve_client ev s t world c =
        if ev.epoll_in
        then after_recv ev.epoll_out t world (TcpClient.recv_data on_net_msg fuel recv (s, t.base))
        else write_part ev.epoll_out s t world (some c)

    -- A pointer to a client that was deleted is a fault.
    abbrev pub serve_ptr :
        Socket → Events → S → EpollClient → K → Option Client → Run (S × EpollClient × K)
    serve_ptr k ev s t world none = faulted
    serve_ptr k ev s t world (some c) =
        if rank k == rank c.sockfd then serve_client ev s t world c else faulted

    -- One turn of the loop over the events.
    unfoldable pub serve_event : Event → S → EpollClient → K → Run (S × EpollClient × K)
    unfolding close TcpClient.recv_data
    serve_event e s t world = elim (e.about) [
      | null ↦ finished (s, t, world)
      | fd k ↦ faulted
      | ptr k ↦ serve_ptr k e.events s t world t.base.p_client
    ]

    abbrev pub next :
        (S → EpollClient → K → Run (Bool × S × EpollClient × K))
        → Run (S × EpollClient × K)
        → Run (Bool × S × EpollClient × K)
    next others faulted = faulted
    next others out_of_fuel = out_of_fuel
    next others (finished (s, t, world)) = others s t world

    unfoldable pub serve_events :
        List Event → S → EpollClient → K → Run (Bool × S × EpollClient × K)
    unfolding serve_event
    serve_events [] s t world = finished (true, s, t, world)
    serve_events (e ∷ es) s t world = next (serve_events es) (serve_event e s t world)

    -- What follows `wait`, which answers 0 for an interrupted call.
    abbrev pub after_wait :
        S → EpollClient → Option (List Event) × K → Run (Bool × S × EpollClient × K)
    after_wait s t (none, world) =
        let (t', world') = close t world in finished (false, s, t', world')
    after_wait s t (some events, world) = serve_events events s t world

    abbrev pub run_by : ℕ → S → EpollClient → K → Option Client → Run (Bool × S × EpollClient × K)
    run_by microseconds s t world none = finished (false, s, t, world)
    run_by microseconds s t world (some c) =
        let asked : Events = record { epoll_in = true; epoll_out = Client.need_write c } in
        let (ok, watched) = Epoll.ctl sys epoll_ctl_mod c asked t.ep world in
        if t.base.is_connect
        then after_wait s t (Epoll.wait sys microseconds t.ep watched)
        else finished (false, s, t, world)

    -- `OnRun`
    unfoldable pub on_run : ℕ → S → EpollClient → K → Run (Bool × S × EpollClient × K)
    unfolding close serve_events Epoll.ctl Epoll.wait
    on_run microseconds s t world = run_by microseconds s t world t.base.p_client
