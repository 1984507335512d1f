-- ===== src/IocpServer/Round.antt =====
-- depends/include/CellIOCPServer.hpp: DoNetEvent; and OnRun and CheckTime of
-- depends/include/CellServer.hpp as CELL_USE_IOCP makes them.
use cpp100net.Common.{
  ℕ, zero, suc, ◌-◌, ◌==◌, ◌||◌, Bool, true, false, Option, none, some, List, [], ◌∷◌, ◌++◌, length,
  if◌then◌else◌,
}
use cpp100net.Client
use cpp100net.Client.{Client, check_heart}
use cpp100net.Dispatch.{Run, finished, faulted, out_of_fuel}
use cpp100net.Iocp
use cpp100net.Iocp.{Iocp, Windows, Waited, one, below_zero}
use cpp100net.Server.{NetEvent, Clients, take_clients, do_msg_all}
use cpp100net.IocpServer.{IocpServer, post_all, on_client_join, on_event, update}

module _ {ℓ κ} {K : Type ℓ} {S : Type κ} (sys : Windows K) (event : NetEvent S) where
  -- `OnClientJoin` for each client that is taken over by the server `id`.
  unfoldable pub join_each : ℕ → Iocp → List Client → Clients → K → Clients × K
  unfolding on_client_join update
  join_each id p [] m world = (m, world)
  join_each id p (c ∷ cs) m world =
      let (c', world1) = on_client_join sys event p (record c { server_id = some id }) world in
      join_each id p cs (update c' m) world1

  abbrev pub next :
      (IocpServer → K → S → Run (Bool × IocpServer × K × S))
      → K
      → Option (IocpServer × S)
      → Run (Bool × IocpServer × K × S)
  next again world none = faulted
  next again world (some (s, app)) = again s world app

  -- `DoIOCPNetEvent`, and the rest of the loop where there was an event.
  abbrev pub on_waited :
      (IocpServer → K → S → Run (Bool × IocpServer × K × S))
      → IocpServer
      → S
      → Waited × K
      → Run (Bool × IocpServer × K × S)
  on_waited again s app (below_zero, world) = finished (false, s, world, app)
  on_waited again s app (Waited.zero, world) = finished (true, s, world, app)
  on_waited again s app (one e, world) = next again world (on_event event e (s, app))

  -- `DoIOCPNetEvent` again and again, until there is no event: whether `wait` went well.
  unfoldable pub drain : ℕ → IocpServer → K → S → Run (Bool × IocpServer × K × S)
  unfolding Iocp.wait on_event
  drain zero s world app = out_of_fuel
  drain (suc fuel) s world app = on_waited (drain fuel) s app (Iocp.wait sys 1 s.iocp world)

  -- `DoNetEvent`
  unfoldable pub do_net_event : ℕ → IocpServer → K → S → Run (Bool × IocpServer × K × S)
  unfolding post_all drain
  do_net_event fuel s world app =
      let (m, left, world1, app1) = post_all sys event s.base.clients world app in
      let base = record (s.base) { clients = m; clients_change = s.base.clients_change || left } in
      drain fuel (record s { base = base }) world1 app1

  -- The loop of `CheckTime`: a client that was silent too long leaves the map; it is deleted, unless one of
  -- its operations is still pending, in which case its socket is closed. The clients that stay, those that
  -- are only closed, whether one was deleted, and the application's state.
  unfoldable pub check_clients : ℕ → Clients → S → Clients × Clients × Bool × S
  unfolding check_heart Client.is_post_io_action Client.destroy
  check_clients dt [] app = ([], [], false, app)
  check_clients dt ((k, c) ∷ m) app =
      let (dead, c') = check_heart dt c in
      let waits = Client.is_post_io_action c' in
      let (rest, lingering, left, app') =
        check_clients dt m
          (if dead then if waits then app else event.on_net_leave c' app else app) in
      if dead
      then if waits
        then (rest, (k, (Client.destroy c').1) ∷ lingering, left, app')
        else (rest, lingering, true, app')
      else ((k, c') ∷ rest, lingering, left, app')

  -- `CheckTime` at the time `now`.
  unfoldable pub check_time : ℕ → IocpServer → S → IocpServer × S
  unfolding check_clients
  check_time now s app =
      let (m, lingering, left, app') = check_clients (now - s.base.old_time) s.base.clients app in
      (
        record s {
          base = record (s.base) {
            clients = m;
            old_time = now;
            clients_change = s.base.clients_change || left;
          };
          lingering = lingering ++ s.lingering;
        },
        app',
      )

  abbrev pub with_messages : IocpServer → K → Run (Clients × S) → Run (Bool × IocpServer × K × S)
  with_messages s world faulted = faulted
  with_messages s world out_of_fuel = out_of_fuel
  with_messages s world (finished (m, app)) =
      finished (true, record s { base = record (s.base) { clients = m } }, world, app)

  -- `DoMsg`, if `DoNetEvent` went well; else the loop is left.
  abbrev pub after_event : ℕ → Run (Bool × IocpServer × K × S) → Run (Bool × IocpServer × K × S)
  after_event fuel faulted = faulted
  after_event fuel out_of_fuel = out_of_fuel
  after_event fuel (finished (false, s, world, app)) = finished (false, s, world, app)
  after_event fuel (finished (true, s, world, app)) =
      with_messages s world (do_msg_all event fuel s.base.clients app)

  -- One round of `CellServer::OnRun` at the time `now`; `events` bounds the completed operations, and
  -- `fuel` the messages of a client.
  unfoldable pub round : ℕ → ℕ → ℕ → IocpServer → K → S → Run (Bool × IocpServer × K × S)
  unfolding join_each take_clients check_time do_net_event
  round events fuel now s world app =
      let (base, app1) = take_clients event s.base app in
      let (m, joined) = join_each base.id s.iocp s.base.clients_buff base.clients world in
      let taken = record s { base = record base { clients = m } } in
      let (checked, app2) = check_time now taken app1 in
      if length m == 0
      then finished
          (true, record taken { base = record (taken.base) { old_time = now } }, joined, app1)
      else after_event fuel (do_net_event events checked joined app2)
