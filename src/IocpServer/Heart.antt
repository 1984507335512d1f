-- ===== src/IocpServer/Heart.antt =====
-- CheckTime of depends/include/CellServer.hpp as CELL_USE_IOCP makes it: who leaves, and how.
use cpp100net.Common.{
  ℕ, ◌+◌, ◌-◌, ◌≡◌, refl, not, ◌||◌, List, [], ◌∷◌, ◌++◌, ltb, if◌then◌else◌, Bool-cases, inl, inr,
}
use cpp100net.Client
use cpp100net.Client.{Client, client_heart_dead_time, is_post_io_action}
use cpp100net.Server.{NetEvent, Clients}
use cpp100net.Server.Heart.{aged, kept, is_empty, leave_all, dead-eq-not}
use cpp100net.Iocp.{Windows}
use cpp100net.IocpServer.{IocpServer}
use cpp100net.IocpServer.Round.{check_clients, check_time}

-- The clients that were silent too long, in order: those with an operation pending, their sockets
-- closed, and those without.
unfoldable pub closing : ℕ → Clients → Clients
closing dt [] = []
closing dt ((k, c) ∷ m) =
    if ltb (c.dt_heart + dt) client_heart_dead_time
    then closing dt m
    else if is_post_io_action c
    then (k, (Client.destroy (aged dt c)).1) ∷ closing dt m
    else closing dt m

unfoldable pub leaving : ℕ → Clients → List Client
leaving dt [] = []
leaving dt ((k, c) ∷ m) =
    if ltb (c.dt_heart + dt) client_heart_dead_time
    then leaving dt m
    else if is_post_io_action c
    then leaving dt m
    else aged dt c ∷ leaving dt m

module _ {ℓ κ} {K : Type ℓ} {S : Type κ} (sys : Windows K) (event : NetEvent S) where
  check_clients_parts :
      (dt : ℕ) (m : Clients) (app : S)
      → check_clients sys event dt m app ≡ (
        kept dt m,
        closing dt m,
        not (is_empty (leaving dt m)),
        leave_all event (leaving dt m) app,
      )
  unfolding check_clients kept closing leaving leave_all is_post_io_action
  check_clients_parts dt [] app = refl
  check_clients_parts dt ((k, c) ∷ m) app =
      elim (Bool-cases (ltb (c.dt_heart + dt) client_heart_dead_time)) [
        | inl e ↦ rw (e, dead-eq-not (c.dt_heart + dt), e, check_clients_parts dt m app) refl
        | inr e ↦ elim (Bool-cases (c.is_post_recv || c.is_post_send)) [
          | inl busy ↦
              rw (dead-eq-not (c.dt_heart + dt), e, busy, check_clients_parts dt m app) refl
          | inr idle ↦
              rw
                (
                  dead-eq-not (c.dt_heart + dt),
                  e,
                  idle,
                  check_clients_parts dt m (event.on_net_leave (aged dt c) app),
                )
                refl
        ]
      ]

  -- `CheckTime` of the server over completion ports at the time `now` keeps exactly the clients whose
  -- silence, with the time since the last check, is below 60000 ms, in order and that much older. Of
  -- the others, those with a send or a receive that is marked as pending only lose their sockets, and
  -- the application is not told; for each of the rest, in order, it is told once that it leaves. The
  -- change mark is set if one of the rest was there. The time is noted; nothing else changes.
  pub check_time_parts :
      (now : ℕ) (s : IocpServer) (app : S)
      → let dt = now - s.base.old_time in
        let m = s.base.clients in
        check_time sys event now s app ≡ (
          record s {
            base = record (s.base) {
              clients = kept dt m;
              old_time = now;
              clients_change = s.base.clients_change || not (is_empty (leaving dt m));
            };
            lingering = closing dt m ++ s.lingering;
          },
          leave_all event (leaving dt m) app,
        )
  unfolding check_time
  check_time_parts now s app = rw (check_clients_parts (now - s.base.old_time) s.base.clients app)
