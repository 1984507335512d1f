-- ===== src/EpollServer/Alone.antt =====
-- One client that epoll names, served with no application to tell.
use cpp100net.Common.{
  zero, suc, ◌≡◌, refl, ◌∙◌, Bool, true, false, Option, some, Returns, ◌>>=◌, Bool-cases, inl, inr,
}
use cpp100net.Sockets.{Ret, socket_error, bytes, Send, Recv, SendWithin, RecvWithin}
use cpp100net.Buffer.Transfer.{Read-IsValid, Wrote-IsValid, read4socket-Read, write2socket-Wrote}
use cpp100net.Client
use cpp100net.Client.{Client}
use cpp100net.Client.Inv.{IsValid}
use cpp100net.Epoll.{Events}
use cpp100net.Server
use cpp100net.Server.{NetEvent}
use cpp100net.EpollServer.{is_error, serve_in, serve_out, serve_client}

-- `_pNetEvent` is null.
abbrev pub nobody : NetEvent (Unit {0})
nobody = record {
  on_net_join = λ c u. u;
  on_net_leave = λ c u. u;
  on_net_recv = λ c u. u;
  on_net_msg = λ f r. some r;
}

-- What serving one client comes to: whether it is to be removed, and the client.
unfoldable pub alone : Recv → Send → Events → Client → Option (Bool × Client)
alone recv send ev c = serve_client nobody recv send ev c tt >>= λ r. some (r.0, r.1)

-- The client is well formed and has the socket it had.
abbrev pub Same : Client → Client → Type 0
Same c d = IsValid d × (d.sockfd ≡ c.sockfd)

module _ {ℓ} {S : Type ℓ} (event : NetEvent S) where
  on_answer_parts :
      (app : S) (r : Ret × Client)
      → (is_error (Server.on_answer event app r).0 ≡ is_error (Server.on_answer nobody tt r).0)
        × ((Server.on_answer event app r).1 ≡ r.1)
        × ((Server.on_answer nobody tt r).1 ≡ r.1)
  on_answer_parts app (socket_error, c) = (refl, refl, refl)
  on_answer_parts app (bytes zero, c) = (refl, refl, refl)
  on_answer_parts app (bytes (suc n), c) = (refl, refl, refl)

recv_data-Same :
    (recv : Recv) (c : Client)
    → RecvWithin recv
    → IsValid c
    → Returns (Client.recv_data recv c) λ r. Same c r.1
unfolding Client.recv_data
recv_data-Same recv c within v =
    let (r, ran, ok) = read4socket-Read recv c.sockfd c.recv_buff v.recv within in
    (
      (r.0, record c { recv_buff = r.1 }),
      rw ran refl,
      (record { recv = Read-IsValid recv c.sockfd c.recv_buff r v.recv ok; send = v.send }, refl),
    )

send_data_real-Same :
    (send : Send) (c : Client)
    → SendWithin send
    → IsValid c
    → Returns (Client.send_data_real send c) λ r. Same c r.1
unfolding Client.send_data_real
send_data_real-Same send c within v =
    let (r, ran, ok) = write2socket-Wrote send c.sockfd c.send_buff v.send within in
    (
      (r.0, record c { dt_send = 0; send_buff = r.1 }),
      rw ran refl,
      (record { recv = v.recv; send = Wrote-IsValid send c.sockfd c.send_buff r v.send ok }, refl),
    )

-- The two servers do the same to the client, and neither faults.
abbrev Agree {ℓ} :
    {S : Type ℓ} → Client → Option (Bool × Client × S) → Option (Bool × Client × Unit {0}) → Type ℓ
Agree {S = S} c o o' =
    (b : Bool) × (d : Client) × (app : S) × (o ≡ some (b, d, app))
    × (o' ≡ some (b, d, tt))
    × Same c d

module _ {ℓ} {S : Type ℓ} (event : NetEvent S) where
  serve_in-Agree :
      (recv : Recv) (asked : Bool) (c : Client) (app : S)
      → RecvWithin recv
      → IsValid c
      → Agree c (serve_in event recv asked c app) (serve_in nobody recv asked c tt)
  unfolding serve_in Server.recv_data
  serve_in-Agree recv false c app within v = (false, c, app, refl, refl, (v, refl))
  serve_in-Agree recv true c app within v =
      let (r, ran, same) = recv_data-Same recv c within v in
      let (e, d, d') = on_answer_parts event app r in
      (
        is_error (Server.on_answer event app r).0,
        r.1,
        (Server.on_answer event app r).2,
        rw (ran, d) refl,
        rw (ran, d', e) refl,
        same,
      )

  serve_out-Agree :
      (send : Send) (asked : Bool) (c : Client) (app : S)
      → SendWithin send
      → IsValid c
      → Agree c (serve_out event send asked c app) (serve_out nobody send asked c tt)
  unfolding serve_out
  serve_out-Agree send false c app within v = (false, c, app, refl, refl, (v, refl))
  serve_out-Agree send true c app within v =
      let (r, ran, same) = send_data_real-Same send c within v in
      (is_error r.0, r.1, app, rw ran refl, rw ran refl, same)

  serve_client-Agree :
      (recv : Recv) (send : Send) (ev : Events) (c : Client) (app : S)
      → RecvWithin recv
      → SendWithin send
      → IsValid c
      → Agree c (serve_client event recv send ev c app) (serve_client nobody recv send ev c tt)
  unfolding serve_client
  serve_client-Agree recv send ev c app rw' sw v =
      let (b, d, app1, ran, ran', same) = serve_in-Agree recv ev.epoll_in c app rw' v in
      let (b2, d2, app2, ran2, ran2', same2) = serve_out-Agree send ev.epoll_out d app1 sw same.0 in
      elim (Bool-cases b) [
        | inl gone ↦ (b, d, app1, rw (ran, gone) refl, rw (ran', gone) refl, same)
        | inr stays ↦ (
          b2,
          d2,
          app2,
          rw (ran, stays, ran2) refl,
          rw (ran', stays, ran2') refl,
          (same2.0, same2.1 ∙ same.1),
        )
      ]

  -- On a well-formed client, a `recv` that stays within the room and a `send` that stays within the
  -- bytes, serving a client does not fault and comes to the same whoever listens.
  pub serve_client-alone :
      (recv : Recv) (send : Send) (ev : Events) (c : Client) (app : S)
      → RecvWithin recv
      → SendWithin send
      → IsValid c
      → (b : Bool) × (d : Client) × (app' : S) × (serve_client event recv send ev c app
          ≡ some (b, d, app'))
        × (alone recv send ev c ≡ some (b, d))
        × Same c d
  unfolding alone
  serve_client-alone recv send ev c app rw' sw v =
      let (b, d, app', ran, ran', same) = serve_client-Agree recv send ev c app rw' sw v in
      (b, d, app', ran, rw ran' refl, same)
