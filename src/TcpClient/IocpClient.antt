-- ===== src/TcpClient/IocpClient.antt =====
-- depends/include/EasyIOCPClient.hpp: the client over a completion port.
use cpp100net.Common.{
  ℕ, zero, suc, ◌==◌, Bool, true, false, Option, none, some, if◌then◌else◌, ◌>>=◌,
}
use cpp100net.Client
use cpp100net.Client.{Client}
use cpp100net.Dispatch.{Run, finished, faulted, out_of_fuel, Handler, do_msg}
use cpp100net.Iocp
use cpp100net.Iocp.{
  Iocp, Windows, IoType, accept_type, recv_type, send_type, Key, ptr, sock_key, IocpEvent, Waited,
  one, below_zero,
}
use cpp100net.IocpServer.{post_client}
use cpp100net.TcpClient
use cpp100net.TcpClient.{TcpClient}

pub record IocpClient : Type 0 where
  pub base : TcpClient
  pub iocp : Iocp

abbrev pub with_client : Client → IocpClient → IocpClient
with_client c t = record t { base = record (t.base) { p_client = some c } }

-- The client that an event points to; one to a client that was deleted is a fault.
abbrev pub client_at : ℕ → Option Client → Option Client
client_at id none = none
client_at id (some c) = if c.id == id then some c else none

abbrev pub pointed : Key → IocpClient → Option Client
pointed (sock_key k) t = none
pointed (ptr id) t = client_at id t.base.p_client

-- A completed operation: `recv4Iocp` or `send2Iocp`.
unfoldable pub complete : IoType → ℕ → Client → Option Client
unfolding Client.recv4iocp Client.send2iocp
complete recv_type n c = some (Client.recv4iocp n c)
complete send_type n c = Client.send2iocp n c
complete accept_type n c = some c

module _ {ℓ} {K : Type ℓ} (sys : Windows K) where
  -- `OnInitSocket`, called with a new `_pClient`.
  unfoldable pub on_init_socket : Client → IocpClient → K → IocpClient × K
  unfolding Iocp.create Iocp.reg
  on_init_socket c t world =
      let (made, p, world1) = Iocp.create sys t.iocp world in
      let (registered, world2) = Iocp.reg sys c.sockfd c.id p world1 in
      (record t { iocp = p }, world2)

  -- `Close`
  unfoldable pub close : IocpClient → K → IocpClient × K
  unfolding Iocp.destroy TcpClient.close
  close t world =
      let (p, world') = Iocp.destroy sys t.iocp world in
      (record { base = TcpClient.close t.base; iocp = p }, world')

  -- What `DoIOCPNetEvent` does with a transfer, and whether it answers 1 (else -1).
  unfoldable pub on_transfer : IocpEvent → IocpClient → K → Option (Bool × IocpClient × K)
  unfolding close complete
  on_transfer e t world =
      let done = pointed e.about t >>= λ c.
      complete e.io_data.iotype e.bytes_trans c >>= λ c'. some (true, with_client c' t, world) in
      let (t', world') = close t world in
      if e.bytes_trans == 0 then some (false, t', world') else done

  abbrev pub on_event : IocpEvent → IoType → IocpClient → K → Option (Bool × IocpClient × K)
  on_event e recv_type t world = on_transfer e t world
  on_event e send_type t world = on_transfer e t world
  on_event e accept_type t world = some (true, t, world)

  module _ {κ} {S : Type κ} (on_net_msg : Handler S) (fuel : ℕ) where
    -- `DoMsg`, and OnRun answers true.
    abbrev pub with_messages : IocpClient → K → Run (S × Client) → Run (Bool × S × IocpClient × K)
    with_messages t world faulted = faulted
    with_messages t world out_of_fuel = out_of_fuel
    with_messages t world (finished (s, c)) = finished (true, s, with_client c t, world)

    abbrev pub messages : S → IocpClient → K → Option Client → Run (Bool × S × IocpClient × K)
    messages s t world none = finished (true, s, t, world)
    messages s t world (some c) = with_messages t world (do_msg on_net_msg fuel (s, c))

    abbrev pub next :
        (IocpClient → K → Run (Bool × S × IocpClient × K))
        → S
        → Option (Bool × IocpClient × K)
        → Run (Bool × S × IocpClient × K)
    next again s none = faulted
    next again s (some (false, t, world)) = finished (false, s, t, world)
    next again s (some (true, t, world)) = again t world

    abbrev pub on_waited :
        (IocpClient → K → Run (Bool × S × IocpClient × K))
        → S
        → IocpClient
        → Waited × K
        → Run (Bool × S × IocpClient × K)
    on_waited again s t (below_zero, world) = finished (false, s, t, world)
    on_waited again s t (Waited.zero, world) = messages s t world t.base.p_client
    on_waited again s t (one e, world) = next again s (on_event e e.io_data.iotype t world)

    -- The loop of `OnRun`: events until there is none, then the messages.
    unfoldable pub drain : ℕ → ℕ → S → IocpClient → K → Run (Bool × S × IocpClient × K)
    unfolding Iocp.wait on_transfer
    drain microseconds zero s t world = out_of_fuel
    drain microseconds (suc events) s t world =
        on_waited (drain microseconds events s) s t (Iocp.wait sys microseconds t.iocp world)

    -- The operations that are posted first; a failure closes the client.
    abbrev pub after_post :
        ℕ → ℕ → S → IocpClient → Bool × Client × K → Run (Bool × S × IocpClient × K)
    after_post microseconds events s t (true, c, world) =
        drain microseconds events s (with_client c t) world
    after_post microseconds events s t (false, c, world) =
        let (t', world') = close (with_client c t) world in finished (false, s, t', world')

    abbrev pub run_by : ℕ → ℕ → S → IocpClient → K → Option Client → Run (Bool × S × IocpClient × K)
    run_by microseconds events s t world none = finished (false, s, t, world)
    run_by microseconds events s t world (some c) =
        if t.base.is_connect
        then after_post microseconds events s t (post_client sys c world)
        else finished (false, s, t, world)

    -- `OnRun`; `events` bounds the completed operations.
    unfoldable pub on_run : ℕ → ℕ → S → IocpClient → K → Run (Bool × S × IocpClient × K)
    unfolding post_client drain close
    on_run microseconds events s t world = run_by microseconds events s t world t.base.p_client
