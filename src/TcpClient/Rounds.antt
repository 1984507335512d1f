-- ===== src/TcpClient/Rounds.antt =====
-- A round of EasySelectClient in which a call of the system fails.
use cpp100net.Common.{
  ℕ, ◌-◌, ◌<◌, ◌≡◌, true, false, none, some, [], ◌∷◌, arith, ◌⊎◌, inl, inr, lt→ltb, copy_out-fits,
  refl, Bool,
}
use cpp100net.Sockets.{socket_error, bytes, Send, Recv}
use cpp100net.Buffer
use cpp100net.Buffer.Inv.{IsValid, contents}
use cpp100net.Client
use cpp100net.Client.{Client}
use cpp100net.Dispatch.{finished, Handler, receive}
use cpp100net.TcpClient.{TcpClient, Select, close, is_run, recv_data, on_run}

-- The calls of a round that fail: `select`; `recv` with room in the buffer, for an error or because
-- the other side has closed; `send` of what is waiting.
pub data Fails (select : Select) (recv : Recv) (send : Send) (c : Client) : Type 0 where
  by_select : select c.sockfd (Client.need_write c) ≡ none → Fails select recv send c
  by_recv :
      {writable : Bool}
      → select c.sockfd (Client.need_write c) ≡ some (true, writable)
      → c.recv_buff.n_last < c.recv_buff.n_size
      → (recv c.sockfd (c.recv_buff.n_size - c.recv_buff.n_last) ≡ none)
        ⊎ (recv c.sockfd (c.recv_buff.n_size - c.recv_buff.n_last) ≡ some [])
      → Fails select recv send c
  by_send :
      {sock : ℕ}
      → select c.sockfd (Client.need_write c) ≡ some (false, true)
      → c.sockfd ≡ some sock
      → IsValid c.send_buff
      → 0 < c.send_buff.n_last
      → (send c.sockfd (contents c.send_buff) ≡ socket_error)
        ⊎ (send c.sockfd (contents c.send_buff) ≡ bytes 0)
      → Fails select recv send c

recv_fails :
    (recv : Recv) (c : Client)
    → c.recv_buff.n_last < c.recv_buff.n_size
    → (recv c.sockfd (c.recv_buff.n_size - c.recv_buff.n_last) ≡ none)
      ⊎ (recv c.sockfd (c.recv_buff.n_size - c.recv_buff.n_last) ≡ some [])
    → Client.recv_data recv c ≡ some (socket_error, c)
unfolding Client.recv_data Buffer.read4socket Buffer.on_received
recv_fails recv c room (inl e) = rw (lt→ltb c.recv_buff.n_last c.recv_buff.n_size room, e) refl
recv_fails recv c room (inr e) = rw (lt→ltb c.recv_buff.n_last c.recv_buff.n_size room, e) refl

send_fails :
    (send : Send) (c : Client) {sock : ℕ}
    → c.sockfd ≡ some sock
    → IsValid c.send_buff
    → 0 < c.send_buff.n_last
    → (send c.sockfd (contents c.send_buff) ≡ socket_error)
      ⊎ (send c.sockfd (contents c.send_buff) ≡ bytes 0)
    → Client.send_data_real send c ≡ some (socket_error, record c { dt_send = 0 })
unfolding Client.send_data_real Buffer.write2socket Buffer.on_sent Buffer.is_socket
send_fails send c is_open v some_bytes (inl e) =
    rw
      (
        lt→ltb 0 c.send_buff.n_last some_bytes,
        copy_out-fits c.send_buff.p_buff 0 c.send_buff.n_last (omega arith),
        e,
        is_open,
      )
      refl
send_fails send c is_open v some_bytes (inr e) =
    rw
      (
        lt→ltb 0 c.send_buff.n_last some_bytes,
        copy_out-fits c.send_buff.p_buff 0 c.send_buff.n_last (omega arith),
        e,
        is_open,
      )
      refl

-- The client without its connection `c`, the socket of which is closed.
abbrev pub closed_with : Client → TcpClient → TcpClient
closed_with c t = record t { p_client = none; is_connect = false; closed = c.sockfd ∷ t.closed }

module _ {ℓ} {S : Type ℓ} (on_net_msg : Handler S) (fuel : ℕ) where
  -- A connected select client in a round in which `select` fails, in which it is told to read, has
  -- room, and `recv` fails or finds the connection closed, or in which it is only told to write, its
  -- socket is open, its send buffer is valid and not empty, and `send` fails or takes nothing: OnRun
  -- answers false, no message is handled, the socket is closed once, and the client is not running.
  pub on_run-Fails :
      (select : Select) (recv : Recv) (send : Send) (s : S) (t : TcpClient) (c : Client)
      → t.p_client ≡ some c
      → t.is_connect ≡ true
      → Fails select recv send c
      → (on_run on_net_msg fuel select recv send (s, t) ≡ finished (false, s, closed_with c t))
        × (is_run (closed_with c t) ≡ false)
  unfolding on_run is_run close recv_data receive Client.destroy Client.need_write Buffer.need_write
  on_run-Fails select recv send s t c owns connected (by_select e) =
      (rw (owns, connected, e) refl, refl)
  on_run-Fails select recv send s t c owns connected (by_recv e room failed) =
      (rw (owns, connected, e, recv_fails recv c room failed) refl, refl)
  on_run-Fails select recv send s t c owns connected (by_send e is_open v some_bytes failed) = (
    rw
        (
          owns,
          connected,
          e,
          lt→ltb 0 c.send_buff.n_last some_bytes,
          send_fails send c is_open v some_bytes failed,
        )
        refl,
    refl,
  )
