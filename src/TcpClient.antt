-- ===== src/TcpClient.antt =====
-- depends/include/EasyTcpClient.hpp and depends/include/EasySelectClient.hpp: a client of the
-- application, which owns one connection, and the round of its select loop.
pub mod Rounds
pub mod EpollClient
pub mod IocpClient
mod Tests
use cpp100net.Common.{
  ℕ, Bool, true, false, ◌&&◌, Option, none, some, List, [], ◌∷◌, if◌then◌else◌, ◌>>=◌, copy_out,
}
use cpp100net.Sockets.{Socket, Ret, socket_error, bytes, Send, Recv}
use cpp100net.Client
use cpp100net.Client.{Client}
use cpp100net.Dispatch.{Run, finished, faulted, out_of_fuel, Handler, receive}

-- `closed` records the sockets that were closed, the last one first.
pub record TcpClient : Type 0 where
  pub p_client : Option Client
  pub is_connect : Bool
  pub closed : List Socket

unfoldable pub create : TcpClient
create = record { p_client = none; is_connect = false; closed = [] }

-- `delete _pClient`: the destructor of the connection closes its socket.
abbrev pub delete_client : Option Client → List Socket → List Socket
delete_client none closed = closed
delete_client (some c) closed = (Client.destroy c).0 ∷ closed

unfoldable pub close : TcpClient → TcpClient
close t = record t {
  p_client = none;
  is_connect = false;
  closed = delete_client t.p_client t.closed;
}

-- What the system answers to `socket`, with what `new CellClient` takes from the heap.
pub record Fresh : Type 0 where
  pub sock : Socket
  pub id : ℕ
  pub send_raw : List ℕ
  pub recv_raw : List ℕ

abbrev pub is_some {ℓ} : {A : Type ℓ} → Option A → Bool
is_some none = false
is_some (some _) = true

-- `new CellClient(sock, sendSize, recvSize)`, unless the socket is invalid; `OnInitSocket` of this
-- class does nothing.
abbrev pub adopt : Fresh → TcpClient → TcpClient
adopt fresh t =
    if is_some fresh.sock
    then record t {
      p_client = some (Client.init fresh.id fresh.sock fresh.send_raw fresh.recv_raw);
    }
    else t

unfoldable pub init_socket : Fresh → TcpClient → Socket × TcpClient
unfolding close
init_socket fresh t = (fresh.sock, adopt fresh (if is_some t.p_client then close t else t))

-- The answer of `connect`, which is `none` for `SOCKET_ERROR`.
unfoldable pub on_connect : Option ℕ → TcpClient → Option ℕ × TcpClient
on_connect none t = (none, t)
on_connect (some ret) t = (some ret, record t { is_connect = true })

-- `Connect(ip, port)`; `connect` is the system's, for the address that the two name.
unfoldable pub connect : Fresh → (Socket → Option ℕ) → TcpClient → Option ℕ × TcpClient
unfolding init_socket on_connect
connect fresh sys_connect t = with_socket t.p_client
  where
    connect_to : Option Client → TcpClient → Option ℕ × TcpClient
    connect_to none t' = (none, t')
    connect_to (some c) t' = on_connect (sys_connect c.sockfd) t'

    with_socket : Option Client → Option ℕ × TcpClient
    with_socket (some c) = connect_to (some c) t
    with_socket none =
        let (sock, t1) = init_socket fresh t in
        if is_some sock then connect_to t1.p_client t1 else (none, t1)

unfoldable pub is_run : TcpClient → Bool
is_run t = is_some t.p_client && t.is_connect

-- `SendData` of a client that is not connected answers 0.
abbrev pub send_by :
    (Client → Option (Ret × Client)) → TcpClient → Option Client → Option (Ret × TcpClient)
send_by send t none = some (bytes 0, t)
send_by send t (some c) =
    let sent = (send c >>= λ r. some (r.0, record t { p_client = some r.1 })) in
    if t.is_connect then sent else some (bytes 0, t)

-- `SendData(pData, len)`; the list is the memory from `pData` on.
unfoldable pub send_data : List ℕ → ℕ → TcpClient → Option (Ret × TcpClient)
send_data p_data len t =
    send_by (λ c. copy_out p_data 0 len >>= λ msg. Client.send_data msg c) t t.p_client

-- `SendData(header)`
unfoldable pub send_msg : List ℕ → TcpClient → Option (Ret × TcpClient)
send_msg header t = send_by (Client.send_msg header) t t.p_client

-- What `OnRun` returns with: its answer, or how the message loop ended.
abbrev pub put_client {ℓ} :
    {S : Type ℓ} → TcpClient → Run (Ret × S × Client) → Run (Ret × S × TcpClient)
put_client t (finished (ret, s, c)) = finished (ret, s, record t { p_client = some c })
put_client t faulted = faulted
put_client t out_of_fuel = out_of_fuel

-- One call of `select` for the client's socket: `none` is an error, else whether the socket is
-- readable and whether it is writable; it is told whether the write set is passed.
abbrev pub Select : Type 0
Select = Socket → Bool → Option (Bool × Bool)

module _ {ℓ} {S : Type ℓ} (on_net_msg : Handler S) (fuel : ℕ) where
  abbrev pub recv_by : Recv → S × TcpClient → Option Client → Run (Ret × S × TcpClient)
  recv_by recv (s, t) none = finished (bytes 0, s, t)
  recv_by recv (s, t) (some c) =
      if t.is_connect
      then put_client t (receive on_net_msg fuel recv (s, c))
      else finished (bytes 0, s, t)

  unfoldable pub recv_data : Recv → S × TcpClient → Run (Ret × S × TcpClient)
  recv_data recv (s, t) = recv_by recv (s, t) t.p_client

  -- `SendDataReal`, and `Close` where it fails.
  abbrev pub after_send : S → TcpClient → Option (Ret × Client) → Run (Bool × S × TcpClient)
  after_send s t none = faulted
  after_send s t (some (socket_error, c)) =
      finished (false, s, close (record t { p_client = some c }))
  after_send s t (some (bytes n, c)) = finished (true, s, record t { p_client = some c })

  -- `if (_fdWrite.has(_sock))`
  abbrev pub write_part : Send → Bool → S × TcpClient → Option Client → Run (Bool × S × TcpClient)
  write_part send writable (s, t) none = finished (true, s, t)
  write_part send writable (s, t) (some c) =
      if writable then after_send s t (Client.send_data_real send c) else finished (true, s, t)

  abbrev pub after_recv : Send → Bool → Run (Ret × S × TcpClient) → Run (Bool × S × TcpClient)
  after_recv send writable faulted = faulted
  after_recv send writable out_of_fuel = out_of_fuel
  after_recv send writable (finished (socket_error, s, t)) = finished (false, s, close t)
  after_recv send writable (finished (bytes n, s, t)) = write_part send writable (s, t) t.p_client

  -- What follows `select`; the write set is empty where it was not passed.
  abbrev pub after_select :
      Recv → Send → S × TcpClient → Client → Option (Bool × Bool) → Run (Bool × S × TcpClient)
  after_select recv send (s, t) c none = finished (false, s, close t)
  after_select recv send (s, t) c (some (readable, writable)) =
      let asked = Client.need_write c && writable in
      if readable
      then after_recv send asked (recv_data recv (s, t))
      else write_part send asked (s, t) (some c)

  abbrev pub run_by :
      Select → Recv → Send → S × TcpClient → Option Client → Run (Bool × S × TcpClient)
  run_by select recv send (s, t) none = finished (false, s, t)
  run_by select recv send (s, t) (some c) =
      if t.is_connect
      then after_select recv send (s, t) c (select c.sockfd (Client.need_write c))
      else finished (false, s, t)

  -- `EasySelectClient::OnRun`
  unfoldable pub on_run : Select → Recv → Send → S × TcpClient → Run (Bool × S × TcpClient)
  unfolding close recv_data
  on_run select recv send (s, t) = run_by select recv send (s, t) t.p_client
