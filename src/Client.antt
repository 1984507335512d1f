-- ===== src/Client.antt =====
-- depends/include/CellClient.hpp: one connection with its two buffers and its timers.
pub mod Inv
pub mod Ops
pub mod Outbox
use cpp100net.Common.{
  ℕ, ◌+◌, Bool, true, false, ◌||◌, Option, none, some, List, length, leb, if◌then◌else◌, copy_out,
  ◌>>=◌,
}
use cpp100net.Common.Words.{of_le}
use cpp100net.Sockets.{Socket, Ret, socket_error, bytes, Send, Recv}
use cpp100net.Buffer
use cpp100net.Buffer.{Buffer, IoData}

-- `CLIENT_HEART_DEAD_TIME` and `CLIENT_SEND_BUFF_TIME`, in milliseconds.
abbrev pub client_heart_dead_time : ℕ
client_heart_dead_time = 60000

abbrev pub client_send_buff_time : ℕ
client_send_buff_time = 200

-- `server_id` is `none` for the -1 of a client that no server has taken over.
pub record Client : Type 0 where
  pub id : ℕ
  pub server_id : Option ℕ
  pub n_recv_msg_id : ℕ
  pub n_send_msg_id : ℕ
  pub sockfd : Socket
  pub recv_buff : Buffer
  pub send_buff : Buffer
  pub dt_heart : ℕ
  pub dt_send : ℕ
  pub is_post_recv : Bool
  pub is_post_send : Bool

-- The constructor: `id` is the next value of the static counter, the lists are the fresh arrays.
unfoldable pub init : ℕ → Socket → List ℕ → List ℕ → Client
init id sockfd send_raw recv_raw = record {
  id = id;
  server_id = none;
  n_recv_msg_id = 1;
  n_send_msg_id = 1;
  sockfd = sockfd;
  recv_buff = Buffer.init recv_raw;
  send_buff = Buffer.init send_raw;
  dt_heart = 0;
  dt_send = 0;
  is_post_recv = false;
  is_post_send = false;
}

-- `destroy`: the socket that is closed, if there is one still.
unfoldable pub destroy : Client → Socket × Client
destroy c = (c.sockfd, record c { sockfd = none })

unfoldable pub recv_data : Recv → Client → Option (Ret × Client)
recv_data recv c =
    Buffer.read4socket recv c.sockfd c.recv_buff >>= λ r. some (r.0, record c { recv_buff = r.1 })

unfoldable pub has_msg : Client → Option Bool
has_msg c = Buffer.has_msg c.recv_buff

-- The memory from the front message on.
unfoldable pub front_msg : Client → List ℕ
front_msg c = c.recv_buff.p_buff

-- `_recvBuff.pop(front_msg()->dataLength)`
unfoldable pub pop_front : Client → Option Client
pop_front c = Buffer.front_length c.recv_buff >>= λ data_length.
    Buffer.pop data_length c.recv_buff >>= λ b. some (record c { recv_buff = b })

unfoldable pub pop_front_msg : Client → Option Client
pop_front_msg c = has_msg c >>= λ found. if found then pop_front c else some c

unfoldable pub need_write : Client → Bool
need_write c = Buffer.need_write c.send_buff

abbrev pub reset_dt_heart : Client → Client
reset_dt_heart c = record c { dt_heart = 0 }

abbrev pub reset_dt_send : Client → Client
reset_dt_send c = record c { dt_send = 0 }

unfoldable pub send_data_real : Send → Client → Option (Ret × Client)
send_data_real send c = Buffer.write2socket send c.sockfd c.send_buff >>= λ r.
    some (r.0, record c { dt_send = 0; send_buff = r.1 })

-- `SendData(pData, len)`
unfoldable pub send_data : List ℕ → Client → Option (Ret × Client)
send_data p_data c = Buffer.push p_data c.send_buff >>= λ r.
    some (if r.0 then bytes (length p_data) else socket_error, record c { send_buff = r.1 })

-- `SendData(header)`; the list is the memory from `header` on.
unfoldable pub send_msg : List ℕ → Client → Option (Ret × Client)
send_msg header c =
    copy_out header 0 2 >>= λ field. copy_out header 0 (of_le field) >>= λ msg. send_data msg c

unfoldable pub check_heart : ℕ → Client → Bool × Client
check_heart dt c =
    (leb client_heart_dead_time (c.dt_heart + dt), record c { dt_heart = c.dt_heart + dt })

unfoldable pub check_send : Send → ℕ → Client → Option (Bool × Client)
check_send send dt c =
    if leb client_send_buff_time (c.dt_send + dt)
    then (send_data_real send (record c { dt_send = c.dt_send + dt }) >>= λ r.
        some (true, reset_dt_send r.1))
    else some (false, record c { dt_send = c.dt_send + dt })

unfoldable pub make_recv_io_data : Client → Option IoData × Client
make_recv_io_data c =
    if c.is_post_recv
    then (none, c)
    else let (io, b) = Buffer.make_recv_io_data c.sockfd c.recv_buff in
      (io, record c { is_post_recv = true; recv_buff = b })

unfoldable pub recv4iocp : ℕ → Client → Client
recv4iocp n_recv c =
    if c.is_post_recv
    then record c { is_post_recv = false; recv_buff = (Buffer.read4iocp n_recv c.recv_buff).1 }
    else c

unfoldable pub make_send_io_data : Client → Option IoData × Client
make_send_io_data c =
    if c.is_post_send
    then (none, c)
    else let (io, b) = Buffer.make_send_io_data c.sockfd c.send_buff in
      (io, record c { is_post_send = true; send_buff = b })

unfoldable pub send2iocp : ℕ → Client → Option Client
send2iocp n_send c =
    if c.is_post_send
    then (Buffer.write2iocp n_send c.send_buff >>= λ r.
        some (record c { is_post_send = false; send_buff = r.1 }))
    else some c

unfoldable pub is_post_io_action : Client → Bool
is_post_io_action c = c.is_post_recv || c.is_post_send
