-- ===== src/Iocp.antt =====
-- depends/include/CellIOCP.hpp: the completion port and the operations that are posted to it. The calls of
-- Windows are a parameter, over the state `K` of the system; what is logged is left out.
use cpp100net.Common.{ℕ, Bool, true, false, Option, none, some, if◌then◌else◌}
use cpp100net.Sockets.{Socket}
use cpp100net.Buffer.{IoData}

-- `IO_TYPE`
pub data IoType : Type 0 where
  accept_type recv_type send_type : IoType

-- `IO_DATA_BASE`: the region and the socket, with the kind of the operation.
pub record IoDataBase : Type 0 where
  pub io : IoData
  pub iotype : IoType

-- The union `data` of `IOCP_EVENT`: a socket, or a pointer to the client with this number.
pub data Key : Type 0 where
  sock_key : Socket → Key
  ptr : ℕ → Key

pub record IocpEvent : Type 0 where
  pub about : Key
  pub io_data : IoDataBase
  pub bytes_trans : ℕ

-- How posting an operation ends: at once, with ERROR_IO_PENDING, with WSAECONNRESET, or with another
-- error.
pub data Posted : Type 0 where
  at_once io_pending conn_reset refused : Posted

-- What GetQueuedCompletionStatus answers: a completed operation, WAIT_TIMEOUT, an operation whose
-- connection broke (ERROR_NETNAME_DELETED, ERROR_CONNECTION_ABORTED, ERROR_SEM_TIMEOUT), another error.
pub data Status : Type 0 where
  completed : IocpEvent → Status
  timed_out : Status
  broken : IocpEvent → Status
  failed : Status

-- The functions of the system; a handle of `none` is NULL.
pub record Windows {ℓ} (K : Type ℓ) : Type ℓ where
  pub create_port : K → Option ℕ × K
  pub close_handle : ℕ → K → K
  pub associate : Socket → Option ℕ → Key → K → Bool × K
  pub socket : K → Socket × K
  pub load_accept_ex : Socket → K → Bool × K
  pub accept_ex : Socket → IoDataBase → K → Posted × K
  pub wsa_recv : IoDataBase → K → Posted × K
  pub wsa_send : IoDataBase → K → Posted × K
  pub get_status : Option ℕ → ℕ → K → Status × K

-- `accept_ex` says whether the pointer `_AcceptEx` is there.
pub record Iocp : Type 0 where
  pub accept_ex : Bool
  pub completion_port : Option ℕ
  pub sock_server : Socket

-- The members' initial values.
abbrev pub new_iocp : Iocp
new_iocp = record { accept_ex = false; completion_port = none; sock_server = none }

abbrev pub is_some : Option ℕ → Bool
is_some none = false
is_some (some n) = true

-- Whether an operation is on its way.
abbrev pub is_posted : Posted → Bool
is_posted at_once = true
is_posted io_pending = true
is_posted conn_reset = false
is_posted refused = false

-- The number that `wait` returns: 1 with the event, 0, or -1.
pub data Waited : Type 0 where
  one : IocpEvent → Waited
  zero below_zero : Waited

abbrev pub on_status : Status → Waited
on_status (completed e) = one e
on_status timed_out = zero
on_status (broken e) = one e
on_status failed = below_zero

module _ {ℓ} {K : Type ℓ} (sys : Windows K) where
  unfoldable pub create : Iocp → K → Bool × Iocp × K
  create p world =
      let (port, world') = sys.create_port world in
      (is_some port, record p { completion_port = port }, world')

  abbrev pub destroy_by : Option ℕ → Iocp → K → Iocp × K
  destroy_by none p world = (p, world)
  destroy_by (some port) p world =
      (record p { completion_port = none }, sys.close_handle port world)

  unfoldable pub destroy : Iocp → K → Iocp × K
  destroy p world = destroy_by p.completion_port p world

  -- `reg(sockfd)`
  unfoldable pub reg_sock : Socket → Iocp → K → Bool × K
  reg_sock sockfd p world = sys.associate sockfd p.completion_port (sock_key sockfd) world

  -- `reg(sockfd, pData)`, for the client with the number `id`.
  unfoldable pub reg : Socket → ℕ → Iocp → K → Bool × K
  reg sockfd id p world = sys.associate sockfd p.completion_port (ptr id) world

  -- The data as `postAccept` leaves it: a new socket, and its kind.
  abbrev pub accept_data : Socket → IoDataBase → IoDataBase
  accept_data sock d = record { io = record (d.io) { sockfd = sock }; iotype = accept_type }

  unfoldable pub post_accept : IoDataBase → Iocp → K → Bool × IoDataBase × K
  post_accept d p world =
      let (sock, world1) = sys.socket world in
      let d' = accept_data sock d in
      let (posted, world2) = sys.accept_ex p.sock_server d' world1 in
      if p.accept_ex then (is_posted posted, d', world2) else (false, d, world)

  unfoldable pub post_recv : IoData → K → Bool × K
  post_recv io world =
      let (posted, world') = sys.wsa_recv (record { io = io; iotype = recv_type }) world in
      (is_posted posted, world')

  unfoldable pub post_send : IoData → K → Bool × K
  post_send io world =
      let (posted, world') = sys.wsa_send (record { io = io; iotype = send_type }) world in
      (is_posted posted, world')

  unfoldable pub wait : ℕ → Iocp → K → Waited × K
  wait timeout p world =
      let (status, world') = sys.get_status p.completion_port timeout world in
      (on_status status, world')

  -- Where the call of the system fails, `_sockServer` stays set.
  unfoldable pub load_accept_ex : Socket → Iocp → K → Bool × Iocp × K
  load_accept_ex listen_socket p world =
      let (loaded, world') = sys.load_accept_ex listen_socket world in
      let p' = record p { sock_server = listen_socket; accept_ex = loaded } in
      if is_some p.sock_server
      then (false, p, world)
      else if p.accept_ex
      then (false, p, world)
      else (loaded, p', world')
