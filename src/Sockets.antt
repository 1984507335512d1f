-- ===== src/Sockets.antt =====
-- The socket functions of the operating system, which depends/include/*.hpp only call, and the
-- constants of depends/include/Cell.hpp.
use cpp100net.Common.{ℕ, ◌≤◌, ◌≡◌, List, Option, some, length}

-- A `SOCKET`; `none` is `INVALID_SOCKET`, which is also the value `SOCKET_ERROR`.
abbrev pub Socket : Type 0
Socket = Option ℕ

-- What `send` and the functions built on it return: `SOCKET_ERROR`, or a number of bytes.
pub data Ret : Type 0 where
  socket_error : Ret
  bytes : ℕ → Ret

-- One call of `send(sockfd, buf, len, 0)`: its answer to the bytes that it is handed.
abbrev pub Send : Type 0
Send = Socket → List ℕ → Ret

-- One call of `recv(sockfd, buf, len, 0)`: `none` is an error, the empty list a closed connection.
abbrev pub Recv : Type 0
Recv = Socket → ℕ → Option (List ℕ)

-- `send` takes no more bytes than it is handed.
abbrev pub SendWithin : Send → Type 0
SendWithin send = (s : Socket) (xs : List ℕ) (k : ℕ) → send s xs ≡ bytes k → k ≤ length xs

-- `recv` delivers no more bytes than there is room for.
abbrev pub RecvWithin : Recv → Type 0
RecvWithin recv = (s : Socket) (n : ℕ) (xs : List ℕ) → recv s n ≡ some xs → length xs ≤ n

abbrev pub recv_buff_size : ℕ
recv_buff_size = 10240

abbrev pub send_buff_size : ℕ
send_buff_size = 102400
