-- ===== src/Buffer.antt =====
-- depends/include/CellBuffer.hpp: the byte buffer of a connection, an array with a fill mark.
pub mod Inv
pub mod Refine
pub mod Transfer
pub mod Frame
pub mod Iocp
mod Tests
use cpp100net.Common.{
  ℕ, suc, zero, ◌+◌, ◌-◌, Bool, true, false, ◌&&◌, Option, none, some, List, length, ltb, leb, ◌==◌,
  if◌then◌else◌, copy_in, copy_out, ◌>>=◌,
}
use cpp100net.Common.Words.{of_le}
use cpp100net.Sockets.{Socket, Ret, socket_error, bytes, Send, Recv, send_buff_size}

-- `IO_DATA_BASE _ioData`: the part of the array handed to the completion port, by its offset.
pub record IoData : Type 0 where
  pub sockfd : Socket
  pub len : ℕ
  pub buf : ℕ

pub record Buffer : Type 0 where
  pub p_buff : List ℕ
  pub n_last : ℕ
  pub n_size : ℕ
  pub full_count : ℕ
  pub io_data : IoData

-- The constructor; `raw` is what `new char[nSize]` leaves in the array.
unfoldable pub init : List ℕ → Buffer
init raw = record {
  p_buff = raw;
  n_last = 0;
  n_size = length raw;
  full_count = 0;
  io_data = record { sockfd = some 0; len = 0; buf = 0 };
}

-- The buffer after a copy of `len` bytes behind the fill mark gave the array `p`.
abbrev pub pushed : List ℕ → ℕ → Buffer → Buffer
pushed p len b = record b {
  p_buff = p;
  n_last = b.n_last + len;
  full_count = if (b.n_last + len) == send_buff_size then b.full_count + 1 else b.full_count;
}

-- A full buffer refuses the whole message and counts the refusal.
unfoldable pub push : List ℕ → Buffer → Option (Bool × Buffer)
push p_data b =
    if leb (b.n_last + length p_data) b.n_size
    then (copy_in b.p_buff b.n_last p_data >>= λ p. some (true, pushed p (length p_data) b))
    else some (false, record b { full_count = b.full_count + 1 })

-- `memcpy(_pBuff, _pBuff + from, n)`, with the two ranges allowed to overlap.
unfoldable pub move_front : List ℕ → ℕ → ℕ → Option (List ℕ)
unfolding copy_in copy_out
move_front a from n = copy_out a from n >>= λ moved. copy_in a 0 moved

-- The buffer with `n` bytes left, which stand at the front of the array `p`.
abbrev pub popped : List ℕ → ℕ → Buffer → Buffer
popped p n b = record b {
  p_buff = p;
  n_last = n;
  full_count = if ltb 0 b.full_count then b.full_count - 1 else b.full_count;
}

-- Where `nLen` exceeds the fill mark the source leaves a negative mark, which has no value here: `none`.
unfoldable pub pop : ℕ → Buffer → Option Buffer
pop n_len b =
    if leb n_len b.n_last
    then ((if ltb 0 (b.n_last - n_len)
          then move_front b.p_buff n_len (b.n_last - n_len)
          else some b.p_buff)
        >>= λ p. some (popped p (b.n_last - n_len) b))
    else none

-- After `ret` bytes were sent: the rest moves to the front. A `ret` above the fill mark has no
-- value here either.
unfoldable pub sent : ℕ → Buffer → Option Buffer
sent ret b =
    if ret == b.n_last
    then some (record b { n_last = 0; full_count = 0 })
    else if leb ret b.n_last
    then (move_front b.p_buff ret (b.n_last - ret) >>= λ p.
        some (record b { p_buff = p; n_last = b.n_last - ret; full_count = 0 }))
    else none

-- What `write2socket` does with the answer of `send`.
unfoldable pub on_sent : Ret → Buffer → Option (Ret × Buffer)
on_sent socket_error b = some (socket_error, b)
on_sent (bytes zero) b = some (socket_error, b)
on_sent (bytes (suc k)) b = sent (suc k) b >>= λ b'. some (bytes (suc k), b')

unfoldable pub is_socket : Socket → Bool
is_socket none = false
is_socket (some _) = true

unfoldable pub write2socket : Send → Socket → Buffer → Option (Ret × Buffer)
unfolding is_socket
write2socket send sockfd b =
    if ltb 0 b.n_last && is_socket sockfd
    then (copy_out b.p_buff 0 b.n_last >>= λ out. on_sent (send sockfd out) b)
    else some (bytes 0, b)

-- What `read4socket` does with the answer of `recv`: the bytes stand behind the fill mark.
unfoldable pub on_received : Option (List ℕ) → Buffer → Option (Ret × Buffer)
on_received none b = some (socket_error, b)
on_received (some xs) b =
    if length xs == 0
    then some (socket_error, b)
    else (copy_in b.p_buff b.n_last xs >>= λ p.
        some (bytes (length xs), record b { p_buff = p; n_last = b.n_last + length xs }))

unfoldable pub read4socket : Recv → Socket → Buffer → Option (Ret × Buffer)
read4socket recv sockfd b =
    if ltb b.n_last b.n_size
    then on_received (recv sockfd (b.n_size - b.n_last)) b
    else some (bytes 0, b)

-- `header->dataLength`: the first two bytes of the array.
unfoldable pub front_length : Buffer → Option ℕ
front_length b = copy_out b.p_buff 0 2 >>= λ field. some (of_le field)

-- `sizeof(netmsg_DataHeader)` is 4.
unfoldable pub has_msg : Buffer → Option Bool
has_msg b =
    if leb 4 b.n_last
    then (front_length b >>= λ data_length. some (leb data_length b.n_last))
    else some false

unfoldable pub need_write : Buffer → Bool
need_write b = ltb 0 b.n_last

unfoldable pub make_recv_io_data : Socket → Buffer → Option IoData × Buffer
make_recv_io_data sockfd b =
    if ltb 0 (b.n_size - b.n_last) then (some io, record b { io_data = io }) else (none, b)
  where
    io : IoData
    io = record { sockfd = sockfd; len = b.n_size - b.n_last; buf = b.n_last }

unfoldable pub make_send_io_data : Socket → Buffer → Option IoData × Buffer
make_send_io_data sockfd b =
    if ltb 0 b.n_last then (some io, record b { io_data = io }) else (none, b)
  where
    io : IoData
    io = record { sockfd = sockfd; len = b.n_last; buf = 0 }

unfoldable pub read4iocp : ℕ → Buffer → Bool × Buffer
read4iocp n_recv b =
    if ltb 0 n_recv && leb (b.n_last + n_recv) b.n_size
    then (true, record b { n_last = b.n_last + n_recv })
    else (false, b)

unfoldable pub write2iocp : ℕ → Buffer → Option (Bool × Buffer)
write2iocp n_send b =
    if ltb b.n_last n_send then some (false, b) else (sent n_send b >>= λ b'. some (true, b'))
