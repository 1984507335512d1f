-- ===== src/Native/Tests.antt =====
-- A message of one number, sent through the exported functions.
use cpp100net.Common.{
  ℕ, ◌≡◌, refl, true, false, none, some, [], ◌∷◌, replicate, arith, Returns, length, leb, ◌++◌, ◌+◌,
  if◌then◌else◌,
}
use cpp100net.Sockets.{bytes, socket_error}
use cpp100net.Buffer
use cpp100net.Buffer.{Buffer}
use cpp100net.Buffer.Inv.{contents}
use cpp100net.Client.{Client}
use cpp100net.Stream.{Stream}
use cpp100net.Native.{NativeTcpClient, client_send_write_stream}
use cpp100net.Native.Send.{stream_message, with_client, client_send_write_stream_lem}

abbrev empty_buffer : Buffer
empty_buffer = record {
  p_buff = replicate 8 0;
  n_last = 0;
  n_size = 8;
  full_count = 0;
  io_data = record { sockfd = some 0; len = 0; buf = 0 };
}

abbrev c : Client
c = record {
  id = 1;
  server_id = none;
  n_recv_msg_id = 1;
  n_send_msg_id = 1;
  sockfd = some 3;
  recv_buff = empty_buffer;
  send_buff = empty_buffer;
  dt_heart = 0;
  dt_send = 0;
  is_post_recv = false;
  is_post_send = false;
}

abbrev p : NativeTcpClient ℕ
p = record { base = record { p_client = some c; is_connect = true; closed = [] }; call_back = none }

abbrev w : Stream
w = record {
  p_buff = 0 ∷ 0 ∷ 7 ∷ 1 ∷ replicate 4 9;
  n_size = 8;
  n_write_pos = 4;
  n_read_pos = 0;
  b_delete = true;
}

client_send_write_stream_lem_example : Returns (client_send_write_stream (some p) (some w)) λ r.
    (c' : Client) × (r.1 ≡ some (with_client p c'))
    × Buffer.Inv.IsValid c'.send_buff
    × (r.0 ≡ (
        if leb (length (contents c.send_buff) + w.n_write_pos) c.send_buff.n_size
        then bytes w.n_write_pos
        else socket_error))
    × (contents c'.send_buff ≡ (
        if leb (length (contents c.send_buff) + w.n_write_pos) c.send_buff.n_size
        then contents c.send_buff ++ stream_message w
        else contents c.send_buff))
client_send_write_stream_lem_example =
    client_send_write_stream_lem p c w refl refl (omega arith) (omega arith) refl (omega arith)
