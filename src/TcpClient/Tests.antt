-- ===== src/TcpClient/Tests.antt =====
-- A client that connects, and a round in which the other side has closed the connection.
use cpp100net.Common.{ℕ, ◌≡◌, refl, false, true, none, some, [], replicate, inr, arith}
use cpp100net.Sockets.{socket_error, Send, Recv}
use cpp100net.Buffer
use cpp100net.Client
use cpp100net.Buffer.{Buffer}
use cpp100net.Client.{Client}
use cpp100net.Dispatch.{Handler, finished}
use cpp100net.TcpClient.{TcpClient, Fresh, Select, create, connect, is_run, on_run}
use cpp100net.TcpClient.Rounds.{closed_with, by_recv, on_run-Fails}

abbrev fresh : Fresh
fresh = record { sock = some 3; id = 1; send_raw = replicate 8 0; recv_raw = replicate 8 0 }

abbrev empty_buffer : Buffer
empty_buffer = record {
  p_buff = replicate 8 0;
  n_last = 0;
  n_size = 8;
  full_count = 0;
  io_data = record { sockfd = some 0; len = 0; buf = 0 };
}

abbrev c : Client
c = record {
  id = 1;
  server_id = none;
  n_recv_msg_id = 1;
  n_send_msg_id = 1;
  sockfd = some 3;
  recv_buff = empty_buffer;
  send_buff = empty_buffer;
  dt_heart = 0;
  dt_send = 0;
  is_post_recv = false;
  is_post_send = false;
}

abbrev connected : TcpClient
connected = record { p_client = some c; is_connect = true; closed = [] }

abbrev ignore : Handler ℕ
ignore f sc = some sc

abbrev readable : Select
readable sock write = some (true, false)

abbrev hang_up : Recv
hang_up sock n = some []

abbrev no_send : Send
no_send sock xs = socket_error

connect_once : connect fresh (λ sock. some 0) create ≡ (some 0, connected)
unfolding connect create Client.init Buffer.init
connect_once = refl

on_run-Fails_example :
    (on_run ignore 5 readable hang_up no_send (0, connected)
      ≡ finished (false, 0, closed_with c connected))
    × (is_run (closed_with c connected) ≡ false)
on_run-Fails_example =
    on_run-Fails ignore 5 readable hang_up no_send 0 connected c refl refl
      (by_recv refl (omega arith) (inr refl))
