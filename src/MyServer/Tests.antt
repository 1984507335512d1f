-- ===== src/MyServer/Tests.antt =====
-- A logout with a name of two bytes, a password of one and an array of one number.
use cpp100net.Common.{◌≡◌, refl, true, false, some, [], ◌∷◌, ◌++◌, replicate, arith, Returns}
use cpp100net.Buffer.{Buffer}
use cpp100net.Client.{Client}
use cpp100net.Message.{Cmd, code}
use cpp100net.MsgStream.Fields.{AreFields, encode, message}
use cpp100net.TcpServer.{on_net_msg}
use cpp100net.MyServer.{MyServer, Memory, my_on_net_msg}
use cpp100net.MyServer.Echo.{Logout, fields}
use cpp100net.MyServer.Reply.{Sent, my_on_net_msg-fields}

abbrev buffer : Buffer
buffer = record {
  p_buff = replicate 64 0;
  n_last = 0;
  n_size = 64;
  full_count = 0;
  io_data = record { sockfd = some 0; len = 0; buf = 0 };
}

abbrev c : Client
c = record {
  id = 1;
  server_id = some 1;
  n_recv_msg_id = 1;
  n_send_msg_id = 1;
  sockfd = some 3;
  recv_buff = buffer;
  send_buff = buffer;
  dt_heart = 0;
  dt_send = 0;
  is_post_recv = false;
  is_post_send = false;
}

abbrev server : MyServer
server = record {
  counters = record { recv_count = 0; client_accept = 1; msg_count = 0; client_join = 1 };
  send_back = true;
  send_full = false;
  check_msg_id = false;
}

abbrev memory : Memory
memory = record { stream = replicate 1024 0; local = 7; filler = replicate 88 0 }

abbrev goodbye : Logout
goodbye = record {
  x1 = 1;
  x2 = 2;
  x3 = 3;
  x4 = 4;
  x5 = 5;
  name = 65 ∷ 66 ∷ [];
  pw = 67 ∷ [];
  data_array = 1 ∷ 0 ∷ 0 ∷ 0 ∷ [];
  count = 1;
}

goodbye_fits : AreFields (fields goodbye)
goodbye_fits = (
  (omega arith, omega arith),
  (
    (omega arith, omega arith),
    (
      (omega arith, omega arith),
      (
        (omega arith, omega arith),
        (
          (omega arith, omega arith),
          (
            (refl, omega arith, omega arith, omega arith),
            (
              (refl, omega arith, omega arith, omega arith),
              ((refl, omega arith, omega arith, omega arith), tt),
            ),
          ),
        ),
      ),
    ),
  ),
)

my_on_net_msg-fields_example :
    Returns
      (my_on_net_msg memory
        (message (code Cmd.logout) (encode (fields goodbye)) ++ (9 ∷ []))
        (server, c))
      λ r.
        (r.0 ≡ record server { counters = on_net_msg server.counters })
        × Sent c (message (code Cmd.logout_result) (encode (fields goodbye))) r.1
my_on_net_msg-fields_example =
    my_on_net_msg-fields memory server c goodbye (9 ∷ []) goodbye_fits refl (omega arith)
