-- ===== src/IocpServer/Tests.antt =====
-- A new connection with arrays of eight bytes, which receives one message and sends two bytes; and a
-- server with three silent clients.
use cpp100net.Common.{
  ℕ, ◌≡◌, refl, Bool, true, false, Option, none, some, List, [], ◌∷◌, ◌+◌, ◌++◌, replicate, arith,
}
use cpp100net.Common
use cpp100net.Buffer
use cpp100net.Buffer.{Buffer, IoData}
use cpp100net.Client
use cpp100net.Client.{Client}
use cpp100net.Client.Inv.{IsValid}
use cpp100net.Server.{NetEvent}
use cpp100net.Server.Heart.{kept, leave_all}
use cpp100net.Iocp.{Windows, new_iocp, refused, timed_out}
use cpp100net.IocpServer.{IocpServer}
use cpp100net.IocpServer.Round.{check_time}
use cpp100net.IocpServer.Heart.{closing, leaving, check_time_parts}
use cpp100net.IocpServer.Link.{
  Link, new_link, pushes, posts_send, posts_recv, sent, received, Reach, here, then_step,
}
use cpp100net.IocpServer.Order.{IsInOrder}
use cpp100net.IocpServer.Transfers.{Inside, Reach-IsInOrder}

abbrev buffer : Buffer
buffer = record {
  p_buff = replicate 8 0;
  n_last = 0;
  n_size = 8;
  full_count = 0;
  io_data = record { sockfd = some 0; len = 0; buf = 0 };
}

abbrev c : Client
c = record {
  id = 1;
  server_id = some 1;
  n_recv_msg_id = 1;
  n_send_msg_id = 1;
  sockfd = some 3;
  recv_buff = buffer;
  send_buff = buffer;
  dt_heart = 0;
  dt_send = 0;
  is_post_recv = false;
  is_post_send = false;
}

abbrev region : IoData
region = record { sockfd = some 3; len = 8; buf = 0 }

-- The client while its receive is pending, and with a message that has arrived.
abbrev waiting : Client
waiting = record c { is_post_recv = true; recv_buff = record buffer { io_data = region } }

abbrev message : List ℕ
message = 4 ∷ 0 ∷ 9 ∷ 0 ∷ []

abbrev memory : List ℕ
memory = 4 ∷ 0 ∷ 9 ∷ 0 ∷ 0 ∷ 0 ∷ 0 ∷ 0 ∷ []

abbrev full : Client
full = record c { recv_buff = record buffer { p_buff = memory; n_last = 4; io_data = region } }

abbrev out_region : IoData
out_region = record { sockfd = some 3; len = 2; buf = 0 }

-- Two bytes are given to SendData, and posted.
abbrev two_bytes : Buffer
two_bytes = record buffer { p_buff = 7 ∷ 8 ∷ replicate 6 0; n_last = 2 }

abbrev loaded : Client
loaded = record full { send_buff = two_bytes }

abbrev sends : Client
sends = record loaded { is_post_send = true; send_buff = record two_bytes { io_data = out_region } }

abbrev done_link : Link
done_link = record {
  client = record sends {
    is_post_send = false;
    send_buff = record two_bytes { n_last = 0; io_data = out_region };
  };
  sending = none;
  receiving = none;
  pushed = 7 ∷ 8 ∷ [];
  wire = 7 ∷ 8 ∷ [];
  arrived = message;
  handled = [];
}

reached : Reach (new_link c) done_link
unfolding Client.has_msg Buffer.has_msg Client.make_recv_io_data Buffer.make_recv_io_data
    Client.recv4iocp Buffer.read4iocp Client.send_data Buffer.push Client.make_send_io_data
    Buffer.make_send_io_data Client.send2iocp Buffer.write2iocp Buffer.sent Common.copy_in
    Common.copy_out Common.splice
reached =
    then_step
      (then_step
        (then_step
          (then_step (then_step here (posts_recv region waiting refl refl))
            (received region message memory refl (omega arith) (omega arith) refl))
          (pushes (7 ∷ 8 ∷ []) loaded refl))
        (posts_send out_region sends refl))
      (sent out_region (7 ∷ 8 ∷ []) _ refl (omega arith) (omega arith) refl refl)

c-IsValid : IsValid c
c-IsValid = record {
  recv = record { size = refl; within = omega arith };
  send = record { size = refl; within = omega arith };
}

Reach-IsInOrder_example :
    IsInOrder done_link
    × Inside done_link.sending done_link.client.send_buff
    × Inside done_link.receiving done_link.client.recv_buff
Reach-IsInOrder_example = Reach-IsInOrder c done_link c-IsValid refl refl reached

-- Three clients: the first was heard lately, the second has a receive pending, the third has not.
abbrev silent : ℕ → ℕ → Bool → Client
silent sock time pending = record c {
  id = sock;
  sockfd = some sock;
  dt_heart = time;
  is_post_recv = pending;
}

abbrev server : IocpServer
server = record {
  base = record {
    clients =
        (some 3, silent 3 0 true)
        ∷ (some 4, silent 4 59000 true)
        ∷ (some 5, silent 5 59500 false)
        ∷ [];
    clients_buff = [];
    old_time = 100;
    id = 1;
    clients_change = false;
  };
  lingering = [];
  iocp = new_iocp;
}

abbrev count_leavers : NetEvent ℕ
count_leavers = record {
  on_net_join = λ d n. n;
  on_net_leave = λ d n. n + 1;
  on_net_recv = λ d n. n;
  on_net_msg = λ f r. some r;
}

-- A system on which nothing happens.
abbrev quiet : Windows (Unit {0})
quiet = record {
  create_port = λ w. (none, w);
  close_handle = λ port w. w;
  associate = λ sock port key w. (false, w);
  socket = λ w. (none, w);
  load_accept_ex = λ sock w. (false, w);
  accept_ex = λ sock d w. (refused, w);
  wsa_recv = λ d w. (refused, w);
  wsa_send = λ d w. (refused, w);
  get_status = λ port timeout w. (timed_out, w);
}

check_time_parts_example : check_time quiet count_leavers 1100 server 0 ≡ (
  record server {
    base = record (server.base) {
      clients = (some 3, silent 3 1000 true) ∷ [];
      old_time = 1100;
      clients_change = true;
    };
    lingering = (some 4, record (silent 4 60000 true) { sockfd = none }) ∷ [];
  },
  1,
)
unfolding kept closing leaving leave_all Client.is_post_io_action Client.destroy
check_time_parts_example = check_time_parts quiet count_leavers 1100 server 0
