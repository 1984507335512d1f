-- ===== src/MyClient/Tests.antt =====
-- A client that has sent one login and waits.
use cpp100net.Common.{◌≤◌, ◌+◌, refl, true, false, none, [], replicate, if◌then◌else◌}
use cpp100net.Config.{Config}
use cpp100net.Message.{Login}
use cpp100net.TcpClient.{TcpClient}
use cpp100net.MyClient.{Settings, MyClient, create, check_send, send_test}
use cpp100net.MyClient.Pace.{Reach, start, sends, ticks, Reach_paced}

abbrev settings : Settings
settings = record { n_send_sleep = 10; n_msg = 3; check_send_back = true }

abbrev config : Config
config = record { kv = []; exe_path = [] }

abbrev login : Login
login = record {
  user_name = replicate 32 0;
  pass_word = replicate 32 0;
  filler = replicate 28 0;
  msg_id = 0;
}

abbrev offline : TcpClient
offline = record { p_client = none; is_connect = false; closed = [] }

abbrev waiting : MyClient
waiting = record {
  rest_time = 0;
  n_recv_msg_id = 1;
  n_send_msg_id = 2;
  n_send_count = 2;
  check_msg_id = false;
  b_send = true;
}

reached : Reach settings 0 waiting
unfolding create check_send send_test
reached = sends login offline (ticks 10 (start config)) refl

Reach_paced_example : waiting.n_send_msg_id ≤ 0 + (if waiting.b_send then 2 else 1)
Reach_paced_example = Reach_paced settings refl reached
