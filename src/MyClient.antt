-- ===== src/MyClient.antt =====
-- EasyTcpClient/client.cpp: the demonstration client, which sends logins and waits for the answers,
-- and the rounds of its thread. What it prints is left out; OnRun of its base class is an argument.
pub mod Pace
mod Tests
use cpp100net.Common.{
  ℕ, zero, suc, ◌+◌, ◌-◌, Bool, true, false, not, ◌&&◌, Option, none, some, List, [], ◌∷◌, ltb, leb,
  ◌==◌, if◌then◌else◌, copy_out, ◌>>=◌,
}
use cpp100net.Common.Words.{of_le}
use cpp100net.Sockets.{Ret, socket_error, bytes}
use cpp100net.Config.{Config, has_key}
use cpp100net.Dispatch.{Handler}
use cpp100net.Message.{Cmd, code, Login, login_bytes}
use cpp100net.MyServer.{check_msg_id_key}
use cpp100net.TcpServer.{dec}
use cpp100net.TcpClient.{TcpClient, is_run, send_msg}

-- The global settings `nSendSleep`, `nMsg` and `bCheckSendBack`.
pub record Settings : Type 0 where
  pub n_send_sleep : ℕ
  pub n_msg : ℕ
  pub check_send_back : Bool

pub record MyClient : Type 0 where
  pub rest_time : ℕ
  pub n_recv_msg_id : ℕ
  pub n_send_msg_id : ℕ
  pub n_send_count : ℕ
  pub check_msg_id : Bool
  pub b_send : Bool

unfoldable pub create : Config → MyClient
unfolding has_key
create config = record {
  rest_time = 0;
  n_recv_msg_id = 1;
  n_send_msg_id = 1;
  n_send_count = 0;
  check_msg_id = has_key check_msg_id_key config;
  b_send = false;
}

-- `case CMD_LOGIN_RESULT`; `loginret->msgID` is only compared, for a message of the log.
unfoldable pub on_login_result : List ℕ → MyClient → Option MyClient
on_login_result header k =
    if k.check_msg_id
    then (copy_out header 96 4 >>= λ msg_id.
        some (record k { n_recv_msg_id = k.n_recv_msg_id + 1 }))
    else some k

-- `switch (header->cmd)`: the other commands are only printed.
unfoldable pub on_cmd : List ℕ → ℕ → MyClient → Option MyClient
unfolding on_login_result
on_cmd header cmd k = if cmd == code Cmd.login_result then on_login_result header k else some k

unfoldable pub on_net_msg : Handler MyClient
unfolding on_cmd
on_net_msg header (k, c) = copy_out header 2 2 >>= λ cmd.
    on_cmd header (of_le cmd) (record k { b_send = false }) >>= λ k'. some (k', c)

unfoldable pub count_send : Settings → Ret → MyClient → MyClient
count_send settings socket_error k = k
count_send settings (bytes n) k = record k {
  b_send = settings.check_send_back;
  n_send_msg_id = k.n_send_msg_id + 1;
  n_send_count = k.n_send_count - 1;
}

-- The login is shared by the clients of a thread: its number is set before it is sent.
unfoldable pub send_test :
    Settings → Login × MyClient × TcpClient → Option (Ret × Login × MyClient × TcpClient)
unfolding count_send send_msg login_bytes
send_test settings (login, k, t) =
    if ltb 0 k.n_send_count && not k.b_send
    then (send_msg (login_bytes (record login { msg_id = k.n_send_msg_id })) t >>= λ r.
        some (r.0, record login { msg_id = k.n_send_msg_id }, count_send settings r.0 k, r.1))
    else some (bytes 0, login, k, t)

-- After `nSendSleep` milliseconds the count of messages to send is set again.
unfoldable pub rested : Settings → MyClient → MyClient
rested settings k =
    if leb settings.n_send_sleep k.rest_time
    then record k { rest_time = k.rest_time - settings.n_send_sleep; n_send_count = settings.n_msg }
    else k

unfoldable pub check_send : Settings → ℕ → MyClient → Bool × MyClient
unfolding rested
check_send settings dt k =
    let k' = rested settings (record k { rest_time = k.rest_time + dt }) in
    (ltb 0 k'.n_send_count, k')

abbrev pub count_sent : Ret → ℕ → ℕ
count_sent socket_error count = count
count_sent (bytes zero) count = count
count_sent (bytes (suc n)) count = count + 1

-- One message of each client in turn; the number is `sendCount`.
unfoldable pub send_round :
    Settings
    → Login × ℕ
    → List (MyClient × TcpClient)
    → Option ((Login × ℕ) × List (MyClient × TcpClient))
unfolding is_run send_test
send_round settings (login, count) [] = some ((login, count), [])
send_round settings (login, count) ((k, t) ∷ cs) =
    (if is_run t then send_test settings (login, k, t) else some (bytes 0, login, k, t)) >>= λ r.
    send_round settings (r.1, count_sent r.0 count) cs >>= λ rs. some (rs.0, (r.2, r.3) ∷ rs.1)

-- `for (int m = 0; m < nMsg; ++m)`
unfoldable pub send_rounds :
    Settings
    → ℕ
    → Login × ℕ
    → List (MyClient × TcpClient)
    → Option ((Login × ℕ) × List (MyClient × TcpClient))
unfolding send_round
send_rounds settings zero sent cs = some (sent, cs)
send_rounds settings (suc m) sent cs =
    send_round settings sent cs >>= λ r. send_rounds settings m r.0 r.1

-- `OnRun(0)` of each client that is running: one that fails is no longer counted as connected.
unfoldable pub run_round :
    Settings
    → ℕ
    → (MyClient × TcpClient → Option (Bool × MyClient × TcpClient))
    → ℕ
    → List (MyClient × TcpClient)
    → Option (ℕ × List (MyClient × TcpClient))
unfolding is_run check_send dec
run_round settings dt on_run n_connect [] = some (n_connect, [])
run_round settings dt on_run n_connect ((k, t) ∷ cs) =
    (if is_run t then on_run (k, t) else some (true, k, t)) >>= λ r.
    run_round settings dt on_run (if r.0 then n_connect else dec n_connect) cs >>= λ rs.
    some (rs.0, (if is_run t && r.0 then (check_send settings dt r.1).1 else r.1, r.2) ∷ rs.1)
