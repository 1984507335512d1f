-- ===== src/MyServer.antt =====
-- EasyTcpServer/server.cpp: the demonstration server, which answers logins, echoes the fields of a
-- logout and answers heartbeats. What it prints is left out.
pub mod Echo
pub mod Reply
mod Tests
use cpp100net.Common.{
  ℕ, zero, suc, ◌+◌, Bool, Option, none, some, List, [], ◌∷◌, ◌++◌, length, ◌==◌, if◌then◌else◌,
  copy_in, copy_out, ◌>>=◌, replicate,
}
use cpp100net.Common.Words.{to_le, of_le}
use cpp100net.Sockets.{Ret, socket_error, bytes}
use cpp100net.Client.{Client, reset_dt_heart, send_msg, send_data}
use cpp100net.Config
use cpp100net.Config.{Config}
use cpp100net.Dispatch.{Handler}
use cpp100net.Message.{Cmd, code, LoginR, login_r_bytes, s2c_heart_bytes}
use cpp100net.Stream.{
  Stream, read_int8, read_int16, read_int32, read_float, read_double, only_read, read_array,
  write_int8, write_int16, write_int32, write_float, write_double, write_array,
}
use cpp100net.MsgStream.{read_stream_of_header, write_stream, set_net_cmd, finish}
use cpp100net.TcpServer.{Counters, on_net_msg}

pub record MyServer : Type 0 where
  pub counters : Counters
  pub send_back : Bool
  pub send_full : Bool
  pub check_msg_id : Bool

-- The keys of the configuration: `-sendback`, `-sendfull` and `-checkMsgID`.
abbrev send_back_key : List ℕ
send_back_key = 45 ∷ 115 ∷ 101 ∷ 110 ∷ 100 ∷ 98 ∷ 97 ∷ 99 ∷ 107 ∷ []

abbrev send_full_key : List ℕ
send_full_key = 45 ∷ 115 ∷ 101 ∷ 110 ∷ 100 ∷ 102 ∷ 117 ∷ 108 ∷ 108 ∷ []

abbrev pub check_msg_id_key : List ℕ
check_msg_id_key = 45 ∷ 99 ∷ 104 ∷ 101 ∷ 99 ∷ 107 ∷ 77 ∷ 115 ∷ 103 ∷ 73 ∷ 68 ∷ []

-- The constructor; that of the base class has made the counters.
unfoldable pub create : Config → Counters → MyServer
unfolding Config.has_key
create config counters = record {
  counters = counters;
  send_back = Config.has_key send_back_key config;
  send_full = Config.has_key send_full_key config;
  check_msg_id = Config.has_key check_msg_id_key config;
}

-- Memory that the code does not set: of the fresh array of a stream, of locals, and of a struct.
pub record Memory : Type 0 where
  pub stream : List ℕ
  pub local : ℕ
  pub filler : List ℕ

-- The answer to a login that could be sent is counted; one that could not is dropped.
unfoldable pub count_answer : Ret → Client → Client
count_answer socket_error c = c
count_answer (bytes n) c = record c { n_send_msg_id = c.n_send_msg_id + 1 }

unfoldable pub answer_login : Memory → Client → Option Client
unfolding count_answer login_r_bytes
answer_login m c =
    send_msg (login_r_bytes (record { result = 1; filler = m.filler; msg_id = c.n_send_msg_id })) c
    >>= λ r. some (count_answer r.0 r.1)

-- `login->msgID` is only compared, for a message of the log.
unfoldable pub check_login : List ℕ → Client → Option Client
check_login header c =
    copy_out header 96 4 >>= λ msg_id. some (record c { n_recv_msg_id = c.n_recv_msg_id + 1 })

unfoldable pub on_login : Memory → MyServer → List ℕ → Client → Option Client
unfolding check_login answer_login
on_login m server header c =
    (if server.check_msg_id then check_login header c else some c) >>= λ c'.
    (if server.send_back then answer_login m c' else some c')

-- What the handler of a logout holds: numbers, and arrays with the counts of their elements.
pub record LogoutFields : Type 0 where
  pub n1 : ℕ
  pub n2 : ℕ
  pub n3 : ℕ
  pub n4 : ℕ
  pub n5 : ℕ
  pub name : List ℕ
  pub n6 : ℕ
  pub pw : List ℕ
  pub n7 : ℕ
  pub data_array : List ℕ
  pub n8 : ℕ

-- `readArray` into an array that holds `array` before.
unfoldable pub read_into : ℕ → ℕ → List ℕ → Stream → Option (ℕ × List ℕ × Stream)
unfolding read_array
read_into size len array s =
    read_array size len s >>= λ r. copy_in array 0 r.1 >>= λ a. some (r.0, a, r.2)

unfoldable pub read_logout : ℕ → Stream → Option LogoutFields
unfolding read_int8 read_int16 read_int32 read_float read_double only_read read_into
read_logout local s = read_int8 s >>= λ r1. read_int16 r1.1 >>= λ r2.
    read_int32 local r2.1 >>= λ r3. read_float local r3.1 >>= λ r4. read_double local r4.1 >>= λ r5.
    only_read 4 r5.1 >>= λ n. read_into 1 32 (replicate 32 0) n.1 >>= λ r6.
    read_into 1 32 (replicate 32 0) r6.2 >>= λ r7. read_into 4 10 (replicate 40 0) r7.2 >>= λ r8.
    some (record {
      n1 = r1.0;
      n2 = r2.0;
      n3 = r3.0;
      n4 = r4.0;
      n5 = r5.0;
      name = r6.1;
      n6 = r6.0;
      pw = r7.1;
      n7 = r7.0;
      data_array = r8.1;
      n8 = r8.0;
    })

unfoldable pub write_logout : LogoutFields → Stream → Option Stream
unfolding write_int8 write_int16 write_int32 write_float write_double write_array
write_logout f s = write_int8 f.n1 s >>= λ r1. write_int16 f.n2 r1.1 >>= λ r2.
    write_int32 f.n3 r2.1 >>= λ r3. write_float f.n4 r3.1 >>= λ r4. write_double f.n5 r4.1 >>= λ r5.
    write_array 1 f.name f.n6 r5.1 >>= λ r6.
    write_array 1 f.pw f.n7 r6.1 >>= λ r7. write_array 4 f.data_array f.n8 r7.1 >>= λ r8. some r8.1

-- The stream of the answer, over the fresh array `raw`.
unfoldable pub answer_logout : List ℕ → LogoutFields → Option Stream
unfolding write_stream set_net_cmd finish write_logout
answer_logout raw f = write_stream raw >>= λ s.
    set_net_cmd (code Cmd.logout_result) s >>= λ s1. write_logout f s1 >>= λ s2. finish s2

unfoldable pub on_logout : Memory → List ℕ → Client → Option Client
unfolding read_stream_of_header read_logout answer_logout
on_logout m header c = read_stream_of_header header >>= λ r. read_logout m.local r >>= λ f.
    answer_logout m.stream f >>= λ s.
    copy_out s.p_buff 0 s.n_write_pos >>= λ msg. send_data msg c >>= λ r'. some r'.1

unfoldable pub on_heart : Client → Option Client
unfolding s2c_heart_bytes
on_heart c = send_msg s2c_heart_bytes (reset_dt_heart c) >>= λ r. some r.1

-- `switch (header->cmd)`
unfoldable pub on_cmd : Memory → MyServer → List ℕ → ℕ → Client → Option Client
unfolding on_login on_logout on_heart
on_cmd m server header cmd c =
    let login = on_login m server header (reset_dt_heart c) in
    let logout = on_logout m header c in
    let heart = on_heart c in
    if cmd == code Cmd.login
    then login
    else if cmd == code Cmd.logout
    then logout
    else if cmd == code Cmd.c2s_heart
    then heart
    else some c

-- `OnNetMsg`; the call of the base class comes first.
unfoldable pub my_on_net_msg : Memory → Handler MyServer
unfolding on_net_msg on_cmd
my_on_net_msg m header (server, c) = copy_out header 2 2 >>= λ cmd.
    on_cmd m server header (of_le cmd) c >>= λ c'.
    some (record server { counters = on_net_msg server.counters }, c')

-- `argToStr` and `argToInt`; `args` are the arguments, the name of the program first.
unfoldable pub arg_to_str : List (List ℕ) → ℕ → List ℕ → List ℕ
arg_to_str [] index default = default
arg_to_str (a ∷ args) zero default = a
arg_to_str (a ∷ args) (suc index) default = arg_to_str args index default

unfoldable pub arg_to_int : (List ℕ → ℕ) → List (List ℕ) → ℕ → ℕ → ℕ
arg_to_int atoi [] index default = default
arg_to_int atoi (a ∷ args) zero default = atoi a
arg_to_int atoi (a ∷ args) (suc index) default = arg_to_int atoi args index default
