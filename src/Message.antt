-- ===== src/Message.antt =====
-- depends/include/MessageHeader.hpp: the commands and the layout of the messages.
use cpp100net.Common.{ℕ, List, ◌++◌}
use cpp100net.Common.Words.{to_le}

-- `enum CMD`
pub data Cmd : Type 0 where
  login login_result logout logout_result new_user_join c2s_heart s2c_heart error : Cmd

unfoldable pub code : Cmd → ℕ
code Cmd.login = 0
code Cmd.login_result = 1
code Cmd.logout = 2
code Cmd.logout_result = 3
code Cmd.new_user_join = 4
code Cmd.c2s_heart = 5
code Cmd.s2c_heart = 6
code Cmd.error = 7

-- `CMD_ERROR`
abbrev pub cmd_error : ℕ
cmd_error = 7

-- `netmsg_DataHeader` of a struct of `size` bytes.
unfoldable pub header_bytes : ℕ → Cmd → List ℕ
unfolding code
header_bytes size cmd = to_le 2 size ++ to_le 2 (code cmd)

-- The structs as they stand in memory; texts are the bytes of their arrays, `filler` is `data`.
unfoldable pub data_header_bytes : List ℕ
unfolding header_bytes
data_header_bytes = header_bytes 4 Cmd.error

pub record Login : Type 0 where
  pub user_name : List ℕ
  pub pass_word : List ℕ
  pub filler : List ℕ
  pub msg_id : ℕ

unfoldable pub login_bytes : Login → List ℕ
unfolding header_bytes
login_bytes m =
    header_bytes 100 Cmd.login ++ (m.user_name ++ (m.pass_word ++ (m.filler ++ to_le 4 m.msg_id)))

pub record LoginR : Type 0 where
  pub result : ℕ
  pub filler : List ℕ
  pub msg_id : ℕ

unfoldable pub login_r_bytes : LoginR → List ℕ
unfolding header_bytes
login_r_bytes m =
    header_bytes 100 Cmd.login_result ++ (to_le 4 m.result ++ (m.filler ++ to_le 4 m.msg_id))

unfoldable pub log_out_bytes : List ℕ → List ℕ
unfolding header_bytes
log_out_bytes user_name = header_bytes 36 Cmd.logout ++ user_name

unfoldable pub log_out_r_bytes : List ℕ
unfolding header_bytes
log_out_r_bytes = header_bytes 8 Cmd.logout_result ++ to_le 4 1

unfoldable pub new_user_join_bytes : ℕ → List ℕ
unfolding header_bytes
new_user_join_bytes sock = header_bytes 8 Cmd.new_user_join ++ to_le 4 sock

unfoldable pub c2s_heart_bytes : List ℕ
unfolding header_bytes
c2s_heart_bytes = header_bytes 4 Cmd.c2s_heart

unfoldable pub s2c_heart_bytes : List ℕ
unfolding header_bytes
s2c_heart_bytes = header_bytes 4 Cmd.s2c_heart
