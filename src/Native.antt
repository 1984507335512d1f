-- ===== src/Native.antt =====
-- CppNet100/main.cpp: the functions that the library exports to C#. A handle is `none` where the
-- pointer is null, and is given back with what it points to.
pub mod Streams
pub mod Send
mod Tests
use cpp100net.Common.{
  ℕ, Bool, true, false, Option, none, some, List, [], ◌+◌, copy_out, ◌>>=◌, if◌then◌else◌,
}
use cpp100net.Common.Words.{of_le}
use cpp100net.Sockets.{Socket, Ret, bytes}
use cpp100net.Client.{Client}
use cpp100net.Dispatch.{Handler}
use cpp100net.Stream.{Stream}
use cpp100net.Stream
use cpp100net.MsgStream
use cpp100net.TcpClient
use cpp100net.TcpClient.{TcpClient, Fresh, is_some}

unfoldable pub add : ℕ → ℕ → ℕ
add a b = a + b

-- `_callBack(_csObj, data, len)` of the application: its object is part of the state.
abbrev pub CallBack {ℓ} : Type ℓ → Type ℓ
CallBack S = List ℕ → ℕ → S × Client → Option (S × Client)

-- `OnNetMsg` of `NativeTCPClient`.
unfoldable pub on_net_msg {ℓ} : {S : Type ℓ} → Option (CallBack S) → Handler S
on_net_msg none header sc = some sc
on_net_msg (some call_back) header sc =
    copy_out header 0 2 >>= λ field. call_back header (of_le field) sc

pub record NativeTcpClient {ℓ} (S : Type ℓ) : Type ℓ where
  pub base : TcpClient
  pub call_back : Option (CallBack S)

module _ {ℓ} {S : Type ℓ} where
  unfoldable pub set_call_back : Option (CallBack S) → NativeTcpClient S → NativeTcpClient S
  set_call_back cb p = record p { call_back = cb }

  -- The answer of `InitSocket` is not looked at.
  unfoldable pub client_create : Option (CallBack S) → Fresh → NativeTcpClient S
  unfolding set_call_back TcpClient.create TcpClient.init_socket
  client_create cb fresh =
      let p = set_call_back cb (record { base = TcpClient.create; call_back = none }) in
      record p { base = (TcpClient.init_socket fresh p.base).1 }

  -- `ip` is null where it is `none`; `sys_connect ip` is the system's `connect` for that address.
  unfoldable pub client_connect :
      Fresh
      → (List ℕ → Socket → Option ℕ)
      → Option (List ℕ)
      → Option (NativeTcpClient S)
      → Bool × Option (NativeTcpClient S)
  unfolding TcpClient.connect
  client_connect fresh sys_connect none handle = (false, handle)
  client_connect fresh sys_connect (some ip) none = (false, none)
  client_connect fresh sys_connect (some ip) (some p) =
      let (ret, base) = TcpClient.connect fresh (sys_connect ip) p.base in
      (is_some ret, some (record p { base = base }))

  -- `OnRun` is pure in the class of the client, and is the argument here.
  unfoldable pub client_on_run :
      (NativeTcpClient S → Bool × NativeTcpClient S)
      → Option (NativeTcpClient S)
      → Bool × Option (NativeTcpClient S)
  client_on_run run none = (false, none)
  client_on_run run (some p) = let (ok, p') = run p in (ok, some p')

  -- `Close` and `delete`: what is left are the sockets that were closed.
  unfoldable pub client_close : Option (NativeTcpClient S) → List Socket
  client_close none = []
  client_close (some p) = (TcpClient.close p.base).closed

  abbrev pub put_base : NativeTcpClient S → Ret × TcpClient → Ret × Option (NativeTcpClient S)
  put_base p (ret, base) = (ret, some (record p { base = base }))

  unfoldable pub client_send_data :
      List ℕ → ℕ → Option (NativeTcpClient S) → Option (Ret × Option (NativeTcpClient S))
  unfolding TcpClient.send_data
  client_send_data p_data len none = some (bytes 0, none)
  client_send_data p_data len (some p) =
      TcpClient.send_data p_data len p.base >>= λ r. some (put_base p r)

  unfoldable pub client_send_write_stream :
      Option (NativeTcpClient S)
      → Option Stream
      → Option (Ret × Option (NativeTcpClient S) × Option Stream)
  unfolding client_send_data MsgStream.finish
  client_send_write_stream none w = some (bytes 0, none, w)
  client_send_write_stream (some p) none = some (bytes 0, some p, none)
  client_send_write_stream (some p) (some w) = MsgStream.finish w >>= λ w'.
      client_send_data w'.p_buff w'.n_write_pos (some p) >>= λ r. some (r.0, r.1, some w')
