-- ===== src/IocpServer/Link.antt =====
-- One connection of the server over completion ports: what is posted for it, what Windows does with the
-- memory that it was handed, and what the application and the message loop do meanwhile.
use cpp100net.Common.{
  ℕ, ◌≤◌, ◌≡◌, true, false, Option, none, some, List, [], ◌++◌, length, take, copy_in, copy_out,
}
use cpp100net.Sockets.{socket_error, bytes}
use cpp100net.Buffer.{IoData}
use cpp100net.Buffer.Inv.{contents}
use cpp100net.Buffer.Frame.{front_len}
use cpp100net.Client
use cpp100net.Client.{Client}

-- The connection with its pending operations, and all that went through it so far: the bytes handed to
-- SendData, those that Windows has sent, those that it has received, and those of handled messages.
pub record Link : Type 0 where
  pub client : Client
  pub sending : Option IoData
  pub receiving : Option IoData
  pub pushed : List ℕ
  pub wire : List ℕ
  pub arrived : List ℕ
  pub handled : List ℕ

-- A new connection.
abbrev pub new_link : Client → Link
new_link c = record {
  client = c;
  sending = none;
  receiving = none;
  pushed = [];
  wire = [];
  arrived = [];
  handled = [];
}

-- The receive buffer after Windows has written to its memory.
abbrev pub with_memory : List ℕ → Client → Client
with_memory p c = record c { recv_buff = record (c.recv_buff) { p_buff = p } }

-- One thing happening. OnRun posts a receive only when DoMsg has left no message, or for a client that has
-- just joined; Windows moves at least one byte, or the client is removed.
pub data Step (l : Link) : Link → Type 0 where
  pushes :
      (xs : List ℕ) (c : Client)
      → Client.send_data xs l.client ≡ some (bytes (length xs), c)
      → Step l (record l { client = c; pushed = l.pushed ++ xs })
  refuses :
      (xs : List ℕ) (c : Client)
      → Client.send_data xs l.client ≡ some (socket_error, c)
      → Step l (record l { client = c })
  handles :
      (c : Client)
      → Client.has_msg l.client ≡ some true
      → Client.pop_front_msg l.client ≡ some c
      → Step l (record l {
        client = c;
        handled =
            l.handled
            ++ take (front_len (contents l.client.recv_buff)) (contents l.client.recv_buff);
      })
  posts_send :
      (io : IoData) (c : Client)
      → Client.make_send_io_data l.client ≡ (some io, c)
      → Step l (record l { client = c; sending = some io })
  posts_no_send :
      (c : Client)
      → Client.make_send_io_data l.client ≡ (none, c)
      → Step l (record l { client = c })
  posts_recv :
      (io : IoData) (c : Client)
      → Client.has_msg l.client ≡ some false
      → Client.make_recv_io_data l.client ≡ (some io, c)
      → Step l (record l { client = c; receiving = some io })
  posts_no_recv :
      (c : Client)
      → Client.make_recv_io_data l.client ≡ (none, c)
      → Step l (record l { client = c })
  sent :
      (io : IoData) (xs : List ℕ) (c : Client)
      → l.sending ≡ some io
      → 1 ≤ length xs
      → length xs ≤ io.len
      → copy_out l.client.send_buff.p_buff io.buf (length xs) ≡ some xs
      → Client.send2iocp (length xs) l.client ≡ some c
      → Step l (record l { client = c; sending = none; wire = l.wire ++ xs })
  received :
      (io : IoData) (xs p : List ℕ)
      → l.receiving ≡ some io
      → 1 ≤ length xs
      → length xs ≤ io.len
      → copy_in l.client.recv_buff.p_buff io.buf xs ≡ some p
      → Step l (record l {
        client = Client.recv4iocp (length xs) (with_memory p l.client);
        receiving = none;
        arrived = l.arrived ++ xs;
      })

-- Any number of steps.
pub data Reach (l : Link) : Link → Type 0 where
  here : Reach l l
  then_step : {m n : Link} → Reach l m → Step m n → Reach l n
