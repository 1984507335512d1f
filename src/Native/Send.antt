-- ===== src/Native/Send.antt =====
-- CellClient_SendWriteStream: the message of a stream in the send buffer of a client.
use cpp100net.Common.{
  ℕ, ◌+◌, ◌≤◌, ◌≡◌, refl, true, some, List, ◌++◌, length, drop, leb, if◌then◌else◌, arith,
  copy_out-fits, Returns, ap, ◌∙◌, length-take,
}
use cpp100net.Common.Words.{to_le}
use cpp100net.Sockets.{socket_error, bytes}
use cpp100net.Buffer.Inv.{contents}
use cpp100net.Buffer
use cpp100net.Client.{Client}
use cpp100net.Client.Outbox.{send_data-refines}
use cpp100net.Stream
use cpp100net.Stream.{Stream}
use cpp100net.Stream.Inv.{written}
use cpp100net.MsgStream.Finish.{finish_lem}
use cpp100net.TcpClient
use cpp100net.TcpClient.{TcpClient}
use cpp100net.Native.{NativeTcpClient, client_send_data, client_send_write_stream}

-- The message of a stream: its length in two bytes, and what was written behind them.
abbrev pub stream_message : Stream → List ℕ
stream_message w = to_le 2 w.n_write_pos ++ drop 2 (written w)

-- The client with another connection.
abbrev pub with_client {ℓ} : {S : Type ℓ} → NativeTcpClient S → Client → NativeTcpClient S
with_client p c = record p { base = record (p.base) { p_client = some c } }

module _ {ℓ} {S : Type ℓ} where
  -- For a client that is connected, with a valid send buffer, and a valid stream that was only written
  -- to, with room for the length taken: SendWriteStream returns. Where the message fits behind the
  -- waiting bytes it is appended to them, its length modulo 2^16 in front, and its length is the answer;
  -- where it does not, the answer is the error and no waiting byte changes. The buffer stays valid.
  pub client_send_write_stream_lem :
      (p : NativeTcpClient S) (c : Client) (w : Stream)
      → p.base.p_client ≡ some c
      → p.base.is_connect ≡ true
      → Buffer.Inv.IsValid c.send_buff
      → Stream.Inv.IsValid w
      → w.n_read_pos ≡ 0
      → 2 ≤ w.n_write_pos
      → Returns (client_send_write_stream (some p) (some w)) λ r.
        (c' : Client) × (r.1 ≡ some (with_client p c'))
        × Buffer.Inv.IsValid c'.send_buff
        × (r.0 ≡ (
            if leb (length (contents c.send_buff) + w.n_write_pos) c.send_buff.n_size
            then bytes w.n_write_pos
            else socket_error))
        × (contents c'.send_buff ≡ (
            if leb (length (contents c.send_buff) + w.n_write_pos) c.send_buff.n_size
            then contents c.send_buff ++ stream_message w
            else contents c.send_buff))
  unfolding client_send_write_stream client_send_data TcpClient.send_data
  client_send_write_stream_lem p c w owns connected v vw fresh room =
      let (w', finished, (valid, unread, size, msg)) = finish_lem w vw fresh room in
      let (r, sent, (answer, v', after)) = send_data-refines c (written w') v in
      let len : length (written w') ≡ w.n_write_pos =
        omega (arith, size, length-take w'.n_write_pos w'.p_buff, valid.written_in, valid.size) in
      let copied =
        copy_out-fits w'.p_buff 0 w'.n_write_pos (omega (arith, valid.written_in, valid.size)) in
      let then_message =
        (rw len at after)
        ∙ ap
            (λ m.
              if leb (length (contents c.send_buff) + w.n_write_pos) c.send_buff.n_size
              then contents c.send_buff ++ m
              else contents c.send_buff)
            msg in
      (
        (r.0, some (with_client p r.1), some w'),
        rw (finished, owns, connected, copied, sent) refl,
        (r.1, refl, v', rw len at answer, then_message),
      )
