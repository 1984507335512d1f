-- ===== src/MyServer/Reply.antt =====
-- OnNetMsg of the demonstration server on a logout.
use cpp100net.Common.{
  ℕ, ◌+◌, ◌≤◌, ◌≡◌, refl, ap, sym, ◌∙◌, some, List, [], ◌∷◌, ◌++◌, length, take, drop, leb,
  if◌then◌else◌, arith, ◌>>=◌, append_assoc, length-append, Returns, copy_out, copy_out-fits,
  take-append_length, drop-append_eq,
}
use cpp100net.Common.Words.{to_le, length-to_le, of_le-to_le}
use cpp100net.Buffer
use cpp100net.Buffer.Inv.{contents}
use cpp100net.Client.{Client}
use cpp100net.Client.Outbox.{send_data-refines}
use cpp100net.Message.{Cmd, code}
use cpp100net.MsgStream.{write_stream, set_net_cmd, finish}
use cpp100net.MsgStream.Fields.{Field, num, arr, AreFields, encode, encode_field, compose, message}
use cpp100net.MsgStream.Compose.{compose-message}
use cpp100net.MsgStream.RoundTrip.{read_stream_of_header-message}
use cpp100net.TcpServer.{on_net_msg}
use cpp100net.MyServer.{MyServer, Memory, answer_logout, on_logout, on_cmd, my_on_net_msg}
use cpp100net.MyServer.Echo.{Logout, fields, held, read_logout-fields, write_logout-fields}

abbrev field_size : Field → ℕ
field_size (num len x) = len
field_size (arr size bs n room) = 4 + length bs

abbrev fields_size : List Field → ℕ
fields_size [] = 0
fields_size (f ∷ fs) = field_size f + fields_size fs

length-encode_field : (f : Field) → length (encode_field f) ≡ field_size f
length-encode_field (num len x) = length-to_le len x
length-encode_field (arr size bs n room) =
    omega (arith, length-append (to_le 4 n) bs, length-to_le 4 n)

length-encode : (fs : List Field) → length (encode fs) ≡ fields_size fs
length-encode [] = refl
length-encode (f ∷ fs) =
    omega
      (arith, length-append (encode_field f) (encode fs), length-encode_field f, length-encode fs)

-- The fields of a logout take at most 139 bytes.
length-fields : (l : Logout) → AreFields (fields l) → length (encode (fields l)) ≤ 139
length-fields l fit =
    let (f6, t6) = fit.1.1.1.1.1 in
    let (f7, t7) = t6 in
    let (f8, t8) = t7 in omega (arith, length-encode (fields l), f6.3, f7.3, f8.0, f8.3)

-- The command of a message.
copy_out-cmd :
    (cmd : ℕ) (body rest : List ℕ) → copy_out (message cmd body ++ rest) 2 2 ≡ some (to_le 2 cmd)
copy_out-cmd cmd body rest =
    copy_out-fits (message cmd body ++ rest) 2 2 (
      rw split (
        omega (
          arith,
          length-append len (field ++ (body ++ rest)),
          length-to_le 2 total,
          length-append field (body ++ rest),
          length-to_le 2 cmd,
        )))
    ∙ ap some (
        ap (λ m. take 2 (drop 2 m)) split
        ∙ (ap (take 2) (drop-append_eq 2 len (field ++ (body ++ rest)) (length-to_le 2 total))
            ∙ (ap (λ k. take k (field ++ (body ++ rest))) (sym (length-to_le 2 cmd))
                ∙ take-append_length field (body ++ rest))))
  where
    total : ℕ
    total = 4 + length body

    len : List ℕ
    len = to_le 2 total

    field : List ℕ
    field = to_le 2 cmd

    split : message cmd body ++ rest ≡ len ++ (field ++ (body ++ rest))
    split =
        append_assoc len (field ++ body) rest ∙ ap (λ t. len ++ t) (append_assoc field body rest)

-- The answer as it is composed.
reply :
    (raw : List ℕ) (l : Logout)
    → AreFields (fields l)
    → answer_logout raw (held l) ≡ compose raw 3 (fields l)
unfolding compose answer_logout code
reply raw l fit i = write_stream raw >>= λ s.
    set_net_cmd 3 s >>= λ s1. write_logout-fields l s1 fit i >>= λ s2. finish s2

-- What happens to the send buffer of a client when a message is sent or dropped.
abbrev pub Sent : Client → List ℕ → Client → Type 0
Sent c msg c' =
    Buffer.Inv.IsValid c'.send_buff
    × (contents c'.send_buff ≡ (
        if leb (length (contents c.send_buff) + length msg) c.send_buff.n_size
        then contents c.send_buff ++ msg
        else contents c.send_buff))

on_logout-fields :
    (m : Memory) (c : Client) (l : Logout) (rest : List ℕ)
    → AreFields (fields l)
    → length m.stream ≡ 1024
    → Buffer.Inv.IsValid c.send_buff
    → Returns
        (on_logout m (message 2 (encode (fields l)) ++ rest) c)
        (Sent c (message 3 (encode (fields l))))
unfolding on_logout
on_logout-fields m c l rest fit size v =
    let short = length-fields l fit in
    let (s, opened, (vs, _, body)) =
      read_stream_of_header-message 2 (encode (fields l)) rest (omega arith) in
    let (w, composed, (vw, msg)) =
      compose-message m.stream 3 (fields l) fit (omega arith) (omega arith) in
    let (r, sent, (answer, v', after)) = send_data-refines c (message 3 (encode (fields l))) v in
    let copied =
      copy_out-fits w.p_buff 0 w.n_write_pos (omega (arith, vw.written_in, vw.size))
      ∙ ap some msg in
    (
      r.1,
      rw
          (
            opened,
            read_logout-fields m.local l s fit vs body,
            reply m.stream l fit,
            composed,
            copied,
            sent,
          )
          refl,
      (v', after),
    )

-- On a logout of fields that can be stored, with 1024 bytes for the answer and a valid send buffer: the
-- handler returns, counts the message, and leaves the send buffer valid. The answer has the same
-- fields under the command of the result; it is appended to the waiting bytes where it fits behind
-- them, and is dropped where it does not.
pub my_on_net_msg-fields :
    (m : Memory) (server : MyServer) (c : Client) (l : Logout) (rest : List ℕ)
    → AreFields (fields l)
    → length m.stream ≡ 1024
    → Buffer.Inv.IsValid c.send_buff
    → let msg = message (code Cmd.logout_result) (encode (fields l)) in
      Returns
        (my_on_net_msg m (message (code Cmd.logout) (encode (fields l)) ++ rest) (server, c))
        λ r. (r.0 ≡ record server { counters = on_net_msg server.counters }) × Sent c msg r.1
unfolding my_on_net_msg on_cmd code
my_on_net_msg-fields m server c l rest fit size v =
    let (c', served, sent) = on_logout-fields m c l rest fit size v in
    (
      (record server { counters = on_net_msg server.counters }, c'),
      rw (copy_out-cmd 2 (encode (fields l)) rest, of_le-to_le 2 2 (omega arith), served) refl,
      (refl, sent),
    )
