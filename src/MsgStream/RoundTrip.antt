-- ===== src/MsgStream/RoundTrip.antt =====
-- Reading a composed message back, field by field.
use cpp100net.Common.{
  ℕ, ◌+◌, ◌≤◌, ◌<◌, ◌^◌, ◌≡◌, refl, ap, sym, ◌∙◌, false, some, List, [], ◌∷◌, ◌++◌, length, take,
  drop, map, arith, append_assoc, append-nil, length-append, copy_out-fits, ◌>>=◌, Returns,
  take-append_eq,
}
use cpp100net.Common.Words.{to_le, length-to_le, of_le-to_le}
use cpp100net.Stream.{Stream, of_data, push, read_int16}
use cpp100net.Stream.Inv.{IsValid, written, unread}
use cpp100net.Stream.Access.{read_fits, read_or_fits}
use cpp100net.Stream.Arrays.{read_array_fits}
use cpp100net.Message.{cmd_error}
use cpp100net.MsgStream.{read_stream, get_net_cmd, read_stream_of_header}
use cpp100net.MsgStream.Compose.{compose-message}
use cpp100net.MsgStream.Fields.{
  Field, num, arr, AreFields, encode, value, read_fields, compose, message,
}

-- Reading the fields that the unread bytes encode gives their values, and leaves what follows.
pub read_fields-encode :
    (fs : List Field) (rest : List ℕ) (s : Stream)
    → AreFields fs
    → IsValid s
    → unread s ≡ encode fs ++ rest
    → (s' : Stream) × (read_fields fs s ≡ some (map value fs, s')) × IsValid s' × (unread s' ≡ rest)
unfolding read_fields
read_fields-encode [] rest s fit v e = (s, refl, v, e)
read_fields-encode (num len x ∷ fs) rest s fit v e =
    let (s1, e1, v1, _, u1) =
      read_fits len (to_le len x) (encode fs ++ rest) s v fit.0.0 (length-to_le len x)
        (e ∙ append_assoc (to_le len x) (encode fs) rest) in
    let (s2, e2, v2, u2) = read_fields-encode fs rest s1 fit.1 v1 u1 in
    (s2, rw (e1, of_le-to_le len x fit.0.1, e2), v2, u2)
read_fields-encode (arr size bs n room ∷ fs) rest s fit v e =
    let (s1, e1, v1, _, u1) =
      read_array_fits size room n bs (encode fs ++ rest) s v fit.0.1 fit.0.2 fit.0.3 fit.0.0
        (e ∙ append_assoc (to_le 4 n ++ bs) (encode fs) rest) in
    let (s2, e2, v2, u2) = read_fields-encode fs rest s1 fit.1 v1 u1 in (s2, rw (e1, e2), v2, u2)

-- Opened on memory that begins with a message, of less than 2^16 bytes, a read stream is valid and
-- stands behind the header: the body is what is left to read.
pub read_stream_of_header-message :
    (cmd : ℕ) (body rest : List ℕ)
    → 4 + length body < 2 ^ 16
    → Returns
        (read_stream_of_header (message cmd body ++ rest))
        λ s. IsValid s × (written s ≡ message cmd body) × (unread s ≡ body)
unfolding read_stream_of_header read_stream read_int16 get_net_cmd of_data push
read_stream_of_header-message cmd body rest small =
    let (s1, e1, v1, w1, u1) =
      read_or_fits 2 0 (to_le 2 total) (to_le 2 cmd ++ body) s0 v0 (omega arith)
        (length-to_le 2 total) start in
    let (s2, e2, v2, w2, u2) =
      read_or_fits 2 cmd_error (to_le 2 cmd) body s1 v1 (omega arith) (length-to_le 2 cmd) u1 in
    (
      s2,
      rw (copy_out-fits memory 0 2 (omega (arith, size)), field, of_le-to_le 2 total small, e1, e2),
      (v2, w2 ∙ (w1 ∙ start), u2),
    )
  where
    total : ℕ
    total = 4 + length body

    memory : List ℕ
    memory = message cmd body ++ rest

    s0 : Stream
    s0 = push total (of_data memory total false)

    len : length (message cmd body) ≡ total
    len = omega (
      arith,
      length-append (to_le 2 total) (to_le 2 cmd ++ body),
      length-append (to_le 2 cmd) body,
      length-to_le 2 total,
      length-to_le 2 cmd,
    )

    size : length memory ≡ total + length rest
    size = omega (arith, len, length-append (message cmd body) rest)

    v0 : IsValid s0
    v0 = omega (arith, size)

    start : unread s0 ≡ message cmd body
    start = ap (λ k. take k memory) (omega arith) ∙ take-append_eq total (message cmd body) rest len

    field : take 2 (drop 0 memory) ≡ to_le 2 total
    field =
        rw append_assoc
          (take-append_eq 2 (to_le 2 total) ((to_le 2 cmd ++ body) ++ rest) (length-to_le 2 total))

-- The round trip: fields within their types, which with the header take less than 2^16 bytes, are
-- composed into a message in an array of less than 2^31 bytes with room for them, and a read stream
-- on the bytes of that message gives back every number and every array, in order, with nothing left over. The
-- length of a longer message does not fit its field of 16 bits, and is not covered.
pub read_fields-compose :
    (raw : List ℕ) (cmd : ℕ) (fs : List Field)
    → AreFields fs
    → 4 + length (encode fs) ≤ length raw
    → length raw < 2 ^ 31
    → 4 + length (encode fs) < 2 ^ 16
    → Returns
        (compose raw cmd fs >>= λ w. read_stream_of_header (written w) >>= λ r. read_fields fs r)
        λ r. (r.0 ≡ map value fs) × (unread r.1 ≡ [])
read_fields-compose raw cmd fs fit room small short =
    let (w, e1, ok1) = compose-message raw cmd fs fit room small in
    let (r, e2, ok2) = read_stream_of_header-message cmd (encode fs) [] short in
    let (r', e3, v3, u3) =
      read_fields-encode fs [] r fit ok2.0 (ok2.2 ∙ sym (append-nil (encode fs))) in
    ((map value fs, r'), rw (e1, ok1.1, ← append-nil (message cmd (encode fs)), e2, e3), (refl, u3))
