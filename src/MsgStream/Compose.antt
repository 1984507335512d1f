-- ===== src/MsgStream/Compose.antt =====
-- Composing a message: constructor, `setNetCmd`, the fields, `finish`.
use cpp100net.Common.{
  ℕ, ◌+◌, ◌*◌, ◌≤◌, ◌<◌, ◌^◌, ◌≡◌, refl, ap, ◌∙◌, true, List, [], ◌∷◌, ◌++◌, length, take, arith,
  append_assoc, append-nil, take_all, length-append, Returns, drop-append_eq,
}
use native.Mathlib.Nat.{mul_comm}
use cpp100net.Common.Words.{to_le, length-to_le}
use cpp100net.Stream.{Stream, of_size}
use cpp100net.Stream.Inv.{IsValid, written}
use cpp100net.Stream.Access.{length-written, write_fits, read_pos_kept}
use cpp100net.Stream.Arrays.{write_array_fits}
use cpp100net.MsgStream.{write_stream, set_net_cmd, finish}
use cpp100net.MsgStream.Finish.{finish_lem}
use cpp100net.MsgStream.Fields.{
  Field, num, arr, IsField, AreFields, encode_field, encode, write_field, write_fields, compose,
  message,
}

-- One field is appended whole where it fits.
write_field-encode :
    (f : Field) (s : Stream)
    → IsField f
    → IsValid s
    → length (written s) + length (encode_field f) ≤ s.n_size
    → Returns (write_field f s) λ r.
      IsValid r.1
      × (r.1.n_size ≡ s.n_size)
      × (r.1.n_read_pos ≡ s.n_read_pos)
      × (written r.1 ≡ written s ++ encode_field f)
unfolding write_field
write_field-encode (num len x) s fit v room =
    let (s1, e1, v1, size1, w1, u1) =
      write_fits len x s v fit.0 (omega (arith, room, length-to_le len x)) in
    ((true, s1), e1, (v1, size1, read_pos_kept s s1 (to_le len x) v v1 w1 u1, w1))
write_field-encode (arr size bs n limit) s fit v room =
    let comm = mul_comm size n in
    let whole : take (size * n) bs ≡ bs = take_all (size * n) bs (omega (arith, comm, fit.0)) in
    let fits : length (written s) + (size * n + 4) ≤ s.n_size =
      omega (arith, room, length-append (to_le 4 n) bs, length-to_le 4 n, fit.0, comm) in
    let (s1, e1, v1, size1, w1, u1) =
      write_array_fits size bs n s v (omega (arith, fit.1, comm)) (omega (arith, fit.0, comm))
        fits in
    ((true, s1), e1, (v1, size1, read_pos_kept s s1 _ v v1 w1 u1, w1 ∙ rw whole))

-- All fields are appended in order where they fit.
pub write_fields-encode :
    (fs : List Field) (s : Stream)
    → AreFields fs
    → IsValid s
    → length (written s) + length (encode fs) ≤ s.n_size
    → Returns (write_fields fs s) λ s'.
      IsValid s'
      × (s'.n_size ≡ s.n_size)
      × (s'.n_read_pos ≡ s.n_read_pos)
      × (written s' ≡ written s ++ encode fs)
unfolding write_fields
write_fields-encode [] s fit v room = (s, refl, (v, refl, refl, rw append-nil))
write_fields-encode (f ∷ fs) s fit v room =
    let len = length-append (encode_field f) (encode fs) in
    let (r, e1, ok) = write_field-encode f s fit.0 v (omega (arith, len)) in
    let grown : length (written r.1) ≡ length (written s) + length (encode_field f) =
      rw ok.3 (length-append (written s) (encode_field f)) in
    let (s2, e2, ok2) = write_fields-encode fs r.1 fit.1 ok.0 (omega (arith, len, grown, ok.1)) in
    (s2, rw (e1, e2), (ok2.0, ok2.1 ∙ ok.1, ok2.2 ∙ ok.2, ok2.3 ∙ rw (ok.3, append_assoc)))

-- A write stream over an array of `int` size with room for the length: two zero bytes are written.
write_stream_lem :
    (raw : List ℕ)
    → 2 ≤ length raw
    → length raw < 2 ^ 31
    → Returns
        (write_stream raw)
        λ s. IsValid s × (s.n_size ≡ length raw) × (s.n_read_pos ≡ 0) × (written s ≡ to_le 2 0)
unfolding write_stream of_size
write_stream_lem raw room small =
    let v : IsValid (of_size raw) = omega arith in
    let (s, e, v0, size, w, u) = write_fits 2 0 (of_size raw) v (omega arith) (omega arith) in
    (s, rw e, (v0, size, read_pos_kept (of_size raw) s (to_le 2 0) v v0 w u, w))

set_net_cmd_lem :
    (cmd : ℕ) (s : Stream)
    → IsValid s
    → length (written s) + 2 ≤ s.n_size
    → Returns (set_net_cmd cmd s) λ s'.
      IsValid s'
      × (s'.n_size ≡ s.n_size)
      × (s'.n_read_pos ≡ s.n_read_pos)
      × (written s' ≡ written s ++ to_le 2 cmd)
unfolding set_net_cmd
set_net_cmd_lem cmd s v room =
    let (s1, e, v1, size, w, u) = write_fits 2 cmd s v (omega arith) room in
    (s1, rw e, (v1, size, read_pos_kept s s1 (to_le 2 cmd) v v1 w u, w))

-- `finish` on what the constructor, the command and a body have written.
finish-body :
    (cmd : ℕ) (body : List ℕ) (s : Stream)
    → IsValid s
    → s.n_read_pos ≡ 0
    → written s ≡ to_le 2 0 ++ (to_le 2 cmd ++ body)
    → Returns (finish s) λ s'. IsValid s' × (written s' ≡ message cmd body)
finish-body cmd body s v fresh w =
    let (s', e, ok) = finish_lem s v fresh (omega (arith, pos)) in
    (
      s',
      e,
      (
        ok.0,
        ok.3 ∙ rw (w, drop-append_eq 2 (to_le 2 0) (to_le 2 cmd ++ body) (length-to_le 2 0), pos),
      ),
    )
  where
    pos : s.n_write_pos ≡ 4 + length body
    pos = omega (
      arith,
      length-written s v,
      ap length w,
      length-append (to_le 2 0) (to_le 2 cmd ++ body),
      length-append (to_le 2 cmd) body,
      length-to_le 2 0,
      length-to_le 2 cmd,
    )

-- A message of fields within their types, composed in an array of less than 2^31 bytes with room for
-- it, is its length and its command in two bytes each, and then its fields; the stream is valid.
pub compose-message :
    (raw : List ℕ) (cmd : ℕ) (fs : List Field)
    → AreFields fs
    → 4 + length (encode fs) ≤ length raw
    → length raw < 2 ^ 31
    → Returns (compose raw cmd fs) λ s. IsValid s × (written s ≡ message cmd (encode fs))
unfolding compose
compose-message raw cmd fs fit room small =
    let (s0, e0, ok0) = write_stream_lem raw (omega arith) small in
    let two : length (written s0) ≡ 2 = rw (ok0.3) (length-to_le 2 0) in
    let (s1, e1, ok1) = set_net_cmd_lem cmd s0 ok0.0 (omega (arith, ok0.1)) in
    let four : length (written s1) ≡ 4 =
      rw (ok1.3) (omega (arith, length-append (written s0) (to_le 2 cmd), length-to_le 2 cmd)) in
    let (s2, e2, ok2) = write_fields-encode fs s1 fit ok1.0 (omega (arith, ok1.1, ok0.1)) in
    let (s3, e3, ok3) =
      finish-body cmd (encode fs) s2 ok2.0 (omega (arith, ok2.2, ok1.2, ok0.2))
        (ok2.3 ∙ rw (ok1.3, ok0.3, append_assoc)) in
    (s3, rw (e0, e1, e2, e3), ok3)
