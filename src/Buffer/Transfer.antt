-- ===== src/Buffer/Transfer.antt =====
-- `write2socket` and `read4socket`: what moves between a buffer and its socket.
use cpp100net.Common.{
  ◌∷◌, ℕ, zero, suc, ◌+◌, ◌-◌, ◌≤◌, ◌<◌, ◌≡◌, ◌≢◌, refl, true, false, Option, none, some, List,
  ◌++◌, length, drop, ltb, ◌==◌, arith, Bool-cases, tests, ltb-false, inl, inr, [], ◌&&◌, ◌⊎◌,
  splice, copy_in-fits, copy_out-fits, length-splice, take-splice, Returns,
}
use cpp100net.Sockets.{Socket, Ret, socket_error, bytes, Send, Recv, SendWithin, RecvWithin}
use cpp100net.Buffer.{Buffer, is_socket, on_sent, write2socket, on_received, read4socket}
use cpp100net.Buffer.Refine.{sent-refines}
use cpp100net.Buffer.Inv.{IsValid, contents, length-contents}

-- After `send` was handed all that is waiting: an error, or an answer of no bytes, leaves the buffer as
-- it was and is an error; otherwise exactly the bytes taken are gone from the front.
abbrev pub Sent : Buffer → Ret → Ret × Buffer → Type 0
Sent b socket_error r = r ≡ (socket_error, b)
Sent b (bytes zero) r = r ≡ (socket_error, b)
Sent b (bytes (suc k)) (r, b') =
    (r ≡ bytes (suc k))
    × (suc k ≤ b.n_last)
    × IsValid b'
    × (b'.n_size ≡ b.n_size)
    × (contents b' ≡ drop (suc k) (contents b))

-- What `write2socket` comes to: 0 and nothing done where nothing is waiting or the socket is invalid, and
-- what `send` makes of it otherwise.
abbrev pub Wrote : Send → Socket → Buffer → Ret × Buffer → Type 0
Wrote send sockfd b r =
    (((b.n_last ≡ 0) ⊎ (sockfd ≡ none)) × (r ≡ (bytes 0, b)))
    ⊎ ((0 < b.n_last) × (sockfd ≢ none) × Sent b (send sockfd (contents b)) r)

on_sent-Sent :
    (send : Send) (s : Socket) (b : Buffer) (r : Ret)
    → IsValid b
    → SendWithin send
    → send s (contents b) ≡ r
    → Returns (on_sent r b) (Sent b r)
unfolding on_sent
on_sent-Sent send s b socket_error v w e = ((socket_error, b), refl, refl)
on_sent-Sent send s b (bytes zero) v w e = ((socket_error, b), refl, refl)
on_sent-Sent send s b (bytes (suc k)) v w e =
    let within : suc k ≤ b.n_last =
      omega (arith, w s (contents b) (suc k) e, length-contents b v) in
    let (b', eq, after) = sent-refines b (suc k) v within in
    ((bytes (suc k), b'), rw eq, (refl, within, after.0, after.1, after.3))

Sent-IsValid : (b : Buffer) (a : Ret) (r : Ret × Buffer) → IsValid b → Sent b a r → IsValid r.1
Sent-IsValid b socket_error r v same = rw same v
Sent-IsValid b (bytes zero) r v same = rw same v
Sent-IsValid b (bytes (suc k)) r v ok = ok.2

pub Wrote-IsValid :
    (send : Send) (s : Socket) (b : Buffer) (r : Ret × Buffer)
    → IsValid b
    → Wrote send s b r
    → IsValid r.1
Wrote-IsValid send s b r v (inl (_, same)) = rw same v
Wrote-IsValid send s b r v (inr (_, _, ok)) = Sent-IsValid b (send s (contents b)) r v ok

idle :
    (s : Socket) (b : Buffer)
    → (ltb 0 b.n_last && is_socket s) ≡ false
    → (b.n_last ≡ 0) ⊎ (s ≡ none)
unfolding is_socket
idle none b e = inr refl
idle (some s) b e = inl (ground arith)

ready :
    (s : Socket) (b : Buffer) → (ltb 0 b.n_last && is_socket s) ≡ true → (0 < b.n_last) × (s ≢ none)
unfolding is_socket
ready none b e = absurd (ground arith)
ready (some s) b e = (ground arith, λ x. cc)

-- On a valid buffer and a `send` that takes no more bytes than it is handed, `write2socket` does not
-- leave the array. Where nothing is waiting or the socket is invalid it answers 0 and changes nothing.
-- Otherwise `send` is handed all that is waiting: an error, or that it took nothing, is answered as an
-- error and changes nothing, and otherwise exactly the bytes that it took are gone from the front, and
-- their number is the answer.
pub write2socket-Wrote :
    (send : Send) (s : Socket) (b : Buffer)
    → IsValid b
    → SendWithin send
    → Returns (write2socket send s b) (Wrote send s b)
unfolding write2socket
write2socket-Wrote send s b v w = elim (Bool-cases (ltb 0 b.n_last && is_socket s)) [
  | inl e ↦
      let (waiting, valid) = ready s b e in
      let (r, ran, ok) = on_sent-Sent send s b (send s (contents b)) v w refl in
      rw (e, copy_out-fits b.p_buff 0 b.n_last (omega arith)) (r, ran, inr (waiting, valid, ok))
  | inr e ↦ rw e ((bytes 0, b), refl, inl (idle s b e, refl))
]

-- After `recv` was offered the room that is left: an error or a closed connection leaves the buffer as it
-- was and is an error; otherwise the bytes it delivered follow those waiting.
abbrev pub Received : Buffer → Option (List ℕ) → Ret × Buffer → Type 0
Received b none r = r ≡ (socket_error, b)
Received b (some []) r = r ≡ (socket_error, b)
Received b (some (x ∷ xs)) (r, b') =
    (r ≡ bytes (length (x ∷ xs)))
    × IsValid b'
    × (b'.n_size ≡ b.n_size)
    × (contents b' ≡ contents b ++ (x ∷ xs))

-- What `read4socket` comes to: 0 and nothing done on a full buffer, and what `recv` makes of it otherwise.
abbrev pub Read : Recv → Socket → Buffer → Ret × Buffer → Type 0
Read recv sockfd b r =
    ((b.n_last ≡ b.n_size) × (r ≡ (bytes 0, b)))
    ⊎ ((b.n_last < b.n_size) × Received b (recv sockfd (b.n_size - b.n_last)) r)

on_received-Received :
    (recv : Recv) (s : Socket) (b : Buffer) (r : Option (List ℕ))
    → IsValid b
    → RecvWithin recv
    → recv s (b.n_size - b.n_last) ≡ r
    → Returns (on_received r b) (Received b r)
unfolding on_received
on_received-Received recv s b none v w e = ((socket_error, b), refl, refl)
on_received-Received recv s b (some []) v w e = ((socket_error, b), refl, refl)
on_received-Received recv s b (some (x ∷ xs)) v w e =
    let ys = x ∷ xs in
    let some_bytes : (length ys == 0) ≡ false = ground arith in
    let fits : b.n_last + length ys ≤ length b.p_buff =
      omega (arith, v, w s (b.n_size - b.n_last) ys e) in
    rw (some_bytes, copy_in-fits b.p_buff b.n_last ys fits)
      (
        (
          bytes (length ys),
          record b { p_buff = splice b.p_buff b.n_last ys; n_last = b.n_last + length ys },
        ),
        refl,
        (
          refl,
          omega (arith, length-splice b.p_buff b.n_last ys fits),
          refl,
          take-splice b.p_buff b.n_last ys fits,
        ),
      )

Received-IsValid :
    (b : Buffer) (a : Option (List ℕ)) (r : Ret × Buffer) → IsValid b → Received b a r → IsValid r.1
Received-IsValid b none r v same = rw same v
Received-IsValid b (some []) r v same = rw same v
Received-IsValid b (some (x ∷ xs)) r v ok = ok.1

pub Read-IsValid :
    (recv : Recv) (s : Socket) (b : Buffer) (r : Ret × Buffer)
    → IsValid b
    → Read recv s b r
    → IsValid r.1
Read-IsValid recv s b r v (inl (_, same)) = rw same v
Read-IsValid recv s b r v (inr (_, ok)) = Received-IsValid b (recv s (b.n_size - b.n_last)) r v ok

-- On a valid buffer and a `recv` that delivers no more bytes than there is room for, `read4socket` does
-- not leave the array. On a full buffer it answers 0 and changes nothing. Otherwise `recv` is offered the
-- room that is left: an error or a closed connection is answered as an error and changes nothing, and
-- otherwise exactly the bytes that it delivered follow those waiting, and their number is the answer.
pub read4socket-Read :
    (recv : Recv) (s : Socket) (b : Buffer)
    → IsValid b
    → RecvWithin recv
    → Returns (read4socket recv s b) (Read recv s b)
unfolding read4socket
read4socket-Read recv s b v w = elim (Bool-cases (ltb b.n_last b.n_size)) [
  | inl e ↦
      let (r, ran, ok) = on_received-Received recv s b (recv s (b.n_size - b.n_last)) v w refl in
      rw e (r, ran, inr (ground arith, ok))
  | inr e ↦
      rw e
        ((bytes 0, b), refl, inl (omega (tests, ltb-false, v, ltb-false b.n_last b.n_size e), refl))
]
