-- ===== src/TcpServer/Select.antt =====
-- The counters of the server under the reads and writes of a CellSelectServer.
use mathlib.Core.Option.{some-injective}
use cpp100net.Common.{
  ℕ, zero, suc, ◌+◌, ◌^◌, ◌≤◌, ◌<◌, ◌≡◌, refl, sym, Bool, Option, none, some, [], ◌∷◌, length, ◌&&◌,
  ◌>>=◌, arith, Bool-cases, Option-cases, inl, inr,
}
use cpp100net.Sockets.{Socket, Ret, socket_error, bytes, Send, Recv}
use cpp100net.Client
use cpp100net.Client.{Client, need_write, send_data_real}
use cpp100net.Server
use cpp100net.Server.{Clients, on_answer}
use cpp100net.SelectServer.{Served, stay, erased, settle, read_data, write_data}
use cpp100net.TcpServer.{Counters, on_net_leave, on_net_recv, events}
use cpp100net.TcpServer.Events.{dec_lem}

-- The counters count at least `size` clients, and are positive ints.
pub record HasRoom (n : Counters) (size : ℕ) : Type 0 where
  pub accepted : size ≤ n.client_accept
  pub taken : size ≤ n.client_join
  pub accept_int : n.client_accept < 2 ^ 31
  pub join_int : n.client_join < 2 ^ 31

-- Of `size` clients `left` are left, and the counters went from `n` to `n'` with them.
pub record Fewer (n n' : Counters) (size left : ℕ) : Type 0 where
  pub accept : n'.client_accept + size ≡ n.client_accept + left
  pub join : n'.client_join + size ≡ n.client_join + left
  pub fewer : left ≤ size

-- How the loop goes on after the first of `size + 1` clients.
abbrev GoesOn : ℕ → (Counters → Option (Served Counters)) → Type 0
GoesOn size others =
    (n : Counters) (out : Served Counters)
    → HasRoom n size
    → others n ≡ some out
    → Fewer n out.2 size (length out.0)

-- The first client stays.
stay-Fewer :
    (k : Socket) (c : Client) (size : ℕ) (others : Counters → Option (Served Counters))
    (n m : Counters) (out : Served Counters)
    → GoesOn size others
    → HasRoom n (suc size)
    → m.client_accept ≡ n.client_accept
    → m.client_join ≡ n.client_join
    → (others m >>= λ r. some (stay k c r)) ≡ some out
    → Fewer n out.2 (suc size) (length out.0)
stay-Fewer k c size others n m out on room accept join e = elim (Option-cases (others m)) [
  | inl fault ↦ let bad : none ≡ some out = rw fault at e in cc
  | inr (r, done) ↦
      let same = some-injective _ _ (rw done at e) in
      let rest =
        on m r
          (record {
            accepted = omega (arith, room.accepted, accept);
            taken = omega (arith, room.taken, join);
            accept_int = omega (arith, room.accept_int, accept);
            join_int = omega (arith, room.join_int, join);
          })
          done in
      rw (sym same) (record {
        accept = omega (arith, rest.accept, accept);
        join = omega (arith, rest.join, join);
        fewer = omega (arith, rest.fewer);
      })
]

-- The first client leaves.
leave-Fewer :
    (c : Client) (size : ℕ) (others : Counters → Option (Served Counters)) (n m : Counters)
    (out : Served Counters)
    → GoesOn size others
    → HasRoom n (suc size)
    → m.client_accept ≡ n.client_accept
    → m.client_join ≡ n.client_join
    → (others (on_net_leave c m) >>= λ r. some (erased r)) ≡ some out
    → Fewer n out.2 (suc size) (length out.0)
unfolding on_net_leave
leave-Fewer c size others n m out on room accept join e =
    let one =
      dec_lem m.client_accept (omega (arith, room.accepted, accept))
        (omega (arith, room.accept_int, accept)) in
    let two =
      dec_lem m.client_join (omega (arith, room.taken, join))
        (omega (arith, room.join_int, join)) in
    elim (Option-cases (others (on_net_leave c m))) [
      | inl fault ↦ let bad : none ≡ some out = rw fault at e in cc
      | inr (r, done) ↦
          let same = some-injective _ _ (rw done at e) in
          let rest =
            on (on_net_leave c m) r
              (record {
                accepted = omega (arith, room.accepted, accept, one);
                taken = omega (arith, room.taken, join, two);
                accept_int = omega (arith, room.accept_int, accept, one);
                join_int = omega (arith, room.join_int, join, two);
              })
              done in
          rw (sym same) (record {
            accept = omega (arith, rest.accept, accept, one, room.accepted);
            join = omega (arith, rest.join, join, two, room.taken);
            fewer = omega (arith, rest.fewer);
          })
    ]

settle-Fewer :
    (k : Socket) (ret : Ret) (c : Client) (size : ℕ) (others : Counters → Option (Served Counters))
    (n m : Counters) (out : Served Counters)
    → GoesOn size others
    → HasRoom n (suc size)
    → m.client_accept ≡ n.client_accept
    → m.client_join ≡ n.client_join
    → settle events k (ret, c, m) others ≡ some out
    → Fewer n out.2 (suc size) (length out.0)
unfolding settle
settle-Fewer k socket_error c size others n m out on room accept join e =
    leave-Fewer c size others n m out on room accept join e
settle-Fewer k (bytes b) c size others n m out on room accept join e =
    stay-Fewer k c size others n m out on room accept join e

-- The answer is passed on, and a delivery counted.
on_answer_same :
    (n : Counters) (r : Ret × Client)
    → ((on_answer events n r).2.client_accept ≡ n.client_accept)
      × ((on_answer events n r).2.client_join ≡ n.client_join)
unfolding on_net_recv
on_answer_same n (bytes (suc b), c) = (refl, refl)
on_answer_same n (bytes zero, c) = (refl, refl)
on_answer_same n (socket_error, c) = (refl, refl)

-- What RecvData of the server does to the counters of clients: nothing.
recv_data_same :
    (recv : Recv) (c : Client) (n : Counters) (r : Ret × Client × Counters)
    → Server.recv_data events recv c n ≡ some r
    → (r.2.client_accept ≡ n.client_accept) × (r.2.client_join ≡ n.client_join)
unfolding Server.recv_data
recv_data_same recv c n r e = elim (Option-cases (Client.recv_data recv c)) [
  | inl fault ↦ let bad : none ≡ some r = rw fault at e in cc
  | inr (answer, done) ↦
      let same = some-injective _ _ (rw done at e) in rw (sym same) (on_answer_same n answer)
]

pub read_data-Fewer :
    (readable : Socket → Bool) (recv : Recv) (m : Clients)
    → GoesOn (length m) (read_data events readable recv m)
unfolding read_data
read_data-Fewer readable recv [] n out room e =
    rw (sym (some-injective _ _ e)) (record { accept = refl; join = refl; fewer = omega arith })
read_data-Fewer readable recv ((k, c) ∷ m) n out room e =
    let on = read_data-Fewer readable recv m in
    elim (Bool-cases (readable k)) [
      | inr quiet ↦
          stay-Fewer k c (length m) (read_data events readable recv m) n n out on room refl refl
            (rw quiet at e)
      | inl ready ↦ elim (Option-cases (Server.recv_data events recv c n)) [
        | inl fault ↦ let bad : none ≡ some out = rw (ready, fault) at e in cc
        | inr (r, done) ↦
            let kept = recv_data_same recv c n r done in
            settle-Fewer k r.0 r.1 (length m) (read_data events readable recv m) n r.2 out on room
              kept.0 kept.1 (rw (ready, done) at e)
      ]
    ]

pub write_data-Fewer :
    (writable : Socket → Bool) (send : Send) (m : Clients)
    → GoesOn (length m) (write_data events writable send m)
unfolding write_data
write_data-Fewer writable send [] n out room e =
    rw (sym (some-injective _ _ e)) (record { accept = refl; join = refl; fewer = omega arith })
write_data-Fewer writable send ((k, c) ∷ m) n out room e =
    let on = write_data-Fewer writable send m in
    elim (Bool-cases (need_write c && writable k)) [
      | inr quiet ↦
          stay-Fewer k c (length m) (write_data events writable send m) n n out on room refl refl
            (rw quiet at e)
      | inl ready ↦ elim (Option-cases (send_data_real send c)) [
        | inl fault ↦ let bad : none ≡ some out = rw (ready, fault) at e in cc
        | inr (r, done) ↦
            settle-Fewer k r.0 r.1 (length m) (write_data events writable send m) n n out on room
              refl refl (rw (ready, done) at e)
      ]
    ]
