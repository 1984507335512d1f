-- ===== src/Dispatch/Feed.antt =====
-- Reassembly: the bytes of a connection, cut into deliveries, and the messages handled.
use mathlib.Core.Option.{some-injective}
use cpp100net.Common.{
  ℕ, ◌+◌, ◌≤◌, ◌<◌, ◌≡◌, refl, ap, ◌∙◌, none, some, List, [], ◌∷◌, ◌++◌, length, map, arith, ◌>>=◌,
  append_assoc, append-nil, length-append, Option-cases, inl, inr,
}
use cpp100net.Sockets.{Recv, Ret, bytes}
use cpp100net.Buffer.{Buffer}
use cpp100net.Buffer.Inv.{IsValid, contents}
use cpp100net.Buffer.Frame.{IsIncomplete}
use cpp100net.Client.{Client}
use cpp100net.Client.Ops.{with_recv, recv_data-fits}
use cpp100net.Dispatch.{Run, finished, faulted, out_of_fuel, Handler, receive}
use cpp100net.Dispatch.Split.{Split, stop, Split-append, Split-rest}
use cpp100net.Dispatch.Drain.{
  within, KeepsRecv, put_back, handle_all, handle_all-KeepsRecv, do_msg-Split,
}

-- The bytes of all chunks in order.
abbrev pub joined : List (List ℕ) → List ℕ
joined [] = []
joined (chunk ∷ chunks) = chunk ++ joined chunks

-- A call of `recv` that delivers `chunk`.
abbrev pub deliver : List ℕ → Recv
deliver chunk _ _ = some chunk

-- `Fed size r chunks fs rest`: with `r` left over, each chunk in turn has room behind what is left
-- over in an array of `size` bytes; the messages completed are `fs` in all, and `rest` remains.
pub data Fed (size : ℕ) : List ℕ → List (List ℕ) → List (List ℕ) → List ℕ → Type 0 where
  done : {r rest : List ℕ} → r ≡ rest → Fed size r [] [] rest
  more :
      {r r1 rest chunk : List ℕ} {chunks fs gs all : List (List ℕ)}
      → 1 ≤ length chunk
      → length r + length chunk ≤ size
      → Split (r ++ chunk) fs r1
      → Fed size r1 chunks gs rest
      → all ≡ fs ++ gs
      → Fed size r (chunk ∷ chunks) all rest

-- What is completed chunk by chunk is what the bytes hold when they are read at one go.
pub Fed-Split :
    {size : ℕ} {r rest : List ℕ} {chunks fs : List (List ℕ)}
    → Fed size r chunks fs rest
    → IsIncomplete r
    → Split (r ++ joined chunks) fs rest
Fed-Split (done {r} e) h = rw (append-nil, ← e) (stop h)
Fed-Split (more {r} {chunk = chunk} {chunks} some_bytes fits t fed e) h =
    rw (e, ← append_assoc r chunk (joined chunks))
      (Split-append t (joined chunks) (Fed-Split fed (Split-rest t)))

abbrev pub go_on {ℓ} :
    {S : Type ℓ} → Run (Ret × S × Client) → (S × Client → Run (S × Client)) → Run (S × Client)
go_on (finished (ret, s, c)) next_one = next_one (s, c)
go_on faulted next_one = faulted
go_on out_of_fuel next_one = out_of_fuel

module _ {ℓ} {S : Type ℓ} (act : Handler S) where
  -- One delivery after the other, each followed by the loop, as long as nothing fails.
  unfoldable pub receive_all : ℕ → List Recv → S × Client → Run (S × Client)
  receive_all fuel [] sc = finished sc
  receive_all fuel (recv ∷ recvs) sc =
      go_on (receive (within act) fuel recv sc) (receive_all fuel recvs)

  handle_all-append :
      (fs gs : List (List ℕ)) (sc : S × Client)
      → handle_all act (fs ++ gs) sc ≡ (handle_all act fs sc >>= handle_all act gs)
  unfolding handle_all
  handle_all-append [] gs sc = refl
  handle_all-append (f ∷ fs) gs sc = elim (Option-cases (act f sc)) [
    | inl e ↦ rw e
    | inr (r, e) ↦ rw e (handle_all-append fs gs r)
  ]

module _ {ℓ} {S : Type ℓ} (act : Handler S) (keeps : KeepsRecv act) where
  -- One delivery that fits: it is received, and its messages are handled.
  receive-chunk :
      (fuel : ℕ) (chunk : List ℕ) {rest : List ℕ} {fs : List (List ℕ)} (s : S) (c : Client)
      (r : S × Client)
      → IsValid c.recv_buff
      → 1 ≤ length chunk
      → length (contents c.recv_buff) + length chunk ≤ c.recv_buff.n_size
      → Split (contents c.recv_buff ++ chunk) fs rest
      → length fs < fuel
      → handle_all act fs (s, c) ≡ some r
      → (b : Buffer) × (receive (within act) fuel (deliver chunk) (s, c)
          ≡ finished (bytes (length chunk), (put_back b r).0, (put_back b r).1))
        × IsValid b
        × (b.n_size ≡ c.recv_buff.n_size)
        × (contents b ≡ rest)
  unfolding receive
  receive-chunk fuel (x ∷ chunk) s c r v some_bytes fits split enough handled =
      let (b1, got, v1, size1, left1) =
        recv_data-fits (deliver (x ∷ chunk)) (x ∷ chunk) c v some_bytes fits refl in
      let (b, ran, v', size, left) =
        do_msg-Split act keeps split fuel s (with_recv b1 c) (put_back b1 r) v1 left1 enough
          (handle_all-KeepsRecv act keeps _ (s, c) b1 handled) in
      (b, rw (got, ran), v', size ∙ size1, left)
  receive-chunk fuel [] s c r v some_bytes fits split enough handled = absurd (omega arith)

  -- Under a handler that reads only the message and leaves the receive buffer alone, a client with a
  -- valid buffer, less than a message in it, and more fuel than there are messages receives bytes in
  -- any chunks that leave room for one another: where the handler returns on the messages, it sees
  -- them in order, no fault occurs, and the bytes left over are those that end the whole sequence. None
  -- of the headers has length 0.
  -- The messages are those of the joined bytes, however they were cut.
  pub receive_all-Fed :
      (fuel : ℕ) {size : ℕ} {left rest : List ℕ} {chunks fs : List (List ℕ)}
      → Fed size left chunks fs rest
      → (s : S) (c : Client) (r : S × Client) → IsValid c.recv_buff
      → c.recv_buff.n_size ≡ size
      → contents c.recv_buff ≡ left
      → IsIncomplete left
      → length fs < fuel
      → handle_all act fs (s, c) ≡ some r
      → (b : Buffer) × (receive_all act fuel (map deliver chunks) (s, c) ≡ finished (put_back b r))
        × IsValid b
        × (contents b ≡ rest)
        × Split (left ++ joined chunks) fs rest
  unfolding receive_all handle_all
  receive_all-Fed fuel {size = room} (done e') s c r v size e h enough handled = (
    c.recv_buff,
    ap (λ x. finished (put_back c.recv_buff x)) (some-injective (s, c) r handled),
    v,
    e ∙ e',
    Fed-Split {size = room} (done e') h,
  )
  receive_all-Fed fuel (more {chunk = chunk} {fs = fs} {gs = gs} some_bytes fits t fed e') s c r v
        size e h enough handled =
      elim (Option-cases (handle_all act fs (s, c))) [
        | inl failed ↦
            let none_left : none ≡ some r =
              rw (e', handle_all-append act fs gs (s, c), failed) at handled in
            absurd (cc)
        | inr (r1, first) ↦
            let count = length-append fs gs in
            let then_all : handle_all act gs r1 ≡ some r =
              rw (e', handle_all-append act fs gs (s, c), first) at handled in
            let (b1, ran, v1, size1, left1) =
              receive-chunk fuel chunk s c r1 v some_bytes (rw (e, size) fits) (rw e t)
                (omega (arith, count, ap length e')) first in
            let (b, ran', v', left', _) =
              receive_all-Fed fuel fed r1.0 (with_recv b1 r1.1) (put_back b1 r) v1 (size1 ∙ size)
                left1 (Split-rest t) (omega (arith, count, ap length e'))
                (handle_all-KeepsRecv act keeps gs r1 b1 then_all) in
            (b, rw ran ran', v', left', Fed-Split (more some_bytes fits t fed e') h)
      ]
