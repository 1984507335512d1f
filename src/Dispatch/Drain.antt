-- ===== src/Dispatch/Drain.antt =====
-- DoMsg against the messages in the buffer.
use mathlib.Core.Option.{some-injective}
use cpp100net.Common.{
  ℕ, zero, suc, ◌≤◌, ◌<◌, ◌≡◌, refl, ap, sym, ◌∙◌, Option, none, some, List, [], ◌∷◌, length, take,
  drop, arith, ◌>>=◌, Option-cases, inl, inr, take-take,
}
use cpp100net.Common.Words.{of_le}
use cpp100net.Buffer.{Buffer}
use cpp100net.Buffer.Inv.{IsValid, contents, length-contents}
use cpp100net.Buffer.Frame.{front_len, has_msg_complete, has_msg_incomplete}
use cpp100net.Client.{Client, has_msg, front_msg}
use cpp100net.Client.Ops.{with_recv, pop_front_msg_complete}
use cpp100net.Dispatch.{finished, Handler, round, do_msg}
use cpp100net.Dispatch.Split.{Split, stop, next}

module _ {ℓ} {S : Type ℓ} where
  -- A handler that reads no further than the message: `act` is given the message's bytes alone.
  abbrev pub within : Handler S → Handler S
  within act memory sc = act (take (front_len memory) memory) sc

  abbrev pub put_back : Buffer → S × Client → S × Client
  put_back b (s, c) = (s, with_recv b c)

  -- A handler that neither reads nor changes the receive buffer.
  abbrev pub KeepsRecv : Handler S → Type ℓ
  KeepsRecv act =
      (f : List ℕ) (sc : S × Client) (b : Buffer)
      → act f (put_back b sc) ≡ (act f sc >>= λ r. some (put_back b r))

  -- The messages handled one after the other.
  unfoldable pub handle_all : Handler S → List (List ℕ) → S × Client → Option (S × Client)
  handle_all act [] sc = some sc
  handle_all act (f ∷ fs) sc = act f sc >>= handle_all act fs

module _ {ℓ} {S : Type ℓ} (act : Handler S) (keeps : KeepsRecv act) where
  pub handle_all-KeepsRecv :
      (fs : List (List ℕ)) (sc : S × Client) (b : Buffer) {r : S × Client}
      → handle_all act fs sc ≡ some r
      → handle_all act fs (put_back b sc) ≡ some (put_back b r)
  unfolding handle_all
  handle_all-KeepsRecv [] sc b e = ap (λ o. o >>= λ r. some (put_back b r)) e
  handle_all-KeepsRecv (f ∷ fs) sc b {r} e = elim (Option-cases (act f sc)) [
    | inl failed ↦ let none_left : none ≡ some r = rw failed at e in cc
    | inr (r1, handled) ↦
        rw (keeps f sc b, handled) (handle_all-KeepsRecv fs r1 b (rw handled at e))
  ]

  -- The handler sees the message that stands at the front of the buffer.
  within-front :
      (s : S) (c : Client) (n : ℕ)
      → IsValid c.recv_buff
      → n ≡ front_len (contents c.recv_buff)
      → 4 ≤ length (contents c.recv_buff)
      → n ≤ length (contents c.recv_buff)
      → within act (front_msg c) (s, c) ≡ act (take n (contents c.recv_buff)) (s, c)
  unfolding front_msg
  within-front s c n v e four whole =
      let last = length-contents c.recv_buff v in
      let same : front_len c.recv_buff.p_buff ≡ n =
        ap of_le (sym (take-take 2 c.recv_buff.n_last c.recv_buff.p_buff (omega (arith, last))))
        ∙ sym e in
      ap (λ f. act f (s, c))
        (ap (λ k. take k c.recv_buff.p_buff) same
          ∙ sym (take-take n c.recv_buff.n_last c.recv_buff.p_buff (omega (arith, last))))

  -- One round on a buffer with a whole message in front: it is handled and removed.
  pub round-message :
      (s : S) (c : Client) (n : ℕ) (r : S × Client)
      → IsValid c.recv_buff
      → n ≡ front_len (contents c.recv_buff)
      → 4 ≤ length (contents c.recv_buff)
      → n ≤ length (contents c.recv_buff)
      → act (take n (contents c.recv_buff)) (s, c) ≡ some r
      → (b : Buffer) × (round (within act) (s, c) ≡ some (put_back b r))
        × IsValid b
        × (b.n_size ≡ c.recv_buff.n_size)
        × (contents b ≡ drop n (contents c.recv_buff))
  unfolding round
  round-message s c n r v e four whole handled =
      let kept : act (take n (contents c.recv_buff)) (s, c) ≡ some (put_back c.recv_buff r) =
        keeps (take n (contents c.recv_buff)) (s, c) c.recv_buff ∙ rw handled in
      let (b, popped, v1, size, left) =
        pop_front_msg_complete (with_recv c.recv_buff r.1) n v e four whole in
      (b, rw (within-front s c n v e four whole, kept, popped), v1, size, left)

  -- On a valid receive buffer that holds the messages `fs` and a remainder, with fuel for one round
  -- more than there are messages and a handler that reads only the message, leaves the receive buffer
  -- alone and returns on them, the loop comes to its end without a fault: the handler has seen
  -- exactly `fs`, in order, and the remainder is still in the buffer, which is valid and as large.
  pub do_msg-Split :
      {xs rest : List ℕ} {fs : List (List ℕ)} (split : Split xs fs rest) (fuel : ℕ) (s : S)
      (c : Client) (r : S × Client)
      → IsValid c.recv_buff
      → contents c.recv_buff ≡ xs
      → length fs < fuel
      → handle_all act fs (s, c) ≡ some r
      → (b : Buffer) × (do_msg (within act) fuel (s, c) ≡ finished (put_back b r))
        × IsValid b
        × (b.n_size ≡ c.recv_buff.n_size)
        × (contents b ≡ rest)
  unfolding do_msg handle_all has_msg
  do_msg-Split split zero s c r v e h handled = elim h [ ]
  do_msg-Split (stop left) (suc fuel) s c r v e h handled = (
    c.recv_buff,
    rw (has_msg_incomplete c.recv_buff v (rw e left))
        (ap (λ x. finished (put_back c.recv_buff x)) (some-injective _ _ handled)),
    v,
    refl,
    e,
  )
  do_msg-Split (next {fs = fs} n en ef four some_bytes whole t) (suc fuel) s c r v e h handled =
      elim (Option-cases (act (take n (contents c.recv_buff)) (s, c))) [
        | inl failed ↦
            let none_left : none ≡ some r = rw (ef, ← e, failed) at handled in absurd (cc)
        | inr (r1, done) ↦
            let (b1, ran, v1, size1, left) =
              round-message s c n r1 v (en ∙ ap front_len (sym e)) (rw e four) (rw e whole) done in
            let later : handle_all act fs r1 ≡ some r = rw (ef, ← e, done) at handled in
            let (b, ran', v', size', left') =
              do_msg-Split t fuel r1.0 (with_recv b1 r1.1) (put_back b1 r) v1 (left ∙ ap (drop n) e)
                (omega arith) (handle_all-KeepsRecv fs r1 b1 later) in
            (
              b,
              rw (has_msg_complete c.recv_buff v (rw e four) (rw e (omega arith)), ran) ran',
              v',
              size' ∙ size1,
              left',
            )
      ]
