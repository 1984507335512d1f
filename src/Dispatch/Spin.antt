-- ===== src/Dispatch/Spin.antt =====
-- When the loop of DoMsg ends: headers that name the length 0.
use cpp100net.Common.{
  ℕ, zero, suc, ◌≤◌, ◌<◌, ◌≡◌, refl, ap, sym, ◌∙◌, ◌⊎◌, inl, inr, some, List, [], ◌∷◌, length, take,
  drop, arith, length-drop,
}
use native.Mathlib.Decide.{dec_lt}
use cpp100net.Buffer.Inv.{IsValid, contents}
use cpp100net.Buffer.{Buffer}
use cpp100net.Buffer.Frame.{IsIncomplete, front_len, has_msg_complete}
use cpp100net.Client.{Client, has_msg}
use cpp100net.Client.Ops.{with_recv}
use cpp100net.Dispatch.{finished, out_of_fuel, Handler, do_msg}
use cpp100net.Dispatch.Split.{Split, stop, next, Split-rest}
use cpp100net.Dispatch.Drain.{within, KeepsRecv, put_back, handle_all, round-message, do_msg-Split}

-- After some whole messages comes a header whose length field is 0.
pub data IsStuck : List ℕ → Type 0 where
  here : {xs : List ℕ} → 4 ≤ length xs → front_len xs ≡ 0 → IsStuck xs
  after :
      {xs : List ℕ} (n : ℕ)
      → n ≡ front_len xs
      → 4 ≤ length xs
      → n ≤ length xs
      → IsStuck (drop n xs)
      → IsStuck xs

abbrev Outcome : List ℕ → Type 0
Outcome xs = ((fs : List (List ℕ)) × (rest : List ℕ) × Split xs fs rest) ⊎ IsStuck xs

extend :
    (xs : List ℕ) (n : ℕ)
    → n ≡ front_len xs
    → 4 ≤ length xs
    → 1 ≤ n
    → n ≤ length xs
    → Outcome (drop n xs)
    → Outcome xs
extend xs n e four some_bytes whole (inl (fs, rest, t)) =
    inl (take n xs ∷ fs, rest, next n e refl four some_bytes whole t)
extend xs n e four some_bytes whole (inr t) = inr (after n e four whole t)

Outcome-below : (k : ℕ) (xs : List ℕ) → length xs < k → Outcome xs
Outcome-below zero xs h = elim h [ ]
Outcome-below (suc k) xs h = elim (dec_lt (length xs) 4) [
  | yes short ↦ inl ([], xs, stop (inl short))
  | no four ↦ elim (dec_lt (length xs) (front_len xs)) [
    | yes cut ↦ inl ([], xs, stop (inr cut))
    | no whole ↦ elim (dec_lt 0 (front_len xs)) [
      | yes some_bytes ↦
          extend xs (front_len xs) refl (omega arith) some_bytes (omega arith) (
            Outcome-below k (drop (front_len xs) xs) (omega (arith, length-drop (front_len xs) xs)))
      | no empty ↦ inr (here (omega arith) (omega arith))
    ]
  ]
]

-- Whatever bytes wait, either they are whole messages and a remainder, or they lead to a header
-- with length 0.
pub Split-or_IsStuck :
    (xs : List ℕ) → ((fs : List (List ℕ)) × (rest : List ℕ) × Split xs fs rest) ⊎ IsStuck xs
Split-or_IsStuck xs = Outcome-below (suc (length xs)) xs (omega arith)

-- Each message takes at least a byte, so there are no more messages than bytes.
pub Split-length :
    {xs rest : List ℕ} {fs : List (List ℕ)} → Split xs fs rest → length fs ≤ length xs
Split-length (stop h) = omega arith
Split-length (next {xs} n e ef four some_bytes whole t) =
    omega (arith, Split-length t, length-drop n xs)

module _ {ℓ} {S : Type ℓ} (act : Handler S) (keeps : KeepsRecv act)
    (serves : (f : List ℕ) (sc : S × Client) → (r : S × Client) × (act f sc ≡ some r)) where
  -- Under a handler that always returns, reads only the message and leaves the receive buffer alone,
  -- a valid buffer whose bytes lead to a header with length 0 makes the loop run for ever: no fuel is
  -- enough.
  pub do_msg-IsStuck :
      (fuel : ℕ) {xs : List ℕ} (stuck : IsStuck xs) (s : S) (c : Client)
      → IsValid c.recv_buff
      → contents c.recv_buff ≡ xs
      → do_msg (within act) fuel (s, c) ≡ out_of_fuel
  unfolding do_msg has_msg
  do_msg-IsStuck zero stuck s c v e = refl
  do_msg-IsStuck (suc fuel) (here four empty) s c v e =
      let (r, served) = serves (take 0 (contents c.recv_buff)) (s, c) in
      let (b, ran, v', size, left) =
        round-message act keeps s c 0 r v (sym (ap front_len e ∙ empty)) (rw e four) (omega arith)
          served in
      rw (has_msg_complete c.recv_buff v (rw e four) (rw (e, empty) (omega arith)), ran)
        (do_msg-IsStuck fuel (here four empty) r.0 (with_recv b r.1) v' (left ∙ e))
  do_msg-IsStuck (suc fuel) (after n en four whole t) s c v e =
      let (r, served) = serves (take n (contents c.recv_buff)) (s, c) in
      let (b, ran, v', size, left) =
        round-message act keeps s c n r v (en ∙ ap front_len (sym e)) (rw e four) (rw e whole)
          served in
      rw (has_msg_complete c.recv_buff v (rw e four) (rw (e, ← en) whole), ran)
        (do_msg-IsStuck fuel t r.0 (with_recv b r.1) v' (left ∙ ap (drop n) e))

  handle_all-served :
      (fs : List (List ℕ)) (sc : S × Client) → (r : S × Client) × (handle_all act fs sc ≡ some r)
  unfolding handle_all
  handle_all-served [] sc = (sc, refl)
  handle_all-served (f ∷ fs) sc =
      let (r1, e1) = serves f sc in let (r, e) = handle_all-served fs r1 in (r, rw e1 e)

  -- Under a handler that always returns, reads only the message and leaves the receive buffer alone,
  -- and on a valid buffer, fuel for one round more than there are bytes is enough for the loop to
  -- end, with less than a message left over in a valid buffer, unless the bytes lead to a header with
  -- length 0.
  pub do_msg_ends :
      (s : S) (c : Client)
      → IsValid c.recv_buff
      → ((r : S × Client) × (b : Buffer) × (do_msg
              (within act)
              (suc (length (contents c.recv_buff)))
              (s, c)
            ≡ finished (put_back b r))
          × IsValid b
          × IsIncomplete (contents b))
        ⊎ IsStuck (contents c.recv_buff)
  do_msg_ends s c v = elim (Split-or_IsStuck (contents c.recv_buff)) [
    | inl (fs, rest, t) ↦
        let (r, handled) = handle_all-served fs (s, c) in
        let (b, ran, v', size, left) =
          do_msg-Split act keeps t (suc (length (contents c.recv_buff))) s c r v refl
            (omega (arith, Split-length t)) handled in
        inl (r, b, ran, v', rw left (Split-rest t))
    | inr stuck ↦ inr stuck
  ]
