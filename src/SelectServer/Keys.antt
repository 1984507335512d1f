-- ===== src/SelectServer/Keys.antt =====
-- The sockets of the clients through the parts of a round.
use mathlib.Core.Option.{some-injective, none-ne-some}
use cpp100net.Common.{
  ℕ, ◌≡◌, refl, ap, sym, ◌∙◌, Bool, true, ◌&&◌, some, [], ◌∷◌, ◌>>=◌, Bool-cases, Option-cases,
  Option, ◌⊎◌, inl, inr,
}
use cpp100net.Sockets.{Socket, Ret, socket_error, bytes, Send, Recv}
use cpp100net.Client.{Client, check_heart, need_write, send_data_real}
use cpp100net.Dispatch.{Run, finished, faulted, out_of_fuel, do_msg}
use cpp100net.Server
use cpp100net.Server.{NetEvent, Clients, Server, serve_rest, with_client, check_clients, do_msg_all}
use cpp100net.SelectServer.Sets.{keys}
use cpp100net.SelectServer.{Served, stay, settle, read_data, write_data}

-- Who is left, if nobody has left, has the sockets of `m`.
abbrev pub Stays : Bool → Clients → Clients → Type 0
Stays change m m' = (change ≡ true) ⊎ (keys m' ≡ keys m)

abbrev result_or {ℓ} : {A : Type ℓ} → A → Run A → A
result_or a (finished b) = b
result_or a faulted = a
result_or a out_of_fuel = a

pub finished-injective {ℓ} : {A : Type ℓ} {a b : A} → finished a ≡ finished b → a ≡ b
finished-injective {a = a} e = ap (result_or a) e

module _ {ℓ} {S : Type ℓ} (event : NetEvent S) where
  pub check_clients-Stays :
      (dt : ℕ) (m : Clients) (app : S) → let r = check_clients event dt m app in Stays r.1 m r.0
  unfolding check_clients
  check_clients-Stays dt [] app = inr refl
  check_clients-Stays dt ((k, c) ∷ m) app = elim (Bool-cases (check_heart dt c).0) [
    | inl dead ↦ rw dead (inl refl)
    | inr alive ↦ rw alive (elim (check_clients-Stays dt m app) [
      | inl left ↦ inl left
      | inr same ↦ inr (ap (λ ks. k ∷ ks) same)
    ])
  ]

  -- The client stays, before the others.
  stay-Stays :
      (k : Socket) (c c0 : Client) (m : Clients) (app : S) (others : S → Option (Served S))
      (served : Served S)
      → ((app : S) (rest : Served S) → others app ≡ some rest → Stays rest.1 m rest.0)
      → (others app >>= λ r. some (stay k c r)) ≡ some served
      → Stays served.1 ((k, c0) ∷ m) served.0
  stay-Stays k c c0 m app others served stays e = elim (Option-cases (others app)) [
    | inl failed ↦ absurd (none-ne-some _ (rw failed at e))
    | inr (rest, done) ↦ rw (← some-injective _ _ (rw done at e)) (elim (stays app rest done) [
      | inl left ↦ inl left
      | inr same ↦ inr (ap (λ ks. k ∷ ks) same)
    ])
  ]

  settle-Stays :
      (k : Socket) (c0 : Client) (m : Clients) (r : Ret × Client × S)
      (others : S → Option (Served S)) (served : Served S)
      → ((app : S) (rest : Served S) → others app ≡ some rest → Stays rest.1 m rest.0)
      → settle event k r others ≡ some served
      → Stays served.1 ((k, c0) ∷ m) served.0
  unfolding settle
  settle-Stays k c0 m (socket_error, c, app) others served stays e =
      elim (Option-cases (others (event.on_net_leave c app))) [
        | inl failed ↦ absurd (none-ne-some _ (rw failed at e))
        | inr (rest, done) ↦ inl (sym (ap (λ r. r.1) (some-injective _ _ (rw done at e))))
      ]
  settle-Stays k c0 m (bytes n, c, app) others served stays e =
      stay-Stays k c c0 m app others served stays e

  pub read_data-Stays :
      (readable : Socket → Bool) (recv : Recv) (m : Clients) (app : S) (served : Served S)
      → read_data event readable recv m app ≡ some served
      → Stays served.1 m served.0
  unfolding read_data
  read_data-Stays readable recv [] app served e =
      inr (ap (λ r. keys r.0) (sym (some-injective _ _ e)))
  read_data-Stays readable recv ((k, c) ∷ m) app served e =
      let others = read_data event readable recv m in
      let stays = read_data-Stays readable recv m in
      elim (Bool-cases (readable k)) [
        | inr quiet ↦ stay-Stays k c c m app others served stays (rw quiet at e)
        | inl ready ↦ elim (Option-cases (Server.recv_data event recv c app)) [
          | inl failed ↦ absurd (none-ne-some _ (rw (ready, failed) at e))
          | inr (r, got) ↦ settle-Stays k c m r others served stays (rw (ready, got) at e)
        ]
      ]

  pub write_data-Stays :
      (writable : Socket → Bool) (send : Send) (m : Clients) (app : S) (served : Served S)
      → write_data event writable send m app ≡ some served
      → Stays served.1 m served.0
  unfolding write_data
  write_data-Stays writable send [] app served e =
      inr (ap (λ r. keys r.0) (sym (some-injective _ _ e)))
  write_data-Stays writable send ((k, c) ∷ m) app served e =
      let others = write_data event writable send m in
      let stays = write_data-Stays writable send m in
      elim (Bool-cases (need_write c && writable k)) [
        | inr quiet ↦ stay-Stays k c c m app others served stays (rw quiet at e)
        | inl ready ↦ elim (Option-cases (send_data_real send c)) [
          | inl failed ↦ absurd (none-ne-some _ (rw (ready, failed) at e))
          | inr (r, got) ↦
              settle-Stays k c m (r.0, r.1, app) others served stays (rw (ready, got) at e)
        ]
      ]

  with_client-keys :
      (k : Socket) (c : Client) (m : Clients) (r : Run (Clients × S)) (m' : Clients) (app' : S)
      → ((m1 : Clients) (app1 : S) → r ≡ finished (m1, app1) → keys m1 ≡ keys m)
      → with_client k c r ≡ finished (m', app')
      → keys m' ≡ k ∷ keys m
  with_client-keys k c m (finished (m1, app1)) m' app' same e =
      ap (λ r. keys r.0) (sym (finished-injective e)) ∙ ap (λ ks. k ∷ ks) (same m1 app1 refl)
  with_client-keys k c m faulted m' app' same e = absurd (cc)
  with_client-keys k c m out_of_fuel m' app' same e = absurd (cc)

  serve_rest-keys :
      (k : Socket) (m : Clients) (r : Run (S × Client)) (others : S → Run (Clients × S))
      (m' : Clients) (app' : S)
      → ((app : S) (m1 : Clients) (app1 : S) → others app ≡ finished (m1, app1) → keys m1 ≡ keys m)
      → serve_rest k r others ≡ finished (m', app')
      → keys m' ≡ k ∷ keys m
  serve_rest-keys k m (finished (app, c)) others m' app' same e =
      with_client-keys k c m (others app) m' app' (same app) e
  serve_rest-keys k m faulted others m' app' same e = absurd (cc)
  serve_rest-keys k m out_of_fuel others m' app' same e = absurd (cc)

  -- The message loops remove nobody.
  pub do_msg_all-keys :
      (fuel : ℕ) (m : Clients) (app : S) (m' : Clients) (app' : S)
      → do_msg_all event fuel m app ≡ finished (m', app')
      → keys m' ≡ keys m
  unfolding do_msg_all
  do_msg_all-keys fuel [] app m' app' e = ap (λ r. keys r.0) (sym (finished-injective e))
  do_msg_all-keys fuel ((k, c) ∷ m) app m' app' e =
      serve_rest-keys k m (do_msg event.on_net_msg fuel (app, c)) (do_msg_all event fuel m) m' app'
        (do_msg_all-keys fuel m) e
