-- ===== src/SelectServer/Steps.antt =====
-- The kept read set through each part of a round of OnRun.
use mathlib.Core.Option.{some-injective, none-ne-some}
use mathlib.Core.Path.{subst}
use cpp100net.Common.{
  ℕ, ◌-◌, ◌≡◌, refl, ap, sym, Bool, true, false, ◌||◌, ◌==◌, some, none, length, Bool-cases,
  Option-cases, Option, inl, inr, if◌then◌else◌,
}
use cpp100net.Sockets.{Socket, Send, Recv}
use cpp100net.Dispatch.{Run, finished, faulted, out_of_fuel}
use cpp100net.FdSet.{FdSet}
use cpp100net.FdSet.Bits.{Shows}
use cpp100net.Server.{
  NetEvent, Clients, Server, take_clients, check_time, check_clients, do_msg_all,
}
use cpp100net.SelectServer.{with_served, read_data, write_data}
use cpp100net.SelectServer.Event.{
  SelectServer, Answer, interrupted, failed, idle, ready, transfer, on_answer, after_event,
  with_messages, in_set, writable,
}
use cpp100net.SelectServer.Sets.{among_keys, AllBelow}
use cpp100net.SelectServer.Cached.{Cached, Kept}
use cpp100net.SelectServer.Keys.{
  Stays, check_clients-Stays, read_data-Stays, write_data-Stays, do_msg_all-keys,
  finished-injective,
}

-- The kept set stays right where nobody has left, or the flag says that someone has.
Kept-Stays :
    {n : ℕ} {set : FdSet} (m : Clients) (change : Bool) (sock : Socket) (left : Bool) (m' : Clients)
    → Stays left m m'
    → Kept n set m change sock
    → Kept n set m' (if left then true else change) sock
Kept-Stays m change sock true m' stays kept = inl refl
Kept-Stays m change sock false m' (inl absurdity) kept = absurd (cc)
Kept-Stays m change sock false m' (inr same) (inl changed) = inl changed
Kept-Stays {n} {set} m change sock false m' (inr same) (inr exact) =
    inr (subst (λ ks. Shows n (λ i. among_keys ks i) set × AllBelow ks sock) (sym same) exact)

or_if : (change left : Bool) → (if left then true else change) ≡ (change || left)
or_if true true = refl
or_if true false = refl
or_if false true = refl
or_if false false = refl

-- The sets are those of `s`, and the clients of `base`.
pub with_base :
    {n : ℕ} (s : SelectServer) (base : Server)
    → Cached n s
    → Kept n s.fd_read_bak base.clients base.clients_change s.max_sock
    → Cached n (record s { base = base })
with_base s base h kept = record {
  p = h.p;
  q = h.q;
  r = h.r;
  read = h.read;
  write = h.write;
  bak = h.bak;
  kept = kept;
}

module _ {ℓ} {S : Type ℓ} (event : NetEvent S) where
  pub take_clients-Cached :
      {n : ℕ} (s : SelectServer) (app : S)
      → Cached n s
      → Cached n (record s { base = (take_clients event s.base app).0 })
  unfolding take_clients
  take_clients-Cached s app h = elim (Bool-cases (length s.base.clients_buff == 0)) [
    | inl none_new ↦ rw none_new h
    | inr some_new ↦ rw some_new (with_base s _ h (inl refl))
  ]

  pub check_time-Cached :
      {n : ℕ} (now : ℕ) (s : SelectServer) (app : S)
      → Cached n s
      → Cached n (record s { base = (check_time event now s.base app).0 })
  unfolding check_time
  check_time-Cached now s app h =
      let dt = now - s.base.old_time in
      let r = check_clients event dt s.base.clients app in
      with_base s _ h (
        rw (← or_if s.base.clients_change r.1) (
          Kept-Stays s.base.clients s.base.clients_change s.max_sock r.1 r.0
            (check_clients-Stays event dt s.base.clients app) h.kept))

  transfer-Cached :
      {n : ℕ} (readable writable : Socket → Bool) (recv : Recv) (send : Send) (s : SelectServer)
      (app : S) (r : SelectServer × S)
      → Cached n s
      → transfer event readable writable recv send s app ≡ some r
      → Cached n r.0
  unfolding transfer
  transfer-Cached {n} readable writable recv send s app r h e =
      elim (Option-cases (read_data event readable recv s.base.clients app)) [
        | inl faulted_read ↦ absurd (none-ne-some _ (rw faulted_read at e))
        | inr (got, ran) ↦
            let base = with_served s.base got in
            let stays = read_data-Stays event readable recv s.base.clients app got ran in
            let first : Kept n s.fd_read_bak base.clients base.clients_change s.max_sock =
              Kept-Stays s.base.clients s.base.clients_change s.max_sock got.1 got.0 stays h.kept in
            elim (Option-cases (write_data event writable send base.clients got.2)) [
              | inl faulted_write ↦ absurd (none-ne-some _ (rw (ran, faulted_write) at e))
              | inr (put, wrote) ↦
                  let kept =
                    Kept-Stays base.clients base.clients_change s.max_sock put.1 put.0
                      (write_data-Stays event writable send base.clients got.2 put wrote) first in
                  let done = with_base s (with_served base put) h kept in
                  rw (← ap (λ x. x.0) (some-injective _ _ (rw (ran, wrote) at e))) done
            ]
      ]

  pub on_answer-Cached :
      {n : ℕ} (recv : Recv) (send : Send) (need : Bool) (s : SelectServer) (app : S) (a : Answer)
      (r : Bool × SelectServer × S)
      → Cached n s
      → on_answer event recv send need s app a ≡ some r
      → Cached n r.1
  on_answer-Cached recv send need s app interrupted r h e =
      rw (← ap (λ x. x.1) (some-injective _ _ e)) h
  on_answer-Cached recv send need s app failed r h e = rw (← ap (λ x. x.1) (some-injective _ _ e)) h
  on_answer-Cached recv send need s app idle r h e = rw (← ap (λ x. x.1) (some-injective _ _ e)) h
  on_answer-Cached recv send need s app (ready rd wr) r h e =
      elim (Option-cases (transfer event (in_set rd) (in_set (writable need wr)) recv send s app)) [
        | inl bad ↦ absurd (none-ne-some _ (rw bad at e))
        | inr (t, done) ↦
            rw (← ap (λ x. x.1) (some-injective _ _ (rw done at e)))
              (transfer-Cached (in_set rd) (in_set (writable need wr)) recv send s app t h done)
      ]

  pub after_event-Cached :
      {n : ℕ} (fuel : ℕ) (o : Option (Bool × SelectServer × S)) (go : Bool) (s' : SelectServer)
      (app' : S)
      → ((r : Bool × SelectServer × S) → o ≡ some r → Cached n r.1)
      → after_event event fuel o ≡ finished (go, s', app')
      → Cached n s'
  after_event-Cached fuel none go s' app' h e = absurd (cc)
  after_event-Cached fuel (some (false, s, app)) go s' app' h e =
      rw (← ap (λ x. x.1) (finished-injective e)) (h (false, s, app) refl)
  after_event-Cached {n} fuel (some (true, s, app)) go s' app' h e =
      messages (do_msg_all event fuel s.base.clients app) refl e
    where
      messages :
          (r : Run (Clients × S))
          → do_msg_all event fuel s.base.clients app ≡ r
          → with_messages event s r ≡ finished (go, s', app')
          → Cached n s'
      messages faulted ran e1 = absurd (cc)
      messages out_of_fuel ran e1 = absurd (cc)
      messages (finished (m, app1)) ran e1 =
          let before = h (true, s, app) refl in
          rw (← ap (λ x. x.1) (finished-injective e1)) (
            with_base s (record (s.base) { clients = m }) before
              (Kept-Stays s.base.clients s.base.clients_change s.max_sock false m
                (inr (do_msg_all-keys event fuel s.base.clients app m app1 ran)) before.kept))
