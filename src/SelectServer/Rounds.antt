-- ===== src/SelectServer/Rounds.antt =====
-- The kept read set over a round of OnRun.
use mathlib.Core.Option.{none-ne-some}
use cpp100net.Common.{
  ℕ, ◌-◌, ◌≤◌, ◌≡◌, refl, ap, Bool, true, false, ◌||◌, ◌==◌, some, none, [], ◌∷◌, length,
  Bool-cases, ◌⊎◌, inl, inr, if◌then◌else◌, arith,
}
use cpp100net.Sockets.{Send, Recv}
use cpp100net.Dispatch.{finished}
use cpp100net.FdSet.Bits.{zero-Shows}
use cpp100net.Server.{NetEvent, Clients, Server, take_clients, check_time, check_clients}
use cpp100net.SelectServer.Event.{
  SelectServer, Select, read_set, collect, prepare, do_net_event, round,
}
use cpp100net.SelectServer.Sets.{InRange}
use cpp100net.SelectServer.Cached.{Cached, prepare_exact}
use cpp100net.SelectServer.Steps.{
  with_base, take_clients-Cached, check_time-Cached, on_answer-Cached, after_event-Cached,
}
use cpp100net.SelectServer.Keys.{Stays, check_clients-Stays, finished-injective}

-- After CheckTime on some clients there is one left, or none and the flag is set.
someone_left :
    (m m' : Clients) (change left : Bool)
    → Stays left m m'
    → (length m == 0) ≡ false
    → (1 ≤ length m') ⊎ ((m' ≡ []) × ((change || left) ≡ true))
someone_left m [] true left stays e = inr (refl, refl)
someone_left m [] false left (inl gone) e = inr (refl, gone)
someone_left [] [] false left (inr same) e = absurd (cc)
someone_left ((k, c) ∷ m) [] false left (inr same) e = absurd (cc)
someone_left m (x ∷ m') change left stays e = inl (omega arith)

module _ {ℓ} {S : Type ℓ} (event : NetEvent S) where
  check_time_left :
      (now : ℕ) (b : Server) (app : S)
      → (length b.clients == 0) ≡ false
      → let b' = (check_time event now b app).0 in
        (1 ≤ length b'.clients) ⊎ ((b'.clients ≡ []) × (b'.clients_change ≡ true))
  unfolding check_time
  check_time_left now b app someone =
      let r = check_clients event (now - b.old_time) b.clients app in
      someone_left b.clients r.0 b.clients_change r.1
        (check_clients-Stays event (now - b.old_time) b.clients app) someone

  -- With no client left, and the flag set, DoNetEvent faults.
  prepare_empty :
      {n : ℕ} (limit : ℕ) (s : SelectServer)
      → Cached n s
      → s.base.clients ≡ []
      → s.base.clients_change ≡ true
      → prepare limit s ≡ none
  unfolding prepare read_set collect
  prepare_empty limit s h nobody changed =
      let (cleared, zeroed, _) = zero-Shows s.fd_read h.read in rw (changed, zeroed, nobody) refl

  do_net_event-Cached :
      {n : ℕ} (limit : ℕ) (select : Select) (recv : Recv) (send : Send) (s : SelectServer) (app : S)
      (r : Bool × SelectServer × S)
      → Cached n s
      → InRange n limit s.base.clients
      → (1 ≤ length s.base.clients) ⊎ ((s.base.clients ≡ []) × (s.base.clients_change ≡ true))
      → do_net_event event limit select recv send s app ≡ some r
      → Cached n r.1
  unfolding do_net_event
  do_net_event-Cached limit select recv send s app r h fit (inr (nobody, changed)) e =
      absurd (none-ne-some _ (rw (prepare_empty limit s h nobody changed) at e))
  do_net_event-Cached limit select recv send s app r h fit (inl someone) e =
      let (p, prepared, exact) = prepare_exact limit s h fit someone in
      on_answer-Cached event recv send p.0 p.1 app
        (select p.1.max_sock p.1.fd_read (if p.0 then some p.1.fd_write else none)) r exact.5
        (rw prepared at e)

  -- A round that ends without a fault, of a server whose kept set was that of its clients unless they had
  -- changed, and in which the sockets of the clients that CheckTime leaves are valid and inside the
  -- arrays, leaves the kept set so: it is that of the clients that are there now, or the flag is set.
  pub round-Cached :
      {n : ℕ} (limit fuel now : ℕ) (select : Select) (recv : Recv) (send : Send) (s : SelectServer)
      (app : S) (go : Bool) (s' : SelectServer) (app' : S)
      → Cached n s
      → InRange n limit
          (let taken = take_clients event s.base app in
            check_time event now taken.0 taken.1).0.clients
      → round event limit fuel now select recv send s app ≡ finished (go, s', app')
      → Cached n s'
  unfolding round
  round-Cached limit fuel now select recv send s app go s' app' h fit e =
      let taken = take_clients event s.base app in
      let h1 = take_clients-Cached event s app h in
      let checked = check_time event now taken.0 taken.1 in
      let h2 = check_time-Cached event now (record s { base = taken.0 }) taken.1 h1 in
      elim (Bool-cases (length taken.0.clients == 0)) [
        | inl nobody ↦
            rw (← ap (λ x. x.1) (finished-injective (rw nobody at e)))
              (with_base s (record (taken.0) { old_time = now }) h h1.kept)
        | inr someone ↦
            after_event-Cached event fuel
              (do_net_event event limit select recv send (record s { base = checked.0 }) checked.1)
              go s' app'
              (λ r.
                do_net_event-Cached limit select recv send (record s { base = checked.0 }) checked.1
                  r h2 fit (check_time_left now taken.0 taken.1 someone))
              (rw someone at e)
      ]
