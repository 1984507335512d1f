-- ===== src/Server/Heart.antt =====
-- depends/include/CellServer.hpp, CheckTime: who survives the heartbeat check.
use cpp100net.Common.{
  ℕ, ◌+◌, ◌-◌, ◌≤◌, ◌≡◌, refl, ap, sym, ◌∙◌, Bool, true, false, not, ◌||◌, List, [], ◌∷◌, ltb, leb,
  if◌then◌else◌, arith, Bool-cases, inl, inr,
}
use native.Mathlib.Nat.{add_assoc}
use cpp100net.Client.{Client, client_heart_dead_time}
use cpp100net.Server.{NetEvent, Clients, Server, check_clients, check_time}

abbrev pub aged : ℕ → Client → Client
aged dt c = record c { dt_heart = c.dt_heart + dt }

-- The clients that were silent for less than the limit, `dt` older.
unfoldable pub kept : ℕ → Clients → Clients
kept dt [] = []
kept dt ((k, c) ∷ m) =
    if ltb (c.dt_heart + dt) client_heart_dead_time then (k, aged dt c) ∷ kept dt m else kept dt m

-- The others, in order.
unfoldable pub gone : ℕ → Clients → List Client
gone dt [] = []
gone dt ((k, c) ∷ m) =
    if ltb (c.dt_heart + dt) client_heart_dead_time then gone dt m else aged dt c ∷ gone dt m

abbrev pub is_empty {ℓ} : {A : Type ℓ} → List A → Bool
is_empty [] = true
is_empty (x ∷ xs) = false

pub dead-eq-not : (n : ℕ) → leb client_heart_dead_time n ≡ not (ltb n client_heart_dead_time)
dead-eq-not n = ground arith

module _ {ℓ} {S : Type ℓ} (event : NetEvent S) where
  unfoldable pub leave_all : List Client → S → S
  leave_all [] app = app
  leave_all (c ∷ cs) app = leave_all cs (event.on_net_leave c app)

  check_clients_lem :
      (dt : ℕ) (m : Clients) (app : S)
      → check_clients event dt m app
        ≡ (kept dt m, not (is_empty (gone dt m)), leave_all (gone dt m) app)
  unfolding check_clients kept gone leave_all
  check_clients_lem dt [] app = refl
  check_clients_lem dt ((k, c) ∷ m) app =
      elim (Bool-cases (ltb (c.dt_heart + dt) client_heart_dead_time)) [
        | inl e ↦ rw (e, dead-eq-not (c.dt_heart + dt), e, check_clients_lem dt m app) refl
        | inr e ↦
            rw
              (
                e,
                dead-eq-not (c.dt_heart + dt),
                e,
                check_clients_lem dt m (event.on_net_leave (aged dt c) app),
              )
              refl
      ]

  -- `CheckTime` at the time `now` keeps exactly the clients whose silence, with the time since the
  -- last check, is below 60000 ms, in order and that much older; for each of the others, in order,
  -- the application is told once that it leaves; the change mark is set if one left; and the time of
  -- the check is noted. Nothing else changes.
  pub check_time_lem :
      (now : ℕ) (s : Server) (app : S)
      → let dt = now - s.old_time in
        check_time event now s app ≡ (
          record s {
            clients = kept dt s.clients;
            old_time = now;
            clients_change = s.clients_change || not (is_empty (gone dt s.clients));
          },
          leave_all (gone dt s.clients) app,
        )
  unfolding check_time
  check_time_lem now s app = rw (check_clients_lem (now - s.old_time) s.clients app)

stays_dead :
    (n a b : ℕ)
    → ltb (n + a) client_heart_dead_time ≡ false
    → ltb (n + (a + b)) client_heart_dead_time ≡ false
stays_dead n a b h = ground arith

-- Two checks keep whom one check over both spans keeps.
kept-kept : (a b : ℕ) (m : Clients) → kept b (kept a m) ≡ kept (a + b) m
unfolding kept
kept-kept a b [] = refl
kept-kept a b ((k, c) ∷ m) = elim (Bool-cases (ltb (c.dt_heart + a) client_heart_dead_time)) [
  | inl e ↦ rw (e, add_assoc c.dt_heart a b, kept-kept a b m)
  | inr e ↦ rw (e, stays_dead c.dt_heart a b e) (kept-kept a b m)
]

-- How often the check runs does not matter: a check at `t` followed by one at `u` leaves the same
-- clients, with the same timers, as the one at `u` alone.
pub check_time-check_time {ℓ} :
    {S : Type ℓ} (event : NetEvent S) (t u : ℕ) (s : Server) (app app' app'' : S)
    → s.old_time ≤ t
    → t ≤ u
    → (check_time event u (check_time event t s app).0 app').0.clients
      ≡ (check_time event u s app'').0.clients
check_time-check_time event t u s app app' app'' h k =
    ap (λ r. r.0.clients) (check_time_lem event u (check_time event t s app).0 app')
    ∙ (ap (λ r. kept (u - r.0.old_time) r.0.clients) (check_time_lem event t s app)
        ∙ (kept-kept (t - s.old_time) (u - t) s.clients
            ∙ (ap (λ n. kept n s.clients) (omega arith)
                ∙ sym (ap (λ r. r.0.clients) (check_time_lem event u s app'')))))
