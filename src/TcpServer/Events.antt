-- ===== src/TcpServer/Events.antt =====
-- The counters under the events of the CellServers, as long as nothing wraps round.
use cpp100net.Common.{
  ℕ, ◌+◌, ◌-◌, ◌^◌, ◌%◌, ◌≤◌, ◌<◌, ◌≡◌, refl, ap, ap₂, ◌∙◌, some, List, [], ◌∷◌, length, ltb, arith,
  Bool-cases, inl, inr,
}
use cpp100net.Client.{Client, client_heart_dead_time}
use cpp100net.Server.{Clients}
use cpp100net.Server.Heart.{kept, gone, leave_all}
use cpp100net.Server.Join.{joined_all}
use cpp100net.TcpServer.{Counters, inc, dec, less, events, on_net_join, on_net_leave}

pub inc_lem : (n : ℕ) → n < 2 ^ 31 → inc n ≡ n + 1
unfolding inc
inc_lem n h = omega arith

pub dec_lem : (n : ℕ) → 0 < n → n < 2 ^ 31 → dec n ≡ n - 1
unfolding dec
dec_lem n p h = omega arith

top : (a : ℕ) → a < 2 ^ 31 → (a + 2 ^ 31) % 2 ^ 32 ≡ a + 2 ^ 31
top a h = omega arith

ltb-shift : (a b : ℕ) → ltb (a + 2 ^ 31) (b + 2 ^ 31) ≡ ltb a b
ltb-shift a b = ground arith

pub less_lem : (a b : ℕ) → a < 2 ^ 31 → b < 2 ^ 31 → less a b ≡ ltb a b
unfolding less
less_lem a b h k = rw (top a h, top b k) (ltb-shift a b)

pub joined_all-events :
    (id : ℕ) (cs : List Client) (n : Counters)
    → n.client_join + length cs < 2 ^ 31
    → joined_all events id cs n ≡ record n { client_join = n.client_join + length cs }
unfolding joined_all on_net_join
joined_all-events id [] n h = ap (λ k. record n { client_join = k }) (omega arith)
joined_all-events id (c ∷ cs) n h =
    let one = inc_lem n.client_join (omega arith) in
    joined_all-events id cs (on_net_join (record c { server_id = some id }) n) (omega (arith, one))
    ∙ ap (λ k. record n { client_join = k }) (omega (arith, one))

pub leave_all-events :
    (cs : List Client) (n : Counters)
    → length cs ≤ n.client_join
    → length cs ≤ n.client_accept
    → n.client_join < 2 ^ 31
    → n.client_accept < 2 ^ 31
    → leave_all events cs n ≡ record n {
      client_accept = n.client_accept - length cs;
      client_join = n.client_join - length cs;
    }
unfolding leave_all on_net_leave
leave_all-events [] n h k p q =
    ap₂ (λ k l. record n { client_accept = k; client_join = l }) (omega arith) (omega arith)
leave_all-events (c ∷ cs) n h k p q =
    let one = dec_lem n.client_join (omega arith) p in
    let two = dec_lem n.client_accept (omega arith) q in
    leave_all-events cs (on_net_leave c n) (omega (arith, one)) (omega (arith, two))
      (omega (arith, one)) (omega (arith, two))
    ∙ ap₂ (λ k l. record n { client_accept = k; client_join = l }) (omega (arith, two))
        (omega (arith, one))

pub length-kept : (dt : ℕ) (m : Clients) → length (kept dt m) + length (gone dt m) ≡ length m
unfolding kept gone
length-kept dt [] = refl
length-kept dt ((k, c) ∷ m) = elim (Bool-cases (ltb (c.dt_heart + dt) client_heart_dead_time)) [
  | inl e ↦ rw e (omega (arith, length-kept dt m))
  | inr e ↦ rw e (omega (arith, length-kept dt m))
]
