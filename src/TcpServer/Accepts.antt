-- ===== src/TcpServer/Accepts.antt =====
-- A round of the accepting loop in which a connection is waiting.
use cpp100net.Common.{
  ℕ, ◌*◌, ◌<◌, ◌≡◌, refl, Bool, true, false, ◌||◌, ◌==◌, some, List, [], ◌∷◌, ◌++◌, Returns,
  Bool-cases, inl, inr, ◌>>=◌,
}
use cpp100net.Sockets.{Socket}
use cpp100net.Client.{Client, init}
use cpp100net.Server.{Server, add_client}
use cpp100net.FdSet.{FdSet}
use cpp100net.FdSet.Bits.{Shows, zero-Shows, add-Shows}
use cpp100net.SelectServer.Event.{ready, in_set}
use cpp100net.SelectServer.Sets.{Shows-same}
use cpp100net.TcpServer.{TcpServer, less, inc, accept, admit}
use cpp100net.TcpServer.Balance.{Assigned, add_client_to_cell_server-Assigned}
use cpp100net.TcpServer.Listen.{time4msg}
use cpp100net.TcpServer.AcceptLoop.{Round, Rounded, on_answer, listen_set, accept_round}

-- What becomes of the connection at the socket `j`, whose client would be `c`: it is closed where
-- there are as many clients as allowed, else it is counted and given to a CellServer.
pub data Outcome (j : ℕ) (c : Client) (t : TcpServer) : List Socket → TcpServer → Type 0 where
  full : less t.counters.client_accept t.n_max_client ≡ false → Outcome j c t (some j ∷ []) t
  placed :
      less t.counters.client_accept t.n_max_client ≡ true
      → (a : Assigned c t.cell_servers)
      → Outcome j c t [] (record t {
        cell_servers = a.front ++ add_client c a.chosen ∷ a.back;
        counters = record (t.counters) { client_accept = inc t.counters.client_accept };
      })

or_false : (a : Bool) → (a || false) ≡ a
or_false true = refl
or_false false = refl

listen_set-Shows :
    {n : ℕ} {p : ℕ → Bool} (limit k : ℕ) (fd_read : FdSet)
    → Shows n p fd_read
    → k < limit
    → k < 8 * n
    → Returns (listen_set limit (some k) fd_read) (Shows n (λ i. i == k))
unfolding listen_set
listen_set-Shows limit k fd_read h below inside =
    let (cleared, zeroed, hz) = zero-Shows fd_read h in
    let (set, added, hs) = add-Shows limit k cleared below inside hz in
    (set, rw (zeroed, added) refl, Shows-same (λ i. i == k) (λ i. or_false (i == k)) hs)

accept-Outcome :
    (j id : ℕ) (fresh : ℕ → List ℕ) (t : TcpServer) (s : Server) (ss : List Server)
    → t.cell_servers ≡ s ∷ ss
    → Returns (accept (some j) id fresh t) λ r.
      Outcome j (init id (some j) (fresh t.n_send_buff_size) (fresh t.n_recv_buff_size)) t r.1 r.2
unfolding accept admit
accept-Outcome j id fresh t s ss some_server =
    let c = init id (some j) (fresh t.n_send_buff_size) (fresh t.n_recv_buff_size) in
    let a : Assigned c t.cell_servers =
      rw some_server (add_client_to_cell_server-Assigned c s ss) in
    elim (Bool-cases (less t.counters.client_accept t.n_max_client)) [
      | inl room ↦ rw room ((some j, [], _), rw (a.added) refl, placed room a)
      | inr none_left ↦ rw none_left ((some j, some j ∷ [], t), refl, full none_left)
    ]

-- The round once `time4msg` is done.
accept_ready-Outcome :
    {n : ℕ} {p : ℕ → Bool} (limit k j : ℕ) (r : Round) (fd_read : FdSet) (t : TcpServer)
    (s : Server) (ss : List Server) (read write : ℕ → Bool)
    → Shows n p fd_read
    → t.sock ≡ some k
    → k < limit
    → k < 8 * n
    → t.cell_servers ≡ s ∷ ss
    → ((set : FdSet) → Shows n (λ i. i == k) set → r.select (some k) set ≡ ready read write)
    → read k ≡ true
    → r.answer ≡ some j
    → Returns {A = FdSet × Rounded}
        (listen_set limit t.sock fd_read >>= λ set.
          on_answer r t (r.select t.sock set) >>= λ done. some (set, done))
        λ x.
          Shows n (λ i. i == k) x.0
          × (x.1.0 ≡ true)
          × Outcome j
              (init r.id (some j) (r.fresh t.n_send_buff_size) (r.fresh t.n_recv_buff_size))
              t
              x.1.1
              x.1.2
accept_ready-Outcome limit k j r fd_read t s ss read write h listens below inside servers answers
      is_ready came =
    let (set, made, exact) = listen_set-Shows limit k fd_read h below inside in
    let made' : listen_set limit t.sock fd_read ≡ some set = rw listens made in
    let answered : r.select t.sock set ≡ ready read write = rw listens (answers set exact) in
    let there : in_set read t.sock ≡ true = rw listens is_ready in
    let (a, took, outcome) = accept-Outcome j r.id r.fresh t s ss servers in
    ((set, (true, a.1, a.2)), rw (made', answered, there, came, took) refl, (exact, refl, outcome))

-- A round of a server with a valid listening socket inside the array, and at least one CellServer, in
-- which select, handed the set of exactly that socket, answers that it is ready, and a connection is
-- accepted, goes on without a fault: once `time4msg` has set its counts back, at the limit the
-- connection is closed and nothing else changes, else it is counted and given to the first CellServer
-- with the fewest clients.
pub accept_round-Outcome :
    {n : ℕ} {p : ℕ → Bool} (limit k j : ℕ) (r : Round) (fd_read : FdSet) (t : TcpServer)
    (s : Server) (ss : List Server) (read write : ℕ → Bool)
    → Shows n p fd_read
    → t.sock ≡ some k
    → k < limit
    → k < 8 * n
    → t.cell_servers ≡ s ∷ ss
    → ((set : FdSet) → Shows n (λ i. i == k) set → r.select (some k) set ≡ ready read write)
    → read k ≡ true
    → r.answer ≡ some j
    → let t1 = time4msg r.second_passed t in
      Returns (accept_round limit r fd_read t) λ x.
        Shows n (λ i. i == k) x.0
        × (x.1.0 ≡ true)
        × Outcome j
            (init r.id (some j) (r.fresh t.n_send_buff_size) (r.fresh t.n_recv_buff_size))
            t1
            x.1.1
            x.1.2
unfolding accept_round time4msg
accept_round-Outcome limit k j r fd_read t s ss read write h listens below inside servers answers
      is_ready came =
    accept_ready-Outcome limit k j r fd_read (time4msg r.second_passed t) s ss read write h listens
      below inside servers answers is_ready came
