-- ===== src/TcpServer/Reach.antt =====
-- The counters of depends/include/EasyTcpServer.hpp over any order of what its threads do.
use mathlib.Core.Option.{some-injective}
use cpp100net.Common.{
  Bool, ℕ, zero, suc, ◌+◌, ◌^◌, ◌≤◌, ◌<◌, ◌≡◌, refl, ap, sym, ◌∙◌, none, some, List, [], ◌∷◌, ◌++◌,
  length, ltb, ltb→lt, arith, Bool-cases, Option-cases, inl, inr, length-append,
}
use cpp100net.Sockets.{Socket}
use cpp100net.Client.{Client}
use cpp100net.Server.{Server, add_client, get_client_count, take_clients, check_time}
use cpp100net.Server.Join.{AreDistinct}
use cpp100net.TcpServer.{
  Counters, TcpServer, events, add_client_to_cell_server, admit, accept, create, start, start_from,
  new_server,
}
use cpp100net.TcpServer.Events.{inc_lem, less_lem}
use cpp100net.TcpServer.Balance.{add_client_to_cell_server-Assigned}
use cpp100net.Sockets.{Send, Recv}
use cpp100net.SelectServer.{Served, with_served, read_data, write_data}
use cpp100net.TcpServer.Select.{read_data-Fewer, write_data-Fewer}
use cpp100net.TcpServer.Counts.{
  served-IsConsistent, total, joined, IsConsistent, total_around, joined_around, takes-IsConsistent,
  checks-IsConsistent,
}

-- One thing happening: the accepting thread takes a connection, or a CellServer's thread takes its
-- new clients over, checks for silent ones, or reads from or writes to its clients.
pub data Step (t : TcpServer) : TcpServer → Type 0 where
  accepts :
      (answer : Socket) (id : ℕ) (fresh : ℕ → List ℕ) (sock : Socket) (closed : List Socket)
      (t' : TcpServer)
      → accept answer id fresh t ≡ some (sock, closed, t')
      → Step t t'
  takes :
      (front back : List Server) (s : Server)
      → t.cell_servers ≡ front ++ s ∷ back
      → AreDistinct s.clients_buff s.clients
      → Step t (record t {
        cell_servers = front ++ (take_clients events s t.counters).0 ∷ back;
        counters = (take_clients events s t.counters).1;
      })
  checks :
      (front back : List Server) (s : Server) (now : ℕ)
      → t.cell_servers ≡ front ++ s ∷ back
      → Step t (record t {
        cell_servers = front ++ (check_time events now s t.counters).0 ∷ back;
        counters = (check_time events now s t.counters).1;
      })
  reads :
      (front back : List Server) (s : Server) (readable : Socket → Bool) (recv : Recv)
      (served : Served Counters)
      → t.cell_servers ≡ front ++ s ∷ back
      → read_data events readable recv s.clients t.counters ≡ some served
      → Step t
          (record t { cell_servers = front ++ with_served s served ∷ back; counters = served.2 })
  writes :
      (front back : List Server) (s : Server) (writable : Socket → Bool) (send : Send)
      (served : Served Counters)
      → t.cell_servers ≡ front ++ s ∷ back
      → write_data events writable send s.clients t.counters ≡ some served
      → Step t
          (record t { cell_servers = front ++ with_served s served ∷ back; counters = served.2 })

count-add_client :
    (c : Client) (s : Server) → get_client_count (add_client c s) ≡ get_client_count s + 1
unfolding add_client get_client_count
count-add_client c s = omega (arith, length-append s.clients_buff (c ∷ []))

added_joined :
    (front back : List Server) (c : Client) (s : Server)
    → joined (front ++ add_client c s ∷ back) ≡ joined front + (length s.clients + joined back)
unfolding add_client
added_joined front back c s = joined_around front back (add_client c s)

added_lem :
    (c : Client) (servers servers' : List Server)
    → add_client_to_cell_server c servers ≡ some servers'
    → (total servers' ≡ total servers + 1) × (joined servers' ≡ joined servers)
unfolding add_client_to_cell_server
added_lem c [] servers' e = let bad : none ≡ some servers' = e in cc
added_lem c (s ∷ ss) servers' e =
    let a = add_client_to_cell_server-Assigned c s ss in
    let same = some-injective _ _ (sym a.added ∙ e) in
    let one = count-add_client c a.chosen in
    (
      omega (
        arith,
        one,
        ap total same,
        ap total a.parts,
        total_around a.front a.back a.chosen,
        total_around a.front a.back (add_client c a.chosen),
      ),
      omega (
        arith,
        ap joined same,
        ap joined a.parts,
        joined_around a.front a.back a.chosen,
        added_joined a.front a.back c a.chosen,
      ),
    )

-- With room left a connection is admitted, and counted.
admit-IsConsistent :
    (t : TcpServer) (c : Client) (sock sock' : Socket) (closed : List Socket) (t' : TcpServer)
    → IsConsistent t
    → admit c sock t ≡ some (sock', closed, t')
    → IsConsistent t'
unfolding admit
admit-IsConsistent t c sock sock' closed t' v e =
    let room_left =
      less_lem t.counters.client_accept t.n_max_client
        (omega (arith, v.accepted, v.within_limit, v.is_int)) v.is_int in
    elim (Bool-cases (ltb t.counters.client_accept t.n_max_client)) [
      | inr full ↦
          let same = some-injective _ _ (rw (room_left, full) at e) in
          rw (sym (ap (λ r. r.2) same)) v
      | inl room ↦ elim (Option-cases (add_client_to_cell_server c t.cell_servers)) [
        | inl fault ↦
            let bad : none ≡ some (sock', closed, t') = rw (room_left, room, fault) at e in cc
        | inr (servers, added) ↦
            let same = some-injective _ _ (rw (room_left, room, added) at e) in
            let more = added_lem c t.cell_servers servers added in
            let below = ltb→lt t.counters.client_accept t.n_max_client room in
            let one = inc_lem t.counters.client_accept (omega (arith, below, v.is_int)) in
            rw (sym (ap (λ r. r.2) same)) (record {
              accepted = omega (arith, one, more.0, v.accepted);
              taken = omega (arith, more.1, v.taken);
              within_limit = omega (arith, more.0, below, v.accepted);
              is_int = v.is_int;
            })
      ]
    ]

pub Step-IsConsistent : {t t' : TcpServer} → Step t t' → IsConsistent t → IsConsistent t'
unfolding accept
Step-IsConsistent {t} (accepts none id fresh sock closed t' e) v =
    rw (sym (ap (λ r. r.2) (some-injective _ _ e))) v
Step-IsConsistent {t} (accepts (some n) id fresh sock closed t' e) v =
    admit-IsConsistent t _ (some n) sock closed t' v e
Step-IsConsistent {t} (takes front back s parts distinct) v =
    takes-IsConsistent t front back s v parts distinct
Step-IsConsistent {t} (checks front back s now parts) v =
    checks-IsConsistent t front back s now v parts
Step-IsConsistent {t} (reads front back s readable recv served parts done) v =
    served-IsConsistent t front back s served v parts
      (λ room. read_data-Fewer readable recv s.clients t.counters served room done)
Step-IsConsistent {t} (writes front back s writable send served parts done) v =
    served-IsConsistent t front back s served v parts
      (λ room. write_data-Fewer writable send s.clients t.counters served room done)

-- Any number of steps, in any order.
pub data Steps : TcpServer → TcpServer → Type 0 where
  none_yet : {t : TcpServer} → Steps t t
  one_more : {t u w : TcpServer} → Steps t u → Step u w → Steps t w

Steps-IsConsistent : {t u : TcpServer} → Steps t u → IsConsistent t → IsConsistent u
Steps-IsConsistent none_yet v = v
Steps-IsConsistent (one_more before step) v = Step-IsConsistent step (Steps-IsConsistent before v)

start_from-empty :
    (n count : ℕ) (clock : ℕ → ℕ)
    → (total (start_from n count clock) ≡ 0) × (joined (start_from n count clock) ≡ 0)
unfolding start_from get_client_count new_server
start_from-empty n zero clock = (refl, refl)
start_from-empty n (suc count) clock =
    let rest = start_from-empty (n + 1) count clock in
    (omega (arith, rest.0), omega (arith, rest.1))

-- From a server that was started with any number of CellServers, whatever connections come in,
-- whenever a CellServer's thread takes its new clients over, with sockets that are distinct, checks
-- for silent ones, or reads from or writes to its clients as a CellSelectServer does, and in whatever
-- order these happen: `_clientAccept` is the number of
-- clients, `_clientJoin` the number of those taken over, and there are never more clients than the
-- limit, where this is a positive int.
pub Steps-counts :
    (send_size recv_size max count : ℕ) (clock : ℕ → ℕ) (t : TcpServer)
    → max < 2 ^ 31
    → Steps (start count clock (create send_size recv_size max)) t
    → (t.counters.client_accept ≡ total t.cell_servers)
      × (t.counters.client_join ≡ joined t.cell_servers)
      × (total t.cell_servers ≤ t.n_max_client)
unfolding start create
Steps-counts send_size recv_size max count clock t int steps =
    let none_there = start_from-empty 0 count clock in
    let v = Steps-IsConsistent steps (record {
      accepted = sym none_there.0;
      taken = sym none_there.1;
      within_limit = omega (arith, none_there.0);
      is_int = int;
    }) in
    (v.accepted, v.taken, v.within_limit)
