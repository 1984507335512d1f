-- ===== src/TcpServer/Counts.antt =====
-- The counters of the server under what the thread of one CellServer does.
use cpp100net.Common.{ℕ, ◌+◌, ◌-◌, ◌^◌, ◌≤◌, ◌<◌, ◌≡◌, ap, ◌∙◌, List, [], ◌∷◌, ◌++◌, length, arith}
use cpp100net.Server.{Server, get_client_count, take_clients, check_time}
use cpp100net.Server.Heart.{gone, check_time_lem}
use cpp100net.Server.Join.{AreDistinct, take_clients_lem}
use cpp100net.SelectServer.{Served, with_served}
use cpp100net.TcpServer.Select.{HasRoom, Fewer}
use cpp100net.TcpServer.{TcpServer, Counters, events, accept}
use cpp100net.TcpServer.Events.{joined_all-events, leave_all-events, length-kept}

-- All clients, and those that a CellServer has taken over.
abbrev pub total : List Server → ℕ
total [] = 0
total (s ∷ ss) = get_client_count s + total ss

abbrev pub joined : List Server → ℕ
joined [] = 0
joined (s ∷ ss) = length s.clients + joined ss

-- The counters say how many clients there are, and there are no more than the limit.
pub record IsConsistent (t : TcpServer) : Type 0 where
  pub accepted : t.counters.client_accept ≡ total t.cell_servers
  pub taken : t.counters.client_join ≡ joined t.cell_servers
  pub within_limit : total t.cell_servers ≤ t.n_max_client
  pub is_int : t.n_max_client < 2 ^ 31

total-append : (ss rs : List Server) → total (ss ++ rs) ≡ total ss + total rs
total-append [] rs = omega arith
total-append (s ∷ ss) rs = omega (arith, total-append ss rs)

joined-append : (ss rs : List Server) → joined (ss ++ rs) ≡ joined ss + joined rs
joined-append [] rs = omega arith
joined-append (s ∷ ss) rs = omega (arith, joined-append ss rs)

joined_le_total : (ss : List Server) → joined ss ≤ total ss
unfolding get_client_count
joined_le_total [] = omega arith
joined_le_total (s ∷ ss) = omega (arith, joined_le_total ss)

-- The servers with the one between `front` and `back` changed.
module _ (front back : List Server) (s : Server) where
  pub total_around : total (front ++ s ∷ back) ≡ total front + (get_client_count s + total back)
  total_around = total-append front (s ∷ back)

  pub joined_around : joined (front ++ s ∷ back) ≡ joined front + (length s.clients + joined back)
  joined_around = joined-append front (s ∷ back)

-- A server's thread changed its own clients, and the counters with them.
replaced-IsConsistent :
    (t : TcpServer) (front back : List Server) (s s' : Server) (n : Counters)
    → IsConsistent t
    → t.cell_servers ≡ front ++ s ∷ back
    → n.client_accept + get_client_count s ≡ t.counters.client_accept + get_client_count s'
    → n.client_join + length s.clients ≡ t.counters.client_join + length s'.clients
    → get_client_count s' ≤ get_client_count s
    → IsConsistent (record t { cell_servers = front ++ s' ∷ back; counters = n })
replaced-IsConsistent t front back s s' n v parts accept join fewer =
    let before = ap total parts ∙ total_around front back s in
    let after = total_around front back s' in
    let before_joined = ap joined parts ∙ joined_around front back s in
    let after_joined = joined_around front back s' in
    record {
      accepted = omega (arith, accept, before, after, v.accepted);
      taken = omega (arith, join, before_joined, after_joined, v.taken);
      within_limit = omega (arith, before, after, fewer, v.within_limit);
      is_int = v.is_int;
    }

-- The counters leave room for the clients of one server.
counters_bound :
    (t : TcpServer) (front back : List Server) (s : Server)
    → IsConsistent t
    → t.cell_servers ≡ front ++ s ∷ back
    → (t.counters.client_join + length s.clients_buff < 2 ^ 31)
      × (t.counters.client_accept < 2 ^ 31)
      × (length s.clients ≤ t.counters.client_join)
      × (length s.clients ≤ t.counters.client_accept)
unfolding get_client_count
counters_bound t front back s v parts =
    let all = ap total parts ∙ total_around front back s in
    let ours = ap joined parts ∙ joined_around front back s in
    let f = joined_le_total front in
    let b = joined_le_total back in
    (
      omega (arith, v.taken, v.within_limit, v.is_int, all, ours, f, b),
      omega (arith, v.accepted, v.within_limit, v.is_int),
      omega (arith, v.taken, ours),
      omega (arith, v.accepted, all),
    )

pub takes-IsConsistent :
    (t : TcpServer) (front back : List Server) (s : Server)
    → IsConsistent t
    → t.cell_servers ≡ front ++ s ∷ back
    → AreDistinct s.clients_buff s.clients
    → IsConsistent (record t {
      cell_servers = front ++ (take_clients events s t.counters).0 ∷ back;
      counters = (take_clients events s t.counters).1;
    })
takes-IsConsistent t front back s v parts distinct =
    let taken = take_clients_lem events s t.counters distinct in
    let counted =
      taken.3
      ∙ joined_all-events s.id s.clients_buff t.counters
          (counters_bound t front back s v parts).0 in
    replaced-IsConsistent t front back s (take_clients events s t.counters).0
      (take_clients events s t.counters).1 v parts
      (omega (arith, ap (λ n. n.client_accept) counted, taken.1))
      (omega (arith, ap (λ n. n.client_join) counted, taken.2)) (omega (arith, taken.1))

pub checks-IsConsistent :
    (t : TcpServer) (front back : List Server) (s : Server) (now : ℕ)
    → IsConsistent t
    → t.cell_servers ≡ front ++ s ∷ back
    → IsConsistent (record t {
      cell_servers = front ++ (check_time events now s t.counters).0 ∷ back;
      counters = (check_time events now s t.counters).1;
    })
unfolding get_client_count
checks-IsConsistent t front back s now v parts =
    let bound = counters_bound t front back s v parts in
    let checked = check_time_lem events now s t.counters in
    let dt = now - s.old_time in
    let parted = length-kept dt s.clients in
    let counted =
      leave_all-events (gone dt s.clients) t.counters (omega (arith, parted, bound.2))
        (omega (arith, parted, bound.3)) (omega (arith, bound.0)) bound.1 in
    let counters = ap (λ r. r.1) checked ∙ counted in
    let accept = ap (λ n. n.client_accept) counters in
    let join = ap (λ n. n.client_join) counters in
    let count = ap (λ r. get_client_count r.0) checked in
    let clients = ap (λ r. length r.0.clients) checked in
    replaced-IsConsistent t front back s (check_time events now s t.counters).0
      (check_time events now s t.counters).1 v parts (omega (arith, parted, bound.3, accept, count))
      (omega (arith, parted, bound.2, join, clients)) (omega (arith, parted, count))

-- A CellServer's thread has read or written its clients.
pub served-IsConsistent :
    (t : TcpServer) (front back : List Server) (s : Server) (served : Served Counters)
    → IsConsistent t
    → t.cell_servers ≡ front ++ s ∷ back
    → (HasRoom t.counters (length s.clients)
        → Fewer t.counters served.2 (length s.clients) (length served.0))
    → IsConsistent
        (record t { cell_servers = front ++ with_served s served ∷ back; counters = served.2 })
unfolding get_client_count
served-IsConsistent t front back s served v parts run =
    let bound = counters_bound t front back s v parts in
    let fewer = run (record {
      accepted = bound.3;
      taken = bound.2;
      accept_int = bound.1;
      join_int = omega (arith, bound.0);
    }) in
    replaced-IsConsistent t front back s (with_served s served) served.2 v parts
      (omega (arith, fewer.accept)) (omega (arith, fewer.join)) (omega (arith, fewer.fewer))
