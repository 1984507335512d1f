-- ===== src/TcpServer/Balance.antt =====
-- depends/include/EasyTcpServer.hpp, addClientToCellServer: which CellServer gets a new client.
use cpp100net.Common.{
  ℕ, ◌+◌, ◌≤◌, ◌≡◌, refl, ap, sym, ◌∙◌, some, List, [], ◌∷◌, ◌++◌, length, false, ltb, ltb→lt,
  ltb-false, ◌>>=◌, arith, Bool-cases, inl, inr, length-append, append-nil, append_assoc,
}
use cpp100net.Client.{Client}
use cpp100net.Server.{Server, add_client, get_client_count}
use cpp100net.TcpServer.{lesser, find_min, add_at, add_client_to_cell_server}

-- Each of the servers has at least `n` clients.
abbrev pub AtLeast : ℕ → List Server → Type 0
AtLeast n [] = Unit {0}
AtLeast n (s ∷ ss) = (n ≤ get_client_count s) × AtLeast n ss

-- `i` is the place of the first server with the fewest clients, `n` of them.
record IsFirstLeast (best : ℕ × ℕ) (ss : List Server) : Type 0 where
  front : List Server
  least : Server
  back : List Server
  parts : ss ≡ front ++ least ∷ back
  place : length front ≡ best.0
  count : get_client_count least ≡ best.1
  before : AtLeast (best.1 + 1) front
  behind : AtLeast best.1 back

AtLeast-weaker : {m n : ℕ} → m ≤ n → (ss : List Server) → AtLeast n ss → AtLeast m ss
AtLeast-weaker le [] h = tt
AtLeast-weaker le (s ∷ ss) h = (omega (arith, le, h.0), AtLeast-weaker le ss h.1)

AtLeast-append : (n : ℕ) (ss rs : List Server) → AtLeast n ss → AtLeast n rs → AtLeast n (ss ++ rs)
AtLeast-append n [] rs h k = k
AtLeast-append n (s ∷ ss) rs h k = (h.0, AtLeast-append n ss rs h.1 k)

AtLeast-seen : {best : ℕ × ℕ} {seen : List Server} → IsFirstLeast best seen → AtLeast best.1 seen
AtLeast-seen {best} h = rw h.parts (
    AtLeast-append best.1 h.front (h.least ∷ h.back) (AtLeast-weaker (omega arith) h.front h.before)
      (omega (arith, h.count), h.behind))

lesser-IsFirstLeast :
    (best : ℕ × ℕ) (seen : List Server) (s : Server)
    → IsFirstLeast best seen
    → IsFirstLeast (lesser best (length seen) s) (seen ++ s ∷ [])
unfolding lesser
lesser-IsFirstLeast best seen s h = elim (Bool-cases (ltb (get_client_count s) best.1)) [
  | inl e ↦ rw e (record {
    front = seen;
    least = s;
    back = [];
    parts = refl;
    place = refl;
    count = refl;
    before =
        AtLeast-weaker (omega (arith, ltb→lt (get_client_count s) best.1 e)) seen (AtLeast-seen h);
    behind = tt;
  })
  | inr e ↦ rw e (record {
    front = h.front;
    least = h.least;
    back = h.back ++ s ∷ [];
    parts = rw (h.parts, append_assoc h.front (h.least ∷ h.back) (s ∷ [])) refl;
    place = h.place;
    count = h.count;
    before = h.before;
    behind =
        AtLeast-append best.1 h.back (s ∷ []) h.behind
          (ltb-false (get_client_count s) best.1 e, tt);
  })
]

ltb_irrefl : (n : ℕ) → ltb n n ≡ false
ltb_irrefl n = ground arith

length_snoc : (ss : List Server) (s : Server) → length ss + 1 ≡ length (ss ++ s ∷ [])
length_snoc ss s = sym (length-append ss (s ∷ []))

find_min-IsFirstLeast :
    (best : ℕ × ℕ) (seen ss : List Server)
    → IsFirstLeast best seen
    → IsFirstLeast (find_min best (length seen) ss) (seen ++ ss)
unfolding find_min
find_min-IsFirstLeast best seen [] h = rw (append-nil seen) h
find_min-IsFirstLeast best seen (s ∷ ss) h =
    rw (sym (append_assoc seen (s ∷ []) ss), length_snoc seen s)
      (find_min-IsFirstLeast (lesser best (length seen) s) (seen ++ s ∷ []) ss
        (lesser-IsFirstLeast best seen s h))

add_at-append :
    (front : List Server) (s : Server) (back : List Server) (c : Client)
    → add_at (length front) c (front ++ s ∷ back) ≡ some (front ++ add_client c s ∷ back)
unfolding add_at
add_at-append [] s back c = refl
add_at-append (f ∷ front) s back c =
    ap (λ o. o >>= λ r. some (f ∷ r)) (add_at-append front s back c)

-- The servers with a new client: `chosen` got it.
pub record Assigned (c : Client) (servers : List Server) : Type 0 where
  pub front : List Server
  pub chosen : Server
  pub back : List Server
  pub parts : servers ≡ front ++ chosen ∷ back
  pub added : add_client_to_cell_server c servers ≡ some (front ++ add_client c chosen ∷ back)
  pub before : AtLeast (get_client_count chosen + 1) front
  pub behind : AtLeast (get_client_count chosen) back

lesser_self : (i : ℕ) (s : Server) → lesser (i, get_client_count s) i s ≡ (i, get_client_count s)
unfolding lesser
lesser_self i s = rw (ltb_irrefl (get_client_count s)) refl

find_min-first :
    (s : Server) (ss : List Server)
    → IsFirstLeast (find_min (0, get_client_count s) 0 (s ∷ ss)) (s ∷ ss)
unfolding find_min
find_min-first s ss = rw (lesser_self 0 s) (
    find_min-IsFirstLeast (0, get_client_count s) (s ∷ []) ss
      (record {
        front = [];
        least = s;
        back = [];
        parts = refl;
        place = refl;
        count = refl;
        before = tt;
        behind = tt;
      }))

-- Where there is a CellServer, a new client goes to exactly one, and that is the first one of those
-- with the fewest clients: each in front of it has more, and none behind it has fewer.
pub add_client_to_cell_server-Assigned :
    (c : Client) (s : Server) (ss : List Server) → Assigned c (s ∷ ss)
unfolding add_client_to_cell_server
add_client_to_cell_server-Assigned c s ss =
    let first = find_min-first s ss in
    record {
      front = first.front;
      chosen = first.least;
      back = first.back;
      parts = first.parts;
      added =
          ap (λ i. add_at i c (s ∷ ss)) (sym first.place)
          ∙ (ap (add_at (length first.front) c) first.parts
              ∙ add_at-append first.front first.least first.back c);
      before = rw first.count first.before;
      behind = rw first.count first.behind;
    }
