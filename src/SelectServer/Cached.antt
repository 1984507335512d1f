-- ===== src/SelectServer/Cached.antt =====
-- The read set that CellSelectServer keeps from round to round.
use cpp100net.Common.{
  ℕ, ◌≤◌, ◌≡◌, refl, Bool, true, false, ◌||◌, some, [], ◌∷◌, length, arith, Returns, ◌⊎◌, inl, inr,
  Bool-cases,
}
use cpp100net.Sockets.{Socket}
use cpp100net.FdSet.{FdSet}
use cpp100net.FdSet.Bits.{Shows, zero-Shows, copy-Shows}
use cpp100net.Server.{Clients}
use cpp100net.SelectServer.Event.{SelectServer, collect, restore, read_set, prepare, first_sock}
use cpp100net.SelectServer.Sets.{
  keys, among, among_writers, some_writer, InRange, AllBelow, Shows-same, add_all-Shows,
  add_writers-Shows,
}

-- Unless the clients have changed, the set is that of their sockets, and `sock` at least the greatest.
abbrev pub Kept : ℕ → FdSet → Clients → Bool → Socket → Type 0
Kept n set m change sock = (change ≡ true) ⊎ (Shows n (among m) set × AllBelow (keys m) sock)

-- The three sets have arrays of `n` bytes; and unless the list of clients has changed, the kept set is
-- that of their sockets, none of which is greater than `max_sock`.
pub record Cached (n : ℕ) (s : SelectServer) : Type 0 where
  pub p : ℕ → Bool
  pub q : ℕ → Bool
  pub r : ℕ → Bool
  pub read : Shows n p s.fd_read
  pub write : Shows n q s.fd_write
  pub bak : Shows n r s.fd_read_bak
  pub kept : Kept n s.fd_read_bak s.base.clients s.base.clients_change s.max_sock

-- The server with its read set made.
abbrev ReadMade : ℕ → SelectServer → SelectServer → Type 0
ReadMade n s s' =
    Shows n (among s.base.clients) s'.fd_read
    × Shows n (among s.base.clients) s'.fd_read_bak
    × AllBelow (keys s.base.clients) s'.max_sock
    × (s'.base.clients ≡ s.base.clients)
    × (s'.fd_write ≡ s.fd_write)

or_false : (a : Bool) → (a || false) ≡ a
or_false true = refl
or_false false = refl

first_sock_there : (m : Clients) → 1 ≤ length m → (sock : Socket) × (first_sock m ≡ some sock)
first_sock_there [] h = absurd (omega arith)
first_sock_there ((k, c) ∷ m) h = (c.sockfd, refl)

collect-ReadMade :
    {n : ℕ} (limit : ℕ) (s : SelectServer)
    → Cached n s
    → InRange n limit s.base.clients
    → 1 ≤ length s.base.clients
    → Returns (collect limit s) (ReadMade n s)
unfolding collect
collect-ReadMade limit s h fit some_client =
    let (cleared, zeroed, hz) = zero-Shows s.fd_read h.read in
    let (sock, first) = first_sock_there s.base.clients some_client in
    let (r, ran, (shows, _, all)) = add_all-Shows limit s.base.clients cleared sock fit hz in
    let exact = Shows-same (among s.base.clients) (λ i. or_false (among s.base.clients i)) shows in
    let (bak, copied, hb) = copy-Shows r.0 s.fd_read_bak exact h.bak in
    (
      record s {
        base = record (s.base) { clients_change = false };
        fd_read = r.0;
        fd_read_bak = bak;
        max_sock = r.1;
      },
      rw (zeroed, first, ran, copied) refl,
      (exact, hb, all, refl, refl),
    )

read_set-ReadMade :
    {n : ℕ} (limit : ℕ) (s : SelectServer)
    → Cached n s
    → InRange n limit s.base.clients
    → 1 ≤ length s.base.clients
    → Returns (read_set limit s) (ReadMade n s)
unfolding read_set restore
read_set-ReadMade limit s h fit some_client = elim h.kept [
  | inl changed ↦ rw changed (collect-ReadMade limit s h fit some_client)
  | inr (exact, all) ↦ elim (Bool-cases s.base.clients_change) [
    | inl changed ↦ rw changed (collect-ReadMade limit s h fit some_client)
    | inr same ↦
        let (set, copied, hs) = copy-Shows s.fd_read_bak s.fd_read exact h.read in
        (record s { fd_read = set }, rw (same, copied) refl, (hs, exact, all, refl, refl))
  ]
]

-- With at least one client, every socket valid and inside the arrays, and a kept set that is that of
-- the clients unless they have changed: what comes before `select` does not fault. The read set that
-- `select` is given is exactly that of the clients, the write set exactly that of those with
-- something to write, and is passed if there is one; no socket is above the number given. The kept
-- set is again that of the clients.
pub prepare_exact :
    {n : ℕ} (limit : ℕ) (s : SelectServer)
    → Cached n s
    → InRange n limit s.base.clients
    → 1 ≤ length s.base.clients
    → Returns (prepare limit s) λ r.
      Shows n (among s.base.clients) r.1.fd_read
      × Shows n (among_writers s.base.clients) r.1.fd_write
      × (r.0 ≡ some_writer s.base.clients)
      × AllBelow (keys s.base.clients) r.1.max_sock
      × (r.1.base.clients ≡ s.base.clients)
      × Cached n r.1
unfolding prepare
prepare_exact {n} limit s h fit some_client =
    let (s1, made, (read, bak, all, same, write)) = read_set-ReadMade limit s h fit some_client in
    let (cleared, zeroed, hz) = zero-Shows s.fd_write h.write in
    let (r, ran, (any, shows)) = add_writers-Shows limit s.base.clients cleared fit hz in
    let exact =
      Shows-same (among_writers s.base.clients) (λ i. or_false (among_writers s.base.clients i))
        shows in
    (
      (r.0, record s1 { fd_write = r.1 }),
      rw (made, write, zeroed, same, ran) refl,
      (
        read,
        exact,
        any,
        all,
        same,
        record {
          p = among s.base.clients;
          q = among_writers s.base.clients;
          r = among s.base.clients;
          read = read;
          write = exact;
          bak = bak;
          kept = inr (rw same (bak, all));
        },
      ),
    )
