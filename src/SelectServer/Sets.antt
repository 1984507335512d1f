-- ===== src/SelectServer/Sets.antt =====
-- The sets that DoNetEvent hands to select, against the clients.
use cpp100net.Common.{
  ℕ, ◌*◌, ◌<◌, ◌≤◌, ◌≡◌, refl, ◌∙◌, Bool, true, false, ◌||◌, none, some, List, [], ◌∷◌, ltb,
  ltb-false, ◌==◌, if◌then◌else◌, arith, Returns, Bool-cases, inl, inr, tests,
}
use cpp100net.Sockets.{Socket}
use cpp100net.Client.{need_write}
use cpp100net.FdSet.{FdSet}
use cpp100net.FdSet.Bits.{Shows, add-Shows}
use cpp100net.Server.{Clients, rank}
use cpp100net.SelectServer.Event.{add_all, add_writers}

abbrev pub is_sock : ℕ → Socket → Bool
is_sock i none = false
is_sock i (some k) = i == k

-- The sockets of the clients, and of those that have something to write.
abbrev pub keys : Clients → List Socket
keys [] = []
keys ((k, c) ∷ m) = k ∷ keys m

abbrev pub among_keys : List Socket → ℕ → Bool
among_keys [] i = false
among_keys (k ∷ ks) i = is_sock i k || among_keys ks i

abbrev pub among : Clients → ℕ → Bool
among m i = among_keys (keys m) i

abbrev pub among_writers : Clients → ℕ → Bool
among_writers [] i = false
among_writers ((k, c) ∷ m) i = (if need_write c then is_sock i k else false) || among_writers m i

abbrev pub some_writer : Clients → Bool
some_writer [] = false
some_writer ((k, c) ∷ m) = need_write c || some_writer m

-- Every socket is valid and has a place in an array of `n` bytes, below the limit.
abbrev pub InRange : ℕ → ℕ → Clients → Type 0
InRange n limit [] = Unit {0}
InRange n limit ((k, c) ∷ m) =
    ((j : ℕ) × (k ≡ some j) × (j < limit) × (j < 8 * n)) × InRange n limit m

-- No socket is greater than `sock`.
abbrev pub AllBelow : List Socket → Socket → Type 0
AllBelow [] sock = Unit {0}
AllBelow (k ∷ ks) sock = (rank k ≤ rank sock) × AllBelow ks sock

pub Shows-same :
    {n : ℕ} {p : ℕ → Bool} (q : ℕ → Bool) {set : FdSet}
    → ((i : ℕ) → p i ≡ q i)
    → Shows n p set
    → Shows n q set
Shows-same q same h = record {
  array = h.array;
  there = h.there;
  bytes = h.bytes;
  size = h.size;
  bits = λ i small. h.bits i small ∙ same i;
}

swap_or : (a b c : Bool) → (a || (b || c)) ≡ ((b || a) || c)
swap_or true true c = refl
swap_or true false c = refl
swap_or false true c = refl
swap_or false false c = refl

pub add_all-Shows :
    {n : ℕ} (limit : ℕ) (m : Clients) {p : ℕ → Bool} (set : FdSet) (sock : Socket)
    → InRange n limit m
    → Shows n p set
    → Returns
        (add_all limit m (set, sock))
        λ r. Shows n (λ i. among m i || p i) r.0 × (rank sock ≤ rank r.1) × AllBelow (keys m) r.1
unfolding add_all
add_all-Shows limit [] set sock fit h = ((set, sock), refl, (h, omega arith, tt))
add_all-Shows {n} limit ((k, c) ∷ m) {p} set sock ((j, e, below, inside), fit) h =
    let (set', added, h') = add-Shows limit j set below inside h in
    let next = if ltb (rank sock) (rank k) then k else sock in
    let (r, ran, (shows, greater, all)) = add_all-Shows limit m set' next fit h' in
    let bigger : (rank sock ≤ rank next) × (rank k ≤ rank next) =
      elim (Bool-cases (ltb (rank sock) (rank k))) [
        | inl lt ↦ rw lt (omega (tests, lt), omega arith)
        | inr ge ↦ rw ge (omega arith, omega (arith, ltb-false, ge))
      ] in
    (
      r,
      rw (e, added) (rw e at ran),
      (
        Shows-same (λ i. among ((k, c) ∷ m) i || p i)
            (λ i. rw e (swap_or (among m i) (i == j) (p i))) shows,
        omega (arith, greater, bigger.0),
        (omega (arith, greater, bigger.1), all),
      ),
    )

pub add_writers-Shows :
    {n : ℕ} (limit : ℕ) (m : Clients) {p : ℕ → Bool} (set : FdSet)
    → InRange n limit m
    → Shows n p set
    → Returns
        (add_writers limit m set)
        λ r. (r.0 ≡ some_writer m) × Shows n (λ i. among_writers m i || p i) r.1
unfolding add_writers
add_writers-Shows limit [] set fit h = ((false, set), refl, (refl, h))
add_writers-Shows {n} limit ((k, c) ∷ m) {p} set ((j, e, below, inside), fit) h =
    elim (Bool-cases (need_write c)) [
      | inl writes ↦
          let (set', added, h') = add-Shows limit j set below inside h in
          let (r, ran, (any, shows)) = add_writers-Shows limit m set' fit h' in
          (
            (true, r.1),
            rw (writes, e, added, ran) refl,
            (
              rw writes refl,
              Shows-same (λ i. among_writers ((k, c) ∷ m) i || p i)
                  (λ i. rw (writes, e) (swap_or (among_writers m i) (i == j) (p i))) shows,
            ),
          )
      | inr quiet ↦
          let (r, ran, (any, shows)) = add_writers-Shows limit m set fit h in
          (
            (r.0, r.1),
            rw (quiet, ran) refl,
            (
              rw quiet any,
              Shows-same (λ i. among_writers ((k, c) ∷ m) i || p i) (λ i. rw quiet refl) shows,
            ),
          )
    ]
