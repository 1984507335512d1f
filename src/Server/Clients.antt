-- ===== src/Server/Clients.antt =====
-- The map of connections: insertion under a new key.
use cpp100net.Common.{◌+◌, ◌≡◌, ◌≢◌, Bool-cases, [], ◌∷◌, length, ltb, ◌==◌, arith, inl, inr}
use cpp100net.Sockets.{Socket}
use cpp100net.Client.{Client}
use cpp100net.Server.{Clients, rank, insert}

-- No client of the map has the socket `k`.
abbrev pub IsFresh : Socket → Clients → Type 0
IsFresh k [] = Unit {0}
IsFresh k ((j, c) ∷ m) = (rank k ≢ rank j) × IsFresh k m

-- A client under a new key makes the map longer by one; no entry is lost.
pub length-insert :
    (k : Socket) (c : Client) (m : Clients) → IsFresh k m → length (insert k c m) ≡ length m + 1
unfolding insert
length-insert k c [] f = omega arith
length-insert k c ((j, d) ∷ m) f = ground (arith, length-insert k c m f.1)

-- Another key stays new.
pub insert-IsFresh :
    (k j : Socket) (c : Client) (m : Clients)
    → rank k ≢ rank j
    → IsFresh k m
    → IsFresh k (insert j c m)
unfolding insert
insert-IsFresh k j c [] ne f = (ne, tt)
insert-IsFresh k j c ((i, d) ∷ m) ne f = elim (Bool-cases (rank j == rank i)) [
  | inl e ↦ rw e (ne, f.1)
  | inr e ↦ elim (Bool-cases (ltb (rank j) (rank i))) [
    | inl l ↦ rw (e, l) (ne, f)
    | inr l ↦ rw (e, l) (f.0, insert-IsFresh k j c m ne f.1)
  ]
]
