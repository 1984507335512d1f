-- ===== src/EpollServer/Maps.antt =====
-- The map of connections under find, erase, and a change through a pointer.
use cpp100net.Common.{
  ◌≡◌, ◌≢◌, refl, ap, none, some, [], ◌∷◌, ◌==◌, Bool-cases, inl, inr, true, false, ℕ, arith,
}
use cpp100net.Sockets.{Socket}
use cpp100net.Client.{Client}
use cpp100net.Server.{Clients, rank}
use cpp100net.Server.Clients.{IsFresh}
use cpp100net.EpollServer.{find, erase, put}

abbrev pub Distinct : Clients → Type 0
Distinct [] = Unit {0}
Distinct ((k, c) ∷ m) = IsFresh k m × Distinct m

ne_false : (a b : ℕ) → a ≢ b → (a == b) ≡ false
ne_false a b ne = ground arith

eq_true : (a b : ℕ) → a ≡ b → (a == b) ≡ true
eq_true a b e = ground arith

pub find_fresh : (k j : Socket) (m : Clients) → rank j ≡ rank k → IsFresh k m → find j m ≡ none
unfolding find
find_fresh k j [] e f = refl
find_fresh k j ((i, c) ∷ m) e f = rw (e, ne_false (rank k) (rank i) f.0) (find_fresh k j m e f.1)

pub put-IsFresh : (k j : Socket) (c : Client) (m : Clients) → IsFresh k m → IsFresh k (put j c m)
unfolding put
put-IsFresh k j c [] f = tt
put-IsFresh k j c ((i, d) ∷ m) f = elim (Bool-cases (rank j == rank i)) [
  | inl e ↦ rw e f
  | inr e ↦ rw e (f.0, put-IsFresh k j c m f.1)
]

pub erase-IsFresh : (k j : Socket) (m : Clients) → IsFresh k m → IsFresh k (erase j m)
unfolding erase
erase-IsFresh k j [] f = tt
erase-IsFresh k j ((i, d) ∷ m) f = elim (Bool-cases (rank j == rank i)) [
  | inl e ↦ rw e (f.1)
  | inr e ↦ rw e (f.0, erase-IsFresh k j m f.1)
]

pub put-Distinct : (k : Socket) (c : Client) (m : Clients) → Distinct m → Distinct (put k c m)
unfolding put
put-Distinct k c [] d = tt
put-Distinct k c ((j, e) ∷ m) d = elim (Bool-cases (rank k == rank j)) [
  | inl here ↦ rw here d
  | inr there ↦ rw there (put-IsFresh j k c m d.0, put-Distinct k c m d.1)
]

pub erase-Distinct : (k : Socket) (m : Clients) → Distinct m → Distinct (erase k m)
unfolding erase
erase-Distinct k [] d = tt
erase-Distinct k ((j, e) ∷ m) d = elim (Bool-cases (rank k == rank j)) [
  | inl here ↦ rw here (d.1)
  | inr there ↦ rw there (erase-IsFresh j k m d.0, erase-Distinct k m d.1)
]

-- Only the number of a socket matters.
pub find_same : (j k : Socket) (m : Clients) → rank j ≡ rank k → find j m ≡ find k m
unfolding find
find_same j k [] e = refl
find_same j k ((i, c) ∷ m) e = rw (e, find_same j k m e) refl

pub rank-injective : (j k : Socket) → rank j ≡ rank k → j ≡ k
rank-injective none none e = refl
rank-injective none (some k) e = absurd (omega (arith, e))
rank-injective (some j) none e = absurd (omega (arith, e))
rank-injective (some j) (some k) e = ap some (omega (arith, e))

pub find-put_self :
    (k : Socket) (c d : Client) (m : Clients) → find k m ≡ some d → find k (put k c m) ≡ some c
unfolding find put
find-put_self k c d [] e = let bad : none ≡ some d = e in cc
find-put_self k c d ((j, b) ∷ m) e = elim (Bool-cases (rank k == rank j)) [
  | inl here ↦ rw (here, here) refl
  | inr there ↦ rw (there, there) (find-put_self k c d m (rw there at e))
]

pub find-put_ne :
    (j k : Socket) (c : Client) (m : Clients) → rank j ≢ rank k → find j (put k c m) ≡ find j m
unfolding find put
find-put_ne j k c [] ne = refl
find-put_ne j k c ((i, b) ∷ m) ne = elim (Bool-cases (rank k == rank i)) [
  | inl here ↦ let other : (rank j == rank i) ≡ false = ground arith in rw (here, other) refl
  | inr there ↦ rw (there, find-put_ne j k c m ne) refl
]

pub find-erase_self : (k : Socket) (m : Clients) → Distinct m → find k (erase k m) ≡ none
unfolding find erase
find-erase_self k [] d = refl
find-erase_self k ((j, b) ∷ m) d = elim (Bool-cases (rank k == rank j)) [
  | inl here ↦ rw here (find_fresh j k m (ground arith) d.0)
  | inr there ↦ rw (there, there) (find-erase_self k m d.1)
]

pub find-erase_ne : (j k : Socket) (m : Clients) → rank j ≢ rank k → find j (erase k m) ≡ find j m
unfolding find erase
find-erase_ne j k [] ne = refl
find-erase_ne j k ((i, b) ∷ m) ne = elim (Bool-cases (rank k == rank i)) [
  | inl here ↦ let other : (rank j == rank i) ≡ false = ground arith in rw (here, other) refl
  | inr there ↦ rw (there, find-erase_ne j k m ne) refl
]
