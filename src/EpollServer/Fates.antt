-- ===== src/EpollServer/Fates.antt =====
-- The loop over the events of one answer of epoll.
use mathlib.Core.Option.{some-injective, none-ne-some}
use mathlib.Core.Path.{subst}
use cpp100net.Common.{
  ◌≡◌, ◌≢◌, sym, ◌∙◌, Bool, true, false, Option, none, some, List, [], ◌∷◌, ◌==◌, if◌then◌else◌,
  Bool-cases, inl, inr, arith,
}
use cpp100net.Sockets.{Socket, Send, Recv}
use cpp100net.Client.{Client}
use cpp100net.Client.Inv.{IsValid}
use cpp100net.Epoll.{Events, Data, null, fd, ptr, Event}
use cpp100net.Server.{Clients, rank}
use cpp100net.EpollServer.{find, erase, put}
use cpp100net.EpollServer.Maps.{
  Distinct, put-Distinct, erase-Distinct, find_same, rank-injective, find-put_self, find-put_ne,
  find-erase_self, find-erase_ne,
}
use cpp100net.EpollServer.Alone.{alone}

abbrev pub names : Socket → Data → Bool
names k null = false
names k (fd j) = false
names k (ptr j) = rank k == rank j

-- What the first event about the client with the socket `k` says.
unfoldable pub event_of : Socket → List Event → Option Events
event_of k [] = none
event_of k (e ∷ es) = if names k e.about then some e.events else event_of k es

-- Every event is about a client of `m`, a different one each, or about none.
pub data Orderly (m : Clients) : List Event → Type 0 where
  done : Orderly m []
  skip :
      {ev : Events} {es : List Event}
      → Orderly m es
      → Orderly m (record { events = ev; about = null } ∷ es)
  serve :
      {ev : Events} {es : List Event} (k : Socket) (c : Client)
      → find k m ≡ some c
      → event_of k es ≡ none
      → Orderly m es
      → Orderly m (record { events = ev; about = ptr k } ∷ es)

-- The client has its own socket as its key, and is well formed.
abbrev pub Entry : Socket → Client → Type 0
Entry k c = (c.sockfd ≡ k) × IsValid c

-- The clients have different keys.
pub record IsMap (m : Clients) : Type 0 where
  pub distinct : Distinct m
  pub entry : (k : Socket) (c : Client) → find k m ≡ some c → Entry k c

-- What becomes of an entry of the map, given what the events say about it.
pub data Fate (recv : Recv) (send : Send)
    : Option Events → Option Client → Option Client → Type 0 where
  absent : {o : Option Events} → Fate recv send o none none
  untouched : {c : Client} → Fate recv send none (some c) (some c)
  kept :
      {ev : Events} {c d : Client}
      → alone recv send ev c ≡ some (false, d)
      → Fate recv send (some ev) (some c) (some d)
  removed :
      {ev : Events} {c d : Client}
      → alone recv send ev c ≡ some (true, d)
      → Fate recv send (some ev) (some c) none

pub untouched_by : (recv : Recv) (send : Send) (o : Option Client) → Fate recv send none o o
untouched_by recv send none = absent
untouched_by recv send (some c) = untouched

-- The maps agree but on the key `k`.
abbrev pub But : Socket → Clients → Clients → Type 0
But k m m' = (j : Socket) → rank j ≢ rank k → find j m' ≡ find j m

different :
    (k j : Socket) (ev : Events) (es : List Event)
    → event_of k (record { events = ev; about = ptr j } ∷ es) ≡ none
    → (rank j ≢ rank k) × (event_of k es ≡ none)
unfolding event_of
different k j ev es e = elim (Bool-cases (rank k == rank j)) [
  | inl same ↦ absurd (let bad : some ev ≡ none = rw same at e in cc)
  | inr other ↦ (ground (arith, other), rw other at e)
]

pub Orderly-But :
    (k : Socket) (m m' : Clients) (es : List Event)
    → But k m m'
    → event_of k es ≡ none
    → Orderly m es
    → Orderly m' es
unfolding event_of
Orderly-But k m m' [] but e done = done
Orderly-But k m m' (_ ∷ es) but e (skip o) = skip (Orderly-But k m m' es but e o)
Orderly-But k m m' (_ ∷ es) but e (serve {ev} j c there once o) =
    let (ne, e') = different k j ev es e in
    serve j c (but j ne ∙ there) once (Orderly-But k m m' es but e' o)

find-put_at :
    (j k : Socket) (c d : Client) (m : Clients)
    → find k m ≡ some c
    → rank j ≡ rank k
    → find j (put k d m) ≡ some d
find-put_at j k c d m there same = find_same j k (put k d m) same ∙ find-put_self k d c m there

pub put-IsMap :
    (k : Socket) (c d : Client) (m : Clients)
    → IsMap m
    → find k m ≡ some c
    → IsValid d
    → d.sockfd ≡ c.sockfd
    → IsMap (put k d m)
put-IsMap k c d m v there ok sock = record {
  distinct = put-Distinct k d m v.distinct;
  entry = λ j b e. elim (Bool-cases (rank j == rank k)) [
    | inl same ↦
        let eq : rank j ≡ rank k = ground (arith, same) in
        let e' = some-injective _ _ (sym (find-put_at j k c d m there eq) ∙ e) in
        subst (Entry j) e' (sock ∙ (v.entry k c there).0 ∙ sym (rank-injective j k eq), ok)
    | inr other ↦ v.entry j b (sym (find-put_ne j k d m (ground (arith, other))) ∙ e)
  ];
}

find-erase_at :
    (j k : Socket) (m : Clients) → Distinct m → rank j ≡ rank k → find j (erase k m) ≡ none
find-erase_at j k m d same = find_same j k (erase k m) same ∙ find-erase_self k m d

pub erase-IsMap : (k : Socket) (m : Clients) → IsMap m → IsMap (erase k m)
erase-IsMap k m v = record {
  distinct = erase-Distinct k m v.distinct;
  entry = λ j b e. elim (Bool-cases (rank j == rank k)) [
    | inl same ↦
        absurd (none-ne-some b (sym (find-erase_at j k m v.distinct (ground (arith, same))) ∙ e))
    | inr other ↦ v.entry j b (sym (find-erase_ne j k m (ground (arith, other))) ∙ e)
  ];
}
