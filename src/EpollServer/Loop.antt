-- ===== src/EpollServer/Loop.antt =====
-- The loop over the events of one answer of epoll, with an invariant of the clients and the sockets closed.
use cpp100net.Common.{
  ◌≡◌, ◌≢◌, refl, ◌∙◌, Bool, true, false, Option, none, some, List, [], ◌∷◌, ◌++◌, ◌==◌, Returns,
  Bool-cases, inl, inr, arith,
}
use cpp100net.Sockets.{Socket, Send, Recv, SendWithin, RecvWithin}
use cpp100net.Client
use cpp100net.Client.{Client}
use cpp100net.Client.Inv.{IsValid}
use cpp100net.Epoll.{Events, ptr, Event}
use cpp100net.Server.{NetEvent, Clients, Server, rank}
use cpp100net.EpollServer.{Served, find, erase, put, rm_client, settle, serve_event, serve_events}
use cpp100net.EpollServer.Maps.{
  find_same, find-put_self, find-put_ne, find-erase_self, find-erase_ne,
}
use cpp100net.EpollServer.Alone.{alone, serve_client-alone}
use cpp100net.EpollServer.Fates.{
  event_of, Orderly, done, skip, serve, IsMap, Fate, absent, untouched, kept, removed, untouched_by,
  But, Orderly-But, put-IsMap, erase-IsMap,
}

-- What holds of the clients and the sockets closed so far, whoever is changed or removed.
pub record Keeps {κ} (I : Clients → List Socket → Type κ) : Type κ where
  pub changed :
      (k : Socket) (c d : Client) (m : Clients) (closed : List Socket)
      → IsMap m
      → find k m ≡ some c
      → I m closed
      → I (put k d m) closed
  pub left :
      (k : Socket) (c : Client) (m : Clients) (closed : List Socket)
      → IsMap m
      → find k m ≡ some c
      → I m closed
      → I (erase k m) (closed ++ k ∷ [])

module _ {ℓ κ} {S : Type ℓ} (event : NetEvent S) (recv : Recv) (send : Send)
    {I : Clients → List Socket → Type κ} (keeps : Keeps I) where
  -- What one turn of the loop does to the map.
  abbrev Turn : Socket → Events → Client → Clients → Served S → Type κ
  Turn k ev c m r =
      IsMap r.0.clients
      × But k m r.0.clients
      × Fate recv send (some ev) (some c) (find k r.0.clients)
      × I r.0.clients r.1

  settle-Turn :
      (k : Socket) (ev : Events) (c : Client) (s : Server) (closed : List Socket) (app app' : S)
      (b : Bool) (d : Client)
      → IsMap s.clients
      → find k s.clients ≡ some c
      → alone recv send ev c ≡ some (b, d)
      → IsValid d
      → d.sockfd ≡ c.sockfd
      → I s.clients closed
      → Turn k ev c s.clients (settle event k (s, closed, app) (b, d, app'))
  unfolding rm_client Client.destroy
  settle-Turn k ev c s closed app app' false d v there ran ok sock i = (
    put-IsMap k c d s.clients v there ok sock,
    λ j ne. find-put_ne j k d s.clients ne,
    rw (find-put_self k d c s.clients there) (kept ran),
    keeps.changed k c d s.clients closed v there i,
  )
  settle-Turn k ev c s closed app app' true d v there ran ok sock i =
      rw (sock ∙ (v.entry k c there).0) (
        erase-IsMap k s.clients v,
        λ j ne. find-erase_ne j k s.clients ne,
        rw (find-erase_self k s.clients v.distinct) (removed ran),
        keeps.left k c s.clients closed v there i,
      )

  serve_event-Turn :
      (ev : Events) (k : Socket) (c : Client) (s : Server) (closed : List Socket) (app : S)
      → RecvWithin recv
      → SendWithin send
      → IsMap s.clients
      → find k s.clients ≡ some c
      → I s.clients closed
      → Returns
          (serve_event event recv send (record { events = ev; about = ptr k }) (s, closed, app))
          (Turn k ev c s.clients)
  unfolding serve_event
  serve_event-Turn ev k c s closed app rec snd v there i =
      let (b, d, app', ran, ran', same) =
        serve_client-alone event recv send ev c app rec snd (v.entry k c there).1 in
      (
        settle event k (s, closed, app) (b, d, app'),
        rw (there, ran) refl,
        settle-Turn k ev c s closed app app' b d v there ran' same.0 same.1 i,
      )

  -- No event about a client leaves it as it is.
  same_as : (o p : Option Client) → Fate recv send none o p → p ≡ o
  same_as _ _ absent = refl
  same_as _ _ untouched = refl

  abbrev Fates : List Event → Clients → Served S → Type κ
  Fates es m r =
      IsMap r.0.clients
      × ((j : Socket) → Fate recv send (event_of j es) (find j m) (find j r.0.clients))
      × I r.0.clients r.1

  after_turn :
      (ev : Events) (es : List Event) (k : Socket) (c : Client) (m m1 : Clients) (r : Served S)
      → find k m ≡ some c
      → event_of k es ≡ none
      → But k m m1
      → Fate recv send (some ev) (some c) (find k m1)
      → Fates es m1 r
      → Fates (record { events = ev; about = ptr k } ∷ es) m r
  unfolding event_of
  after_turn ev es k c m m1 r there once but fate rest = (
    rest.0,
    λ j. elim (Bool-cases (rank j == rank k)) [
      | inl same ↦
          let e : rank j ≡ rank k = ground (arith, same) in
          let stays = same_as (find k m1) (find k r.0.clients) (rw once at (rest.1 k)) in
          rw (same, find_same j k m e, find_same j k r.0.clients e, there, stays) fate
      | inr other ↦
          let ne : rank j ≢ rank k = ground (arith, other) in rw (other, ← but j ne) (rest.1 j)
    ],
    rest.2,
  )

  pub serve_events-Fates :
      (es : List Event) (s : Server) (closed : List Socket) (app : S)
      → RecvWithin recv
      → SendWithin send
      → IsMap s.clients
      → Orderly s.clients es
      → I s.clients closed
      → Returns (serve_events event recv send es (s, closed, app)) λ r.
        IsMap r.0.clients
        × ((j : Socket) → Fate recv send (event_of j es) (find j s.clients) (find j r.0.clients))
        × I r.0.clients r.1
  unfolding serve_events serve_event event_of
  serve_events-Fates [] s closed app rec snd v done i =
      ((s, closed, app), refl, (v, λ j. untouched_by recv send (find j s.clients), i))
  serve_events-Fates (_ ∷ es) s closed app rec snd v (skip o) i =
      serve_events-Fates es s closed app rec snd v o i
  serve_events-Fates (_ ∷ es) s closed app rec snd v (serve {ev} k c there once o) i =
      let ((s1, closed1, app1), ran, turn) =
        serve_event-Turn ev k c s closed app rec snd v there i in
      let (r, ran', fates) =
        serve_events-Fates es s1 closed1 app1 rec snd turn.0
          (Orderly-But k s.clients s1.clients es turn.1 once o) turn.3 in
      (r, rw ran ran', after_turn ev es k c s.clients s1.clients r there once turn.1 turn.2 fates)

keeps_nothing : Keeps (λ m closed. Unit {0})
keeps_nothing = record {
  changed = λ k c d m closed v there i. tt;
  left = λ k c m closed v there i. tt;
}

module _ {ℓ} {S : Type ℓ} (event : NetEvent S) (recv : Recv) (send : Send) where
  -- On clients with different keys, their own sockets and valid buffers, a `recv` that delivers no more
  -- than there is room for, a `send` that takes no more than it is handed, and events about different
  -- clients that are all there (or about none): the loop over the events does not fault and leaves the
  -- clients so. A client that an event is about has become what serving it alone makes of it, and is
  -- removed exactly where that fails; every other client is as it was, and none is new.
  pub serve_events-Fate :
      (es : List Event) (s : Server) (closed : List Socket) (app : S)
      → RecvWithin recv
      → SendWithin send
      → IsMap s.clients
      → Orderly s.clients es
      → Returns (serve_events event recv send es (s, closed, app)) λ r.
        IsMap r.0.clients
        × ((j : Socket) → Fate recv send (event_of j es) (find j s.clients) (find j r.0.clients))
  serve_events-Fate es s closed app rec snd v o =
      let (r, ran, ok) =
        serve_events-Fates event recv send keeps_nothing es s closed app rec snd v o tt in
      (r, ran, (ok.0, ok.1))
