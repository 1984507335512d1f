-- ===== src/EpollServer/Watch.antt =====
-- The table of the epoll object against the clients, over DoNetEvent.
use mathlib.Core.Option.{some-injective, none-ne-some}
use cpp100net.Common.{
  ℕ, ◌≡◌, ◌≢◌, refl, sym, ap, ◌∙◌, true, false, Option, none, some, List, [], ◌∷◌, ◌++◌, ◌==◌,
  Returns, Bool-cases, Option-cases, inl, inr, arith,
}
use cpp100net.Common.Int.{ℤ}
use cpp100net.Sockets.{Socket, Send, Recv, SendWithin, RecvWithin}
use cpp100net.Client.{Client}
use cpp100net.Epoll
use cpp100net.Epoll.{
  System, Epoll, Events, Data, null, fd, ptr, Event, epoll_ctl_mod, Answer, interrupted, failed,
  happened,
}
use cpp100net.Epoll.Table.{Interest, Reported, nothing, one, NotAmong}
use cpp100net.Server.{NetEvent, Clients, rank}
use cpp100net.EpollServer.{serve_events, find, erase, put}
use cpp100net.EpollServer.Maps.{rank-injective, find-erase_self, find-erase_ne}
use cpp100net.EpollServer.Fates.{Orderly, done, serve, IsMap, event_of}
use cpp100net.EpollServer.Loop.{Keeps, serve_events-Fates}
use cpp100net.EpollServer.Asked.{Watched, put-some, put-none, watch_all_other, watch_all_asked}
use cpp100net.EpollServer.Round
use cpp100net.EpollServer.Round.{EpollServer, wanted, watch_all, close_each, do_net_event}

module _ {ℓ} {K : Type ℓ} {sys : System K} (laws : Interest sys) where
  close_each-append :
      (ss : List Socket) (k : ℕ) (w : K)
      → close_each sys (ss ++ some k ∷ []) w ≡ sys.close (some k) (close_each sys ss w)
  unfolding close_each
  close_each-append [] k w = refl
  close_each-append (none ∷ ss) k w = close_each-append ss k w
  close_each-append (some j ∷ ss) k w = close_each-append ss k (sys.close (some j) w)

  WatchedAfter : Socket → K → Clients → List Socket → Type ℓ
  WatchedAfter ep w m closed = Watched laws ep m (close_each sys closed w)

  left_closed :
      (ep : Socket) (w : K) (k : Socket) (c : Client) (m : Clients) (closed : List Socket)
      → IsMap m
      → find k m ≡ some c
      → WatchedAfter ep w m closed
      → WatchedAfter ep w (erase k m) (closed ++ k ∷ [])
  unfolding WatchedAfter
  left_closed ep w none c m closed v there h = absurd (none-ne-some c (sym h.sockets ∙ there))
  left_closed ep w (some n) c m closed v there h =
      let before = close_each sys closed w in
      rw (close_each-append closed n w) (record {
        there = λ j b e. elim (Bool-cases (rank j == rank (some n))) [
          | inl same ↦
              let eq = rank-injective j (some n) (ground (arith, same)) in
              absurd (none-ne-some b (sym (find-erase_self (some n) m v.distinct) ∙ (rw eq at e)))
          | inr other ↦
              let ne : rank j ≢ rank (some n) = ground (arith, other) in
              let (ev, was) = h.there j b (sym (find-erase_ne j (some n) m ne) ∙ e) in
              (ev, laws.close_other ep (some n) j before (λ same. ne (ap rank same)) ∙ was)
        ];
        gone = λ j e. elim (Bool-cases (rank j == rank (some n))) [
          | inl same ↦
              rw (rank-injective j (some n) (ground (arith, same))) (laws.close_gone ep n before)
          | inr other ↦
              let ne : rank j ≢ rank (some n) = ground (arith, other) in
              laws.close_other ep (some n) j before (λ same. ne (ap rank same))
              ∙ h.gone j (sym (find-erase_ne j (some n) m ne) ∙ e)
        ];
        sockets = find-erase_ne none (some n) m (λ same. omega (arith, same)) ∙ h.sockets;
      })

  Watched-Keeps : (ep : Socket) (w : K) → Keeps (WatchedAfter ep w)
  unfolding WatchedAfter
  Watched-Keeps ep w = record {
    changed = λ k c d m closed v there h. record {
      there = λ j b e. let (a, e') = put-some j k b c d m there e in h.there j a e';
      gone = λ j e. h.gone j (put-none j k c d m there e);
      sockets = elim (Option-cases (find none (put k d m))) [
        | inl e ↦ e
        | inr (b, e) ↦
            let (a, e') = put-some none k b c d m there e in
            absurd (none-ne-some a (sym h.sockets ∙ e'))
      ];
    };
    left = λ k c m closed v there h. left_closed ep w k c m closed v there h;
  }

  not_later :
      {q : Socket → Option (Events × Data)} (s : Socket) (es : List Event) (ss : List Socket)
      → ((k : Socket) (a : Events) (d : Data) → q k ≡ some (a, d) → d ≡ ptr k)
      → NotAmong s ss
      → Reported q es ss
      → event_of s es ≡ none
  unfolding event_of
  not_later s _ _ h apart nothing = refl
  not_later s _ _ h apart (one {es} {ss} t ev asked d there fresh rest) =
      let other : (rank s == rank t) ≡ false =
        let ne : rank s ≢ rank t = λ same. apart.0 (rank-injective s t same) in ground arith in
      rw (h t asked d there, other) (not_later s es ss h apart.1 rest)

  Orderly-Reported :
      {q : Socket → Option (Events × Data)} (m : Clients) (es : List Event) (ss : List Socket)
      → ((k : Socket) (a : Events) (d : Data)
          → q k ≡ some (a, d)
          → (d ≡ ptr k) × ((c : Client) × (find k m ≡ some c)))
      → Reported q es ss
      → Orderly m es
  Orderly-Reported m _ _ h nothing = done
  Orderly-Reported m _ _ h (one {es} {ss} s ev asked d there apart rest) =
      let (eq, (c, found)) = h s asked d there in
      rw eq (
        serve s c found (not_later s es ss (λ k a e. λ x. (h k a e x).0) apart rest)
          (Orderly-Reported m es ss h rest))

  -- The data of an entry is the pointer to a client that is there.
  pointed :
      (ep : Socket) (m : Clients) (w : K)
      → Watched laws ep m w
      → (k : Socket) (a : Events) (d : Data) → laws.interest ep k w ≡ some (a, d)
      → (d ≡ ptr k) × ((c : Client) × (find k m ≡ some c))
  pointed ep m w h k a d e = elim (Option-cases (find k m)) [
    | inl gone ↦ absurd (none-ne-some (a, d) (sym (h.gone k gone) ∙ e))
    | inr (c, found) ↦
        let (ev, was) = h.there k c found in
        (ap (λ x. x.1) (some-injective _ _ (sym e ∙ was)), (c, found))
  ]

  after_wait :
      (ep : Socket) (n : ℤ) (timeout : ℕ) (m : Clients) (w : K)
      → Watched laws ep m w
      → Watched laws ep m (sys.epoll_wait ep n timeout w).1
  after_wait ep n timeout m w h = record {
    there = λ k c e. let (ev, was) = h.there k c e in (ev, laws.wait_same ep k n timeout w ∙ was);
    gone = λ k e. laws.wait_same ep k n timeout w ∙ h.gone k e;
    sockets = h.sockets;
  }

  module _ {κ} {S : Type κ} (event : NetEvent S) (recv : Recv) (send : Send) where
    -- The turn of DoNetEvent once `epoll_wait` has answered `a` about the table as it was in `w1`.
    answered :
        (s : EpollServer) (w1 w2 : K) (app : S) (a : Answer)
        → RecvWithin recv
        → SendWithin send
        → IsMap s.base.clients
        → Watched laws s.ep.epfd s.base.clients w1
        → Watched laws s.ep.epfd s.base.clients w2
        → ((es : List Event)
            → a ≡ happened es
            → (ss : List Socket) × Reported (λ t. laws.interest s.ep.epfd t w1) es ss)
        → Returns (Round.on_waited sys event recv send s app (Epoll.on_wait sys (a, w2))) λ r.
          (r.1.ep ≡ s.ep) × IsMap r.1.base.clients × Watched laws r.1.ep.epfd r.1.base.clients r.2
    unfolding WatchedAfter close_each serve_events
    answered s w1 w2 app interrupted rec snd v h1 h2 reports =
        ((true, s, w2, app), refl, (refl, v, h2))
    answered s w1 w2 app failed rec snd v h1 h2 reports = ((false, s, w2, app), refl, (refl, v, h2))
    answered s w1 w2 app (happened es) rec snd v h1 h2 reports =
        let (ss, reported) = reports es refl in
        let orderly =
          Orderly-Reported s.base.clients es ss (pointed s.ep.epfd s.base.clients w1 h1) reported in
        let (r, ran, ok) =
          serve_events-Fates event recv send (Watched-Keeps s.ep.epfd w2) es s.base [] app rec snd v
            orderly h2 in
        (
          (true, record s { base = r.0 }, close_each sys r.1 w2, r.2),
          rw ran refl,
          (refl, ok.0, ok.2),
        )

    -- On clients with different keys, their own sockets and valid buffers, that are exactly what the epoll
    -- object watches, each with a pointer to it, a `recv` that delivers no more than there is room for, and
    -- a `send` that takes no more than it is handed: when DoNetEvent waits, every client is watched for
    -- reading, and for writing exactly if it has something to write; DoNetEvent does not fault, so that no
    -- event leads to a client that was deleted; and the clients that are left are again well formed and
    -- exactly what the object watches.
    pub do_net_event-Watched :
        (s : EpollServer) (w : K) (app : S)
        → RecvWithin recv
        → SendWithin send
        → IsMap s.base.clients
        → Watched laws s.ep.epfd s.base.clients w
        → ((k : Socket) (c : Client)
            → find k s.base.clients ≡ some c
            → laws.interest s.ep.epfd k (watch_all sys s.ep s.base.clients w)
              ≡ some (wanted c, ptr k))
          × Returns (do_net_event sys event recv send s w app) λ r.
            (r.1.ep ≡ s.ep) × IsMap r.1.base.clients × Watched laws r.1.ep.epfd r.1.base.clients r.2
    unfolding do_net_event Epoll.wait
    do_net_event-Watched s w app rec snd v h =
        let m = s.base.clients in
        let w1 = watch_all sys s.ep m w in
        let asked =
          watch_all_asked laws s.ep m w v
            (λ k c e. let (ev, was) = h.there k c e in ((ev, ptr k), was)) in
        let h1 : Watched laws s.ep.epfd m w1 = record {
          there = λ k c e. (wanted c, asked k c e);
          gone = λ k e. watch_all_other laws s.ep m w k v e ∙ h.gone k e;
          sockets = h.sockets;
        } in
        let waited = sys.epoll_wait s.ep.epfd s.ep.n_max_events 1 w1 in
        (
          asked,
          answered s w1 waited.1 app waited.0 rec snd v h1
              (after_wait s.ep.epfd s.ep.n_max_events 1 m w1 h1)
              (laws.wait_reports s.ep.epfd s.ep.n_max_events 1 w1),
        )
