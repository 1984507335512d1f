-- ===== src/EpollServer/Asked.antt =====
-- The table of the epoll object against the clients, and the loop that asks for events.
use mathlib.Core.Option.{some-injective, none-ne-some}
use mathlib.Core.Path.{subst}
use cpp100net.Common.{
  ◌≡◌, ◌≢◌, refl, sym, ap, ◌∙◌, true, false, none, some, [], ◌∷◌, ◌==◌, Bool-cases, inl, inr, arith,
}
use cpp100net.Sockets.{Socket}
use cpp100net.Client.{Client}
use cpp100net.Epoll
use cpp100net.Epoll.{
  System, Epoll, Events, Data, null, fd, ptr, Event, epoll_ctl_mod, Answer, interrupted, failed,
  happened,
}
use cpp100net.Epoll.Table.{Interest}
use cpp100net.Server.{Clients, rank}
use cpp100net.Server.Clients.{IsFresh}
use cpp100net.EpollServer.{find, put}
use cpp100net.EpollServer.Maps.{rank-injective, find_fresh, find-put_ne, find-put_self}
use cpp100net.EpollServer.Fates.{IsMap}
use cpp100net.EpollServer.Round.{wanted, watch_all}

-- Every client is watched, with a pointer to it, and no other socket is; no client has an invalid
-- socket.
pub record Watched {ℓ} {K : Type ℓ} {sys : System K} (laws : Interest sys) (ep : Socket)
    (m : Clients) (w : K) : Type ℓ where
  pub there :
      (k : Socket) (c : Client)
      → find k m ≡ some c
      → (ev : Events) × (laws.interest ep k w ≡ some (ev, ptr k))
  pub gone : (k : Socket) → find k m ≡ none → laws.interest ep k w ≡ none
  pub sockets : find none m ≡ none

find_head : (k : Socket) (c : Client) (m : Clients) → find k ((k, c) ∷ m) ≡ some c
unfolding find
find_head k c m = let same : (rank k == rank k) ≡ true = ground arith in rw same refl

find_tail :
    (k j : Socket) (c : Client) (m : Clients) → rank j ≢ rank k → find j ((k, c) ∷ m) ≡ find j m
unfolding find
find_tail k j c m ne = let other : (rank j == rank k) ≡ false = ground arith in rw other refl

-- A key of the rest is not the first one.
later_key :
    (k j : Socket) (d : Client) (m : Clients) → IsFresh k m → find j m ≡ some d → rank j ≢ rank k
later_key k j d m fresh e = λ same. none-ne-some d (sym (find_fresh k j m same fresh) ∙ e)

rest-IsMap : (k : Socket) (c : Client) (m : Clients) → IsMap ((k, c) ∷ m) → IsMap m
rest-IsMap k c m v = record {
  distinct = v.distinct.1;
  entry = λ j d e. v.entry j d (find_tail k j c m (later_key k j d m v.distinct.0 e) ∙ e);
}

absent_key :
    (k t : Socket) (c : Client) (m : Clients)
    → find t ((k, c) ∷ m) ≡ none
    → (rank t ≢ rank k) × (find t m ≡ none)
unfolding find
absent_key k t c m e = elim (Bool-cases (rank t == rank k)) [
  | inl same ↦ absurd (let bad : some c ≡ none = rw same at e in cc)
  | inr other ↦ (ground (arith, other), rw other at e)
]

pub put-some :
    (j k : Socket) (b c d : Client) (m : Clients)
    → find k m ≡ some c
    → find j (put k d m) ≡ some b
    → (a : Client) × (find j m ≡ some a)
put-some j k b c d m there e = elim (Bool-cases (rank j == rank k)) [
  | inl same ↦ (c, rw (rank-injective j k (ground (arith, same))) there)
  | inr other ↦ (b, sym (find-put_ne j k d m (ground (arith, other))) ∙ e)
]

pub put-none :
    (j k : Socket) (c d : Client) (m : Clients)
    → find k m ≡ some c
    → find j (put k d m) ≡ none
    → find j m ≡ none
put-none j k c d m there e = elim (Bool-cases (rank j == rank k)) [
  | inl same ↦
      let eq = rank-injective j k (ground (arith, same)) in
      absurd (none-ne-some d (sym (rw eq at e) ∙ find-put_self k d c m there))
  | inr other ↦ sym (find-put_ne j k d m (ground (arith, other))) ∙ e
]

module _ {ℓ} {K : Type ℓ} {sys : System K} (laws : Interest sys) where
  pub watch_all_other :
      (ep : Epoll) (m : Clients) (w : K) (t : Socket)
      → IsMap m
      → find t m ≡ none
      → laws.interest ep.epfd t (watch_all sys ep m w) ≡ laws.interest ep.epfd t w
  unfolding watch_all Epoll.ctl
  watch_all_other ep [] w t v e = refl
  watch_all_other ep ((k, c) ∷ m) w t v e =
      let (ne, e') = absent_key k t c m e in
      let own = (v.entry k c (find_head k c m)).0 in
      watch_all_other ep m _ t (rest-IsMap k c m v) e'
      ∙ laws.ctl_other ep.epfd c.sockfd t _ _ _ w (λ same. ne (ap rank (same ∙ own)))

  pub watch_all_asked :
      (ep : Epoll) (m : Clients) (w : K)
      → IsMap m
      → ((k : Socket) (c : Client)
          → find k m ≡ some c
          → (old : Events × Data) × (laws.interest ep.epfd k w ≡ some old))
      → (k : Socket) (c : Client) → find k m ≡ some c
      → laws.interest ep.epfd k (watch_all sys ep m w) ≡ some (wanted c, ptr k)
  unfolding watch_all Epoll.ctl find
  watch_all_asked ep [] w v h j d e = absurd (none-ne-some d e)
  watch_all_asked ep ((k, c) ∷ m) w v h j d e =
      let own = (v.entry k c (find_head k c m)).0 in
      let (old, was) = h k c (find_head k c m) in
      let made : laws.interest ep.epfd k (Epoll.ctl sys epoll_ctl_mod c (wanted c) ep w).1
          ≡ some (wanted c, ptr k) =
        subst
          (λ t.
            laws.interest ep.epfd k (sys.epoll_ctl ep.epfd epoll_ctl_mod t (wanted c) (ptr t) w).1
            ≡ some (wanted c, ptr k))
          (sym own) (laws.mod_there ep.epfd k (wanted c) (ptr k) old w was) in
      elim (Bool-cases (rank j == rank k)) [
        | inl same ↦
            let eq = rank-injective j k (ground (arith, same)) in
            let here : c ≡ d = some-injective _ _ (rw same at e) in
            rw (eq, ← here)
              (watch_all_other ep m (Epoll.ctl sys epoll_ctl_mod c (wanted c) ep w).1 k
                  (rest-IsMap k c m v) (find_fresh k k m refl v.distinct.0)
                ∙ made)
        | inr other ↦
            watch_all_asked ep m (Epoll.ctl sys epoll_ctl_mod c (wanted c) ep w).1
              (rest-IsMap k c m v)
              (λ i b f.
                let ne = later_key k i b m v.distinct.0 f in
                let (kept, was') = h i b (find_tail k i c m ne ∙ f) in
                (
                  kept,
                  laws.ctl_other ep.epfd c.sockfd i _ _ _ w (λ same. ne (ap rank (same ∙ own)))
                      ∙ was',
                ))
              j d (rw other at e)
      ]
