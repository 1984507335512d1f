-- ===== src/Server/Join.antt =====
-- depends/include/CellServer.hpp, OnRun: what becomes of the clients and the count as new ones are
-- taken over.
use cpp100net.Common.{
  ℕ, ◌+◌, ◌≡◌, ◌≢◌, refl, ap, sym, true, some, Bool-cases, List, [], ◌∷◌, length, ◌==◌, arith, inl,
  inr,
}
use cpp100net.Client.{Client}
use cpp100net.Server.{
  NetEvent, Clients, Server, rank, insert, join_all, take_clients, get_client_count,
}
use cpp100net.Server.Clients.{IsFresh, length-insert, insert-IsFresh}

-- The client's socket is not among those of `cs`.
abbrev pub IsNew : Client → List Client → Type 0
IsNew c [] = Unit {0}
IsNew c (d ∷ cs) = (rank d.sockfd ≢ rank c.sockfd) × IsNew c cs

-- The sockets of the waiting clients differ from one another and from those in the map, as open
-- sockets of one process do.
abbrev pub AreDistinct : List Client → Clients → Type 0
AreDistinct [] m = Unit {0}
AreDistinct (c ∷ cs) m = IsFresh c.sockfd m × IsNew c cs × AreDistinct cs m

AreDistinct-insert :
    (k : Client) (d : Client) (cs : List Client) (m : Clients)
    → IsNew k cs
    → AreDistinct cs m
    → AreDistinct cs (insert k.sockfd d m)
AreDistinct-insert k d [] m new h = tt
AreDistinct-insert k d (c ∷ cs) m new h =
    (insert-IsFresh c.sockfd k.sockfd d m new.0 h.0, h.1, AreDistinct-insert k d cs m new.1 h.2)

empty {ℓ} : {A : Type ℓ} {xs : List A} → length xs == 0 ≡ true → xs ≡ []
empty {xs = []} h = refl
empty {xs = x ∷ xs} h = ground arith

module _ {ℓ} {S : Type ℓ} (event : NetEvent S) where
  -- The application is told of each client once, in order.
  unfoldable pub joined_all : ℕ → List Client → S → S
  joined_all id [] app = app
  joined_all id (c ∷ cs) app =
      joined_all id cs (event.on_net_join (record c { server_id = some id }) app)

  join_all-length :
      (id : ℕ) (cs : List Client) (m : Clients) (app : S)
      → AreDistinct cs m
      → (length (join_all event id cs (m, app)).0 ≡ length m + length cs)
        × ((join_all event id cs (m, app)).1 ≡ joined_all id cs app)
  unfolding join_all joined_all
  join_all-length id [] m app h = (omega arith, refl)
  join_all-length id (c ∷ cs) m app h =
      let ih =
        join_all-length id cs (insert c.sockfd (record c { server_id = some id }) m)
          (event.on_net_join (record c { server_id = some id }) app)
          (AreDistinct-insert c (record c { server_id = some id }) cs m h.1 h.2) in
      (omega (arith, ih.0, length-insert c.sockfd (record c { server_id = some id }) m h.0), ih.1)

  -- With sockets that are distinct, the step of `OnRun` that takes new clients over empties their
  -- buffer, tells the application of each of them once, in order, and the number of clients that the
  -- server counts stays the same: they are all in the map.
  pub take_clients_lem :
      (s : Server) (app : S)
      → AreDistinct s.clients_buff s.clients
      → let (s', app') = take_clients event s app in
        (s'.clients_buff ≡ [])
        × (get_client_count s' ≡ get_client_count s)
        × (length s'.clients ≡ length s.clients + length s.clients_buff)
        × (app' ≡ joined_all s.id s.clients_buff app)
  unfolding take_clients get_client_count joined_all
  take_clients_lem s app h =
      let all = join_all-length s.id s.clients_buff s.clients app h in
      elim (Bool-cases (length s.clients_buff == 0)) [
        | inl e ↦ rw e (
          empty e,
          refl,
          omega (arith, ap length (empty e)),
          sym (ap (λ cs. joined_all s.id cs app) (empty e)),
        )
        | inr e ↦ rw e (refl, omega (arith, all.0), all.0, all.1)
      ]
