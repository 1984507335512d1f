-- ===== src/Epoll/Table.antt =====
-- What the program relies on of epoll: the sockets that an object watches, with the events asked for.
use cpp100net.Common.{◌≡◌, ◌≢◌, Option, none, some, List, [], ◌∷◌, ℕ}
use cpp100net.Common.Int.{ℤ}
use cpp100net.Sockets.{Socket}
use cpp100net.Epoll.{System, Events, Data, Op, Event, happened, epoll_ctl_add, epoll_ctl_mod}

abbrev pub NotAmong : Socket → List Socket → Type 0
NotAmong s [] = Unit {0}
NotAmong s (t ∷ ts) = (s ≢ t) × NotAmong s ts

-- The events are about different sockets of the table, each with the data that was kept for it.
pub data Reported (q : Socket → Option (Events × Data)) : List Event → List Socket → Type 0 where
  nothing : Reported q [] []
  one :
      {es : List Event} {ss : List Socket} (s : Socket) (ev asked : Events) (d : Data)
      → q s ≡ some (asked, d)
      → NotAmong s ss
      → Reported q es ss
      → Reported q (record { events = ev; about = d } ∷ es) (s ∷ ss)

-- `interest ep s w` is what the object `ep` watches the socket `s` for, and the data kept with it.
-- EPOLL_CTL_MOD changes the entry of a socket that is there, EPOLL_CTL_ADD makes one where there was
-- none, and a valid socket that is closed loses its entry; the others keep theirs. `epoll_wait` changes
-- none, and reports sockets of the table, each once.
pub record Interest {ℓ} {K : Type ℓ} (sys : System K) : Type ℓ where
  pub interest : Socket → Socket → K → Option (Events × Data)
  pub mod_there :
      (ep s : Socket) (ev : Events) (d : Data) (old : Events × Data) (w : K)
      → interest ep s w ≡ some old
      → interest ep s (sys.epoll_ctl ep epoll_ctl_mod s ev d w).1 ≡ some (ev, d)
  pub add_new :
      (ep s : Socket) (ev : Events) (d : Data) (w : K)
      → interest ep s w ≡ none
      → interest ep s (sys.epoll_ctl ep epoll_ctl_add s ev d w).1 ≡ some (ev, d)
  pub ctl_other :
      (ep s t : Socket) (op : Op) (ev : Events) (d : Data) (w : K)
      → t ≢ s
      → interest ep t (sys.epoll_ctl ep op s ev d w).1 ≡ interest ep t w
  pub close_gone :
      (ep : Socket) (s : ℕ) (w : K) → interest ep (some s) (sys.close (some s) w) ≡ none
  pub close_other :
      (ep s t : Socket) (w : K) → t ≢ s → interest ep t (sys.close s w) ≡ interest ep t w
  pub wait_same :
      (ep t : Socket) (n : ℤ) (timeout : ℕ) (w : K)
      → interest ep t (sys.epoll_wait ep n timeout w).1 ≡ interest ep t w
  pub wait_reports :
      (ep : Socket) (n : ℤ) (timeout : ℕ) (w : K) (es : List Event)
      → (sys.epoll_wait ep n timeout w).0 ≡ happened es
      → (ss : List Socket) × Reported (λ s. interest ep s w) es ss
