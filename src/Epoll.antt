-- ===== src/Epoll.antt =====
-- depends/include/CellEpoll.hpp: the descriptor of an epoll object with its array of events. The calls
-- of the system are a parameter, over the state `K` of the system; what is logged is left out.
pub mod Table
use cpp100net.Common.{ℕ, zero, suc, Bool, true, false, Option, none, some, List, [], if◌then◌else◌}
use cpp100net.Common.Int.{ℤ, pos, negsuc}
use cpp100net.Sockets.{Socket}
use cpp100net.Client.{Client}

-- EPOLLIN and EPOLLOUT, the only events that the program asks for.
pub record Events : Type 0 where
  pub epoll_in : Bool
  pub epoll_out : Bool

-- `epoll_data`: a socket, or a pointer, which is null or to the client with this socket.
pub data Data : Type 0 where
  null : Data
  fd : Socket → Data
  ptr : Socket → Data

pub data Op : Type 0 where
  epoll_ctl_add epoll_ctl_mod : Op

-- One entry of the array of events.
pub record Event : Type 0 where
  pub events : Events
  pub about : Data

-- What `epoll_wait` answers: an interruption (EINTR), another error, or what it wrote to the array.
pub data Answer : Type 0 where
  interrupted failed : Answer
  happened : List Event → Answer

-- The functions of the system. A descriptor of `none` is -1; `epoll_ctl` says whether it went well.
pub record System {ℓ} (K : Type ℓ) : Type ℓ where
  pub epoll_create : ℕ → K → Socket × K
  pub epoll_ctl : Socket → Op → Socket → Events → Data → K → Bool × K
  pub epoll_wait : Socket → ℤ → ℕ → K → Answer × K
  pub close : Socket → K → K

-- `p_events` is the length of the array.
pub record Epoll : Type 0 where
  pub p_events : Option ℕ
  pub n_max_events : ℤ
  pub epfd : Socket

-- The members' initial values.
abbrev pub new_epoll : Epoll
new_epoll = record { p_events = none; n_max_events = negsuc 0; epfd = none }

-- `_epfd > 0`
abbrev pub is_open : Socket → Bool
is_open none = false
is_open (some zero) = false
is_open (some (suc n)) = true

module _ {ℓ} {K : Type ℓ} (sys : System K) where
  unfoldable pub destroy : Epoll → K → Epoll × K
  destroy e world =
      if is_open e.epfd
      then (record e { p_events = none; epfd = none }, sys.close e.epfd world)
      else (record e { p_events = none }, world)

  -- What `create` does with the new descriptor.
  abbrev pub on_create : ℕ → Epoll → Socket × K → Socket × Epoll × K
  on_create n_max_events e (none, world) = (none, record e { epfd = none }, world)
  on_create n_max_events e (some d, world) = (
    some d,
    record { p_events = some n_max_events; n_max_events = pos n_max_events; epfd = some d },
    world,
  )

  unfoldable pub create : ℕ → Epoll → K → Socket × Epoll × K
  unfolding destroy
  create n_max_events e world =
      let (e', world') = if is_open e.epfd then destroy e world else (e, world) in
      on_create n_max_events e' (sys.epoll_create n_max_events world')

  -- `ctl` for a socket.
  unfoldable pub ctl_fd : Op → Socket → Events → Epoll → K → Bool × K
  ctl_fd op sockfd events e world = sys.epoll_ctl e.epfd op sockfd events (fd sockfd) world

  -- `ctl` for a client.
  unfoldable pub ctl : Op → Client → Events → Epoll → K → Bool × K
  ctl op c events e world = sys.epoll_ctl e.epfd op c.sockfd events (ptr c.sockfd) world

  -- The number that `wait` returns and the events in the array; `none` is below 0.
  abbrev pub on_wait : Answer × K → Option (List Event) × K
  on_wait (interrupted, world) = (some [], world)
  on_wait (failed, world) = (none, world)
  on_wait (happened events, world) = (some events, world)

  unfoldable pub wait : ℕ → Epoll → K → Option (List Event) × K
  wait timeout e world = on_wait (sys.epoll_wait e.epfd e.n_max_events timeout world)
