-- ===== src/SelectServer/Event.antt =====
-- depends/include/CellSelectServer.hpp: DoNetEvent, and the round of CellServer::OnRun that calls it.
-- `select` of the system is an argument.
use cpp100net.Common.{
  ℕ, ◌||◌, Bool, true, false, Option, none, some, [], ◌∷◌, ltb, length, ◌==◌, if◌then◌else◌, ◌>>=◌,
}
use cpp100net.Sockets.{Socket, Send, Recv}
use cpp100net.Client.{need_write}
use cpp100net.Dispatch.{Run, finished, faulted, out_of_fuel}
use cpp100net.FdSet
use cpp100net.FdSet.{Array, FdSet}
use cpp100net.Server.{NetEvent, Clients, Server, rank, take_clients, check_time, do_msg_all}
use cpp100net.SelectServer.{read_data, write_data, with_served}

pub record SelectServer : Type 0 where
  pub base : Server
  pub fd_read : FdSet
  pub fd_write : FdSet
  pub fd_read_bak : FdSet
  pub max_sock : Socket

-- `setClientNum`
unfoldable pub set_client_num : ℕ → SelectServer → SelectServer
unfolding FdSet.create
set_client_num n s = record s {
  fd_read = FdSet.create n s.fd_read;
  fd_write = FdSet.create n s.fd_write;
  fd_read_bak = FdSet.create n s.fd_read_bak;
}

-- The loop that adds every client, with the greatest socket.
unfoldable pub add_all : ℕ → Clients → FdSet × Socket → Option (FdSet × Socket)
unfolding FdSet.add
add_all cell_max_fd [] r = some r
add_all cell_max_fd ((k, c) ∷ m) (set, max) = FdSet.add cell_max_fd k set >>= λ set'.
    add_all cell_max_fd m (set', if ltb (rank max) (rank k) then k else max)

-- `(_clients.begin()->second)->sockfd()`; with no client this is a fault.
abbrev pub first_sock : Clients → Option Socket
first_sock [] = none
first_sock ((k, c) ∷ m) = some c.sockfd

-- The read set made anew, and kept in `_fdRead_bak`.
unfoldable pub collect : ℕ → SelectServer → Option SelectServer
unfolding FdSet.zero FdSet.copy add_all
collect cell_max_fd s = FdSet.zero s.fd_read >>= λ cleared. first_sock s.base.clients >>= λ sock.
    add_all cell_max_fd s.base.clients (cleared, sock) >>= λ r.
    FdSet.copy r.0 s.fd_read_bak >>= λ bak. some (record s {
      base = record s.base { clients_change = false };
      fd_read = r.0;
      fd_read_bak = bak;
      max_sock = r.1;
    })

unfoldable pub restore : SelectServer → Option SelectServer
unfolding FdSet.copy
restore s = FdSet.copy s.fd_read_bak s.fd_read >>= λ set. some (record s { fd_read = set })

unfoldable pub read_set : ℕ → SelectServer → Option SelectServer
unfolding collect restore
read_set cell_max_fd s = if s.base.clients_change then collect cell_max_fd s else restore s

-- The clients that have something to write, with `bNeedWrite`.
unfoldable pub add_writers : ℕ → Clients → FdSet → Option (Bool × FdSet)
unfolding FdSet.add
add_writers cell_max_fd [] set = some (false, set)
add_writers cell_max_fd ((k, c) ∷ m) set =
    (if need_write c then FdSet.add cell_max_fd k set else some set) >>= λ set'.
    add_writers cell_max_fd m set' >>= λ r. some (need_write c || r.0, r.1)

-- All that comes before `select`, with `bNeedWrite`.
unfoldable pub prepare : ℕ → SelectServer → Option (Bool × SelectServer)
unfolding read_set add_writers FdSet.zero
prepare cell_max_fd s = read_set cell_max_fd s >>= λ s1. FdSet.zero s1.fd_write >>= λ cleared.
    add_writers cell_max_fd s1.base.clients cleared >>= λ r.
    some (r.0, record s1 { fd_write = r.1 })

-- `select` overwrites the sets that it is given. The model keeps them as they were handed over, and
-- uses what was left in them at once: the next round makes both anew.
--
-- What `select` answers: an interruption, another error, no socket, or the two sets of those that
-- are ready.
pub data Answer : Type 0 where
  interrupted failed idle : Answer
  ready : (ℕ → Bool) → (ℕ → Bool) → Answer

-- The greatest socket, the read set, and the write set if it is passed.
abbrev pub Select : Type 0
Select = Socket → FdSet → Option FdSet → Answer

-- Membership in a set that `select` left; every socket of a client is valid by then.
abbrev pub in_set : (ℕ → Bool) → Socket → Bool
in_set p none = false
in_set p (some n) = p n

-- `select` leaves a set that it was not given as it is: empty, where nobody has anything to write.
abbrev pub writable : Bool → (ℕ → Bool) → ℕ → Bool
writable need p i = if need then p i else false

module _ {ℓ} {S : Type ℓ} (event : NetEvent S) where
  -- `ReadData` and `WriteData`.
  unfoldable pub transfer :
      (Socket → Bool) → (Socket → Bool) → Recv → Send → SelectServer → S → Option (SelectServer × S)
  unfolding read_data write_data
  transfer readable writable recv send s app =
      read_data event readable recv s.base.clients app >>= λ r.
      let base = with_served s.base r in
      write_data event writable send base.clients r.2 >>= λ w.
      some (record s { base = with_served base w }, w.2)

  abbrev pub on_answer :
      Recv → Send → Bool → SelectServer → S → Answer → Option (Bool × SelectServer × S)
  on_answer recv send need s app interrupted = some (true, s, app)
  on_answer recv send need s app failed = some (false, s, app)
  on_answer recv send need s app idle = some (true, s, app)
  on_answer recv send need s app (ready r w) =
      transfer (in_set r) (in_set (writable need w)) recv send s app >>= λ t. some (true, t.0, t.1)

  -- `DoNetEvent`
  unfoldable pub do_net_event :
      ℕ → Select → Recv → Send → SelectServer → S → Option (Bool × SelectServer × S)
  unfolding prepare transfer
  do_net_event cell_max_fd select recv send s app = prepare cell_max_fd s >>= λ p.
      on_answer recv send p.0 p.1 app
        (select p.1.max_sock p.1.fd_read (if p.0 then some p.1.fd_write else none))

  abbrev pub with_messages : SelectServer → Run (Clients × S) → Run (Bool × SelectServer × S)
  with_messages s faulted = faulted
  with_messages s out_of_fuel = out_of_fuel
  with_messages s (finished (m, app)) =
      finished (true, record s { base = record (s.base) { clients = m } }, app)

  -- `DoMsg`, if `DoNetEvent` went well; else the loop is left.
  abbrev pub after_event : ℕ → Option (Bool × SelectServer × S) → Run (Bool × SelectServer × S)
  after_event fuel none = faulted
  after_event fuel (some (false, s, app)) = finished (false, s, app)
  after_event fuel (some (true, s, app)) =
      with_messages s (do_msg_all event fuel s.base.clients app)

  -- One round of `CellServer::OnRun` at the time `now`; whether it goes on.
  unfoldable pub round :
      ℕ → ℕ → ℕ → Select → Recv → Send → SelectServer → S → Run (Bool × SelectServer × S)
  unfolding do_net_event take_clients check_time
  round cell_max_fd fuel now select recv send s app =
      let (base, app1) = take_clients event s.base app in
      let (checked, app2) = check_time event now base app1 in
      if length base.clients == 0
      then finished (true, record s { base = record base { old_time = now } }, app1)
      else after_event fuel
          (do_net_event cell_max_fd select recv send (record s { base = checked }) app2)
