-- ===== src/TcpServer/AcceptLoop.antt =====
-- depends/include/EasySelectServer.hpp: the loop that waits for connections and accepts them.
use cpp100net.Common.{ℕ, Bool, true, false, Option, none, some, List, [], if◌then◌else◌, ◌>>=◌}
use cpp100net.Sockets.{Socket}
use cpp100net.FdSet
use cpp100net.FdSet.{FdSet}
use cpp100net.SelectServer.Event.{Answer, interrupted, failed, idle, ready, in_set}
use cpp100net.TcpServer.{TcpServer, accept}
use cpp100net.TcpServer.Listen.{time4msg}

-- What the environment of a round does: whether a second has passed, what `select` answers to the set,
-- and for `Accpet` the socket from `accept`, the number of the next client, and fresh arrays.
pub record Round : Type 0 where
  pub second_passed : Bool
  pub select : Socket → FdSet → Answer
  pub answer : Socket
  pub id : ℕ
  pub fresh : ℕ → List ℕ

-- Whether the loop goes on, the sockets that are closed, and the server.
abbrev pub Rounded : Type 0
Rounded = Bool × List Socket × TcpServer

abbrev pub accepted : Option (Socket × List Socket × TcpServer) → Option Rounded
accepted none = none
accepted (some (sock, closed, t)) = some (true, closed, t)

-- An interrupted call goes on, another error ends the loop.
abbrev pub on_answer : Round → TcpServer → Answer → Option Rounded
on_answer r t interrupted = some (true, [], t)
on_answer r t failed = some (false, [], t)
on_answer r t idle = some (true, [], t)
on_answer r t (ready read write) =
    if in_set read t.sock then accepted (accept r.answer r.id r.fresh t) else some (true, [], t)

-- The set of the listening socket alone.
unfoldable pub listen_set : ℕ → Socket → FdSet → Option FdSet
unfolding FdSet.zero FdSet.add
listen_set cell_max_fd sock fd_read =
    FdSet.zero fd_read >>= λ cleared. FdSet.add cell_max_fd sock cleared

-- One round of the loop in `OnRun`, with the set as it was handed to `select`; the next round clears it.
unfoldable pub accept_round : ℕ → Round → FdSet → TcpServer → Option (FdSet × Rounded)
unfolding time4msg listen_set
accept_round cell_max_fd r fd_read t =
    let t1 = time4msg r.second_passed t in
    listen_set cell_max_fd t1.sock fd_read >>= λ set.
    on_answer r t1 (r.select t1.sock set) >>= λ done. some (set, done)
