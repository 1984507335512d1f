-- ===== src/Dispatch.antt =====
-- `DoMsg` of depends/include/CellServer.hpp (for one client) and of depends/include/EasyTcpClient.hpp:
-- the loop that hands every whole message in the receive buffer to the handler.
pub mod Split
pub mod Drain
pub mod Feed
pub mod Spin
mod Tests
use cpp100net.Common.{ℕ, zero, suc, Bool, true, false, Option, none, some, List, [], ◌∷◌, ◌>>=◌}
use cpp100net.Client.{Client, has_msg, front_msg, pop_front_msg, recv_data}
use cpp100net.Sockets.{Recv, Ret, socket_error, bytes}

-- How a run of the loop ends: with a result, in an access outside an array, or not within the fuel.
pub data Run {ℓ} (A : Type ℓ) : Type ℓ where
  finished : A → Run A
  faulted : Run A
  out_of_fuel : Run A

-- `OnNetMsg(pClient, header)` over the application's state: it is given the memory from the message
-- on, and may change the client; `none` is a fault.
abbrev pub Handler {ℓ} : Type ℓ → Type ℓ
Handler S = List ℕ → S × Client → Option (S × Client)

-- `while (pClient->hasMsg()) { … }`: one test of the loop, with the round that would follow.
abbrev pub loop_step {ℓ} : {A : Type ℓ} → Option Bool → Option A → (A → Run A) → A → Run A
loop_step none r again sc = faulted
loop_step (some false) r again sc = finished sc
loop_step (some true) none again sc = faulted
loop_step (some true) (some sc') again sc = again sc'

abbrev pub answer {ℓ} : {S : Type ℓ} → Ret → Run (S × Client) → Run (Ret × S × Client)
answer ret (finished (s, c)) = finished (ret, s, c)
answer ret faulted = faulted
answer ret out_of_fuel = out_of_fuel

module _ {ℓ} {S : Type ℓ} (on_net_msg : Handler S) where
  -- One round of the loop: the handler sees the front message, which is then removed.
  unfoldable pub round : S × Client → Option (S × Client)
  round (s, c) = on_net_msg (front_msg c) (s, c) >>= λ r. pop_front_msg r.1 >>= λ c'. some (r.0, c')

  unfoldable pub do_msg : ℕ → S × Client → Run (S × Client)
  unfolding round
  do_msg zero sc = out_of_fuel
  do_msg (suc fuel) sc = loop_step (has_msg sc.1) (round sc) (do_msg fuel) sc

  -- What `EasyTcpClient::RecvData` does with the answer of `_pClient->RecvData()`.
  abbrev pub received : ℕ → S → Option (Ret × Client) → Run (Ret × S × Client)
  received fuel s none = faulted
  received fuel s (some (socket_error, c)) = finished (socket_error, s, c)
  received fuel s (some (bytes zero, c)) = finished (bytes 0, s, c)
  received fuel s (some (bytes (suc k), c)) = answer (bytes (suc k)) (do_msg fuel (s, c))

  -- `EasyTcpClient::RecvData` of a client that is connected: the loop runs if bytes came in.
  unfoldable pub receive : ℕ → Recv → S × Client → Run (Ret × S × Client)
  receive fuel recv (s, c) = received fuel s (recv_data recv c)
