-- ===== src/Client/Outbox.antt =====
-- `SendData` of a connection against the queue of its send buffer.
use cpp100net.Common.{ℕ, ◌+◌, ◌≡◌, refl, List, ◌++◌, length, leb, if◌then◌else◌, Returns, ap, ◌∙◌}
use cpp100net.Sockets.{socket_error, bytes}
use cpp100net.Buffer
use cpp100net.Buffer.Inv.{contents}
use cpp100net.Buffer.Refine.{push-refines}
use cpp100net.Client
use cpp100net.Client.{Client}

-- What `SendData` of a connection does with bytes of the right length.
pub send_data-refines :
    (c : Client) (xs : List ℕ)
    → Buffer.Inv.IsValid c.send_buff
    → Returns (Client.send_data xs c) λ r.
      (r.0 ≡ (
        if leb (length (contents c.send_buff) + length xs) c.send_buff.n_size
        then bytes (length xs)
        else socket_error))
      × Buffer.Inv.IsValid r.1.send_buff
      × (contents r.1.send_buff ≡ (
          if leb (length (contents c.send_buff) + length xs) c.send_buff.n_size
          then contents c.send_buff ++ xs
          else contents c.send_buff))
unfolding Client.send_data
send_data-refines c xs v =
    let (r, pushed, ok) = push-refines c.send_buff xs v in
    (
      (if r.0 then bytes (length xs) else socket_error, record c { send_buff = r.1 }),
      rw pushed refl,
      (
        ap (λ b. if b then bytes (length xs) else socket_error) ok.2,
        ok.0,
        ok.3 ∙ ap (λ b. if b then contents c.send_buff ++ xs else contents c.send_buff) ok.2,
      ),
    )
