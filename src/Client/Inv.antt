-- ===== src/Client/Inv.antt =====
-- A connection is well formed when both its buffers are.
use cpp100net.Client.{Client}
use cpp100net.Buffer.Inv

pub record IsValid (c : Client) : Type 0 where
  pub recv : Inv.IsValid c.recv_buff
  pub send : Inv.IsValid c.send_buff
