-- ===== src/Client/Ops.antt =====
-- The operations of a connection that receives: what they do to the receive buffer.
use cpp100net.Sockets.{Recv, bytes}
use cpp100net.Common.{
  refl, lt→ltb, copy_in-fits, splice, length-splice, take-splice, ◌==◌, ◌-◌, ◌+◌, ◌++◌, ℕ, ◌≤◌, ◌≡◌,
  ap, sym, false, some, List, length, drop, arith, ◌∙◌,
}
use cpp100net.Buffer
use cpp100net.Buffer.{Buffer}
use cpp100net.Buffer.Inv.{IsValid, contents, length-contents}
use cpp100net.Buffer.Refine.{pop-refines}
use cpp100net.Buffer.Frame.{front_len, front_length_lem, has_msg_complete}
use cpp100net.Client.{Client, recv_data, has_msg, pop_front, pop_front_msg}

-- The client with another receive buffer.
abbrev pub with_recv : Buffer → Client → Client
with_recv b c = record c { recv_buff = b }

-- With a whole message in front, `pop_front_msg` removes exactly that message, and touches nothing
-- but the receive buffer.
pub pop_front_msg_complete :
    (c : Client) (n : ℕ)
    → IsValid c.recv_buff
    → n ≡ front_len (contents c.recv_buff)
    → 4 ≤ length (contents c.recv_buff)
    → n ≤ length (contents c.recv_buff)
    → (b : Buffer) × (pop_front_msg c ≡ some (with_recv b c))
      × IsValid b
      × (b.n_size ≡ c.recv_buff.n_size)
      × (contents b ≡ drop n (contents c.recv_buff))
unfolding pop_front_msg has_msg pop_front
pop_front_msg_complete c n v e four whole =
    let len = length-contents c.recv_buff v in
    let front = front_length_lem c.recv_buff v (omega (arith, len)) ∙ ap some (sym e) in
    let (b, popped, ok) = pop-refines c.recv_buff n v (omega (arith, len)) in
    (b, rw (has_msg_complete c.recv_buff v four (omega arith), front, popped), ok.0, ok.1, ok.2)

not_empty : (n : ℕ) → 1 ≤ n → (n == 0) ≡ false
not_empty n h = ground arith

-- A delivery that fits behind the waiting bytes is appended to them whole.
pub recv_data-fits :
    (recv : Recv) (chunk : List ℕ) (c : Client)
    → IsValid c.recv_buff
    → 1 ≤ length chunk
    → length (contents c.recv_buff) + length chunk ≤ c.recv_buff.n_size
    → recv c.sockfd (c.recv_buff.n_size - c.recv_buff.n_last) ≡ some chunk
    → (b : Buffer) × (recv_data recv c ≡ some (bytes (length chunk), with_recv b c))
      × IsValid b
      × (b.n_size ≡ c.recv_buff.n_size)
      × (contents b ≡ contents c.recv_buff ++ chunk)
unfolding recv_data Buffer.read4socket Buffer.on_received
recv_data-fits recv chunk c v some_bytes fits delivered =
    let len = length-contents c.recv_buff v in
    let room : c.recv_buff.n_last + length chunk ≤ length c.recv_buff.p_buff =
      omega (arith, len, v.size) in
    (
      record (c.recv_buff) {
        p_buff = splice c.recv_buff.p_buff c.recv_buff.n_last chunk;
        n_last = c.recv_buff.n_last + length chunk;
      },
      rw (
        lt→ltb c.recv_buff.n_last c.recv_buff.n_size (omega (arith, len)),
        delivered,
        not_empty (length chunk) some_bytes,
        copy_in-fits c.recv_buff.p_buff c.recv_buff.n_last chunk room,
      ),
      omega (arith, length-splice c.recv_buff.p_buff c.recv_buff.n_last chunk room, len),
      refl,
      take-splice c.recv_buff.p_buff c.recv_buff.n_last chunk room,
    )
