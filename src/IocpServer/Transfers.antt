-- ===== src/IocpServer/Transfers.antt =====
-- Completing the operations of one connection over completion ports.
use mathlib.Core.Option.{some-injective}
use cpp100net.Common.{
  ℕ, ◌+◌, ◌≤◌, ◌≡◌, ◌∙◌, refl, sym, ap, Bool, true, Option, none, some, List, ◌++◌, length, take,
  drop, ltb, leb, lt→ltb, le→leb, arith, copy_in, copy_out, copy_in-fits, copy_out-fits, splice,
  length-splice, take-splice, append_assoc, take-append-drop, take-take, ◌&&◌,
}
use cpp100net.Buffer
use cpp100net.Buffer.{Buffer, IoData}
use cpp100net.Buffer.Inv.{contents, length-contents}
use cpp100net.Buffer.Iocp.{write2iocp-refines}
use cpp100net.Client
use cpp100net.Client.{Client}
use cpp100net.IocpServer.Link.{
  Link, new_link, with_memory, Step, pushes, refuses, handles, posts_send, posts_no_send,
  posts_recv, posts_no_recv, sent, received, Reach, here, then_step,
}
use cpp100net.IocpServer.Order.{
  SendRegion, RecvRegion, IsInOrder, pushes-IsInOrder, refuses-IsInOrder, handles-IsInOrder,
}
use cpp100net.Client.Inv.{IsValid}
use cpp100net.IocpServer.Posts.{
  posts_send-IsInOrder, posts_no_send-IsInOrder, posts_recv-IsInOrder, posts_no_recv-IsInOrder,
}

-- The region that is being sent is the beginning of what waits.
sent_bytes :
    (b : Buffer) (io : IoData) (xs : List ℕ)
    → Buffer.Inv.IsValid b
    → SendRegion (some io) b true
    → length xs ≤ io.len
    → copy_out b.p_buff io.buf (length xs) ≡ some xs
    → xs ≡ take (length xs) (contents b)
sent_bytes b io xs v h within e =
    let len = length-contents b v in
    let n = length xs in
    let fits : 0 + n ≤ length b.p_buff = omega (arith, len, h.1, within, v.size, v.within) in
    sym (some-injective _ _ (sym (copy_out-fits b.p_buff 0 n fits) ∙ (rw (h.0) at e)))
    ∙ sym (take-take n b.n_last b.p_buff (omega (arith, len, h.1, within)))

sent-IsInOrder :
    (l : Link) (io : IoData) (xs : List ℕ) (c : Client)
    → IsInOrder l
    → l.sending ≡ some io
    → length xs ≤ io.len
    → copy_out l.client.send_buff.p_buff io.buf (length xs) ≡ some xs
    → Client.send2iocp (length xs) l.client ≡ some c
    → IsInOrder (record l { client = c; sending = none; wire = l.wire ++ xs })
unfolding Client.send2iocp
sent-IsInOrder l io xs c h pending within out e =
    let b = l.client.send_buff in
    let region : SendRegion (some io) b l.client.is_post_send = rw pending at (h.send_region) in
    let len = length-contents b h.valid.send in
    let front = sent_bytes b io xs h.valid.send (region.0, region.1, refl) within out in
    let (r, ran, (ok, fine, now)) = write2iocp-refines b (length xs) h.valid.send in
    let taken : r.0 ≡ true =
      fine ∙ le→leb (length xs) b.n_last (omega (arith, len, region.1, within)) in
    let left : contents r.1 ≡ drop (length xs) (contents b) = rw taken at now in
    rw (← some-injective _ _ (rw (region.2, ran) at e)) (record {
      valid = record { recv = h.valid.recv; send = ok };
      out =
          ap (λ zs. (l.wire ++ xs) ++ zs) left
          ∙ append_assoc l.wire xs (drop (length xs) (contents b))
          ∙ ap (λ zs. l.wire ++ zs)
              (ap (λ zs. zs ++ drop (length xs) (contents b)) front
                ∙ take-append-drop (length xs) (contents b))
          ∙ h.out;
      inward = h.inward;
      send_region = tt;
      recv_region = h.recv_region;
    })

-- What Windows wrote to the region it was handed stands behind the waiting bytes.
read4iocp_at :
    (b : Buffer) (io : IoData) (xs p : List ℕ)
    → Buffer.Inv.IsValid b
    → io.buf ≡ length (contents b)
    → io.buf + io.len ≡ b.n_size
    → 1 ≤ length xs
    → length xs ≤ io.len
    → copy_in b.p_buff io.buf xs ≡ some p
    → let b' = (Buffer.read4iocp (length xs) (record b { p_buff = p })).1 in
      Buffer.Inv.IsValid b' × (contents b' ≡ contents b ++ xs)
unfolding Buffer.read4iocp
read4iocp_at b io xs p v at_mark all some_bytes within e =
    let len = length-contents b v in
    let n = length xs in
    let mark : io.buf ≡ b.n_last = at_mark ∙ len in
    let fits : b.n_last + n ≤ length b.p_buff = omega (arith, v.size, mark, all, within) in
    let room : (ltb 0 n && leb (b.n_last + n) b.n_size) ≡ true =
      rw (lt→ltb 0 n some_bytes, le→leb (b.n_last + n) b.n_size (omega (arith, mark, all, within)))
        refl in
    let there : splice b.p_buff b.n_last xs ≡ p =
      some-injective _ _ (sym (copy_in-fits b.p_buff b.n_last xs fits) ∙ (rw mark at e)) in
    rw (room, ← there)
      (
        record {
          size = length-splice b.p_buff b.n_last xs fits ∙ v.size;
          within = omega (arith, fits, v.size);
        },
        take-splice b.p_buff b.n_last xs fits,
      )

received-IsInOrder :
    (l : Link) (io : IoData) (xs p : List ℕ)
    → IsInOrder l
    → l.receiving ≡ some io
    → 1 ≤ length xs
    → length xs ≤ io.len
    → copy_in l.client.recv_buff.p_buff io.buf xs ≡ some p
    → IsInOrder (record l {
      client = Client.recv4iocp (length xs) (with_memory p l.client);
      receiving = none;
      arrived = l.arrived ++ xs;
    })
unfolding Client.recv4iocp
received-IsInOrder l io xs p h pending some_bytes within e =
    let b = l.client.recv_buff in
    let region : RecvRegion (some io) b l.client.is_post_recv = rw pending at (h.recv_region) in
    let (ok, now) = read4iocp_at b io xs p h.valid.recv region.0 region.1 some_bytes within e in
    rw (region.2) (record {
      valid = record { recv = ok; send = h.valid.send };
      out = h.out;
      inward =
          ap (λ zs. l.handled ++ zs) now
          ∙ sym (append_assoc l.handled (contents b) xs)
          ∙ ap (λ zs. zs ++ xs) h.inward;
      send_region = h.send_region;
      recv_region = tt;
    })

Step-IsInOrder : (l m : Link) → IsInOrder l → Step l m → IsInOrder m
Step-IsInOrder l _ h (pushes xs c e) = pushes-IsInOrder l xs c h e
Step-IsInOrder l _ h (refuses xs c e) = refuses-IsInOrder l xs c h e
Step-IsInOrder l _ h (handles c found popped) = handles-IsInOrder l c h found popped
Step-IsInOrder l _ h (posts_send io c e) = posts_send-IsInOrder l io c h e
Step-IsInOrder l _ h (posts_no_send c e) = posts_no_send-IsInOrder l c h e
Step-IsInOrder l _ h (posts_recv io c drained e) = posts_recv-IsInOrder l io c h drained e
Step-IsInOrder l _ h (posts_no_recv c e) = posts_no_recv-IsInOrder l c h e
Step-IsInOrder l _ h (sent io xs c pending some_bytes within out e) =
    sent-IsInOrder l io xs c h pending within out e
Step-IsInOrder l _ h (received io xs p pending some_bytes within e) =
    received-IsInOrder l io xs p h pending some_bytes within e

-- The region lies inside the array.
abbrev pub Inside : Option IoData → Buffer → Type 0
Inside none b = Unit {0}
Inside (some io) b = io.buf + io.len ≤ length b.p_buff

send-Inside :
    (o : Option IoData) (b : Buffer) (flag : Bool)
    → Buffer.Inv.IsValid b
    → SendRegion o b flag
    → Inside o b
send-Inside none b flag v h = tt
send-Inside (some io) b flag v h = omega (arith, length-contents b v, h.0, h.1, v.size, v.within)

recv-Inside :
    (o : Option IoData) (b : Buffer) (flag : Bool)
    → Buffer.Inv.IsValid b
    → RecvRegion o b flag
    → Inside o b
recv-Inside none b flag v h = tt
recv-Inside (some io) b flag v h = omega (arith, h.1, v.size)

Reach-kept : {l m : Link} → IsInOrder l → Reach l m → IsInOrder m
Reach-kept h here = h
Reach-kept h (then_step {m} {n} before step) = Step-IsInOrder m n (Reach-kept h before) step

-- Whatever happens to a new connection with valid, empty buffers, where a receive is posted only when
-- no whole message waits, and each completion moves at least one byte and no more than its region
-- holds: the bytes sent, then those waiting to be sent, are those given to SendData, in their order;
-- the bytes of the messages handled, then those waiting, are those that have arrived, in their order; and
-- the regions that Windows holds are the front of what waits to be sent, and all that is free behind
-- the received bytes, inside the arrays.
pub Reach-IsInOrder :
    (c : Client) (l : Link)
    → IsValid c
    → c.send_buff.n_last ≡ 0
    → c.recv_buff.n_last ≡ 0
    → Reach (new_link c) l
    → IsInOrder l × Inside l.sending l.client.send_buff × Inside l.receiving l.client.recv_buff
Reach-IsInOrder c l v no_out no_in reach =
    let first : IsInOrder (new_link c) = record {
      valid = v;
      out = ap (λ n. take n c.send_buff.p_buff) no_out;
      inward = ap (λ n. take n c.recv_buff.p_buff) no_in;
      send_region = tt;
      recv_region = tt;
    } in
    let h = Reach-kept first reach in
    (
      h,
      send-Inside l.sending l.client.send_buff _ h.valid.send h.send_region,
      recv-Inside l.receiving l.client.recv_buff _ h.valid.recv h.recv_region,
    )
