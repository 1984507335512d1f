-- ===== src/IocpServer/Posts.antt =====
-- Posting the operations of one connection over completion ports.
use mathlib.Core.Option.{some-injective, none-ne-some}
use cpp100net.Common.{
  ◌-◌, ◌≡◌, ◌∙◌, refl, sym, ap, Bool, true, false, Option, none, some, ltb, arith, Bool-cases, inl,
  inr,
}
use cpp100net.Buffer
use cpp100net.Buffer.{Buffer, IoData}
use cpp100net.Buffer.Inv.{contents, length-contents}
use cpp100net.Buffer.Frame.{IsIncomplete, has_msg_complete}
use cpp100net.Client
use cpp100net.Client.{Client}
use cpp100net.IocpServer.Link.{Link}
use cpp100net.IocpServer.Order.{SendRegion, RecvRegion, IsInOrder, whole_or_not}

SendRegion-posted :
    (o : Option IoData) (b : Buffer) (flag : Bool) → SendRegion o b flag → SendRegion o b true
SendRegion-posted none b flag h = tt
SendRegion-posted (some io) b flag h = (h.0, h.1, refl)

RecvRegion-posted :
    (o : Option IoData) (b : Buffer) (flag : Bool) → RecvRegion o b flag → RecvRegion o b true
RecvRegion-posted none b flag h = tt
RecvRegion-posted (some io) b flag h = (h.0, h.1, refl, h.3)

-- Only the region that is handed out changes.
with_io_data-IsValid :
    (b : Buffer) (io : IoData)
    → Buffer.Inv.IsValid b
    → Buffer.Inv.IsValid (record b { io_data = io })
with_io_data-IsValid b io v = record { size = v.size; within = v.within }

pub posts_send-IsInOrder :
    (l : Link) (io : IoData) (c : Client)
    → IsInOrder l
    → Client.make_send_io_data l.client ≡ (some io, c)
    → IsInOrder (record l { client = c; sending = some io })
unfolding Client.make_send_io_data Buffer.make_send_io_data
posts_send-IsInOrder l io c h e = elim (Bool-cases l.client.is_post_send) [
  | inl busy ↦ absurd (none-ne-some io (ap (λ x. x.0) (rw busy at e)))
  | inr idle ↦ elim (Bool-cases (ltb 0 l.client.send_buff.n_last)) [
    | inr nothing ↦ absurd (none-ne-some io (ap (λ x. x.0) (rw (idle, nothing) at e)))
    | inl some_bytes ↦
        let e' = rw (idle, some_bytes) at e in
        let len = length-contents l.client.send_buff h.valid.send in
        rw (← some-injective _ _ (ap (λ x. x.0) e'), ← ap (λ x. x.1) e')
          (record {
            valid = record {
              recv = h.valid.recv;
              send = with_io_data-IsValid l.client.send_buff _ h.valid.send;
            };
            out = h.out;
            inward = h.inward;
            send_region = (refl, omega (arith, len), refl);
            recv_region = h.recv_region;
          })
  ]
]

-- Only the flags are set.
send_flagged :
    (l : Link)
    → IsInOrder l
    → IsInOrder (record l { client = record (l.client) { is_post_send = true } })
send_flagged l h = record {
  valid = record { recv = h.valid.recv; send = h.valid.send };
  out = h.out;
  inward = h.inward;
  send_region = SendRegion-posted l.sending l.client.send_buff _ h.send_region;
  recv_region = h.recv_region;
}

recv_flagged :
    (l : Link)
    → IsInOrder l
    → IsInOrder (record l { client = record (l.client) { is_post_recv = true } })
recv_flagged l h = record {
  valid = record { recv = h.valid.recv; send = h.valid.send };
  out = h.out;
  inward = h.inward;
  send_region = h.send_region;
  recv_region = RecvRegion-posted l.receiving l.client.recv_buff _ h.recv_region;
}

pub posts_no_send-IsInOrder :
    (l : Link) (c : Client)
    → IsInOrder l
    → Client.make_send_io_data l.client ≡ (none, c)
    → IsInOrder (record l { client = c })
unfolding Client.make_send_io_data Buffer.make_send_io_data
posts_no_send-IsInOrder l c h e = elim (Bool-cases l.client.is_post_send) [
  | inl busy ↦ rw (← ap (λ x. x.1) (rw busy at e)) (send_flagged l h)
  | inr idle ↦ elim (Bool-cases (ltb 0 l.client.send_buff.n_last)) [
    | inl some_bytes ↦ absurd (none-ne-some _ (sym (ap (λ x. x.0) (rw (idle, some_bytes) at e))))
    | inr nothing ↦ rw (← ap (λ x. x.1) (rw (idle, nothing) at e)) (send_flagged l h)
  ]
]

pub posts_recv-IsInOrder :
    (l : Link) (io : IoData) (c : Client)
    → IsInOrder l
    → Client.has_msg l.client ≡ some false
    → Client.make_recv_io_data l.client ≡ (some io, c)
    → IsInOrder (record l { client = c; receiving = some io })
unfolding Client.make_recv_io_data Buffer.make_recv_io_data Client.has_msg
posts_recv-IsInOrder l io c h drained e = elim (Bool-cases l.client.is_post_recv) [
  | inl busy ↦ absurd (none-ne-some io (ap (λ x. x.0) (rw busy at e)))
  | inr idle ↦
      let b = l.client.recv_buff in
      elim (Bool-cases (ltb 0 (b.n_size - b.n_last))) [
        | inr full ↦ absurd (none-ne-some io (ap (λ x. x.0) (rw (idle, full) at e)))
        | inl free ↦
            let e' = rw (idle, free) at e in
            let len = length-contents b h.valid.recv in
            rw (← some-injective _ _ (ap (λ x. x.0) e'), ← ap (λ x. x.1) e')
              (record {
                valid = record {
                  recv = with_io_data-IsValid b _ h.valid.recv;
                  send = h.valid.send;
                };
                out = h.out;
                inward = h.inward;
                send_region = h.send_region;
                recv_region = (
                  sym len,
                  omega (arith, h.valid.recv.within),
                  refl,
                  drained_short b h.valid.recv drained,
                );
              })
      ]
]
  where
    drained_short :
        (b : Buffer)
        → Buffer.Inv.IsValid b
        → Buffer.has_msg b ≡ some false
        → IsIncomplete (contents b)
    drained_short b v none_there = elim (whole_or_not (contents b)) [
      | inr short ↦ short
      | inl whole ↦
          let bad : true ≡ false =
            some-injective _ _ (sym (has_msg_complete b v whole.0 whole.1) ∙ none_there) in
          cc
    ]

pub posts_no_recv-IsInOrder :
    (l : Link) (c : Client)
    → IsInOrder l
    → Client.make_recv_io_data l.client ≡ (none, c)
    → IsInOrder (record l { client = c })
unfolding Client.make_recv_io_data Buffer.make_recv_io_data
posts_no_recv-IsInOrder l c h e = elim (Bool-cases l.client.is_post_recv) [
  | inl busy ↦ rw (← ap (λ x. x.1) (rw busy at e)) (recv_flagged l h)
  | inr idle ↦
      let b = l.client.recv_buff in
      elim (Bool-cases (ltb 0 (b.n_size - b.n_last))) [
        | inl free ↦ absurd (none-ne-some _ (sym (ap (λ x. x.0) (rw (idle, free) at e))))
        | inr full ↦ rw (← ap (λ x. x.1) (rw (idle, full) at e)) (recv_flagged l h)
      ]
]
