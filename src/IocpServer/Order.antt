-- ===== src/IocpServer/Order.antt =====
-- The bytes of one connection over completion ports, in both directions.
use mathlib.Core.Option.{some-injective}
use cpp100net.Common.{
  ℕ, ◌+◌, ◌≤◌, ◌≡◌, ◌∙◌, refl, sym, ap, Bool, true, false, Option, none, some, List, [], ◌++◌,
  length, take, drop, leb, arith, Bool-cases, inl, inr, ◌⊎◌, append_assoc, append-nil,
  if◌then◌else◌, take-append-drop, length-append,
}
use cpp100net.Sockets.{socket_error, bytes}
use cpp100net.Buffer
use cpp100net.Buffer.{Buffer, IoData}
use cpp100net.Buffer.Inv.{contents, length-contents}
use cpp100net.Buffer.Frame.{front_len, IsIncomplete, has_msg_incomplete}
use cpp100net.Buffer.Refine.{push-refines}
use cpp100net.Client
use cpp100net.Client.{Client}
use cpp100net.Client.Inv.{IsValid}
use cpp100net.Client.Ops.{pop_front_msg_complete}
use cpp100net.IocpServer.Link.{Link}

-- The region that Windows sends from is at the front of the waiting bytes.
abbrev pub SendRegion : Option IoData → Buffer → Bool → Type 0
SendRegion none b flag = Unit {0}
SendRegion (some io) b flag = (io.buf ≡ 0) × (io.len ≤ length (contents b)) × (flag ≡ true)

-- The region that Windows receives into is all that is free, behind the waiting bytes, among which
-- there is no whole message.
abbrev pub RecvRegion : Option IoData → Buffer → Bool → Type 0
RecvRegion none b flag = Unit {0}
RecvRegion (some io) b flag =
    (io.buf ≡ length (contents b))
    × (io.buf + io.len ≡ b.n_size)
    × (flag ≡ true)
    × IsIncomplete (contents b)

-- The buffers are valid, the bytes that were sent and those waiting to be sent are those pushed, in their
-- order, the bytes handled and those waiting to be handled are those that have arrived, in their order,
-- and what is pending lies where it belongs.
pub record IsInOrder (l : Link) : Type 0 where
  pub valid : IsValid l.client
  pub out : l.wire ++ contents l.client.send_buff ≡ l.pushed
  pub inward : l.handled ++ contents l.client.recv_buff ≡ l.arrived
  pub send_region : SendRegion l.sending l.client.send_buff l.client.is_post_send
  pub recv_region : RecvRegion l.receiving l.client.recv_buff l.client.is_post_recv

SendRegion-longer :
    (o : Option IoData) (b b' : Buffer) (flag : Bool)
    → length (contents b) ≤ length (contents b')
    → SendRegion o b flag
    → SendRegion o b' flag
SendRegion-longer none b b' flag more h = tt
SendRegion-longer (some io) b b' flag more h = (h.0, omega (arith, h.1, more), h.2)

-- SendData replaces the send buffer by what push makes of it.
send_data-push :
    (xs : List ℕ) (c : Client)
    → IsValid c
    → (r : Bool × Buffer) × (Client.send_data xs c
        ≡ some (if r.0 then bytes (length xs) else socket_error, record c { send_buff = r.1 }))
      × Buffer.Inv.IsValid r.1
      × (contents r.1 ≡ (if r.0 then contents c.send_buff ++ xs else contents c.send_buff))
unfolding Client.send_data
send_data-push xs c v =
    let (r, pushed, ok) = push-refines c.send_buff xs v.send in (r, rw pushed refl, ok.0, ok.3)

-- Bytes were added at the end of the send buffer.
after_push :
    (l : Link) (b : Buffer) (ys pushed : List ℕ)
    → IsInOrder l
    → Buffer.Inv.IsValid b
    → contents b ≡ contents l.client.send_buff ++ ys
    → l.pushed ++ ys ≡ pushed
    → IsInOrder (record l { client = record (l.client) { send_buff = b }; pushed = pushed })
after_push l b ys pushed h ok now all = record {
  valid = record { recv = h.valid.recv; send = ok };
  out =
      ap (λ zs. l.wire ++ zs) now
      ∙ sym (append_assoc l.wire (contents l.client.send_buff) ys)
      ∙ ap (λ zs. zs ++ ys) h.out
      ∙ all;
  inward = h.inward;
  send_region =
      SendRegion-longer l.sending l.client.send_buff b l.client.is_post_send
        (omega (arith, ap (λ zs. length zs) now, length-append (contents l.client.send_buff) ys))
        h.send_region;
  recv_region = h.recv_region;
}

pub pushes-IsInOrder :
    (l : Link) (xs : List ℕ) (c : Client)
    → IsInOrder l
    → Client.send_data xs l.client ≡ some (bytes (length xs), c)
    → IsInOrder (record l { client = c; pushed = l.pushed ++ xs })
pushes-IsInOrder l xs c h e =
    let (r, ran, ok, now) = send_data-push xs l.client h.valid in
    let same = some-injective _ _ (sym e ∙ ran) in
    elim (Bool-cases r.0) [
      | inl room ↦
          rw (ap (λ x. x.1) same) (after_push l r.1 xs (l.pushed ++ xs) h ok (rw room at now) refl)
      | inr full ↦
          let bad : bytes (length xs) ≡ socket_error = rw full at (ap (λ x. x.0) same) in cc
    ]

pub refuses-IsInOrder :
    (l : Link) (xs : List ℕ) (c : Client)
    → IsInOrder l
    → Client.send_data xs l.client ≡ some (socket_error, c)
    → IsInOrder (record l { client = c })
refuses-IsInOrder l xs c h e =
    let (r, ran, ok, now) = send_data-push xs l.client h.valid in
    let same = some-injective _ _ (sym e ∙ ran) in
    elim (Bool-cases r.0) [
      | inl room ↦
          let bad : socket_error ≡ bytes (length xs) = rw room at (ap (λ x. x.0) same) in cc
      | inr full ↦ rw (ap (λ x. x.1) same) (
          let none_added : contents l.client.send_buff ++ [] ≡ contents l.client.send_buff =
            rw append-nil in
          after_push l r.1 [] l.pushed h ok (rw full at now ∙ sym none_added) (rw append-nil))
    ]

-- A whole message at the front, or not.
pub whole_or_not : (xs : List ℕ) → ((4 ≤ length xs) × (front_len xs ≤ length xs)) ⊎ IsIncomplete xs
whole_or_not xs = elim (Bool-cases (leb 4 (length xs))) [
  | inr short ↦ inr (inl (ground (arith, short)))
  | inl header ↦ elim (Bool-cases (leb (front_len xs) (length xs))) [
    | inr short ↦ inr (inr (ground (arith, short)))
    | inl whole ↦ inl (ground (arith, header), ground (arith, whole))
  ]
]

-- While a receive is pending no message is there to be handled.
none_pending :
    (o : Option IoData) (b : Buffer) (flag : Bool)
    → Buffer.Inv.IsValid b
    → Buffer.has_msg b ≡ some true
    → RecvRegion o b flag
    → o ≡ none
none_pending none b flag v found h = refl
none_pending (some io) b flag v found h =
    let bad : true ≡ false = some-injective _ _ (sym found ∙ has_msg_incomplete b v h.3) in cc

pub handles-IsInOrder :
    (l : Link) (c : Client)
    → IsInOrder l
    → Client.has_msg l.client ≡ some true
    → Client.pop_front_msg l.client ≡ some c
    → IsInOrder (record l {
      client = c;
      handled =
          l.handled ++ take (front_len (contents l.client.recv_buff)) (contents l.client.recv_buff);
    })
unfolding Client.has_msg
handles-IsInOrder l c h found popped =
    let xs = contents l.client.recv_buff in
    let v = h.valid.recv in
    elim (whole_or_not xs) [
      | inr short ↦
          let bad : true ≡ false =
            some-injective _ _ (sym found ∙ has_msg_incomplete l.client.recv_buff v short) in
          cc
      | inl whole ↦
          let (b, ran, ok, size, now) =
            pop_front_msg_complete l.client (front_len xs) v refl whole.0 whole.1 in
          let idle =
            none_pending l.receiving l.client.recv_buff l.client.is_post_recv v found
              h.recv_region in
          rw (some-injective _ _ (sym popped ∙ ran)) (record {
            valid = record { recv = ok; send = h.valid.send };
            out = h.out;
            inward =
                ap (λ zs. (l.handled ++ take (front_len xs) xs) ++ zs) now
                ∙ append_assoc l.handled (take (front_len xs) xs) (drop (front_len xs) xs)
                ∙ ap (λ zs. l.handled ++ zs) (take-append-drop (front_len xs) xs)
                ∙ h.inward;
            send_region = h.send_region;
            recv_region = rw idle tt;
          })
    ]
