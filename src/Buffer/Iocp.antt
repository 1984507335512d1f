-- ===== src/Buffer/Iocp.antt =====
-- The completion-port half of `CellBuffer`: a region is handed out, the system fills or sends it, and
-- the completion moves the fill mark.
use cpp100net.Common.{
  ℕ, ◌+◌, ◌-◌, ◌≤◌, ◌<◌, ◌≡◌, refl, true, false, some, List, ◌++◌, length, drop, arith, ltb, leb,
  ◌&&◌, if◌then◌else◌, copy_in, copy_in-fits, splice, length-splice, take-splice, Returns,
  Bool-cases, inl, inr,
}
use cpp100net.Sockets.{Socket}
use cpp100net.Buffer.{Buffer, make_recv_io_data, read4iocp, write2iocp}
use cpp100net.Buffer.Inv.{IsValid, contents}
use cpp100net.Buffer.Refine.{sent-refines}

-- On a valid buffer with room left, the region that `makeRecvIoData` hands out for the socket is exactly
-- the free part of the array. When the system has written some bytes `xs`, no more than fit, at its front,
-- `read4Iocp` accepts the completion and the bytes follow those waiting.
pub read4iocp-make_recv_io_data :
    (b : Buffer) (s : Socket) (xs : List ℕ)
    → IsValid b
    → b.n_last < b.n_size
    → 1 ≤ length xs
    → length xs ≤ b.n_size - b.n_last
    → ((make_recv_io_data s b).0
        ≡ some (record { sockfd = s; len = b.n_size - b.n_last; buf = b.n_last }))
      × Returns (copy_in b.p_buff b.n_last xs) λ p.
        let (accepted, b') =
          read4iocp (length xs) (record (make_recv_io_data s b).1 { p_buff = p }) in
        (accepted ≡ true) × IsValid b' × (b'.n_size ≡ b.n_size) × (contents b' ≡ contents b ++ xs)
unfolding make_recv_io_data read4iocp
read4iocp-make_recv_io_data b s xs v room some_bytes fits =
    let free : ltb 0 (b.n_size - b.n_last) ≡ true = ground arith in
    let inside : b.n_last + length xs ≤ length b.p_buff = omega (arith, v.size, v.within) in
    let taken : (ltb 0 (length xs) && leb (b.n_last + length xs) b.n_size) ≡ true = ground arith in
    (
      rw free refl,
      (
        splice b.p_buff b.n_last xs,
        copy_in-fits b.p_buff b.n_last xs inside,
        rw (free, taken)
            (
              refl,
              omega (arith, length-splice b.p_buff b.n_last xs inside),
              refl,
              take-splice b.p_buff b.n_last xs inside,
            ),
      ),
    )

-- On a valid buffer, a completed send of `n` bytes drops the first `n` that are waiting, and one of
-- more than are waiting is refused and changes nothing.
pub write2iocp-refines :
    (b : Buffer) (n : ℕ)
    → IsValid b
    → Returns (write2iocp n b) λ r.
      IsValid r.1
      × (r.0 ≡ leb n b.n_last)
      × (contents r.1 ≡ (if r.0 then drop n (contents b) else contents b))
unfolding write2iocp
write2iocp-refines b n v = elim (Bool-cases (ltb b.n_last n)) [
  | inl more ↦ rw more ((false, b), refl, (v, ground arith, refl))
  | inr within ↦
      let (b', ran, ok) = sent-refines b n v (ground arith) in
      rw (within, ran) ((true, b'), refl, (ok.0, ground arith, ok.3))
]
