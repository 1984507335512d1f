-- ===== src/MsgStream/Finish.antt =====
-- `finish`: the length of the message in its first two bytes.
use cpp100net.Common.{
  ℕ, List, ◌+◌, ◌≤◌, ◌≡◌, refl, ◌++◌, length, drop, arith, le→leb, splice, length-splice,
  take-splice_front, Returns,
}
use cpp100net.Common.Words.{to_le, length-to_le}
use cpp100net.Stream.{Stream, set_write_pos}
use cpp100net.Stream.Inv.{IsValid, written}
use cpp100net.Stream.Access.{can_write_lem, copy_in-written}
use cpp100net.MsgStream.{finish}

-- On a stream that was only written to, with room for the length taken: `finish` succeeds, and the
-- message is its own length in two bytes followed by all that was written behind them.
pub finish_lem :
    (s : Stream)
    → IsValid s
    → s.n_read_pos ≡ 0
    → 2 ≤ s.n_write_pos
    → Returns (finish s) λ s'.
      IsValid s'
      × (s'.n_read_pos ≡ 0)
      × (s'.n_write_pos ≡ s.n_write_pos)
      × (written s' ≡ to_le 2 s.n_write_pos ++ drop 2 (written s))
unfolding finish
finish_lem s v fresh room = (
  record s { p_buff = splice s.p_buff 0 field },
  rw (can_write_lem 2 s0 v0 (omega arith), le→leb _ _ two_fit, copy_in-written s0 field v0 fits),
  (
    omega (arith, length-splice s.p_buff 0 field (omega (arith, len))),
    fresh,
    refl,
    take-splice_front s.p_buff field s.n_write_pos 2 len room,
  ),
)
  where
    s0 : Stream
    s0 = set_write_pos 0 s

    v0 : IsValid s0
    v0 = omega arith

    field : List ℕ
    field = to_le 2 s.n_write_pos

    len : length field ≡ 2
    len = length-to_le 2 s.n_write_pos

    two_fit : length (written s0) + 2 ≤ s0.n_size
    two_fit = omega arith

    fits : length (written s0) + length field ≤ s0.n_size
    fits = omega (arith, len)
