-- ===== src/Stream/Inv.antt =====
-- The representation invariant of `CellStream`, and the bytes that a stream stands for.
use cpp100net.Common.{ℕ, ◌≤◌, ◌<◌, ◌^◌, List, length, take, drop}
use cpp100net.Stream.{Stream}

-- The marks are in order, inside the size given, which is an `int` and lies inside the array.
pub record IsValid (s : Stream) : Type 0 where
  pub size : s.n_size ≤ length s.p_buff
  pub written_in : s.n_write_pos ≤ s.n_size
  pub read_in : s.n_read_pos ≤ s.n_write_pos
  pub int_size : s.n_size < 2 ^ 31

-- All bytes written so far.
abbrev pub written : Stream → List ℕ
written s = take s.n_write_pos s.p_buff

-- Those that were not read yet.
abbrev pub unread : Stream → List ℕ
unread s = drop s.n_read_pos (written s)
