-- ===== src/Buffer/Inv.antt =====
-- The representation invariant of `CellBuffer`, and the bytes that a buffer stands for.
use cpp100net.Common.{ℕ, ◌≤◌, ◌≡◌, List, length, take, arith, length-take}
use cpp100net.Buffer.{Buffer, init}

-- The array has its size, and the fill mark lies inside it.
pub record IsValid (b : Buffer) : Type 0 where
  pub size : length b.p_buff ≡ b.n_size
  pub within : b.n_last ≤ b.n_size

-- The bytes that are waiting, oldest first.
abbrev pub contents : Buffer → List ℕ
contents b = take b.n_last b.p_buff

pub length-contents : (b : Buffer) → IsValid b → length (contents b) ≡ b.n_last
length-contents b v = omega (arith, length-take b.n_last b.p_buff)

pub init-IsValid : (raw : List ℕ) → IsValid (init raw)
unfolding init
init-IsValid raw = omega arith
