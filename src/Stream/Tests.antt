-- ===== src/Stream/Tests.antt =====
-- A stream over 12 bytes with four bytes written, none read.
use cpp100net.Common.{◌≡◌, true, some, [], ◌∷◌, ◌++◌, Returns, if◌then◌else◌, arith}
use cpp100net.Common.Words.{to_le, of_le}
use cpp100net.Stream.{Stream, read, write}
use cpp100net.Stream.Inv.{IsValid, written, unread}
use cpp100net.Stream.Access.{read_lem, write_lem}

abbrev four : Stream
four = record {
  p_buff = 1 ∷ 2 ∷ 3 ∷ 4 ∷ 0 ∷ 0 ∷ 0 ∷ 0 ∷ 0 ∷ 0 ∷ 0 ∷ 0 ∷ [];
  n_size = 12;
  n_write_pos = 4;
  n_read_pos = 0;
  b_delete = true;
}

four-IsValid : IsValid four
four-IsValid = omega arith

read_lem_example :
    Returns
      (read 2 true four)
      λ r. IsValid r.1 × (written r.1 ≡ written four) × (r.0 ≡ some 513) × (unread r.1 ≡ 3 ∷ 4 ∷ [])
unfolding of_le
read_lem_example = read_lem 2 true four four-IsValid (omega arith)

write_lem_example : Returns (write 2 513 four) λ r.
    IsValid r.1
    × (r.1.n_size ≡ 12)
    × (r.0 ≡ true)
    × (written r.1 ≡ (if r.0 then written four ++ to_le 2 513 else written four))
    × (unread r.1 ≡ (if r.0 then unread four ++ to_le 2 513 else unread four))
write_lem_example = write_lem 2 513 four four-IsValid (omega arith)

-- Three bytes behind their count, and one byte more.
abbrev counted : Stream
counted = record {
  p_buff = 3 ∷ 0 ∷ 0 ∷ 0 ∷ 7 ∷ 8 ∷ 9 ∷ 5 ∷ [];
  n_size = 8;
  n_write_pos = 8;
  n_read_pos = 0;
  b_delete = true;
}
