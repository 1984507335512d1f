-- ===== src/Stream/Arrays.antt =====
-- `writeArray` and `readArray`: a 32-bit count, then the elements.
use cpp100net.Common.{
  ℕ, ◌+◌, ◌*◌, ◌≤◌, ◌<◌, ◌^◌, ◌≡◌, refl, ap, ◌∙◌, true, some, List, ◌++◌, length, take, arith,
  le→leb, append_assoc, length-take, length-drop, length-append, copy_out-fits, splice, ◌>>=◌,
  take-append_length, drop-append_length, drop-append_eq,
}
use cpp100net.Common.Words.{to_le, length-to_le, of_le-to_le}
use cpp100net.Stream.{Stream, read_counted, read_array, write_counted, write_array, push, pop}
use cpp100net.Stream.Inv.{IsValid, written, unread}
use cpp100net.Stream.Access.{
  can_read_lem, can_write_lem, write_fits, peek_fits, after_write, copy_in-written, copy_out-unread,
  pop-unread, pop-IsValid,
}

-- The bytes that `writeArray` puts down for `len` elements of `size` bytes at the front of `p_data`.
abbrev pub array_bytes : ℕ → List ℕ → ℕ → List ℕ
array_bytes size p_data len = to_le 4 len ++ take (size * len) p_data

write_counted_fits :
    (size : ℕ) (p_data : List ℕ) (len : ℕ) (s : Stream)
    → IsValid s
    → size * len ≤ length p_data
    → length (written s) + (size * len + 4) ≤ s.n_size
    → (s' : Stream) × (write_counted size p_data len s ≡ some (true, s'))
      × IsValid s'
      × (s'.n_size ≡ s.n_size)
      × (written s' ≡ written s ++ array_bytes size p_data len)
      × (unread s' ≡ unread s ++ array_bytes size p_data len)
unfolding write_counted
write_counted_fits size p_data len s v d fits =
    let (s1, e1, v1, size1, w1, u1) = write_fits 4 len s v (omega arith) (omega arith) in
    let bs = take (size * len) p_data in
    let count : length (written s1) ≡ length (written s) + 4 =
      rw w1 (omega (arith, length-append (written s) (to_le 4 len), length-to_le 4 len)) in
    let got : length bs ≡ size * len = omega (arith, length-take (size * len) p_data) in
    let after = after_write s1 bs (size * len) v1 got (omega arith) in
    (
      push (size * len) (record s1 { p_buff = splice s1.p_buff s1.n_write_pos bs }),
      rw (
        e1,
        copy_out-fits p_data 0 (size * len) (omega arith),
        copy_in-written s1 bs v1 (omega arith),
      ),
      after.0,
      size1,
      after.1 ∙ rw (w1, append_assoc),
      after.2 ∙ rw (u1, append_assoc),
    )

-- The successful branch, with the stream that it leaves.
pub write_array_fits :
    (size : ℕ) (p_data : List ℕ) (len : ℕ) (s : Stream)
    → IsValid s
    → size * len + 4 < 2 ^ 31
    → size * len ≤ length p_data
    → length (written s) + (size * len + 4) ≤ s.n_size
    → (s' : Stream) × (write_array size p_data len s ≡ some (true, s'))
      × IsValid s'
      × (s'.n_size ≡ s.n_size)
      × (written s' ≡ written s ++ array_bytes size p_data len)
      × (unread s' ≡ unread s ++ array_bytes size p_data len)
unfolding write_array
write_array_fits size p_data len s v h d room =
    rw (can_write_lem (size * len + 4) s v h, le→leb _ _ room)
      (write_counted_fits size p_data len s v d room)

read_counted_fits :
    (size len n : ℕ) (bs rest : List ℕ) (s : Stream)
    → IsValid s
    → n * size + 4 < 2 ^ 31
    → n ≤ len
    → length bs ≡ n * size
    → 4 ≤ length (unread s)
    → unread (pop 4 s) ≡ bs ++ rest
    → (s' : Stream) × (read_counted size len n s ≡ some (n, bs, s'))
      × IsValid s'
      × (written s' ≡ written s)
      × (unread s' ≡ rest)
unfolding read_counted
read_counted_fits size len n bs rest s v h fits got four e =
    let v1 = pop-IsValid s 4 v four in
    let total : n * size ≤ length (unread (pop 4 s)) =
      rw e (omega (arith, length-append bs rest)) in
    let room : n * size + 4 ≤ length (unread s) =
      omega (arith, total, ap length (pop-unread s 4), length-drop 4 (unread s)) in
    (
      pop (n * size) (pop 4 s),
      rw (le→leb n len fits, can_read_lem (n * size + 4) s v h, le→leb _ _ room)
          (ap (λ o. o >>= λ found. some (n, found, pop (n * size) (pop 4 s)))
            (copy_out-unread (pop 4 s) (n * size) v1 total
              ∙ ap some (rw (e, ← got) (take-append_length bs rest)))),
      pop-IsValid (pop 4 s) (n * size) v1 total,
      refl,
      pop-unread (pop 4 s) (n * size) ∙ rw (e, ← got) (drop-append_length bs rest),
    )

-- On a valid stream whose unread bytes begin with an array of at most `len` elements, of less than
-- 2^31 bytes with its count, `readArray` gives back the count and the elements, and passes them.
pub read_array_fits :
    (size len n : ℕ) (bs rest : List ℕ) (s : Stream)
    → IsValid s
    → n * size + 4 < 2 ^ 31
    → n < 2 ^ 32
    → n ≤ len
    → length bs ≡ n * size
    → unread s ≡ (to_le 4 n ++ bs) ++ rest
    → (s' : Stream) × (read_array size len s ≡ some (n, bs, s'))
      × IsValid s'
      × (written s' ≡ written s)
      × (unread s' ≡ rest)
unfolding read_array
read_array_fits size len n bs rest s v h small fits got e =
    let peeked =
      peek_fits 4 (to_le 4 n) (bs ++ rest) s v (omega arith) (length-to_le 4 n)
        (e ∙ append_assoc (to_le 4 n) bs rest) in
    let four : 4 ≤ length (unread s) =
      rw (e, append_assoc)
        (omega (arith, length-append (to_le 4 n) (bs ++ rest), length-to_le 4 n)) in
    let after_count : unread (pop 4 s) ≡ bs ++ rest =
      pop-unread s 4
      ∙ (rw (e, append_assoc) (drop-append_eq 4 (to_le 4 n) (bs ++ rest) (length-to_le 4 n))) in
    rw (peeked, of_le-to_le 4 n small)
      (read_counted_fits size len n bs rest s v h fits got four (after_count))
