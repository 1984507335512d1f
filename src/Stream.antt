-- ===== src/Stream.antt =====
-- depends/include/CellStream.hpp: a byte stream with a write mark and a read mark over an array.
-- A number of type T is its bit pattern, of `sizeof(T)` bytes.
pub mod Inv
pub mod Access
pub mod Arrays
mod Tests
use cpp100net.Common.{
  ℕ, ◌+◌, ◌*◌, ◌%◌, ◌^◌, Bool, true, false, Option, none, some, List, [], length, ltb, leb,
  if◌then◌else◌, ◌&&◌, copy_in, copy_out, ◌>>=◌,
}
use cpp100net.Common.Words.{to_le, of_le}

pub record Stream : Type 0 where
  pub p_buff : List ℕ
  pub n_size : ℕ
  pub n_write_pos : ℕ
  pub n_read_pos : ℕ
  pub b_delete : Bool

-- `CellStream(pData, nSize, bDelete)`
unfoldable pub of_data : List ℕ → ℕ → Bool → Stream
of_data p_data n_size b_delete = record {
  p_buff = p_data;
  n_size = n_size;
  n_write_pos = 0;
  n_read_pos = 0;
  b_delete = b_delete;
}

-- `CellStream(nSize)`; `raw` is what `new char[nSize]` leaves in the array.
unfoldable pub of_size : List ℕ → Stream
unfolding of_data
of_size raw = of_data raw (length raw) true

-- `room >= n`, where the caller's `size_t n` becomes an `int` first: from 2^31 on it is negative.
abbrev pub int_le : ℕ → ℕ → ℕ → Bool
int_le n used limit =
    if ltb (n % 2 ^ 32) (2 ^ 31)
    then leb (used + n % 2 ^ 32) limit
    else leb (used + n % 2 ^ 32) (limit + 2 ^ 32)

unfoldable pub can_read : ℕ → Stream → Bool
can_read n s = int_le n s.n_read_pos s.n_write_pos

unfoldable pub can_write : ℕ → Stream → Bool
can_write n s = int_le n s.n_write_pos s.n_size

unfoldable pub push : ℕ → Stream → Stream
push n s = record s { n_write_pos = s.n_write_pos + n }

unfoldable pub pop : ℕ → Stream → Stream
pop n s = record s { n_read_pos = s.n_read_pos + n }

unfoldable pub set_write_pos : ℕ → Stream → Stream
set_write_pos n s = record s { n_write_pos = n }

-- `read(T& n, bOffset)` for `sizeof(T) == len`: the value stored to `n`, if any.
unfoldable pub read : ℕ → Bool → Stream → Option (Option ℕ × Stream)
unfolding can_read pop
read len b_offset s =
    if can_read len s
    then (copy_out s.p_buff s.n_read_pos len >>= λ bs.
        some (some (of_le bs), if b_offset then pop len s else s))
    else some (none, s)

unfoldable pub only_read : ℕ → Stream → Option (Option ℕ × Stream)
unfolding read
only_read len s = read len false s

-- The value of the variable that `read` was given, `before` if it stored nothing.
abbrev pub stored : ℕ → Option ℕ → ℕ
stored before none = before
stored before (some n) = n

-- `readArray` once `len1`, the number of elements, is known.
unfoldable pub read_counted : ℕ → ℕ → ℕ → Stream → Option (ℕ × List ℕ × Stream)
unfolding can_read pop
read_counted size len len1 s =
    if leb len1 len && can_read (len1 * size + 4) s
    then (copy_out s.p_buff (pop 4 s).n_read_pos (len1 * size) >>= λ bs.
        some (len1, bs, pop (len1 * size) (pop 4 s)))
    else some (0, [], s)

-- `readArray(pArr, len)` for `sizeof(T) == size`: the count, and the bytes stored to `pArr`.
unfoldable pub read_array : ℕ → ℕ → Stream → Option (ℕ × List ℕ × Stream)
unfolding read read_counted
read_array size len s =
    read 4 false s >>= λ peeked. read_counted size len (stored 0 peeked.0) peeked.1

-- `n` of type T with `sizeof(T) == len`, which holds `before` until something is stored.
unfoldable pub read_or : ℕ → ℕ → Stream → Option (ℕ × Stream)
read_or len before s = read len true s >>= λ r. some (stored before r.0, r.1)

unfoldable pub read_int8 : Stream → Option (ℕ × Stream)
unfolding read_or
read_int8 = read_or 1 0

unfoldable pub read_int16 : Stream → Option (ℕ × Stream)
unfolding read_or
read_int16 = read_or 2 0

-- Here the variable is not initialised: `garbage` is what it holds.
unfoldable pub read_int32 : ℕ → Stream → Option (ℕ × Stream)
unfolding read_or
read_int32 garbage = read_or 4 garbage

unfoldable pub read_int64 : ℕ → Stream → Option (ℕ × Stream)
unfolding read_or
read_int64 garbage = read_or 8 garbage

unfoldable pub read_uint8 : Stream → Option (ℕ × Stream)
unfolding read_or
read_uint8 = read_or 1 0

unfoldable pub read_uint16 : Stream → Option (ℕ × Stream)
unfolding read_or
read_uint16 = read_or 2 0

unfoldable pub read_uint32 : ℕ → Stream → Option (ℕ × Stream)
unfolding read_or
read_uint32 garbage = read_or 4 garbage

unfoldable pub read_uint64 : ℕ → Stream → Option (ℕ × Stream)
unfolding read_or
read_uint64 garbage = read_or 8 garbage

unfoldable pub read_float : ℕ → Stream → Option (ℕ × Stream)
unfolding read_or
read_float garbage = read_or 4 garbage

unfoldable pub read_double : ℕ → Stream → Option (ℕ × Stream)
unfolding read_or
read_double garbage = read_or 8 garbage

-- `write(T n)` for `sizeof(T) == len`; `to_le` keeps the low `len` bytes, as the conversion to T does.
unfoldable pub write : ℕ → ℕ → Stream → Option (Bool × Stream)
unfolding can_write push
write len n s =
    if can_write len s
    then (copy_in s.p_buff s.n_write_pos (to_le len n) >>= λ p.
        some (true, push len (record s { p_buff = p })))
    else some (false, s)

unfoldable pub write_int8 : ℕ → Stream → Option (Bool × Stream)
unfolding write
write_int8 = write 1

unfoldable pub write_int16 : ℕ → Stream → Option (Bool × Stream)
unfolding write
write_int16 = write 2

unfoldable pub write_int32 : ℕ → Stream → Option (Bool × Stream)
unfolding write
write_int32 = write 4

unfoldable pub write_float : ℕ → Stream → Option (Bool × Stream)
unfolding write
write_float = write 4

unfoldable pub write_double : ℕ → Stream → Option (Bool × Stream)
unfolding write
write_double = write 8

-- `writeArray` once the room is known: the answer of `writeInt32` is ignored.
unfoldable pub write_counted : ℕ → List ℕ → ℕ → Stream → Option (Bool × Stream)
unfolding write_int32 push
write_counted size p_data len s = write_int32 len s >>= λ counted.
    copy_out p_data 0 (size * len) >>= λ bs.
    copy_in counted.1.p_buff counted.1.n_write_pos bs >>= λ p.
    some (true, push (size * len) (record (counted.1) { p_buff = p }))

-- `writeArray(pData, len)` for `sizeof(T) == size`.
unfoldable pub write_array : ℕ → List ℕ → ℕ → Stream → Option (Bool × Stream)
unfolding can_write write_counted
write_array size p_data len s =
    if can_write (size * len + 4) s then write_counted size p_data len s else some (false, s)
