-- ===== src/Native/Streams.antt =====
-- CppNet100/main.cpp: the exported functions of the two message streams.
use cpp100net.Common.{
  ℕ, Bool, true, false, Option, none, some, List, [], ◌>>=◌, ltb, length, if◌then◌else◌,
}
use cpp100net.Stream
use cpp100net.Stream.{Stream}
use cpp100net.MsgStream

-- `raw` is what `new char[nSize]` leaves in the array.
unfoldable pub write_stream_create : List ℕ → Option Stream
unfolding MsgStream.write_stream
write_stream_create raw = MsgStream.write_stream raw

-- A function of a write stream that answers false for a null handle.
abbrev pub on_write :
    (Stream → Option (Bool × Stream)) → Option Stream → Option (Bool × Option Stream)
on_write f none = some (false, none)
on_write f (some w) = f w >>= λ r. some (r.0, some r.1)

-- A function of a read stream that answers 0 for a null handle.
abbrev pub on_read : (Stream → Option (ℕ × Stream)) → Option Stream → Option (ℕ × Option Stream)
on_read f none = some (0, none)
on_read f (some r) = f r >>= λ x. some (x.0, some x.1)

unfoldable pub write_stream_write_int8 : ℕ → Option Stream → Option (Bool × Option Stream)
unfolding Stream.write
write_stream_write_int8 n = on_write (Stream.write 1 n)

unfoldable pub write_stream_write_int16 : ℕ → Option Stream → Option (Bool × Option Stream)
unfolding Stream.write
write_stream_write_int16 n = on_write (Stream.write 2 n)

unfoldable pub write_stream_write_int32 : ℕ → Option Stream → Option (Bool × Option Stream)
unfolding Stream.write
write_stream_write_int32 n = on_write (Stream.write 4 n)

unfoldable pub write_stream_write_int64 : ℕ → Option Stream → Option (Bool × Option Stream)
unfolding Stream.write
write_stream_write_int64 n = on_write (Stream.write 8 n)

unfoldable pub write_stream_write_u_int8 : ℕ → Option Stream → Option (Bool × Option Stream)
unfolding Stream.write
write_stream_write_u_int8 n = on_write (Stream.write 1 n)

unfoldable pub write_stream_write_u_int16 : ℕ → Option Stream → Option (Bool × Option Stream)
unfolding Stream.write
write_stream_write_u_int16 n = on_write (Stream.write 2 n)

unfoldable pub write_stream_write_u_int32 : ℕ → Option Stream → Option (Bool × Option Stream)
unfolding Stream.write
write_stream_write_u_int32 n = on_write (Stream.write 4 n)

unfoldable pub write_stream_write_u_int64 : ℕ → Option Stream → Option (Bool × Option Stream)
unfolding Stream.write
write_stream_write_u_int64 n = on_write (Stream.write 8 n)

unfoldable pub write_stream_write_float : ℕ → Option Stream → Option (Bool × Option Stream)
unfolding Stream.write
write_stream_write_float n = on_write (Stream.write 4 n)

unfoldable pub write_stream_write_double : ℕ → Option Stream → Option (Bool × Option Stream)
unfolding Stream.write
write_stream_write_double n = on_write (Stream.write 8 n)

-- The list is the C string, without the byte that ends it.
unfoldable pub write_stream_write_string : List ℕ → Option Stream → Option (Bool × Option Stream)
unfolding MsgStream.write_string
write_stream_write_string n = on_write (MsgStream.write_string n (length n))

-- The array goes with the stream only if the stream was made with its size.
unfoldable pub write_stream_release : Option Stream → Option (List ℕ)
write_stream_release none = none
write_stream_release (some w) = if w.b_delete then some w.p_buff else none

unfoldable pub read_stream_create : List ℕ → ℕ → Option Stream
unfolding MsgStream.read_stream
read_stream_create p_data len = MsgStream.read_stream p_data len false

unfoldable pub read_stream_read_int8 : Option Stream → Option (ℕ × Option Stream)
unfolding Stream.read_int8
read_stream_read_int8 = on_read Stream.read_int8

unfoldable pub read_stream_read_int16 : Option Stream → Option (ℕ × Option Stream)
unfolding Stream.read_int16
read_stream_read_int16 = on_read Stream.read_int16

-- `garbage` is what the local variable of the stream's function holds.
unfoldable pub read_stream_read_int32 : ℕ → Option Stream → Option (ℕ × Option Stream)
unfolding Stream.read_int32
read_stream_read_int32 garbage = on_read (Stream.read_int32 garbage)

unfoldable pub read_stream_read_int64 : ℕ → Option Stream → Option (ℕ × Option Stream)
unfolding Stream.read_int64
read_stream_read_int64 garbage = on_read (Stream.read_int64 garbage)

unfoldable pub read_stream_read_u_int8 : Option Stream → Option (ℕ × Option Stream)
unfolding Stream.read_uint8
read_stream_read_u_int8 = on_read Stream.read_uint8

unfoldable pub read_stream_read_u_int16 : Option Stream → Option (ℕ × Option Stream)
unfolding Stream.read_uint16
read_stream_read_u_int16 = on_read Stream.read_uint16

unfoldable pub read_stream_read_u_int32 : ℕ → Option Stream → Option (ℕ × Option Stream)
unfolding Stream.read_uint32
read_stream_read_u_int32 garbage = on_read (Stream.read_uint32 garbage)

unfoldable pub read_stream_read_u_int64 : ℕ → Option Stream → Option (ℕ × Option Stream)
unfolding Stream.read_uint64
read_stream_read_u_int64 garbage = on_read (Stream.read_uint64 garbage)

unfoldable pub read_stream_read_float : ℕ → Option Stream → Option (ℕ × Option Stream)
unfolding Stream.read_float
read_stream_read_float garbage = on_read (Stream.read_float garbage)

unfoldable pub read_stream_read_double : ℕ → Option Stream → Option (ℕ × Option Stream)
unfolding Stream.read_double
read_stream_read_double garbage = on_read (Stream.read_double garbage)

-- `buffer` is null where the flag is false; the bytes are those stored to it.
unfoldable pub read_stream_read_string :
    Bool → ℕ → Option Stream → Option (Bool × List ℕ × Option Stream)
unfolding Stream.read_array
read_stream_read_string buffer len none = some (false, [], none)
read_stream_read_string false len (some r) = some (false, [], some r)
read_stream_read_string true len (some r) =
    Stream.read_array 1 len r >>= λ x. some (ltb 0 x.0, x.1, some x.2)

unfoldable pub read_stream_only_read_uint32 : Option Stream → Option (ℕ × Option Stream)
unfolding Stream.only_read
read_stream_only_read_uint32 =
    on_read (λ r. Stream.only_read 4 r >>= λ x. some (Stream.stored 0 x.0, x.1))

unfoldable pub read_stream_release : Option Stream → Option (List ℕ)
read_stream_release none = none
read_stream_release (some r) = if r.b_delete then some r.p_buff else none
