-- ===== src/MsgStream.antt =====
-- depends/include/CellMsgStream.hpp: streams over a message, whose first two bytes are its length
-- and whose next two are its command.
pub mod Fields
pub mod Finish
pub mod Compose
pub mod RoundTrip
mod Tests
use cpp100net.Common.{ℕ, Bool, Option, some, List, length, copy_out, ◌>>=◌}
use cpp100net.Common.Words.{of_le}
use cpp100net.Stream.{
  Stream, of_data, of_size, push, set_write_pos, read_or, read_int16, write, write_array,
}
use cpp100net.Message.{cmd_error}

-- `getNetCmd`
unfoldable pub get_net_cmd : Stream → Option (ℕ × Stream)
get_net_cmd s = read_or 2 cmd_error s

-- `CellReadStream(pData, nSize, bDelete)`; the two values read in advance are dropped.
unfoldable pub read_stream : List ℕ → ℕ → Bool → Option Stream
read_stream p_data n_size b_delete =
    read_int16 (push n_size (of_data p_data n_size b_delete)) >>= λ len.
    get_net_cmd len.1 >>= λ cmd. some cmd.1

-- `CellReadStream(header)`; the list is the memory from `header` on.
unfoldable pub read_stream_of_header : List ℕ → Option Stream
read_stream_of_header header =
    copy_out header 0 2 >>= λ field. read_stream header (of_le field) Bool.false

-- `CellWriteStream(pData, nSize, bDelete)`: room for the length is taken first.
unfoldable pub write_stream_on : List ℕ → ℕ → Bool → Option Stream
unfolding of_data write
write_stream_on p_data n_size b_delete =
    write 2 0 (of_data p_data n_size b_delete) >>= λ r. some r.1

-- `CellWriteStream(nSize)`; `raw` is what `new char[nSize]` leaves in the array.
unfoldable pub write_stream : List ℕ → Option Stream
unfolding of_size write
write_stream raw = write 2 0 (of_size raw) >>= λ r. some r.1

unfoldable pub set_net_cmd : ℕ → Stream → Option Stream
unfolding write
set_net_cmd cmd s = write 2 cmd s >>= λ r. some r.1

-- `writeString(str, len)`; the overloads for a C string and a `std::string` pass its length.
unfoldable pub write_string : List ℕ → ℕ → Stream → Option (Bool × Stream)
unfolding write_array
write_string str len s = write_array 1 str len s

-- `finish`: the length is written into the room at the front.
unfoldable pub finish : Stream → Option Stream
unfolding set_write_pos write
finish s = write 2 s.n_write_pos (set_write_pos 0 s) >>= λ r. some (set_write_pos s.n_write_pos r.1)
