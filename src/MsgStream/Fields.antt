-- ===== src/MsgStream/Fields.antt =====
-- The calls by which a program fills and reads a message, as a list of fields: numbers written by
-- `writeInt8`, `writeInt16`, …, and arrays written by `writeArray` and `writeString`.
use cpp100net.Common.{
  ℕ, ◌+◌, ◌*◌, ◌≤◌, ◌<◌, ◌^◌, ◌≡◌, Bool, true, Option, some, List, [], ◌∷◌, ◌++◌, length, ◌>>=◌,
}
use cpp100net.Common.Words.{to_le}
use cpp100net.Stream.{Stream, read, read_array, write, write_array}
use cpp100net.MsgStream.{write_stream, set_net_cmd, finish}

-- `num len x`: a number `x` of `len` bytes. `arr size bs n room`: `n` elements of `size` bytes, read
-- back into an array of `room` elements.
pub data Field : Type 0 where
  num : (len x : ℕ) → Field
  arr : (size : ℕ) (bs : List ℕ) (n room : ℕ) → Field

-- The field can be stored and read back: the number fits its bytes, the array its counters.
abbrev pub IsField : Field → Type 0
IsField (num len x) = (len < 2 ^ 31) × (x < 256 ^ len)
IsField (arr size bs n room) =
    (length bs ≡ n * size) × (n * size + 4 < 2 ^ 31) × (n < 2 ^ 32) × (n ≤ room)

abbrev pub AreFields : List Field → Type 0
AreFields [] = Unit {0}
AreFields (f ∷ fs) = IsField f × AreFields fs

abbrev pub encode_field : Field → List ℕ
encode_field (num len x) = to_le len x
encode_field (arr size bs n room) = to_le 4 n ++ bs

abbrev pub encode : List Field → List ℕ
encode [] = []
encode (f ∷ fs) = encode_field f ++ encode fs

unfoldable pub write_field : Field → Stream → Option (Bool × Stream)
write_field (num len x) s = write len x s
write_field (arr size bs n room) s = write_array size bs n s

-- The answers are ignored, as the callers in the repository do.
unfoldable pub write_fields : List Field → Stream → Option Stream
write_fields [] s = some s
write_fields (f ∷ fs) s = write_field f s >>= λ r. write_fields fs r.1

-- What reading gives: a number if one was stored, or a count with the bytes of the elements.
pub data Value : Type 0 where
  number : Option ℕ → Value
  array : ℕ → List ℕ → Value

abbrev pub value : Field → Value
value (num len x) = number (some x)
value (arr size bs n room) = array n bs

unfoldable pub read_field : Field → Stream → Option (Value × Stream)
read_field (num len _) s = read len true s >>= λ r. some (number r.0, r.1)
read_field (arr size _ _ room) s = read_array size room s >>= λ r. some (array r.0 r.1, r.2)

-- The fields are read by their widths and rooms alone.
unfoldable pub read_fields : List Field → Stream → Option (List Value × Stream)
unfolding read_field
read_fields [] s = some ([], s)
read_fields (f ∷ fs) s =
    read_field f s >>= λ r. read_fields fs r.1 >>= λ rs. some (r.0 ∷ rs.0, rs.1)

-- A whole message: command, fields, and `finish`.
unfoldable pub compose : List ℕ → ℕ → List Field → Option Stream
compose raw cmd fs =
    write_stream raw >>= λ s. set_net_cmd cmd s >>= λ s1. write_fields fs s1 >>= λ s2. finish s2

-- The bytes of a message of command `cmd` and body `body`: its length, its command, its body.
abbrev pub message : ℕ → List ℕ → List ℕ
message cmd body = to_le 2 (4 + length body) ++ (to_le 2 cmd ++ body)
