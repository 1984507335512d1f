-- ===== src/MsgStream/Tests.antt =====
-- A logout answer with a number of two bytes and a name of three, in an array of 20 bytes.
use cpp100net.Common.{ℕ, ◌≡◌, List, [], ◌∷◌, map, replicate, Returns, arith, ◌>>=◌}
use cpp100net.Common.Words.{to_le}
use cpp100net.Stream.Inv.{written, unread}
use cpp100net.MsgStream.{read_stream_of_header}
use cpp100net.MsgStream.Fields.{Field, num, arr, AreFields, value, read_fields, compose}
use cpp100net.MsgStream.RoundTrip.{read_fields-compose}

abbrev raw : List ℕ
raw = replicate 20 0

abbrev fields : List Field
fields = num 2 777 ∷ arr 1 (65 ∷ 66 ∷ 67 ∷ []) 3 32 ∷ []

fields-AreFields : AreFields fields
fields-AreFields = omega arith

read_fields-compose_example :
    Returns
      (compose raw 3 fields >>= λ w.
        read_stream_of_header (written w) >>= λ r. read_fields fields r)
      λ r. (r.0 ≡ map value fields) × (unread r.1 ≡ [])
unfolding to_le
read_fields-compose_example =
    read_fields-compose raw 3 fields fields-AreFields (omega arith) (omega arith) (omega arith)
