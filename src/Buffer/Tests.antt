-- ===== src/Buffer/Tests.antt =====
-- A buffer of 8 bytes with 5 waiting, a heartbeat first.
use cpp100net.Common.{
  ◌≡◌, true, some, none, [], ◌∷◌, ◌++◌, length, leb, if◌then◌else◌, copy_in, Returns, arith,
}
use cpp100net.Sockets.{socket_error, bytes, Send, Recv, SendWithin, RecvWithin}
use cpp100net.Buffer.{
  Buffer, IoData, push, pop, write2socket, read4socket, make_recv_io_data, read4iocp,
}
use cpp100net.Buffer.Inv.{IsValid, contents}
use cpp100net.Buffer.Refine.{push-refines, pop-refines}
use cpp100net.Buffer.Transfer.{Wrote, write2socket-Wrote, Read, read4socket-Read}
use cpp100net.Buffer.Iocp.{read4iocp-make_recv_io_data}

abbrev no_io : IoData
no_io = record { sockfd = some 0; len = 0; buf = 0 }

abbrev five : Buffer
five = record {
  p_buff = 4 ∷ 0 ∷ 5 ∷ 0 ∷ 9 ∷ 1 ∷ 1 ∷ 1 ∷ [];
  n_last = 5;
  n_size = 8;
  full_count = 1;
  io_data = no_io;
}

five-IsValid : IsValid five
five-IsValid = omega arith

abbrev take_two : Send
take_two s xs = if leb 2 (length xs) then bytes 2 else socket_error

take_two-SendWithin : SendWithin take_two
take_two-SendWithin s xs k h = ground arith

abbrev give_two : Recv
give_two s n = if leb 2 n then some (7 ∷ 8 ∷ []) else none

give_two-RecvWithin : RecvWithin give_two
give_two-RecvWithin s n xs h = ground arith

push-refines_example : Returns (push (6 ∷ 7 ∷ 8 ∷ []) five) λ r.
    IsValid r.1
    × (r.1.n_size ≡ 8)
    × (r.0 ≡ true)
    × (contents r.1 ≡ (if r.0 then contents five ++ (6 ∷ 7 ∷ 8 ∷ []) else contents five))
push-refines_example = push-refines five (6 ∷ 7 ∷ 8 ∷ []) five-IsValid

pop-refines_example :
    Returns (pop 4 five) λ b'. IsValid b' × (b'.n_size ≡ 8) × (contents b' ≡ 9 ∷ [])
pop-refines_example = pop-refines five 4 five-IsValid (omega arith)

write2socket-Wrote_example :
    Returns (write2socket take_two (some 3) five) (Wrote take_two (some 3) five)
write2socket-Wrote_example =
    write2socket-Wrote take_two (some 3) five five-IsValid take_two-SendWithin

read4socket-Read_example :
    Returns (read4socket give_two (some 3) five) (Read give_two (some 3) five)
read4socket-Read_example = read4socket-Read give_two (some 3) five five-IsValid give_two-RecvWithin

abbrev free_three : IoData
free_three = record { sockfd = some 3; len = 3; buf = 5 }

read4iocp-make_recv_io_data_example :
    ((make_recv_io_data (some 3) five).0 ≡ some free_three)
    × Returns (copy_in five.p_buff 5 (7 ∷ 8 ∷ [])) λ p.
      let (accepted, b') =
        read4iocp 2 (record (make_recv_io_data (some 3) five).1 { p_buff = p }) in
      (accepted ≡ true)
      × IsValid b'
      × (b'.n_size ≡ 8)
      × (contents b' ≡ contents five ++ (7 ∷ 8 ∷ []))
read4iocp-make_recv_io_data_example =
    read4iocp-make_recv_io_data five (some 3) (7 ∷ 8 ∷ []) five-IsValid (omega arith) (omega arith)
      (omega arith)
