-- ===== src/Dispatch/Tests.antt =====
-- The loop on concrete bytes: a heartbeat of 4 bytes and a message of 6.
use cpp100net.Common.{
  ℕ, ◌+◌, ◌≡◌, refl, some, List, [], ◌∷◌, ◌++◌, length, map, replicate, arith, inl, ◌⊎◌,
}
use cpp100net.Common.Words.{of_le}
use cpp100net.Buffer.{Buffer}
use cpp100net.Buffer.Inv.{IsValid, contents}
use cpp100net.Buffer.Frame.{IsIncomplete}
use cpp100net.Client.{Client, init, reset_dt_heart}
use cpp100net.Client.Ops.{with_recv}
use cpp100net.Dispatch.{Handler, finished, out_of_fuel, do_msg}
use cpp100net.Dispatch.Split.{Split, stop, next}
use cpp100net.Dispatch.Drain.{within, KeepsRecv, put_back, handle_all, do_msg-Split}
use cpp100net.Dispatch.Feed.{Fed, done, more, deliver, joined, receive_all, receive_all-Fed}
use cpp100net.Dispatch.Spin.{IsStuck, here, after, do_msg-IsStuck, do_msg_ends}

abbrev heartbeat : List ℕ
heartbeat = 4 ∷ 0 ∷ 5 ∷ 0 ∷ []

abbrev logout : List ℕ
logout = 6 ∷ 0 ∷ 2 ∷ 0 ∷ 7 ∷ 9 ∷ []

-- Counts the messages by their bytes, and resets the timer of the client.
abbrev count_bytes : Handler ℕ
count_bytes f sc = some (sc.0 + length f, reset_dt_heart sc.1)

count_bytes-KeepsRecv : KeepsRecv count_bytes
count_bytes-KeepsRecv f sc b = refl

abbrev room : Client
room =
    with_recv
      (record {
        p_buff = replicate 12 0;
        n_last = 0;
        n_size = 12;
        full_count = 0;
        io_data = record { sockfd = some 0; len = 0; buf = 0 };
      })
      (init 1 (some 3) [] [])

abbrev waiting : List ℕ → ℕ → Client
waiting bytes n =
    with_recv
      (record {
        p_buff = bytes;
        n_last = n;
        n_size = length bytes;
        full_count = 0;
        io_data = record { sockfd = some 0; len = 0; buf = 0 };
      })
      (init 1 (some 3) [] [])

-- Two messages and the first byte of a third.
abbrev two_and_a_bit : List ℕ
two_and_a_bit = heartbeat ++ (logout ++ (4 ∷ []))

two_frames : Split two_and_a_bit (heartbeat ∷ logout ∷ []) (4 ∷ [])
unfolding of_le
two_frames =
    next 4 refl refl (omega arith) (omega arith) (omega arith)
      (next 6 refl refl (omega arith) (omega arith) (omega arith) (stop (inl (omega arith))))

do_msg-Split_example :
    (b : Buffer) × (do_msg (within count_bytes) 3 (0, waiting two_and_a_bit 11)
      ≡ finished (put_back b (10, reset_dt_heart (waiting two_and_a_bit 11))))
    × IsValid b
    × (b.n_size ≡ 11)
    × (contents b ≡ 4 ∷ [])
unfolding handle_all
do_msg-Split_example =
    do_msg-Split count_bytes count_bytes-KeepsRecv two_frames 3 0 (waiting two_and_a_bit 11)
      (10, reset_dt_heart (waiting two_and_a_bit 11)) (omega arith) refl (omega arith) refl

-- The same bytes in three deliveries that cut both messages.
abbrev chunks : List (List ℕ)
chunks = (4 ∷ 0 ∷ []) ∷ (5 ∷ 0 ∷ 6 ∷ 0 ∷ []) ∷ (2 ∷ 0 ∷ 7 ∷ 9 ∷ 4 ∷ []) ∷ []

Fed-chunks : Fed 12 [] chunks (heartbeat ∷ logout ∷ []) (4 ∷ [])
unfolding of_le
Fed-chunks =
    more (omega arith) (omega arith) (stop (inl (omega arith)))
      (more (omega arith) (omega arith)
        (next 4 refl refl (omega arith) (omega arith) (omega arith) (stop (inl (omega arith))))
        (more (omega arith) (omega arith)
          (next 6 refl refl (omega arith) (omega arith) (omega arith) (stop (inl (omega arith))))
          (done refl) refl)
        refl)
      refl

receive_all-Fed_example :
    (b : Buffer) × (receive_all count_bytes 3 (map deliver chunks) (0, room)
      ≡ finished (put_back b (10, reset_dt_heart room)))
    × IsValid b
    × (contents b ≡ 4 ∷ [])
    × Split ([] ++ joined chunks) (heartbeat ∷ logout ∷ []) (4 ∷ [])
unfolding handle_all
receive_all-Fed_example =
    receive_all-Fed count_bytes count_bytes-KeepsRecv 3 Fed-chunks 0 room (10, reset_dt_heart room)
      (omega arith) refl refl (inl (omega arith)) (omega arith) refl

count_bytes_serves : (f : List ℕ) (sc : ℕ × Client) → (r : ℕ × Client) × (count_bytes f sc ≡ some r)
count_bytes_serves f sc = ((sc.0 + length f, reset_dt_heart sc.1), refl)

-- A heartbeat, and then a header that names the length 0.
abbrev evil : List ℕ
evil = heartbeat ++ (0 ∷ 0 ∷ 5 ∷ 0 ∷ [])

evil-IsStuck : IsStuck evil
unfolding of_le
evil-IsStuck = after 4 refl (omega arith) (omega arith) (here (omega arith) refl)

do_msg-IsStuck_example : do_msg (within count_bytes) 1000 (0, waiting evil 8) ≡ out_of_fuel
do_msg-IsStuck_example =
    do_msg-IsStuck count_bytes count_bytes-KeepsRecv count_bytes_serves 1000 evil-IsStuck 0
      (waiting evil 8) (omega arith) refl

do_msg_ends_example :
    ((r : ℕ × Client) × (b : Buffer) × (do_msg (within count_bytes) 12 (0, waiting two_and_a_bit 11)
        ≡ finished (put_back b r))
      × IsValid b
      × IsIncomplete (contents b))
    ⊎ IsStuck two_and_a_bit
do_msg_ends_example =
    do_msg_ends count_bytes count_bytes-KeepsRecv count_bytes_serves 0 (waiting two_and_a_bit 11)
      (omega arith)
