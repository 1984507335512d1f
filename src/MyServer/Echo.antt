-- ===== src/MyServer/Echo.antt =====
-- The logout of the demonstration server: its fields come back in the answer.
use native.Mathlib.Nat.{mul-le-mul_right}
use cpp100net.Common.{
  ℕ, ◌+◌, ◌*◌, ◌≤◌, ◌<◌, ◌^◌, ◌≡◌, refl, ap, sym, ◌∙◌, Bool, Option, some, List, [], ◌∷◌, ◌++◌,
  length, take, arith, ◌>>=◌, append_assoc, replicate, splice, copy_in-fits, copy_out-fits,
  take-splice, copy_out, length-replicate, length-splice, take_all,
}
use cpp100net.Common.Words.{to_le, length-to_le, of_le-to_le}
use cpp100net.Stream.{
  Stream, write, write_int8, write_int16, write_int32, write_float, write_double, read_int8,
  read_int16, read_int32, read_float, read_double, only_read, read_or, write_array, write_counted,
}
use cpp100net.Stream.Inv.{IsValid, unread}
use cpp100net.Stream.Access.{read_or_fits, peek_fits}
use cpp100net.Stream.Arrays.{read_array_fits}
use cpp100net.MsgStream.Fields.{
  write_fields, write_field, Field, num, arr, IsField, AreFields, encode,
}
use cpp100net.MyServer.{LogoutFields, read_into, read_logout, write_logout}

-- A number at the front of what is unread.
read_number :
    (n before x : ℕ) (after : List ℕ) (s : Stream)
    → IsValid s
    → n < 2 ^ 31
    → x < 256 ^ n
    → unread s ≡ to_le n x ++ after
    → (s' : Stream) × (read_or n before s ≡ some (x, s')) × IsValid s' × (unread s' ≡ after)
read_number n before x after s v small fits e =
    let (s', got, v', w, u) =
      read_or_fits n before (to_le n x) after s v small (length-to_le n x) e in
    (s', rw (of_le-to_le n x fits) at got, v', u)

-- An array at the front of what is unread, read into an array with room for it.
read_into_fits :
    (size len n : ℕ) (array bs after : List ℕ) (s : Stream)
    → IsValid s
    → n * size + 4 < 2 ^ 31
    → n < 2 ^ 32
    → n ≤ len
    → length bs ≡ n * size
    → n * size ≤ length array
    → unread s ≡ (to_le 4 n ++ bs) ++ after
    → (s' : Stream) × (read_into size len array s ≡ some (n, splice array 0 bs, s'))
      × IsValid s'
      × (unread s' ≡ after)
unfolding read_into
read_into_fits size len n array bs after s v small count room len_bs fits e =
    let (s', got, v', w, u) = read_array_fits size len n bs after s v small count room len_bs e in
    (s', rw (got, copy_in-fits array 0 bs (omega (arith, len_bs))) refl, v', u)

read_into_array :
    (size len n room : ℕ) (bs after : List ℕ) (s : Stream)
    → IsValid s
    → IsField (arr size bs n len)
    → len * size ≤ room
    → unread s ≡ (to_le 4 n ++ bs) ++ after
    → (s' : Stream) × (read_into size len (replicate room 0) s
        ≡ some (n, splice (replicate room 0) 0 bs, s'))
      × IsValid s'
      × (unread s' ≡ after)
read_into_array size len n room bs after s v f h e =
    read_into_fits size len n (replicate room 0) bs after s v f.1 f.2 f.3 f.0
      (omega (arith, length-replicate {A = ℕ} room 0, mul-le-mul_right size f.3)) e

-- `writeArray` looks at no more of the array than it writes.
write_array-same :
    (size len : ℕ) (p q : List ℕ) (s : Stream)
    → copy_out p 0 (size * len) ≡ copy_out q 0 (size * len)
    → write_array size p len s ≡ write_array size q len s
unfolding write_array write_counted
write_array-same size len p q s e = rw e refl

-- The array that was read into holds the bytes in front.
copy_out-splice :
    (array bs : List ℕ) (n : ℕ)
    → length bs ≡ n
    → n ≤ length array
    → copy_out (splice array 0 bs) 0 n ≡ copy_out bs 0 n
unfolding copy_out
copy_out-splice array bs n len fits =
    copy_out-fits (splice array 0 bs) 0 n
      (omega (arith, length-splice array 0 bs (omega (arith, len))))
    ∙ (ap some (
          ap (λ k. take k (splice array 0 bs)) (omega (arith, len))
          ∙ take-splice array 0 bs (omega (arith, len)))
        ∙ (ap some (sym (take_all n bs (omega (arith, len))))
            ∙ sym (copy_out-fits bs 0 n (omega (arith, len)))))

-- The arguments of a logout: five numbers, two texts and an array of numbers.
pub record Logout : Type 0 where
  pub x1 : ℕ
  pub x2 : ℕ
  pub x3 : ℕ
  pub x4 : ℕ
  pub x5 : ℕ
  pub name : List ℕ
  pub pw : List ℕ
  pub data_array : List ℕ
  pub count : ℕ

abbrev pub fields : Logout → List Field
fields l =
    num 1 l.x1
    ∷ num 2 l.x2
    ∷ num 4 l.x3
    ∷ num 4 l.x4
    ∷ num 8 l.x5
    ∷ arr 1 l.name (length l.name) 32
    ∷ arr 1 l.pw (length l.pw) 32
    ∷ arr 4 l.data_array l.count 10
    ∷ []

-- What the handler holds after reading them.
abbrev pub held : Logout → LogoutFields
held l = record {
  n1 = l.x1;
  n2 = l.x2;
  n3 = l.x3;
  n4 = l.x4;
  n5 = l.x5;
  name = splice (replicate 32 0) 0 l.name;
  n6 = length l.name;
  pw = splice (replicate 32 0) 0 l.pw;
  n7 = length l.pw;
  data_array = splice (replicate 40 0) 0 l.data_array;
  n8 = l.count;
}

pub read_logout-fields :
    (local : ℕ) (l : Logout) (s : Stream)
    → AreFields (fields l)
    → IsValid s
    → unread s ≡ encode (fields l)
    → read_logout local s ≡ some (held l)
unfolding read_logout read_int8 read_int16 read_int32 read_float read_double only_read
read_logout-fields local l s fit v e =
    let (f1, t1) = fit in
    let (f2, t2) = t1 in
    let (f3, t3) = t2 in
    let (f4, t4) = t3 in
    let (f5, t5) = t4 in
    let (f6, t6) = t5 in
    let (f7, t7) = t6 in
    let (s1, e1, v1, u1) = read_number 1 0 l.x1 _ s v (omega arith) f1.1 e in
    let (s2, e2, v2, u2) = read_number 2 0 l.x2 _ s1 v1 (omega arith) f2.1 u1 in
    let (s3, e3, v3, u3) = read_number 4 local l.x3 _ s2 v2 (omega arith) f3.1 u2 in
    let (s4, e4, v4, u4) = read_number 4 local l.x4 _ s3 v3 (omega arith) f4.1 u3 in
    let (s5, e5, v5, u5) = read_number 8 local l.x5 _ s4 v4 (omega arith) f5.1 u4 in
    let peeked =
      peek_fits 4 (to_le 4 (length l.name)) _ s5 v5 (omega arith) (length-to_le 4 (length l.name))
        (u5 ∙ append_assoc (to_le 4 (length l.name)) l.name _) in
    let (s6, e6, v6, u6) =
      read_into_array 1 32 (length l.name) 32 l.name _ s5 v5 f6 (omega arith) u5 in
    let (s7, e7, v7, u7) = read_into_array 1 32 (length l.pw) 32 l.pw _ s6 v6 f7 (omega arith) u6 in
    let (s8, e8, v8, u8) =
      read_into_array 4 10 l.count 40 l.data_array _ s7 v7 t7.0 (omega arith) u7 in
    rw (e1, e2, e3, e4, e5, peeked, e6, e7, e8) refl

-- The calls that write the fields, over those that write the arrays.
abbrev write_with : (w6 w7 w8 : Stream → Option (Bool × Stream)) → Logout → Stream → Option Stream
write_with w6 w7 w8 l s = write 1 l.x1 s >>= λ r1. write 2 l.x2 r1.1 >>= λ r2.
    write 4 l.x3 r2.1 >>= λ r3. write 4 l.x4 r3.1 >>= λ r4.
    write 8 l.x5 r4.1 >>= λ r5. w6 r5.1 >>= λ r6. w7 r6.1 >>= λ r7. w8 r7.1 >>= λ r8. some r8.1

write_held :
    (size n len room : ℕ) (bs : List ℕ) (s : Stream)
    → IsField (arr size bs n len)
    → len * size ≤ room
    → write_array size (splice (replicate room 0) 0 bs) n s ≡ write_array size bs n s
write_held size n len room bs s f h =
    write_array-same size n (splice (replicate room 0) 0 bs) bs s (
      copy_out-splice (replicate room 0) bs (size * n) (omega (arith, f.0))
        (omega (arith, length-replicate {A = ℕ} room 0, mul-le-mul_right size f.3)))

-- The answer is written as a message of the same fields.
pub write_logout-fields :
    (l : Logout) (s : Stream)
    → AreFields (fields l)
    → write_logout (held l) s ≡ write_fields (fields l) s
unfolding write_logout write_int8 write_int16 write_int32 write_float write_double write_fields
    write_field
write_logout-fields l s fit =
    let (f6, t6) = fit.1.1.1.1.1 in
    let (f7, t7) = t6 in
    λ i.
      write_with (λ s'. write_held 1 (length l.name) 32 32 l.name s' f6 (omega arith) i)
        (λ s'. write_held 1 (length l.pw) 32 32 l.pw s' f7 (omega arith) i)
        (λ s'. write_held 4 l.count 10 40 l.data_array s' t7.0 (omega arith) i) l s
