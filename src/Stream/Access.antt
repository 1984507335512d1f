-- ===== src/Stream/Access.antt =====
-- `read` and `write` against the written and the unread bytes, on every branch.
use cpp100net.Common.{
  ℕ, ◌+◌, ◌-◌, ◌≤◌, ◌<◌, ◌^◌, ◌≡◌, refl, ap, sym, ◌∙◌, Bool, true, false, none, some, List, ◌++◌,
  length, take, drop, leb, if◌then◌else◌, arith, tests, Bool-cases, inl, inr, le→leb, take-take,
  take-drop, length-append, length-take, length-drop, drop-add, copy_in, copy_out, copy_in-fits,
  copy_out-fits, splice, length-splice, take-splice, drop-append_le, Returns, drop-append_length,
  take-append_length,
}
use cpp100net.Common.Words.{to_le, of_le, length-to_le}
use cpp100net.Stream.{Stream, can_read, can_write, read, read_or, write, push, pop}
use cpp100net.Stream.Inv.{IsValid, written, unread}

pub length-written : (s : Stream) → IsValid s → length (written s) ≡ s.n_write_pos
length-written s v = omega (arith, length-take s.n_write_pos s.p_buff)

pub length-unread : (s : Stream) → IsValid s → length (unread s) ≡ s.n_write_pos - s.n_read_pos
length-unread s v = omega (arith, length-written s v, length-drop s.n_read_pos (written s))

-- A request below 2^31 is compared as the number that it is.
pub can_read_lem :
    (n : ℕ) (s : Stream) → IsValid s → n < 2 ^ 31 → can_read n s ≡ leb n (length (unread s))
unfolding can_read
can_read_lem n s v h = ground (arith, length-unread s v)

pub can_write_lem :
    (n : ℕ) (s : Stream)
    → IsValid s
    → n < 2 ^ 31
    → can_write n s ≡ leb (length (written s) + n) s.n_size
unfolding can_write
can_write_lem n s v h = ground (arith, length-written s v)

-- The bytes at the read mark are the first unread ones.
pub window-unread :
    (s : Stream) (n : ℕ)
    → s.n_read_pos + n ≤ s.n_write_pos
    → take n (drop s.n_read_pos s.p_buff) ≡ take n (unread s)
window-unread s n h =
    take-drop s.n_read_pos n s.p_buff
    ∙ (ap (drop s.n_read_pos) (sym (take-take (s.n_read_pos + n) s.n_write_pos s.p_buff h))
        ∙ sym (take-drop s.n_read_pos n (written s)))

pub pop-unread : (s : Stream) (n : ℕ) → unread (pop n s) ≡ drop n (unread s)
unfolding pop
pop-unread s n = drop-add s.n_read_pos n (written s)

pub pop-IsValid : (s : Stream) (n : ℕ) → IsValid s → n ≤ length (unread s) → IsValid (pop n s)
unfolding pop
pop-IsValid s n v h = omega (arith, length-unread s v)

pub copy_out-unread :
    (s : Stream) (n : ℕ)
    → IsValid s
    → n ≤ length (unread s)
    → copy_out s.p_buff s.n_read_pos n ≡ some (take n (unread s))
copy_out-unread s n v h =
    copy_out-fits s.p_buff s.n_read_pos n (omega (arith, length-unread s v))
    ∙ ap some (window-unread s n (omega (arith, length-unread s v)))

after_read :
    (n : ℕ) (offset : Bool) (s : Stream)
    → IsValid s
    → n ≤ length (unread s)
    → IsValid (if offset then pop n s else s)
      × (written (if offset then pop n s else s) ≡ written s)
      × (unread (if offset then pop n s else s) ≡ (if offset then drop n (unread s) else unread s))
unfolding pop
after_read n true s v h = (pop-IsValid s n v h, refl, pop-unread s n)
after_read n false s v h = (v, refl, refl)

-- `read` of an integer of `n` bytes, less than 2^31, on a valid stream: with so many bytes unread it gives the number that the first
-- `n` of them encode, and passes them unless it only peeks; with fewer it stores nothing and moves
-- no mark. It never reads outside the array.
pub read_lem :
    (n : ℕ) (offset : Bool) (s : Stream)
    → IsValid s
    → n < 2 ^ 31
    → Returns (read n offset s) λ r.
      IsValid r.1
      × (written r.1 ≡ written s)
      × (r.0 ≡ (if leb n (length (unread s)) then some (of_le (take n (unread s))) else none))
      × (unread r.1 ≡ (
          if leb n (length (unread s))
          then (if offset then drop n (unread s) else unread s)
          else unread s))
unfolding read
read_lem n offset s v h = elim (Bool-cases (leb n (length (unread s)))) [
  | inl e ↦
      let enough : n ≤ length (unread s) = omega (tests, e) in
      let passed = after_read n offset s v enough in
      rw (can_read_lem n s v h, e, copy_out-unread s n v enough)
        (
          (some (of_le (take n (unread s))), if offset then pop n s else s),
          refl,
          (passed.0, passed.1, refl, passed.2),
        )
  | inr e ↦ rw (can_read_lem n s v h, e) ((none, s), refl, (v, refl, refl, refl))
]

-- The stream after `bs` was copied behind the write mark: `bs` follows what was written and what is
-- unread.
pub after_write :
    (s : Stream) (bs : List ℕ) (n : ℕ)
    → IsValid s
    → length bs ≡ n
    → length (written s) + n ≤ s.n_size
    → let s' = push n (record s { p_buff = splice s.p_buff s.n_write_pos bs }) in
      IsValid s' × (written s' ≡ written s ++ bs) × (unread s' ≡ unread s ++ bs)
unfolding push
after_write s bs n v len h = (
  omega (arith, length-splice s.p_buff s.n_write_pos bs fits, length-written s v),
  wrote,
  ap (drop s.n_read_pos) wrote
      ∙ drop-append_le s.n_read_pos (written s) bs (omega (arith, length-written s v)),
)
  where
    fits : s.n_write_pos + length bs ≤ length s.p_buff
    fits = omega (arith, length-written s v)

    wrote : take (s.n_write_pos + n) (splice s.p_buff s.n_write_pos bs) ≡ written s ++ bs
    wrote = rw (← len) (take-splice s.p_buff s.n_write_pos bs fits)

pub copy_in-written :
    (s : Stream) (bs : List ℕ)
    → IsValid s
    → length (written s) + length bs ≤ s.n_size
    → copy_in s.p_buff s.n_write_pos bs ≡ some (splice s.p_buff s.n_write_pos bs)
copy_in-written s bs v h =
    copy_in-fits s.p_buff s.n_write_pos bs (omega (arith, length-written s v))

-- `write` of an integer in `n` bytes, less than 2^31, on a valid stream: where they fit behind the bytes written they are appended,
-- else nothing changes and the answer is `false`. It never writes outside the array.
pub write_lem :
    (n x : ℕ) (s : Stream)
    → IsValid s
    → n < 2 ^ 31
    → Returns (write n x s) λ r.
      IsValid r.1
      × (r.1.n_size ≡ s.n_size)
      × (r.0 ≡ leb (length (written s) + n) s.n_size)
      × (written r.1 ≡ (if r.0 then written s ++ to_le n x else written s))
      × (unread r.1 ≡ (if r.0 then unread s ++ to_le n x else unread s))
unfolding write
write_lem n x s v h = elim (Bool-cases (leb (length (written s) + n) s.n_size)) [
  | inl e ↦
      let len = length-to_le n x in
      let after = after_write s (to_le n x) n v len (omega (tests, e)) in
      rw (can_write_lem n s v h, e, copy_in-written s (to_le n x) v (omega (tests, e, len)))
        (
          (true, push n (record s { p_buff = splice s.p_buff s.n_write_pos (to_le n x) })),
          refl,
          (after.0, refl, refl, after.1, after.2),
        )
  | inr e ↦ rw (can_write_lem n s v h, e) ((false, s), refl, (v, refl, refl, refl, refl))
]

-- The successful branch of `write_lem`, with the stream that it leaves.
pub write_fits :
    (n x : ℕ) (s : Stream)
    → IsValid s
    → n < 2 ^ 31
    → length (written s) + n ≤ s.n_size
    → (s' : Stream) × (write n x s ≡ some (true, s'))
      × IsValid s'
      × (s'.n_size ≡ s.n_size)
      × (written s' ≡ written s ++ to_le n x)
      × (unread s' ≡ unread s ++ to_le n x)
unfolding write
write_fits n x s v h fits =
    let len = length-to_le n x in
    let after = after_write s (to_le n x) n v len fits in
    (
      push n (record s { p_buff = splice s.p_buff s.n_write_pos (to_le n x) }),
      rw (
        can_write_lem n s v h,
        le→leb _ _ fits,
        copy_in-written s (to_le n x) v (omega (arith, len)),
      ),
      after.0,
      refl,
      after.1,
      after.2,
    )

-- The successful branch of `read_lem`: the unread bytes begin with `bs`.
pub read_fits :
    (n : ℕ) (bs rest : List ℕ) (s : Stream)
    → IsValid s
    → n < 2 ^ 31
    → length bs ≡ n
    → unread s ≡ bs ++ rest
    → (s' : Stream) × (read n true s ≡ some (some (of_le bs), s'))
      × IsValid s'
      × (written s' ≡ written s)
      × (unread s' ≡ rest)
unfolding read
read_fits n bs rest s v h len e =
    let enough : n ≤ length (unread s) = rw e (omega (arith, length-append bs rest)) in
    let front : take n (unread s) ≡ bs = rw (e, ← len) (take-append_length bs rest) in
    let back : drop n (unread s) ≡ rest = rw (e, ← len) (drop-append_length bs rest) in
    let passed = after_read n true s v enough in
    (
      pop n s,
      rw (can_read_lem n s v h, le→leb _ _ enough, copy_out-unread s n v enough, front),
      passed.0,
      passed.1,
      passed.2 ∙ back,
    )

-- Peeking at the same bytes leaves the stream as it is.
pub peek_fits :
    (n : ℕ) (bs rest : List ℕ) (s : Stream)
    → IsValid s
    → n < 2 ^ 31
    → length bs ≡ n
    → unread s ≡ bs ++ rest
    → read n false s ≡ some (some (of_le bs), s)
unfolding read
peek_fits n bs rest s v h len e =
    let enough : n ≤ length (unread s) = rw e (omega (arith, length-append bs rest)) in
    let front : take n (unread s) ≡ bs = rw (e, ← len) (take-append_length bs rest) in
    rw (can_read_lem n s v h, le→leb _ _ enough, copy_out-unread s n v enough, front)

-- Who appends the same bytes to what is written and to what is unread has not moved the read mark.
pub read_pos_kept :
    (s s' : Stream) (bs : List ℕ)
    → IsValid s
    → IsValid s'
    → written s' ≡ written s ++ bs
    → unread s' ≡ unread s ++ bs
    → s'.n_read_pos ≡ s.n_read_pos
read_pos_kept s s' bs v v' w u = omega (
  arith,
  length-written s v,
  length-written s' v',
  length-unread s v,
  length-unread s' v',
  ap length w,
  ap length u,
  length-append (written s) bs,
  length-append (unread s) bs,
)

pub read_or_fits :
    (n before : ℕ) (bs rest : List ℕ) (s : Stream)
    → IsValid s
    → n < 2 ^ 31
    → length bs ≡ n
    → unread s ≡ bs ++ rest
    → (s' : Stream) × (read_or n before s ≡ some (of_le bs, s'))
      × IsValid s'
      × (written s' ≡ written s)
      × (unread s' ≡ rest)
unfolding read_or
read_or_fits n before bs rest s v h len e =
    let (s', e', v', w, u) = read_fits n bs rest s v h len e in (s', rw e', v', w, u)
