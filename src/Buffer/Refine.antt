-- ===== src/Buffer/Refine.antt =====
-- `CellBuffer` as a bounded queue of bytes.
use cpp100net.Common.{
  ℕ, ◌+◌, ◌-◌, ◌≤◌, ◌≡◌, refl, ap, ◌∙◌, true, false, List, ◌++◌, length, take, drop, leb, ltb, ◌==◌,
  if◌then◌else◌, arith, Bool-cases, tests, ltb-false, le→leb, inl, inr, length-take, length-drop,
  take-drop, drop_all, splice, copy_in, copy_in-fits, copy_out-fits, length-splice, take-splice,
  ◌>>=◌, Returns,
}
use cpp100net.Buffer.{Buffer, push, pushed, popped, move_front, pop, sent}
use cpp100net.Buffer.Inv.{IsValid, contents, length-contents}

length-window : (a : List ℕ) (from n : ℕ) → from + n ≤ length a → length (take n (drop from a)) ≡ n
length-window a from n h = omega (arith, length-take n (drop from a), length-drop from a)

move_front-take :
    (a : List ℕ) (from n : ℕ)
    → from + n ≤ length a
    → Returns (move_front a from n) λ p. (length p ≡ length a) × (take n p ≡ take n (drop from a))
unfolding move_front
move_front-take a from n h = (
  splice a 0 moved,
  ap (λ o. o >>= λ m. copy_in a 0 m) (copy_out-fits a from n h) ∙ copy_in-fits a 0 moved fits,
  (
    length-splice a 0 moved fits,
    ap (λ k. take k (splice a 0 moved)) (omega (arith, len)) ∙ take-splice a 0 moved fits,
  ),
)
  where
    moved : List ℕ
    moved = take n (drop from a)

    len : length moved ≡ n
    len = length-window a from n h

    fits : 0 + length moved ≤ length a
    fits = omega (arith, len)

-- On a valid buffer, a message that fits behind the waiting bytes is appended whole, and one that does
-- not changes none of them; the buffer stays valid and as large.
pub push-refines :
    (b : Buffer) (xs : List ℕ)
    → IsValid b
    → Returns (push xs b) λ r.
      IsValid r.1
      × (r.1.n_size ≡ b.n_size)
      × (r.0 ≡ leb (length (contents b) + length xs) b.n_size)
      × (contents r.1 ≡ (if r.0 then contents b ++ xs else contents b))
unfolding push
push-refines b xs v = elim (Bool-cases (leb (b.n_last + length xs) b.n_size)) [
  | inl e ↦
      let fits : b.n_last + length xs ≤ length b.p_buff = omega (tests, ltb-false, v) in
      rw e (
        (true, pushed (splice b.p_buff b.n_last xs) (length xs) b),
        rw (copy_in-fits b.p_buff b.n_last xs fits),
        ground (
          arith,
          length-contents b v,
          length-splice b.p_buff b.n_last xs fits,
          take-splice b.p_buff b.n_last xs fits,
        ),
      )
  | inr e ↦ rw e (
    (false, record b { full_count = b.full_count + 1 }),
    refl,
    ground (arith, length-contents b v),
  )
]

-- The shift that follows a removal of `n` bytes.
shift :
    (b : Buffer) (n : ℕ)
    → IsValid b
    → n ≤ b.n_last
    → Returns
        (move_front b.p_buff n (b.n_last - n))
        λ p. (length p ≡ b.n_size) × (take (b.n_last - n) p ≡ drop n (contents b))
shift b n v h =
    let moved = move_front-take b.p_buff n (b.n_last - n) (omega arith) in
    (
      moved.0,
      moved.1,
      (
        omega (arith, moved.2.0),
        moved.2.1
            ∙ (take-drop n (b.n_last - n) b.p_buff
                ∙ ap (λ k. drop n (take k b.p_buff)) (omega arith)),
      ),
    )

-- On a valid buffer, taking at most as many bytes as are waiting leaves those behind them; the buffer
-- stays valid and as large.
pub pop-refines :
    (b : Buffer) (n : ℕ)
    → IsValid b
    → n ≤ b.n_last
    → Returns
        (pop n b)
        λ b'. IsValid b' × (b'.n_size ≡ b.n_size) × (contents b' ≡ drop n (contents b))
unfolding pop
pop-refines b n v h = elim (Bool-cases (ltb 0 (b.n_last - n))) [
  | inl e ↦
      let (p, eq, after) = shift b n v h in
      rw (le→leb n b.n_last h, e)
        (popped p (b.n_last - n) b, rw eq, (omega (arith, after.0), refl, after.1))
  | inr e ↦
      rw (le→leb n b.n_last h, e)
        (
          popped b.p_buff (b.n_last - n) b,
          refl,
          ground (arith, drop_all n (contents b), length-contents b v),
        )
]

-- `sent` drops exactly the bytes that `send` took.
pub sent-refines :
    (b : Buffer) (n : ℕ)
    → IsValid b
    → n ≤ b.n_last
    → Returns (sent n b) λ b'.
      IsValid b'
      × (b'.n_size ≡ b.n_size)
      × (b'.full_count ≡ 0)
      × (contents b' ≡ drop n (contents b))
unfolding sent
sent-refines b n v h = elim (Bool-cases (n == b.n_last)) [
  | inl e ↦ rw e (
    record b { n_last = 0; full_count = 0 },
    refl,
    ground (arith, drop_all n (contents b), length-contents b v),
  )
  | inr e ↦
      let (p, eq, after) = shift b n v h in
      rw (e, le→leb n b.n_last h)
        (
          record b { p_buff = p; n_last = b.n_last - n; full_count = 0 },
          rw eq,
          (omega (arith, after.0), refl, refl, after.1),
        )
]
