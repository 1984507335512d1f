-- ===== src/Common/Memory.antt =====
-- `memcpy` into and out of an array. An access outside the array is a fault, `none`.
use Prim.Native.Nat.{ℕ, ◌+◌, ◌-◌, ◌≤◌}
use mathlib.Core.Path.{◌≡◌, ap, ap₂, ◌∙◌}
use mathlib.Core.List.{List, ◌++◌, append_assoc}
use mathlib.Core.Option.{Option, none, some}
use native.Mathlib.Omega.{arith}
use cpp100net.Common.Tests.{leb, if◌then◌else◌}
use cpp100net.Common.Lists.{length, take, drop, length-append, length-take, length-drop}
use cpp100net.Common.Split.{
  take-add, take-drop, take-append_length, drop-append_length, take-append_le, take-take,
}

module _ {ℓ} {A : Type ℓ} where
  -- `memcpy(out, a + pos, n)`: the bytes read.
  unfoldable pub copy_out : List A → ℕ → ℕ → Option (List A)
  copy_out a pos n = if leb (pos + n) (length a) then some (take n (drop pos a)) else none

  -- The array with `bs` written from `pos` on.
  unfoldable pub splice : List A → ℕ → List A → List A
  splice a pos bs = take pos a ++ (bs ++ drop (pos + length bs) a)

  -- `memcpy(a + pos, bs, length bs)`: the array afterwards.
  unfoldable pub copy_in : List A → ℕ → List A → Option (List A)
  copy_in a pos bs = if leb (pos + length bs) (length a) then some (splice a pos bs) else none

  pub copy_out-fits :
      (a : List A) (pos n : ℕ) → pos + n ≤ length a → copy_out a pos n ≡ some (take n (drop pos a))
  unfolding copy_out
  copy_out-fits a pos n h = ground arith

  pub copy_in-fits :
      (a : List A) (pos : ℕ) (bs : List A)
      → pos + length bs ≤ length a
      → copy_in a pos bs ≡ some (splice a pos bs)
  unfolding copy_in
  copy_in-fits a pos bs h = ground arith

  module _ (a : List A) (pos : ℕ) (bs : List A) (fits : pos + length bs ≤ length a) where
    length-take_pos : length (take pos a) ≡ pos
    length-take_pos = omega (arith, length-take pos a)

    pub length-splice : length (splice a pos bs) ≡ length a
    unfolding splice
    length-splice = omega (
      arith,
      length-append (take pos a) (bs ++ drop (pos + length bs) a),
      length-append bs (drop (pos + length bs) a),
      length-drop (pos + length bs) a,
      length-take_pos,
    )

    -- What lies below the write is kept.
    pub take-splice_below : (n : ℕ) → n ≤ pos → take n (splice a pos bs) ≡ take n a
    unfolding splice
    take-splice_below n h =
        take-append_le n (take pos a) (bs ++ drop (pos + length bs) a)
          (omega (arith, length-take_pos))
        ∙ take-take n pos a h

    -- Up to its end the array holds what it held before the write, then what was written.
    pub take-splice : take (pos + length bs) (splice a pos bs) ≡ take pos a ++ bs
    unfolding splice
    take-splice =
        ap (take (pos + length bs)) (sym_assoc)
        ∙ (ap (λ n. take n ((take pos a ++ bs) ++ drop (pos + length bs) a)) len
            ∙ take-append_length (take pos a ++ bs) (drop (pos + length bs) a))
      where
        sym_assoc :
            take pos a ++ (bs ++ drop (pos + length bs) a)
            ≡ (take pos a ++ bs) ++ drop (pos + length bs) a
        sym_assoc = rw append_assoc

        len : pos + length bs ≡ length (take pos a ++ bs)
        len = omega (arith, length-append (take pos a) bs, length-take_pos)

    -- What was written is read back.
    pub drop-splice : take (length bs) (drop pos (splice a pos bs)) ≡ bs
    unfolding splice
    drop-splice =
        ap (take (length bs)) (
          ap (λ n. drop n (take pos a ++ (bs ++ drop (pos + length bs) a)))
            (omega (arith, length-take_pos))
          ∙ drop-append_length (take pos a) (bs ++ drop (pos + length bs) a))
        ∙ take-append_length bs (drop (pos + length bs) a)

  -- A write at the front replaces the first bytes.
  pub take-splice_front :
      (a bs : List A) (n m : ℕ)
      → length bs ≡ m
      → m ≤ n
      → take n (splice a 0 bs) ≡ bs ++ drop m (take n a)
  unfolding splice
  take-splice_front a bs n m e h =
      ap (λ k. take k (bs ++ drop (0 + length bs) a)) split
      ∙ (take-add (length bs) (n - m) (bs ++ drop (0 + length bs) a)
          ∙ ap₂ ◌++◌ (take-append_length bs (drop (0 + length bs) a)) (
              ap (take (n - m))
                (drop-append_length bs (drop (0 + length bs) a) ∙ ap (λ k. drop k a) (omega arith))
              ∙ (take-drop m (n - m) a ∙ ap (λ k. drop m (take k a)) (omega arith))))
    where
      split : n ≡ length bs + (n - m)
      split = omega arith
