-- ===== src/Buffer/Frame.antt =====
-- How a buffer tells whether a whole message stands at its front.
use cpp100net.Common.{
  ℕ, ◌≤◌, ◌<◌, ◌≡◌, ap, ◌∙◌, sym, true, false, some, List, length, take, leb, if◌then◌else◌, arith,
  tests, Bool-cases, inl, inr, ◌⊎◌, copy_out-fits, take-take,
}
use cpp100net.Common.Words.{of_le}
use cpp100net.Buffer.{Buffer, front_length, has_msg}
use cpp100net.Buffer.Inv.{IsValid, contents, length-contents}

-- The `dataLength` that the bytes begin with.
abbrev pub front_len : List ℕ → ℕ
front_len xs = of_le (take 2 xs)

pub front_length_lem :
    (b : Buffer) → IsValid b → 2 ≤ b.n_last → front_length b ≡ some (front_len (contents b))
unfolding front_length
front_length_lem b v h =
    rw (copy_out-fits b.p_buff 0 2 (omega (arith, v.size, v.within)))
      (ap (λ l. some (of_le l)) (sym (take-take 2 b.n_last b.p_buff h)))

-- No whole message stands at the front: too few bytes for a header, or for the length it names.
abbrev pub IsIncomplete : List ℕ → Type 0
IsIncomplete xs = (length xs < 4) ⊎ (length xs < front_len xs)

-- On a valid buffer `hasMsg` reads inside the array, and answers exactly whether header and message are there.
has_msg_lem :
    (b : Buffer)
    → IsValid b
    → has_msg b
      ≡ some (
          if leb 4 (length (contents b))
          then leb (front_len (contents b)) (length (contents b))
          else false)
unfolding has_msg
has_msg_lem b v = elim (Bool-cases (leb 4 b.n_last)) [
  | inl e ↦ rw (length-contents b v, e, front_length_lem b v (omega (tests, e)))
  | inr e ↦ rw (length-contents b v, e)
]

pub has_msg_incomplete :
    (b : Buffer) → IsValid b → IsIncomplete (contents b) → has_msg b ≡ some false
has_msg_incomplete b v h = has_msg_lem b v ∙ ap some (ground arith)

pub has_msg_complete :
    (b : Buffer)
    → IsValid b
    → 4 ≤ length (contents b)
    → front_len (contents b) ≤ length (contents b)
    → has_msg b ≡ some true
has_msg_complete b v h k = has_msg_lem b v ∙ ap some (ground arith)
