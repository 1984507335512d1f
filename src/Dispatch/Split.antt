-- ===== src/Dispatch/Split.antt =====
-- The messages in a sequence of bytes, by themselves: what `DoMsg` is held to.
use cpp100net.Common.{
  ℕ, ◌≤◌, ◌≡◌, refl, ap, ap₂, sym, ◌∙◌, List, [], ◌∷◌, ◌++◌, length, take, drop, arith, inl, inr,
  length-append, take-append_le, drop-append_le,
}
use cpp100net.Common.Words.{of_le}
use cpp100net.Buffer.Frame.{front_len, IsIncomplete}

-- `Split xs fs rest`: `xs` is the messages `fs`, each as long as its first two bytes say, and then
-- `rest`, which is no whole message.
pub data Split : List ℕ → List (List ℕ) → List ℕ → Type 0 where
  stop : {xs : List ℕ} → IsIncomplete xs → Split xs [] xs
  next :
      {xs f rest : List ℕ} {fs : List (List ℕ)} (n : ℕ)
      → n ≡ front_len xs
      → f ≡ take n xs
      → 4 ≤ length xs
      → 1 ≤ n
      → n ≤ length xs
      → Split (drop n xs) fs rest
      → Split xs (f ∷ fs) rest

-- More bytes behind a header do not change the length that it names.
front_len-append : (xs ys : List ℕ) → 2 ≤ length xs → front_len (xs ++ ys) ≡ front_len xs
front_len-append xs ys h = ap (λ l. of_le l) (take-append_le 2 xs ys h)

-- Splitting what is left over together with more bytes goes on where the first split stopped.
pub Split-append :
    {xs rest : List ℕ} {fs : List (List ℕ)}
    → Split xs fs rest
    → (ys : List ℕ) {gs : List (List ℕ)} {rest' : List ℕ} → Split (rest ++ ys) gs rest'
    → Split (xs ++ ys) (fs ++ gs) rest'
Split-append (stop h) ys s = s
Split-append (next {xs} {fs = fs} n e ef four some_bytes whole t) ys s =
    let len = length-append xs ys in
    next n (e ∙ sym (front_len-append xs ys (omega arith)))
      (ef ∙ sym (take-append_le n xs ys whole)) (omega arith) some_bytes (omega arith)
      (rw (drop-append_le n xs ys whole) (Split-append t ys s))

no_frame :
    (xs : List ℕ) (n : ℕ) → IsIncomplete xs → n ≡ front_len xs → 4 ≤ length xs → n ≤ length xs → ⊥
no_frame xs n (inl h) e four whole = omega arith
no_frame xs n (inr h) e four whole = omega arith

-- The messages in a sequence of bytes, and what is left over, are determined.
pub Split-unique :
    {xs rest rest' : List ℕ} {fs gs : List (List ℕ)}
    → Split xs fs rest
    → Split xs gs rest'
    → (fs ≡ gs) × (rest ≡ rest')
Split-unique (stop h) (stop k) = (refl, refl)
Split-unique (stop h) (next n e ef four some_bytes whole t) = absurd (no_frame _ n h e four whole)
Split-unique (next n e ef four some_bytes whole t) (stop h) = absurd (no_frame _ n h e four whole)
Split-unique (next {xs} {rest = rest} {fs = fs} n e ef four some_bytes whole t)
      (next m e' ef' _ _ _ u) =
    let same : m ≡ n = e' ∙ sym e in
    let ih = Split-unique t (rw same at u) in (ap₂ ◌∷◌ (ef ∙ (rw (← same) (sym ef'))) ih.0, ih.1)

-- What is left over is no whole message.
pub Split-rest : {xs rest : List ℕ} {fs : List (List ℕ)} → Split xs fs rest → IsIncomplete rest
Split-rest (stop h) = h
Split-rest (next n e ef four some_bytes whole t) = Split-rest t
