-- ===== src/Config/Tests.antt =====
-- The command line `server a=1 -p a=2=3 b`.
use cpp100net.Common.{ℕ, ◌≡◌, refl, true, List, [], ◌∷◌, length, Returns, arith, some}
use cpp100net.Common.Int.{ℤ, pos}
use cpp100net.Config.{create, init, get_str, get_int, has_key}
use cpp100net.Config.Last.{Sets, with_value, alone, by_last, init-Decided}

-- A stand-in for `atoi`.
abbrev size_of : List ℕ → ℤ
size_of text = pos (length text)

abbrev server : List ℕ
server = b's' ∷ []

abbrev a_is_1 : List ℕ
a_is_1 = b'a' ∷ b'=' ∷ b'1' ∷ []

abbrev flag : List ℕ
flag = b'-' ∷ b'p' ∷ []

abbrev a_is_more : List ℕ
a_is_more = b'a' ∷ b'=' ∷ b'2' ∷ b'=' ∷ b'3' ∷ []

abbrev b_alone : List ℕ
b_alone = b'b' ∷ []

b_alone-not-Sets : (val : List ℕ) → ¬ Sets b_alone (b'a' ∷ []) val
b_alone-not-Sets val (with_value h e) = ground arith
b_alone-not-Sets val (alone h e f) = ground arith

init-Decided_example :
    Returns (init (server ∷ a_is_1 ∷ flag ∷ a_is_more ∷ b_alone ∷ []) create) λ c.
      (get_str (b'a' ∷ []) [] c ≡ b'2' ∷ b'=' ∷ b'3' ∷ [])
      × (get_int size_of (b'a' ∷ []) (pos 9) c ≡ pos 3)
      × (has_key (b'a' ∷ []) c ≡ true)
      × (c.exe_path ≡ server)
init-Decided_example =
    init-Decided size_of server (a_is_1 ∷ flag ∷ a_is_more ∷ b_alone ∷ []) (b'a' ∷ []) [] (pos 9)
      (some (b'2' ∷ b'=' ∷ b'3' ∷ []))
      (by_last (a_is_1 ∷ flag ∷ []) (b_alone ∷ []) (with_value (refl, tt) refl)
        (b_alone-not-Sets, tt))
