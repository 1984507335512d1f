-- ===== src/Config/Last.antt =====
-- What the settings answer after the command line was read.
use mathlib.Core.Option.{some-injective}
use cpp100net.Common.{
  ℕ, ◌≡◌, refl, ap, ◌∙◌, Bool, true, false, Bool-cases, inl, inr, Option, none, some, List, [], ◌∷◌,
  ◌++◌, ◌==◌, if◌then◌else◌, arith, Option-cases, Returns,
}
use cpp100net.Common.Bytes.{bytes_eq, bytes_eq_refl, bytes_eq-eq}
use cpp100net.Common.Int.{ℤ}
use cpp100net.Config.{
  Map, Config, insert, find, create, split_cmd, make_cmd, make_cmds, init, get_str, get_int,
  has_key,
}

-- There is no `=` in a text.
abbrev pub HasNoEq : List ℕ → Type 0
HasNoEq [] = Unit {0}
HasNoEq (c ∷ cs) = (c == b'=' ≡ false) × HasNoEq cs

-- The argument `cmd` sets `key` to `val`: it is `key=val`, or `key` alone, which sets it to nothing.
pub data Sets (cmd key val : List ℕ) : Type 0 where
  with_value : HasNoEq key → cmd ≡ key ++ (b'=' ∷ val) → Sets cmd key val
  alone : HasNoEq key → cmd ≡ key → val ≡ [] → Sets cmd key val

-- None of the arguments sets `key`.
abbrev pub NoneSets : List ℕ → List (List ℕ) → Type 0
NoneSets key [] = Unit {0}
NoneSets key (cmd ∷ cmds) = ((val : List ℕ) → ¬ Sets cmd key val) × NoneSets key cmds

-- The key that an argument sets, and its value.
abbrev key_of : Option (List ℕ × List ℕ) → List ℕ → List ℕ × List ℕ
key_of none cmd = (cmd, [])
key_of (some (key, val)) cmd = (key, val)

find-insert :
    (j k v : List ℕ) (m : Map) → find j (insert k v m) ≡ (if bytes_eq j k then some v else find j m)
unfolding find insert
find-insert j k v [] = refl
find-insert j k v ((i, w) ∷ m) = ground (
  arith,
  find-insert j k v m,
  bytes_eq-eq k i,
  bytes_eq-eq j i,
  bytes_eq-eq j k,
  bytes_eq_refl k,
  bytes_eq_refl j,
)

split_cmd-HasNoEq : (key : List ℕ) → HasNoEq key → split_cmd key ≡ none
unfolding split_cmd
split_cmd-HasNoEq [] h = refl
split_cmd-HasNoEq (c ∷ cs) h = rw (h.0, split_cmd-HasNoEq cs h.1) refl

split_cmd-value :
    (key val : List ℕ) → HasNoEq key → split_cmd (key ++ (b'=' ∷ val)) ≡ some (key, val)
unfolding split_cmd
split_cmd-value [] val h = refl
split_cmd-value (c ∷ cs) val h = rw (h.0, split_cmd-value cs val h.1) refl

split_cmd-none : (cmd : List ℕ) → split_cmd cmd ≡ none → HasNoEq cmd
unfolding split_cmd
split_cmd-none [] e = tt
split_cmd-none (c ∷ cs) e = elim (Bool-cases (c == b'=')) [
  | inl found ↦ let bad : some ([], cs) ≡ none = rw found at e in cc
  | inr other ↦ elim (Option-cases (split_cmd cs)) [
    | inl none_there ↦ (other, split_cmd-none cs none_there)
    | inr (r, there) ↦ let bad : some (c ∷ r.0, r.1) ≡ none = rw (other, there) at e in cc
  ]
]

split_cmd-some :
    (cmd key val : List ℕ)
    → split_cmd cmd ≡ some (key, val)
    → HasNoEq key × (cmd ≡ key ++ (b'=' ∷ val))
unfolding split_cmd
split_cmd-some [] key val e = let bad : none ≡ some (key, val) = e in cc
split_cmd-some (c ∷ cs) key val e = elim (Bool-cases (c == b'=')) [
  | inl found ↦
      let same = some-injective _ _ (rw found at e) in
      let eq : c ≡ b'=' = ground arith in
      rw (← ap (λ r. r.0) same, ← ap (λ r. r.1) same, eq) (tt, refl)
  | inr other ↦ elim (Option-cases (split_cmd cs)) [
    | inl none_there ↦ let bad : none ≡ some (key, val) = rw (other, none_there) at e in cc
    | inr (r, there) ↦
        let same = some-injective _ _ (rw (other, there) at e) in
        let rest = split_cmd-some cs r.0 r.1 there in
        rw (← ap (λ r. r.0) same, ← ap (λ r. r.1) same) ((other, rest.0), ap (λ l. c ∷ l) rest.1)
  ]
]

-- Every argument sets the key that is found in it.
key_of-Sets :
    (cmd : List ℕ) → Sets cmd (key_of (split_cmd cmd) cmd).0 (key_of (split_cmd cmd) cmd).1
key_of-Sets cmd = elim (Option-cases (split_cmd cmd)) [
  | inl e ↦ rw e (alone (split_cmd-none cmd e) refl refl)
  | inr (r, e) ↦ let parts = split_cmd-some cmd r.0 r.1 e in rw e (with_value parts.0 parts.1)
]

Sets-key_of : (cmd key val : List ℕ) → Sets cmd key val → key_of (split_cmd cmd) cmd ≡ (key, val)
Sets-key_of cmd key val (with_value h e) = rw (e, split_cmd-value key val h) refl
Sets-key_of cmd key val (alone h e f) = rw (e, split_cmd-HasNoEq key h, f) refl

find-make_cmd :
    (j cmd : List ℕ) (c : Config)
    → find j (make_cmd cmd c).kv ≡ (
        if bytes_eq j (key_of (split_cmd cmd) cmd).0
        then some (key_of (split_cmd cmd) cmd).1
        else find j c.kv)
unfolding make_cmd
find-make_cmd j cmd c = elim (Option-cases (split_cmd cmd)) [
  | inl e ↦ rw e (find-insert j cmd [] c.kv)
  | inr (r, e) ↦ rw e (find-insert j r.0 r.1 c.kv)
]

find-NoneSets :
    (key : List ℕ) (cmds : List (List ℕ)) (c : Config)
    → NoneSets key cmds
    → find key (make_cmds cmds c).kv ≡ find key c.kv
unfolding make_cmds
find-NoneSets key [] c h = refl
find-NoneSets key (cmd ∷ cmds) c h =
    find-NoneSets key cmds (make_cmd cmd c) h.1
    ∙ (find-make_cmd key cmd c ∙ elim (Bool-cases (bytes_eq key (key_of (split_cmd cmd) cmd).0)) [
      | inl e ↦
          let same = bytes_eq-eq key (key_of (split_cmd cmd) cmd).0 e in
          absurd (h.0 (key_of (split_cmd cmd) cmd).1 (rw same (key_of-Sets cmd)))
      | inr e ↦ rw e refl
    ])

make_cmds-append :
    (front back : List (List ℕ)) (c : Config)
    → make_cmds (front ++ back) c ≡ make_cmds back (make_cmds front c)
unfolding make_cmds
make_cmds-append [] back c = refl
make_cmds-append (cmd ∷ front) back c = make_cmds-append front back (make_cmd cmd c)

find-Sets :
    (front back : List (List ℕ)) (cmd key val : List ℕ) (c : Config)
    → Sets cmd key val
    → NoneSets key back
    → find key (make_cmds (front ++ (cmd ∷ back)) c).kv ≡ some val
unfolding make_cmds
find-Sets front back cmd key val c sets last =
    let pair = Sets-key_of cmd key val sets in
    ap (λ d. find key d.kv) (make_cmds-append front (cmd ∷ back) c)
    ∙ (find-NoneSets key back (make_cmd cmd (make_cmds front c)) last
        ∙ (find-make_cmd key cmd (make_cmds front c) ∙ rw (pair, bytes_eq_refl key) refl))

exe_path-make_cmds : (cmds : List (List ℕ)) (c : Config) → (make_cmds cmds c).exe_path ≡ c.exe_path
unfolding make_cmds
exe_path-make_cmds [] c = refl
exe_path-make_cmds (cmd ∷ cmds) c =
    exe_path-make_cmds cmds (make_cmd cmd c)
    ∙ elim (Option-cases (split_cmd cmd)) [ inl e ↦ rw e refl | inr (r, e) ↦ rw e refl ]

-- What the arguments decide for a key: the last one that sets it does, or none sets it.
pub data Decided (key : List ℕ) : List (List ℕ) → Option (List ℕ) → Type 0 where
  by_last :
      (front back : List (List ℕ)) {cmd val : List ℕ}
      → Sets cmd key val
      → NoneSets key back
      → Decided key (front ++ (cmd ∷ back)) (some val)
  by_none : {cmds : List (List ℕ)} → NoneSets key cmds → Decided key cmds none

-- The text, the number, and whether the key is there.
abbrev pub text_of : List ℕ → Option (List ℕ) → List ℕ
text_of text none = text
text_of text (some val) = val

abbrev pub number_of : (List ℕ → ℤ) → ℤ → Option (List ℕ) → ℤ
number_of atoi number none = number
number_of atoi number (some val) = atoi val

abbrev pub is_set : Option (List ℕ) → Bool
is_set none = false
is_set (some val) = true

find-Decided :
    (key : List ℕ) (path : List ℕ) (cmds : List (List ℕ)) (o : Option (List ℕ))
    → Decided key cmds o
    → find key (make_cmds cmds (record create { exe_path = path })).kv ≡ o
unfolding create find
find-Decided key path _ _ (by_last front back {cmd} {val} sets last) =
    find-Sets front back cmd key val (record create { exe_path = path }) sets last
find-Decided key path cmds _ (by_none none_sets) =
    find-NoneSets key cmds (record create { exe_path = path }) none_sets

-- After the command line was read, its first word is the path of the program. The last argument that
-- sets a key, by `key=val` or by the key alone, decides what the settings answer for it: its text, its
-- number, and that it is there. Where no argument sets it, they answer with the defaults, and that it
-- is not there.
pub init-Decided :
    (atoi : List ℕ → ℤ) (path : List ℕ) (cmds : List (List ℕ)) (key text : List ℕ) (number : ℤ)
    (o : Option (List ℕ))
    → Decided key cmds o
    → Returns (init (path ∷ cmds) create) λ c.
      (get_str key text c ≡ text_of text o)
      × (get_int atoi key number c ≡ number_of atoi number o)
      × (has_key key c ≡ is_set o)
      × (c.exe_path ≡ path)
unfolding init get_str get_int has_key
init-Decided atoi path cmds key text number o d =
    let c = make_cmds cmds (record create { exe_path = path }) in
    let e = find-Decided key path cmds o d in
    (c, refl, (answers o e, numbers o e, sets o e, exe_path-make_cmds cmds _))
  where
    c' : Config
    c' = make_cmds cmds (record create { exe_path = path })

    answers : (p : Option (List ℕ)) → find key c'.kv ≡ p → get_str key text c' ≡ text_of text p
    answers none e = rw e refl
    answers (some val) e = rw e refl

    numbers :
        (p : Option (List ℕ))
        → find key c'.kv ≡ p
        → get_int atoi key number c' ≡ number_of atoi number p
    numbers none e = rw e refl
    numbers (some val) e = rw e refl

    sets : (p : Option (List ℕ)) → find key c'.kv ≡ p → has_key key c' ≡ is_set p
    sets none e = rw e refl
    sets (some val) e = rw e refl
