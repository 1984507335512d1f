-- ===== src/Config.antt =====
-- depends/include/CellConfig.hpp: the settings from the command line. Texts are C strings; `atoi` of
-- the C library is an argument. Setting the `=` in the argument to 0 is not modelled, since nothing
-- reads the arguments again.
pub mod Last
mod Tests
use cpp100net.Common.{
  ℕ, Bool, true, false, Option, none, some, List, [], ◌∷◌, ◌==◌, if◌then◌else◌, ◌>>=◌,
}
use cpp100net.Common.Bytes.{bytes_eq}
use cpp100net.Common.Int.{ℤ}

-- `std::map<std::string, std::string>`
abbrev pub Map : Type 0
Map = List (List ℕ × List ℕ)

-- `_kv[key] = val`
unfoldable pub insert : List ℕ → List ℕ → Map → Map
insert k v [] = (k, v) ∷ []
insert k v ((j, w) ∷ m) = if bytes_eq k j then (k, v) ∷ m else (j, w) ∷ insert k v m

-- `_kv.find(key)`
unfoldable pub find : List ℕ → Map → Option (List ℕ)
find k [] = none
find k ((j, w) ∷ m) = if bytes_eq k j then some w else find k m

pub record Config : Type 0 where
  pub exe_path : List ℕ
  pub kv : Map

unfoldable pub create : Config
create = record { exe_path = []; kv = [] }

-- `strchr(cmd, '=')`: the text before the first `=`, and the text behind it.
unfoldable pub split_cmd : List ℕ → Option (List ℕ × List ℕ)
split_cmd [] = none
split_cmd (c ∷ cs) =
    if c == b'=' then some ([], cs) else (split_cmd cs >>= λ r. some (c ∷ r.0, r.1))

abbrev pub set_cmd : Option (List ℕ × List ℕ) → List ℕ → Config → Config
set_cmd none cmd c = record c { kv = insert cmd [] c.kv }
set_cmd (some (key, val)) cmd c = record c { kv = insert key val c.kv }

-- `makeCmd`
unfoldable pub make_cmd : List ℕ → Config → Config
unfolding split_cmd insert
make_cmd cmd c = set_cmd (split_cmd cmd) cmd c

unfoldable pub make_cmds : List (List ℕ) → Config → Config
unfolding make_cmd
make_cmds [] c = c
make_cmds (cmd ∷ cmds) c = make_cmds cmds (make_cmd cmd c)

-- `Init`: without a first argument, `args[0]` is null, which a string cannot be made of.
unfoldable pub init : List (List ℕ) → Config → Option Config
unfolding make_cmds
init [] c = none
init (path ∷ cmds) c = some (make_cmds cmds (record c { exe_path = path }))

abbrev pub or_else {ℓ} : {A : Type ℓ} → Option A → A → A
or_else none d = d
or_else (some a) d = a

unfoldable pub get_str : List ℕ → List ℕ → Config → List ℕ
unfolding find
get_str name d c = or_else (find name c.kv) d

abbrev pub map_or {ℓ κ} : {A : Type ℓ} {B : Type κ} → Option A → (A → B) → B → B
map_or none f d = d
map_or (some a) f d = f a

unfoldable pub get_int : (List ℕ → ℤ) → List ℕ → ℤ → Config → ℤ
unfolding find
get_int atoi name d c = map_or (find name c.kv) atoi d

unfoldable pub has_key : List ℕ → Config → Bool
unfolding find
has_key name c = map_or (find name c.kv) (λ v. true) false
