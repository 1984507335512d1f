-- ===== src/FdSet.antt =====
-- depends/include/CellFDSet.hpp: a set of descriptors as an array of bits, for select. The build
-- without _WIN32; `cell_max_fd` is CELL_MAX_FD, which the build has to define. FD_SET, FD_CLR and
-- FD_ISSET of the system set, clear and test one bit; outside the array they are a fault.
pub mod Bits
use cpp100net.Common.{
  ℕ, ◌+◌, ◌*◌, ◌/◌, Bool, true, false, Option, none, some, ltb, leb, ◌==◌, if◌then◌else◌, ◌>>=◌,
}
use cpp100net.Sockets.{Socket}

-- The array behind `_pfdset`, with the number of its bytes.
pub record Array : Type 0 where
  pub n_bytes : ℕ
  pub bit : ℕ → Bool

pub record FdSet : Type 0 where
  pub p_fdset : Option Array
  pub nfd_size : ℕ
  pub max_sock_fd : ℕ

abbrev pub empty : FdSet
empty = record { p_fdset = none; nfd_size = 0; max_sock_fd = 0 }

-- `create`; an array that was there before is lost.
unfoldable pub create : ℕ → FdSet → FdSet
create max_fds set =
    let n_socket_num = if ltb max_fds 65535 then 65535 else max_fds in
    record {
      p_fdset = some (record { n_bytes = n_socket_num / 8 + 1; bit = λ i. false });
      nfd_size = n_socket_num / 8 + 1;
      max_sock_fd = n_socket_num;
    }

unfoldable pub destroy : FdSet → FdSet
destroy set = record set { p_fdset = none }

-- `FD_SET` and `FD_CLR`
unfoldable pub put_bit : Bool → Socket → Array → Option Array
put_bit v none a = none
put_bit v (some s) a =
    if ltb s (8 * a.n_bytes)
    then some (record a { bit = λ i. if i == s then v else a.bit i })
    else none

-- What is done to the array, if there is one.
abbrev pub on_array : (Array → Option Array) → FdSet → Option Array → Option FdSet
on_array f set none = some set
on_array f set (some a) = f a >>= λ a'. some (record set { p_fdset = some a' })

-- `s < CELL_MAX_FD`; an invalid socket is -1.
abbrev pub below : ℕ → Socket → Bool
below cell_max_fd none = true
below cell_max_fd (some s) = ltb s cell_max_fd

unfoldable pub add : ℕ → Socket → FdSet → Option FdSet
unfolding put_bit
add cell_max_fd s set =
    if below cell_max_fd s then on_array (put_bit true s) set set.p_fdset else some set

unfoldable pub del : Socket → FdSet → Option FdSet
unfolding put_bit
del s set = on_array (put_bit false s) set set.p_fdset

-- The array with its first `n` bytes taken from elsewhere; more than it has are a fault.
unfoldable pub fill : ℕ → (ℕ → Bool) → Array → Option Array
fill n from a =
    if leb n a.n_bytes
    then some (record a { bit = λ i. if ltb i (8 * n) then from i else a.bit i })
    else none

unfoldable pub zero : FdSet → Option FdSet
unfolding fill
zero set = on_array (fill set.nfd_size (λ i. false)) set set.p_fdset

-- `FD_ISSET`
abbrev pub test_bit : Socket → Option Array → Option Bool
test_bit none a = none
test_bit (some s) none = none
test_bit (some s) (some a) = if ltb s (8 * a.n_bytes) then some (a.bit s) else none

unfoldable pub has : Socket → FdSet → Option Bool
has s set = test_bit s set.p_fdset

-- `memcpy(_pfdset, set.fdset(), _nfdSize)` once both arrays are known.
abbrev pub copy_array : ℕ → Option Array → Option Array → Option Array
copy_array n none to = none
copy_array n (some from) none = none
copy_array n (some from) (some to) = if leb n from.n_bytes then fill n from.bit to else none

-- `copy(set)`
unfoldable pub copy : FdSet → FdSet → Option FdSet
unfolding fill
copy from to = copy_array from.nfd_size from.p_fdset to.p_fdset >>= λ a.
    some (record to { p_fdset = some a; nfd_size = from.nfd_size })
