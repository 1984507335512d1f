-- ===== src/FdSet/Bits.antt =====
-- The operations on a set of descriptors, by the bits of its array.
use cpp100net.Common.{
  ℕ, ◌*◌, ◌<◌, ◌≡◌, refl, ap, Bool, true, false, ◌||◌, some, ltb, ◌==◌, if◌then◌else◌, arith,
  Returns, lt→ltb, le→leb, Bool-cases, inl, inr,
}
use cpp100net.FdSet.{Array, FdSet, add, put_bit, zero, fill, has, copy}

-- The set has an array of `n` bytes, and its bits are `p`.
pub record Shows (n : ℕ) (p : ℕ → Bool) (set : FdSet) : Type 0 where
  pub array : Array
  pub there : set.p_fdset ≡ some array
  pub bytes : array.n_bytes ≡ n
  pub size : set.nfd_size ≡ n
  pub bits : (i : ℕ) → i < 8 * n → array.bit i ≡ p i

pub zero-Shows :
    {n : ℕ} {p : ℕ → Bool} (set : FdSet) → Shows n p set → Returns (zero set) (Shows n (λ i. false))
unfolding zero fill
zero-Shows {n} {p} set h =
    let a = h.array in
    (
      record set {
        p_fdset = some (record a { bit = λ i. if ltb i (8 * n) then false else a.bit i });
      },
      rw (h.there, h.size, le→leb n a.n_bytes (omega (arith, h.bytes))) refl,
      record {
        array = record a { bit = λ i. if ltb i (8 * n) then false else a.bit i };
        there = refl;
        bytes = h.bytes;
        size = h.size;
        bits = λ i small. rw (lt→ltb i (8 * n) small) refl;
      },
    )

pub add-Shows :
    {n : ℕ} {p : ℕ → Bool} (cell_max_fd k : ℕ) (set : FdSet)
    → k < cell_max_fd
    → k < 8 * n
    → Shows n p set
    → Returns (add cell_max_fd (some k) set) (Shows n (λ i. (i == k) || p i))
unfolding add put_bit
add-Shows {n} {p} cell_max_fd k set below inside h =
    let a = h.array in
    (
      record set { p_fdset = some (record a { bit = λ i. if i == k then true else a.bit i }) },
      rw (h.there, lt→ltb k cell_max_fd below, lt→ltb k (8 * a.n_bytes) (omega (arith, h.bytes)))
          refl,
      record {
        array = record a { bit = λ i. if i == k then true else a.bit i };
        there = refl;
        bytes = h.bytes;
        size = h.size;
        bits = λ i small. elim (Bool-cases (i == k)) [
          | inl e ↦ rw e refl
          | inr e ↦ rw e (h.bits i small)
        ];
      },
    )

pub copy-Shows :
    {n : ℕ} {p q : ℕ → Bool} (from to : FdSet)
    → Shows n p from
    → Shows n q to
    → Returns (copy from to) (Shows n p)
unfolding copy fill
copy-Shows {n} {p} {q} from to f t =
    let a = record (t.array) {
      bit = λ i. if ltb i (8 * n) then f.array.bit i else t.array.bit i;
    } in
    (
      record to { p_fdset = some a; nfd_size = from.nfd_size },
      rw
          (
            f.there,
            t.there,
            f.size,
            le→leb n f.array.n_bytes (omega (arith, f.bytes)),
            le→leb n t.array.n_bytes (omega (arith, t.bytes)),
          )
          refl,
      record {
        array = a;
        there = refl;
        bytes = t.bytes;
        size = f.size;
        bits = λ i small. rw (lt→ltb i (8 * n) small) (f.bits i small);
      },
    )

pub has-Shows :
    {n : ℕ} {p : ℕ → Bool} (k : ℕ) (set : FdSet)
    → k < 8 * n
    → Shows n p set
    → has (some k) set ≡ some (p k)
unfolding has
has-Shows {n} k set inside h =
    rw (h.there, lt→ltb k (8 * h.array.n_bytes) (omega (arith, h.bytes)))
      (ap some (h.bits k inside))
