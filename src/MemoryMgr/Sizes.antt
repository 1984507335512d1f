-- ===== src/MemoryMgr/Sizes.antt =====
-- The sizes of requests and of the blocks that serve them.
use cpp100net.Common.{
  ℕ, zero, suc, ◌+◌, ◌≤◌, ◌<◌, ◌≡◌, ◌≢◌, refl, ◌∙◌, Option, none, some, List, length, get_elem?,
  set, replicate, length-set, length-replicate, get_elem?-set_self, get_elem?-set_ne, leb,
  if◌then◌else◌, arith, Bool-cases, inl, inr,
}
use cpp100net.MemoryAlloc
use cpp100net.MemoryAlloc.{Block, MemoryAlloc, Place, alloc_memory}
use cpp100net.MemoryMgr.{
  MemoryMgr, Pool, unset, mem64, mem128, fill, init_sz_alloc, max_memory_size, create,
}

-- Entries in front of the loop's sizes stay.
fill-before :
    (n left : ℕ) (p : Pool) (table : List Pool) (i : ℕ)
    → i < n
    → get_elem? (fill n left p table) i ≡ get_elem? table i
unfolding fill
fill-before n zero p table i h = refl
fill-before n (suc left) p table i h =
    let apart : n ≢ i = ground arith in
    fill-before (n + 1) left p (set table n p) i (omega arith) ∙ get_elem?-set_ne table p apart

-- Entries for the loop's sizes are set.
fill-within :
    (n left : ℕ) (p : Pool) (table : List Pool) (i : ℕ)
    → n ≤ i
    → i < n + left
    → n + left ≤ length table
    → get_elem? (fill n left p table) i ≡ some p
unfolding fill
fill-within n zero p table i low high fits = absurd (omega arith)
fill-within n (suc left) p table i low high fits = elim (Bool-cases (leb i n)) [
  | inl e ↦
      let same : i ≡ n = ground arith in
      rw same (
        fill-before (n + 1) left p (set table n p) n (omega arith)
        ∙ get_elem?-set_self table n p (omega arith))
  | inr e ↦
      fill-within (n + 1) left p (set table n p) i (ground arith) (omega arith)
        (omega (arith, length-set table n p))
]

length-fill :
    (n left : ℕ) (p : Pool) (table : List Pool) → length (fill n left p table) ≡ length table
unfolding fill
length-fill n zero p table = refl
length-fill n (suc left) p table = length-fill (n + 1) left p (set table n p) ∙ length-set table n p

-- The pool that serves a size.
create-sz_alloc :
    (n c d size : ℕ)
    → size ≤ 128
    → get_elem? (create n c d).sz_alloc size ≡ some (if leb size 64 then mem64 else mem128)
unfolding create init_sz_alloc
create-sz_alloc n c d size h =
    let start = replicate 129 unset in
    let low = fill 0 65 mem64 start in
    let long = length-fill 0 65 mem64 start ∙ length-replicate 129 unset in
    elim (Bool-cases (leb size 64)) [
      | inl e ↦ rw e (
          fill-before 65 64 mem128 low size (ground arith)
          ∙ fill-within 0 65 mem64 start size (omega arith) (ground arith)
              (omega (arith, length-replicate 129 unset)))
      | inr e ↦
          rw e
            (fill-within 65 64 mem128 low size (ground arith) (omega arith) (omega (arith, long)))
    ]

-- The size of the blocks of the pool that an entry points to, if it is set.
unfoldable pub block_size : Pool → MemoryMgr → Option ℕ
block_size unset g = none
block_size mem64 g = some g.m64.n_size
block_size mem128 g = some g.m128.n_size

-- In the manager as it is constructed, with pointers of 8 bytes, the table's entry for each size up to 128
-- is set, to a pool whose blocks have room for so many bytes: blocks of 64 bytes for a size up to 64, and
-- of 128 bytes for a larger one.
pub create-block_size :
    (count64 count128 size : ℕ)
    → size ≤ max_memory_size
    → (p : Pool) × (get_elem? (create 8 count64 count128).sz_alloc size ≡ some p)
      × (m : ℕ) × (block_size p (create 8 count64 count128) ≡ some m)
      × (m ≡ (if leb size 64 then 64 else 128))
      × (size ≤ m)
unfolding block_size create MemoryAlloc.create MemoryAlloc.rounded
create-block_size c d size h = elim (Bool-cases (leb size 64)) [
  | inl e ↦ (mem64, create-sz_alloc 8 c d size h ∙ rw e refl, 64, refl, rw e refl, ground arith)
  | inr e ↦ (mem128, create-sz_alloc 8 c d size h ∙ rw e refl, 128, refl, rw e refl, omega arith)
]
