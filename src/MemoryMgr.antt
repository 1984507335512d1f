-- ===== src/MemoryMgr.antt =====
-- depends/include/MemoryMgr.hpp: `MemoryMgr`, two pools and the table that chooses between them by the
-- size of a request. `malloc` succeeds.
pub mod Sizes
pub mod Refs
mod Tests
use cpp100net.Common.{
  ℕ, zero, suc, ◌+◌, ◌-◌, Option, none, some, List, get_elem?, set, replicate, leb, ◌==◌,
  if◌then◌else◌, ◌>>=◌, true, false,
}
use cpp100net.MemoryAlloc
use cpp100net.MemoryAlloc.{
  Block, MemoryAlloc, Place, pooled, outside, alloc_memory, free_memory, put,
}

-- The pools that the table points to; the entries are unset before the constructor runs.
pub data Pool : Type 0 where
  unset : Pool
  mem64 : Pool
  mem128 : Pool

abbrev pub max_memory_size : ℕ
max_memory_size = 128

-- The loop of `init_szAlloc` from the size `n` on, for `left` more sizes.
unfoldable pub fill : ℕ → ℕ → Pool → List Pool → List Pool
fill n zero p table = table
fill n (suc left) p table = fill (n + 1) left p (set table n p)

-- `init_szAlloc`
unfoldable pub init_sz_alloc : ℕ → ℕ → Pool → List Pool → List Pool
unfolding fill
init_sz_alloc begin end p table = fill begin (end + 1 - begin) p table

pub record MemoryMgr : Type 0 where
  pub m64 : MemoryAlloc
  pub m128 : MemoryAlloc
  pub sz_alloc : List Pool

-- The constructor, for pointers of `n` bytes and pools of so many blocks.
unfoldable pub create : ℕ → ℕ → ℕ → MemoryMgr
unfolding init_sz_alloc
create n count64 count128 = record {
  m64 = MemoryAlloc.create n 64 count64;
  m128 = MemoryAlloc.create n 128 count128;
  sz_alloc =
      init_sz_alloc 65 128 mem128
        (init_sz_alloc 0 64 mem64 (replicate (max_memory_size + 1) unset));
}

-- Where a request was served from.
pub data Given : Type 0 where
  from64 : Place → Given
  from128 : Place → Given
  from_system : ℕ → Block → Given

-- `_szAlloc[nSize]->allocMemory(nSize)`; `raw` is the fresh memory of a pool used for the first time.
unfoldable pub alloc_from : List Block → ℕ → Pool → MemoryMgr → Option (Given × MemoryMgr)
alloc_from raw size unset g = none
alloc_from raw size mem64 g =
    alloc_memory raw size g.m64 >>= λ r. some (from64 r.0, record g { m64 = r.1 })
alloc_from raw size mem128 g =
    alloc_memory raw size g.m128 >>= λ r. some (from128 r.0, record g { m128 = r.1 })

-- `allocMem`
unfoldable pub alloc_mem : List Block → ℕ → MemoryMgr → Option (Given × MemoryMgr)
unfolding alloc_from
alloc_mem raw size g =
    if leb size max_memory_size
    then (get_elem? g.sz_alloc size >>= λ p. alloc_from raw size p g)
    else some (
      from_system size
          (record { n_id = none; n_ref = 1; in_alloc = false; p_next = none; b_pool = false }),
      g,
    )
