-- ===== src/MemoryAlloc/Tests.antt =====
-- A pool of three blocks: block 0 is in use, the others are free, block 2 first; and a new pool of two.
use cpp100net.Common.{ℕ, refl, Option, none, some, List, [], ◌∷◌, arith, Returns}
use cpp100net.MemoryAlloc.{Block, MemoryAlloc, pool_block, alloc_memory}
use cpp100net.MemoryAlloc.Free.{last, next, IsPool, Allocated, alloc_memory-Allocated}
use cpp100net.MemoryAlloc.Handed.{Handed}

abbrev in_use : Block
in_use = record (pool_block 0) { n_ref = 1 }

abbrev three : List Block
three = in_use ∷ pool_block 1 ∷ record (pool_block 2) { p_next = some 1 } ∷ []

abbrev pool : MemoryAlloc
pool = record { p_buf = some three; p_header = some 2; n_size = 64; n_block_size = 3 }

pool-IsPool : IsPool pool (2 ∷ 1 ∷ [])
pool-IsPool = record {
  blocks = three;
  there = refl;
  free =
      next 2 (record (pool_block 2) { p_next = some 1 }) (1 ∷ []) refl refl (ground arith, tt)
        (next 1 (pool_block 1) [] refl refl tt last);
}

alloc_memory-Allocated_example :
    Returns (alloc_memory [] 40 pool) λ r. Allocated 40 pool (2 ∷ 1 ∷ []) r.0 r.1
alloc_memory-Allocated_example = alloc_memory-Allocated [] 40 pool (2 ∷ 1 ∷ []) pool-IsPool

-- A new pool of two blocks, both of which are taken; then the first is given back.
abbrev two : MemoryAlloc
two = record { p_buf = none; p_header = none; n_size = 64; n_block_size = 2 }

abbrev block_of : ℕ → ℕ → Option ℕ → Block
block_of i used after = record (pool_block i) { n_ref = used; p_next = after }

abbrev with_blocks : Block → Block → Option ℕ → MemoryAlloc
with_blocks b c head = record two { p_buf = some (b ∷ c ∷ []); p_header = head }
