-- ===== src/MemoryMgr/Tests.antt =====
-- A request of 65 bytes, and a block of the smaller pool that is used once.
use cpp100net.Common.{ℕ, ◌≤◌, ◌≡◌, refl, true, none, some, [], ◌∷◌, get_elem?, arith, Returns}
use cpp100net.MemoryAlloc.{Block, pooled}
use cpp100net.MemoryMgr.{MemoryMgr, Pool, from64, create}
use cpp100net.MemoryMgr.Refs.{add_ref, free_mem, free_mem-add_ref}
use cpp100net.MemoryMgr.Sizes.{block_size, create-block_size}

create-block_size_example :
    (p : Pool) × (get_elem? (create 8 4 2).sz_alloc 65 ≡ some p)
    × (m : ℕ) × (block_size p (create 8 4 2) ≡ some m)
    × (m ≡ 128)
    × (65 ≤ m)
create-block_size_example = create-block_size 4 2 65 (omega arith)

abbrev used_once : Block
used_once = record { n_id = some 0; n_ref = 1; in_alloc = true; p_next = none; b_pool = true }

abbrev manager : MemoryMgr
manager = record {
  m64 = record { p_buf = some (used_once ∷ []); p_header = none; n_size = 64; n_block_size = 1 };
  m128 = record { p_buf = none; p_header = none; n_size = 128; n_block_size = 1 };
  sz_alloc = [];
}

free_mem-add_ref_example :
    Returns
      (add_ref (from64 (pooled 0)) manager)
      λ r. free_mem r.0 r.1 ≡ some (some (from64 (pooled 0)), manager)
free_mem-add_ref_example =
    free_mem-add_ref (from64 (pooled 0)) manager
      (used_once ∷ [], used_once, refl, refl, omega arith)
