-- ===== src/MemoryAlloc.antt =====
-- depends/include/MemoryMgr.hpp: `MemoryAlloc`, a pool of blocks of one size, linked by their place
-- in the pool. `malloc` succeeds; what it returns is an argument. A failed assertion, a block
-- outside the pool, and a reference count that would fall below 0 are faults.
pub mod Free
pub mod Init
pub mod Use
pub mod Handed
mod Tests
use cpp100net.Common.{
  ℕ, zero, suc, ◌+◌, ◌-◌, ◌*◌, ◌/◌, ◌%◌, Bool, true, false, Option, none, some, List, [], ◌∷◌,
  length, get_elem?, set, ◌==◌, if◌then◌else◌, ◌>>=◌,
}

-- `MemoryBlock`. A number of `none` is -1, and a next block of `none` is the null pointer.
pub record Block : Type 0 where
  pub n_id : Option ℕ
  pub n_ref : ℕ
  pub in_alloc : Bool
  pub p_next : Option ℕ
  pub b_pool : Bool

pub record MemoryAlloc : Type 0 where
  pub p_buf : Option (List Block)
  pub p_header : Option ℕ
  pub n_size : ℕ
  pub n_block_size : ℕ

-- `MemoryAlloctor<nSize, nBlockSize>`: the size rounded up to that of a pointer of `n` bytes.
unfoldable pub rounded : ℕ → ℕ → ℕ
rounded n size = (size / n) * n + (if size % n == 0 then 0 else n)

unfoldable pub create : ℕ → ℕ → ℕ → MemoryAlloc
unfolding rounded
create n size count = record {
  p_buf = none;
  p_header = none;
  n_size = rounded n size;
  n_block_size = count;
}

-- A write to a block of the pool; one outside it is a fault.
unfoldable pub put : ℕ → Block → List Block → Option (List Block)
put i b bs = get_elem? bs i >>= λ old. some (set bs i b)

-- A block of the pool with the number `i`, in the free list by itself.
abbrev pub pool_block : ℕ → Block
pool_block i = record { n_id = some i; n_ref = 0; in_alloc = true; p_next = none; b_pool = true }

-- One turn of the loop in `initMemory`: block `n` behind the one before it.
unfoldable pub link : ℕ → List Block → Option (List Block)
unfolding put
link n bs = put n (pool_block n) bs >>= λ new.
    get_elem? new (n - 1) >>= λ before. put (n - 1) (record before { p_next = some n }) new

-- The loop from block `n` on, for `left` more blocks.
unfoldable pub link_all : ℕ → ℕ → List Block → Option (List Block)
unfolding link
link_all zero n bs = some bs
link_all (suc left) n bs = link n bs >>= link_all left (n + 1)

-- `initMemory`: `raw` are the blocks of the fresh memory.
unfoldable pub init_memory : List Block → MemoryAlloc → Option MemoryAlloc
unfolding link_all put
init_memory raw a = put 0 (pool_block 0) raw >>= λ first.
    link_all (a.n_block_size - 1) 1 first >>= λ bs.
    some (record a { p_buf = some bs; p_header = some 0 })

-- The block that `allocMemory` returns: one of the pool, or one from `malloc` with room for so many
-- bytes behind it.
pub data Place : Type 0 where
  pooled : ℕ → Place
  outside : ℕ → Block → Place

-- The rest of `allocMemory`, with the pool there.
unfoldable pub take_block : ℕ → Option ℕ → List Block → MemoryAlloc → Option (Place × MemoryAlloc)
unfolding put
take_block size none bs a = some (
  outside size (record { n_id = none; n_ref = 1; in_alloc = false; p_next = none; b_pool = false }),
  a,
)
take_block size (some i) bs a = get_elem? bs i >>= λ b.
    if b.n_ref == 0
    then (put i (record b { n_ref = 1 }) bs >>= λ new.
        some (pooled i, record a { p_buf = some new; p_header = b.p_next }))
    else none

unfoldable pub with_pool : ℕ → Option (List Block) → MemoryAlloc → Option (Place × MemoryAlloc)
unfolding take_block
with_pool size none a = none
with_pool size (some bs) a = take_block size a.p_header bs a

-- `if (!_pBuf) initMemory();`
unfoldable pub ensure : List Block → Option (List Block) → MemoryAlloc → Option MemoryAlloc
unfolding init_memory
ensure raw none a = init_memory raw a
ensure raw (some bs) a = some a

-- `allocMemory`
unfoldable pub alloc_memory : List Block → ℕ → MemoryAlloc → Option (Place × MemoryAlloc)
unfolding ensure with_pool
alloc_memory raw size a = ensure raw a.p_buf a >>= λ ready. with_pool size ready.p_buf ready

-- `freeMemory` of block `i` of the pool, one reference less.
unfoldable pub release : ℕ → List Block → MemoryAlloc → Option MemoryAlloc
unfolding put
release i bs a = get_elem? bs i >>= λ b.
    if b.n_ref == 1
    then (put i (record b { n_ref = 0; p_next = a.p_header }) bs >>= λ new.
        some (record a { p_buf = some new; p_header = some i }))
    else if b.n_ref == 0
    then none
    else (put i (record b { n_ref = b.n_ref - 1 }) bs >>= λ new.
        some (record a { p_buf = some new }))

-- `freeMemory`: a block from `malloc` is given back.
unfoldable pub free_memory : Place → MemoryAlloc → Option MemoryAlloc
unfolding release
free_memory (outside size b) a = some a
free_memory (pooled i) a = a.p_buf >>= λ bs. release i bs a
