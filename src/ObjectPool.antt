-- ===== src/ObjectPool.antt =====
-- HelloSocket/EasyTcpServer/CellObjectPool.hpp: a pool of objects of one type, linked by their place in
-- the pool. A failed assertion and a block outside the pool are faults; what `new` returns is an argument.
pub mod Simulates
pub mod Live
mod Tests
use cpp100net.Common.{
  ℕ, zero, suc, ◌+◌, ◌-◌, Bool, true, false, Option, none, some, List, get_elem?, set, ◌==◌,
  if◌then◌else◌, ◌>>=◌,
}

-- `NodeHeader`. A number of `none` is -1, and a next block of `none` is the null pointer.
pub record NodeHeader : Type 0 where
  pub p_next : Option ℕ
  pub n_id : Option ℕ
  pub n_ref : ℕ
  pub b_pool : Bool

pub record ObjectPool : Type 0 where
  pub p_header : Option ℕ
  pub p_buf : List NodeHeader

-- A write to a block of the pool; one outside it is a fault.
unfoldable pub put : ℕ → NodeHeader → List NodeHeader → Option (List NodeHeader)
put i b bs = get_elem? bs i >>= λ old. some (set bs i b)

-- A block of the pool with the number `i`, by itself.
abbrev pub pool_node : ℕ → NodeHeader
pool_node i = record { p_next = none; n_id = some i; n_ref = 0; b_pool = true }

-- One turn of the loop in `initPool`: block `n` behind the one before it.
unfoldable pub link : ℕ → List NodeHeader → Option (List NodeHeader)
unfolding put
link n bs = put n (pool_node n) bs >>= λ new.
    get_elem? new (n - 1) >>= λ before. put (n - 1) (record before { p_next = some n }) new

-- The loop from block `n` on, for `left` more blocks.
unfoldable pub link_all : ℕ → ℕ → List NodeHeader → Option (List NodeHeader)
unfolding link
link_all zero n bs = some bs
link_all (suc left) n bs = link n bs >>= link_all left (n + 1)

-- The constructor with `initPool`: `raw` are the blocks of the fresh memory.
unfoldable pub init_pool : ℕ → List NodeHeader → Option ObjectPool
unfolding link_all put
init_pool n_pool_size raw = put 0 (pool_node 0) raw >>= λ first.
    link_all (n_pool_size - 1) 1 first >>= λ bs. some (record { p_header = some 0; p_buf = bs })

-- A block of the pool, or one from `new`.
pub data Place : Type 0 where
  pooled : ℕ → Place
  outside : NodeHeader → Place

abbrev pub take_node : Option ℕ → ObjectPool → Option (Place × ObjectPool)
take_node none p =
    some (outside (record { p_next = none; n_id = none; n_ref = 1; b_pool = false }), p)
take_node (some i) p = get_elem? p.p_buf i >>= λ b.
    if b.n_ref == 0
    then (put i (record b { n_ref = 1 }) p.p_buf >>= λ new.
        some (pooled i, record { p_header = b.p_next; p_buf = new }))
    else none

-- `allocObjMemory`; the size is only printed.
unfoldable pub alloc_obj_memory : ObjectPool → Option (Place × ObjectPool)
unfolding put
alloc_obj_memory p = take_node p.p_header p

-- `freeObjMemory`: `assert(1 == pBlock->nRef)`, so that no reference is left.
unfoldable pub free_obj_memory : Place → ObjectPool → Option ObjectPool
unfolding put
free_obj_memory (outside b) p = if b.n_ref == 1 then some p else none
free_obj_memory (pooled i) p = get_elem? p.p_buf i >>= λ b.
    if b.n_ref == 1
    then (put i (record b { n_ref = 0; p_next = p.p_header }) p.p_buf >>= λ new.
        some (record { p_header = some i; p_buf = new }))
    else none
