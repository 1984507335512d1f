-- ===== src/MemoryAlloc/Free.antt =====
-- The free list of a pool as a stack of blocks, under allocMemory and freeMemory.
use mathlib.Core.Option.{some-injective}
use cpp100net.Common.{
  ℕ, zero, suc, ◌<◌, ◌≡◌, ◌≢◌, false, refl, ap, sym, ◌∙◌, Option, none, some, List, [], ◌∷◌, length,
  get_elem?, set, ◌>>=◌, arith, get_elem?-set_self, get_elem?-set_ne, Returns,
}
use cpp100net.MemoryAlloc.{
  Block, MemoryAlloc, Place, pooled, outside, put, take_block, with_pool, ensure, alloc_memory,
  release, free_memory,
}

abbrev pub NotIn : ℕ → List ℕ → Type 0
NotIn i [] = Unit {0}
NotIn i (j ∷ js) = (i ≢ j) × NotIn i js

-- From the block `head` on, the links lead through the blocks `is`, which are unused and different,
-- and end.
pub data FreeList (bs : List Block) : Option ℕ → List ℕ → Type 0 where
  last : FreeList bs none []
  next :
      (i : ℕ) (b : Block) (is : List ℕ)
      → get_elem? bs i ≡ some b
      → b.n_ref ≡ 0
      → NotIn i is
      → FreeList bs b.p_next is
      → FreeList bs (some i) (i ∷ is)

-- A pool whose free blocks are `is`, in the order in which they will be handed out.
pub record IsPool (a : MemoryAlloc) (is : List ℕ) : Type 0 where
  pub blocks : List Block
  pub there : a.p_buf ≡ some blocks
  pub free : FreeList blocks a.p_header is

-- A write to a block that is not free leaves the free list alone.
pub FreeList-set :
    (bs : List Block) (head : Option ℕ) (is : List ℕ) (i : ℕ) (b : Block)
    → NotIn i is
    → FreeList bs head is
    → FreeList (set bs i b) head is
FreeList-set bs head is i b not_in last = last
FreeList-set bs head is i b not_in (next j c js there unused fresh rest) =
    next j c js (get_elem?-set_ne bs b not_in.0 ∙ there) unused fresh
      (FreeList-set bs c.p_next js i b not_in.1 rest)

-- A block in use is not in the free list.
used-NotIn :
    (bs : List Block) (head : Option ℕ) (is : List ℕ) (i : ℕ) (b : Block)
    → get_elem? bs i ≡ some b
    → 0 < b.n_ref
    → FreeList bs head is
    → NotIn i is
used-NotIn bs head is i b there used last = tt
used-NotIn bs head is i b there used (next j c js there' unused fresh rest) = (
  λ same.
      let equal = some-injective _ _ (sym there ∙ (ap (get_elem? bs) same ∙ there')) in
      omega (arith, used, unused, ap (λ d. d.n_ref) equal),
  used-NotIn bs c.p_next js i b there used rest,
)

pub get_elem?-below :
    {A : Type 0} (xs : List A) (i : ℕ) (x : A) → get_elem? xs i ≡ some x → i < length xs
get_elem?-below [] i x e = let bad : none ≡ some x = e in cc
get_elem?-below (y ∷ ys) zero x e = omega arith
get_elem?-below (y ∷ ys) (suc i) x e = omega (arith, get_elem?-below ys i x e)

-- What the pool `a` looks like after block `i`, which was `b`, became `b'`.
pub record Changed (a a' : MemoryAlloc) (i : ℕ) (b b' : Block) : Type 0 where
  pub old : List Block
  pub was : a.p_buf ≡ some old
  pub old_block : get_elem? old i ≡ some b
  pub is_now : a'.p_buf ≡ some (set old i b')

-- The last part of `allocMemory` with a free block there.
take_block-pooled :
    (size : ℕ) (bs : List Block) (head : Option ℕ) (a : MemoryAlloc) (i : ℕ) (is : List ℕ)
    → FreeList bs head (i ∷ is)
    → (a' : MemoryAlloc) × (b : Block) × (take_block size head bs a ≡ some (pooled i, a'))
      × IsPool a' is
      × (b.n_ref ≡ 0)
      × (get_elem? bs i ≡ some b)
      × (a'.p_buf ≡ some (set bs i (record b { n_ref = 1 })))
unfolding take_block put
take_block-pooled size bs head a i is (next j b js there unused fresh rest) =
    let new = set bs i (record b { n_ref = 1 }) in
    (
      record a { p_buf = some new; p_header = b.p_next },
      b,
      rw (there, unused) refl,
      record {
        blocks = new;
        there = refl;
        free = FreeList-set bs b.p_next is i (record b { n_ref = 1 }) fresh rest;
      },
      unused,
      there,
      refl,
    )

alloc_memory-take_block :
    (raw : List Block) (size : ℕ) (a : MemoryAlloc) {bs : List Block}
    → a.p_buf ≡ some bs
    → alloc_memory raw size a ≡ take_block size a.p_header bs a
unfolding alloc_memory
alloc_memory-take_block raw size a e =
    ap (λ o. ensure raw o a >>= λ ready. with_pool size ready.p_buf ready) e
    ∙ ap (λ o. with_pool size o a) e

ends_here : {bs : List Block} {head : Option ℕ} → FreeList bs head [] → head ≡ none
ends_here last = refl

-- With a free block, `allocMemory` hands out the first one, which no one was using; it is then used
-- once, and the others stay free.
alloc_memory-pooled :
    (raw : List Block) (size : ℕ) (a : MemoryAlloc) (i : ℕ) (is : List ℕ)
    → IsPool a (i ∷ is)
    → (a' : MemoryAlloc) × (b : Block) × (alloc_memory raw size a ≡ some (pooled i, a'))
      × IsPool a' is
      × (b.n_ref ≡ 0)
      × Changed a a' i b (record b { n_ref = 1 })
alloc_memory-pooled raw size a i is v =
    let r = take_block-pooled size v.blocks a.p_header a i is v.free in
    (
      r.0,
      r.1,
      alloc_memory-take_block raw size a v.there ∙ r.2,
      r.3,
      r.4,
      record { old = v.blocks; was = v.there; old_block = r.5; is_now = r.6 },
    )

-- With no free block, `allocMemory` returns one from `malloc` of the size that was asked for, and
-- leaves the pool alone.
alloc_memory-outside :
    (raw : List Block) (size : ℕ) (a : MemoryAlloc)
    → IsPool a []
    → (b : Block) × (alloc_memory raw size a ≡ some (outside size b, a)) × (b.b_pool ≡ false)
unfolding take_block
alloc_memory-outside raw size a v = (
  _,
  alloc_memory-take_block raw size a v.there
      ∙ ap (λ head. take_block size head v.blocks a) (ends_here v.free),
  refl,
)

-- What `allocMemory` gives, where the free blocks are `is`.
pub data Allocated (size : ℕ) (a : MemoryAlloc) : List ℕ → Place → MemoryAlloc → Type 0 where
  from_pool :
      {i : ℕ} {is : List ℕ} {b : Block} {a' : MemoryAlloc}
      → IsPool a' is
      → b.n_ref ≡ 0
      → Changed a a' i b (record b { n_ref = 1 })
      → Allocated size a (i ∷ is) (pooled i) a'
  from_malloc : {b : Block} → b.b_pool ≡ false → Allocated size a [] (outside size b) a

-- `allocMemory` of a pool that has been set up does not fault. With a free block it hands out the first
-- one, which was not in use, marks it used once, and leaves the other blocks and the rest of the free
-- list as they were. With none it returns a block from `malloc` with room for the size asked for, which is
-- not of the pool, and the pool stays as it is.
pub alloc_memory-Allocated :
    (raw : List Block) (size : ℕ) (a : MemoryAlloc) (is : List ℕ)
    → IsPool a is
    → Returns (alloc_memory raw size a) λ r. Allocated size a is r.0 r.1
alloc_memory-Allocated raw size a [] v =
    let (b, ran, not_pool) = alloc_memory-outside raw size a v in
    ((outside size b, a), ran, from_malloc not_pool)
alloc_memory-Allocated raw size a (i ∷ is) v =
    let (a', b, ran, v', unused, changed) = alloc_memory-pooled raw size a i is v in
    ((pooled i, a'), ran, from_pool v' unused changed)

-- A block of the pool that is used once becomes the first free one; the others stay as they are.
pub free_memory-pooled :
    (a : MemoryAlloc) (i : ℕ) (is : List ℕ) (v : IsPool a is) (b : Block)
    → get_elem? v.blocks i ≡ some b
    → b.n_ref ≡ 1
    → (a' : MemoryAlloc) × (free_memory (pooled i) a ≡ some a')
      × IsPool a' (i ∷ is)
      × Changed a a' i b (record b { n_ref = 0; p_next = a.p_header })
unfolding free_memory release put
free_memory-pooled a i is v b there once =
    let freed = record b { n_ref = 0; p_next = a.p_header } in
    let new = set v.blocks i freed in
    let not_in = used-NotIn v.blocks a.p_header is i b there (omega (arith, once)) v.free in
    (
      record a { p_buf = some new; p_header = some i },
      rw (v.there, there, once) refl,
      record {
        blocks = new;
        there = refl;
        free =
            next i freed is
              (get_elem?-set_self v.blocks i freed (get_elem?-below v.blocks i b there)) refl not_in
              (FreeList-set v.blocks a.p_header is i freed not_in v.free);
      },
      record { old = v.blocks; was = v.there; old_block = there; is_now = refl },
    )
