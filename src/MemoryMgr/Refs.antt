-- ===== src/MemoryMgr/Refs.antt =====
-- depends/include/MemoryMgr.hpp: addRef and freeMem of the manager. A block from `malloc` is handed over with
-- its header; when it is freed nothing is handed back.
use mathlib.Core.Option.{some-injective}
use cpp100net.Common.{
  ℕ, zero, suc, ◌+◌, ◌-◌, ◌<◌, ◌≡◌, refl, ap, sym, ◌∙◌, false, Option, none, some, List, [], ◌∷◌,
  get_elem?, set, ◌==◌, if◌then◌else◌, ◌>>=◌, arith, Returns, get_elem?-set_self,
}
use cpp100net.MemoryAlloc.{Block, MemoryAlloc, pooled, outside, put, free_memory, release}
use cpp100net.MemoryAlloc.Free.{get_elem?-below}
use cpp100net.MemoryMgr.{MemoryMgr, Given, from64, from128, from_system}

-- A block of a pool with one reference more.
unfoldable pub refer : ℕ → MemoryAlloc → Option MemoryAlloc
unfolding put
refer i a = a.p_buf >>= λ bs. get_elem? bs i >>= λ b.
    put i (record b { n_ref = b.n_ref + 1 }) bs >>= λ new. some (record a { p_buf = some new })

abbrev pub more : Block → Block
more b = record b { n_ref = b.n_ref + 1 }

-- `addRef`: the block as it is now, and the manager.
unfoldable pub add_ref : Given → MemoryMgr → Option (Given × MemoryMgr)
unfolding refer
add_ref (from64 (pooled i)) g =
    refer i g.m64 >>= λ a. some (from64 (pooled i), record g { m64 = a })
add_ref (from128 (pooled i)) g =
    refer i g.m128 >>= λ a. some (from128 (pooled i), record g { m128 = a })
add_ref (from64 (outside size b)) g = some (from64 (outside size (more b)), g)
add_ref (from128 (outside size b)) g = some (from128 (outside size (more b)), g)
add_ref (from_system size b) g = some (from_system size (more b), g)

-- `if (--(pBlock->_nRef) != 0) return; free(pBlock);` with a count that is not 0.
abbrev pub drop_ref : (Block → Given) → Block → MemoryMgr → Option (Option Given × MemoryMgr)
drop_ref again b g =
    if b.n_ref == 0
    then none
    else if b.n_ref == 1
    then some (none, g)
    else some (some (again (record b { n_ref = b.n_ref - 1 })), g)

-- `freeMem`: the block, if it is still referred to or belongs to a pool, and the manager.
unfoldable pub free_mem : Given → MemoryMgr → Option (Option Given × MemoryMgr)
free_mem (from64 (pooled i)) g =
    free_memory (pooled i) g.m64 >>= λ a. some (some (from64 (pooled i)), record g { m64 = a })
free_mem (from128 (pooled i)) g =
    free_memory (pooled i) g.m128 >>= λ a. some (some (from128 (pooled i)), record g { m128 = a })
free_mem (from64 (outside size b)) g = drop_ref (λ c. from64 (outside size c)) b g
free_mem (from128 (outside size b)) g = drop_ref (λ c. from128 (outside size c)) b g
free_mem (from_system size b) g = drop_ref (from_system size) b g

-- A block of a pool that is in use.
abbrev pub PoolUses : ℕ → MemoryAlloc → Type 0
PoolUses i a =
    (bs : List Block) × (b : Block) × (a.p_buf ≡ some bs)
    × (get_elem? bs i ≡ some b)
    × (0 < b.n_ref)

-- The block is in use.
abbrev pub IsUsed : Given → MemoryMgr → Type 0
IsUsed (from64 (pooled i)) g = PoolUses i g.m64
IsUsed (from128 (pooled i)) g = PoolUses i g.m128
IsUsed (from64 (outside size b)) g = 0 < b.n_ref
IsUsed (from128 (outside size b)) g = 0 < b.n_ref
IsUsed (from_system size b) g = 0 < b.n_ref

set_back :
    (bs : List Block) (i : ℕ) (b c : Block) → get_elem? bs i ≡ some b → set (set bs i c) i b ≡ bs
set_back [] i b c e = refl
set_back (d ∷ bs) zero b c e = ap (λ x. x ∷ bs) (sym (some-injective _ _ e))
set_back (d ∷ bs) (suc i) b c e = ap (λ ds. d ∷ ds) (set_back bs i b c e)

one_less : (b : Block) → record b { n_ref = (b.n_ref + 1) - 1 } ≡ b
one_less b =
    ap (λ n. record b { n_ref = n }) (let e : (b.n_ref + 1) - 1 ≡ b.n_ref = omega arith in e)

release-refer :
    (i : ℕ) (a : MemoryAlloc)
    → PoolUses i a
    → Returns (refer i a) λ a'. free_memory (pooled i) a' ≡ some a
unfolding refer free_memory release put
release-refer i a (bs, b, there, found, used) =
    let now = get_elem?-set_self bs i (more b) (get_elem?-below bs i b found) in
    let not_one : (b.n_ref + 1 == 1) ≡ false = ground (arith, used) in
    let not_zero : (b.n_ref + 1 == 0) ≡ false = ground arith in
    (
      record a { p_buf = some (set bs i (more b)) },
      rw (there, found) refl,
      rw (now, not_one, not_zero)
          (ap (λ o. some (record a { p_buf = o }))
            (ap some (ap (set (set bs i (more b)) i) (one_less b) ∙ set_back bs i b (more b) found)
              ∙ sym there)),
    )

-- The block is a pool's, or it is the one from `malloc` again.
drop-more :
    (again : Block → Given) (b : Block) (g : MemoryMgr)
    → 0 < b.n_ref
    → drop_ref again (more b) g ≡ some (some (again b), g)
drop-more again b g used =
    let not_one : (b.n_ref + 1 == 1) ≡ false = ground (arith, used) in
    let not_zero : (b.n_ref + 1 == 0) ≡ false = ground arith in
    rw (not_one, not_zero) (ap (λ c. some (some (again c), g)) (one_less b))

-- `addRef` of a block that is in use does not fault, and `freeMem` after it takes back exactly that
-- reference: the block stays, be it of a pool or from `malloc`, and both are as they were before.
pub free_mem-add_ref :
    (p : Given) (g : MemoryMgr)
    → IsUsed p g
    → Returns (add_ref p g) λ r. free_mem r.0 r.1 ≡ some (some p, g)
unfolding add_ref free_mem
free_mem-add_ref (from64 (pooled i)) g used =
    let (a, referred, back) = release-refer i g.m64 used in
    ((from64 (pooled i), record g { m64 = a }), rw referred refl, rw back refl)
free_mem-add_ref (from128 (pooled i)) g used =
    let (a, referred, back) = release-refer i g.m128 used in
    ((from128 (pooled i), record g { m128 = a }), rw referred refl, rw back refl)
free_mem-add_ref (from64 (outside size b)) g used =
    (_, refl, drop-more (λ c. from64 (outside size c)) b g used)
free_mem-add_ref (from128 (outside size b)) g used =
    (_, refl, drop-more (λ c. from128 (outside size c)) b g used)
free_mem-add_ref (from_system size b) g used = (_, refl, drop-more (from_system size) b g used)
