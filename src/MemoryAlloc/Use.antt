-- ===== src/MemoryAlloc/Use.antt =====
-- A pool of blocks over any order of allocMemory and freeMemory, with the blocks that are in use.
use mathlib.Core.Option.{some-injective}
use cpp100net.Common.{
  ℕ, ◌+◌, ◌≡◌, ◌≢◌, ap, sym, ◌∙◌, some, List, [], ◌∷◌, ◌++◌, length, get_elem?, set, arith,
  get_elem?-set_ne,
}
use cpp100net.MemoryAlloc.{Block, MemoryAlloc, pooled, outside, alloc_memory, free_memory}
use cpp100net.MemoryAlloc.Free.{NotIn, IsPool}

-- A block is taken, from the pool or from `malloc`, or one that is in use is given back; `live` are the
-- blocks of the pool that are in use.
pub data Step (a : MemoryAlloc) (live : List ℕ) : MemoryAlloc → List ℕ → Type 0 where
  takes :
      (raw : List Block) (size i : ℕ) (a' : MemoryAlloc)
      → alloc_memory raw size a ≡ some (pooled i, a')
      → Step a live a' (i ∷ live)
  takes_outside :
      (raw : List Block) (size room : ℕ) (b : Block) (a' : MemoryAlloc)
      → alloc_memory raw size a ≡ some (outside room b, a')
      → Step a live a' live
  gives_back :
      (front back : List ℕ) (i : ℕ) (a' : MemoryAlloc)
      → live ≡ front ++ i ∷ back
      → free_memory (pooled i) a ≡ some a'
      → Step a live a' (front ++ back)

pub data Reach (a : MemoryAlloc) (live : List ℕ) : MemoryAlloc → List ℕ → Type 0 where
  here : Reach a live a live
  then_step :
      {a1 a2 : MemoryAlloc} {live1 live2 : List ℕ}
      → Reach a live a1 live1
      → Step a1 live1 a2 live2
      → Reach a live a2 live2

-- Different blocks of the pool, each used once.
abbrev pub Used : List Block → List ℕ → Type 0
Used bs [] = Unit {0}
Used bs (i ∷ is) =
    ((b : Block) × (get_elem? bs i ≡ some b) × (b.n_ref ≡ 1)) × NotIn i is × Used bs is

-- No block is lost: each of the `count` blocks is free or in use.
pub record IsSound (count : ℕ) (a : MemoryAlloc) (live : List ℕ) : Type 0 where
  pub free : List ℕ
  pub pool : IsPool a free
  pub used : Used pool.blocks live
  pub all : length free + length live ≡ count

pub unused-NotIn :
    (bs : List Block) (i : ℕ) (b : Block) (live : List ℕ)
    → get_elem? bs i ≡ some b
    → b.n_ref ≡ 0
    → Used bs live
    → NotIn i live
unused-NotIn bs i b [] there unused h = tt
unused-NotIn bs i b (j ∷ js) there unused ((c, there', once), apart, rest) = (
  λ same.
      let equal = some-injective _ _ (sym there ∙ (ap (get_elem? bs) same ∙ there')) in
      omega (arith, unused, once, ap (λ d. d.n_ref) equal),
  unused-NotIn bs i b js there unused rest,
)

-- A write to another block changes none of those in use.
pub Used-set :
    (bs : List Block) (i : ℕ) (b : Block) (live : List ℕ)
    → NotIn i live
    → Used bs live
    → Used (set bs i b) live
Used-set bs i b [] apart h = tt
Used-set bs i b (j ∷ js) apart ((c, there, once), fresh, rest) =
    ((c, get_elem?-set_ne bs b apart.0 ∙ there, once), fresh, Used-set bs i b js apart.1 rest)

NotIn-drop :
    (i j : ℕ) (front back : List ℕ)
    → NotIn i (front ++ j ∷ back)
    → (i ≢ j) × NotIn i (front ++ back)
NotIn-drop i j [] back h = h
NotIn-drop i j (k ∷ front) back h =
    let (ne, rest) = NotIn-drop i j front back h.1 in (ne, (h.0, rest))

-- One of the blocks in use, and the others.
pub Used-drop :
    (bs : List Block) (i : ℕ) (front back : List ℕ)
    → Used bs (front ++ i ∷ back)
    → ((b : Block) × (get_elem? bs i ≡ some b) × (b.n_ref ≡ 1))
      × NotIn i (front ++ back)
      × Used bs (front ++ back)
Used-drop bs i [] back h = h
Used-drop bs i (j ∷ front) back (entry, apart, rest) =
    let (mine, others, used) = Used-drop bs i front back rest in
    let (ne, apart') = NotIn-drop j i front back apart in
    (mine, ((λ same. ne (sym same)), others), (entry, apart', used))
