-- ===== src/MemoryAlloc/Handed.antt =====
-- What allocMemory and freeMemory do after any order of calls of the two.
use mathlib.Core.Option.{some-injective}
use mathlib.Core.Path.{subst}
use cpp100net.Common.{
  ℕ, zero, suc, ◌+◌, ◌<◌, ◌≡◌, refl, ap, sym, ◌∙◌, Option, some, List, [], ◌∷◌, ◌++◌, length,
  get_elem?, set, arith, get_elem?-set_self, length-append, Returns,
}
use cpp100net.MemoryAlloc.{
  Block, MemoryAlloc, Place, pooled, outside, alloc_memory, free_memory, init_memory,
}
use cpp100net.MemoryAlloc.Free.{
  get_elem?-below, FreeList, next, NotIn, IsPool, Changed, Allocated, from_pool, from_malloc,
  alloc_memory-Allocated, free_memory-pooled,
}
use cpp100net.MemoryAlloc.Init.{from, init_memory-IsPool}
use cpp100net.MemoryAlloc.Use.{
  Step, takes, takes_outside, gives_back, Reach, here, then_step, Used, IsSound, unused-NotIn,
  Used-set, Used-drop,
}

-- The blocks in use after `allocMemory` returned a block.
abbrev live_after : Place → List ℕ → List ℕ
live_after (pooled i) live = i ∷ live
live_after (outside size b) live = live

-- The blocks of the pool after one of them changed.
blocks_now :
    {a a' : MemoryAlloc} {is is' : List ℕ} {i : ℕ} {b b' : Block} (v : IsPool a is)
    (v' : IsPool a' is')
    → Changed a a' i b b'
    → v'.blocks ≡ set v.blocks i b'
blocks_now {i = i} {b' = b'} v v' changed =
    some-injective _ _ (sym v'.there ∙ changed.is_now)
    ∙ ap (λ bs. set bs i b') (some-injective _ _ (sym changed.was ∙ v.there))

Allocated-IsSound :
    (count size : ℕ) (a : MemoryAlloc) (live is : List ℕ) (v : IsPool a is) (p : Place)
    (a' : MemoryAlloc)
    → Used v.blocks live
    → length is + length live ≡ count
    → Allocated size a is p a'
    → IsSound count a' (live_after p live)
Allocated-IsSound count size a live _ v _ _ used all
      (from_pool {i} {is} {b} {a'} v' unused changed) =
    let taken = record b { n_ref = 1 } in
    let there : get_elem? v.blocks i ≡ some b =
      ap (λ bs. get_elem? bs i) (sym (some-injective _ _ (sym changed.was ∙ v.there)))
      ∙ changed.old_block in
    let apart = unused-NotIn v.blocks i b live there unused used in
    let now : Used (set v.blocks i taken) (i ∷ live) = (
      (taken, get_elem?-set_self v.blocks i taken (get_elem?-below v.blocks i b there), refl),
      apart,
      Used-set v.blocks i taken live apart used,
    ) in
    record {
      free = is;
      pool = v';
      used = subst (λ bs. Used bs (i ∷ live)) (sym (blocks_now v v' changed)) now;
      all = omega (arith, all);
    }
Allocated-IsSound count size a live _ v _ _ used all (from_malloc not_pool) = record {
  free = [];
  pool = v;
  used = used;
  all = all;
}

head_of :
    {bs : List Block} {head : Option ℕ} {i : ℕ} {is : List ℕ}
    → FreeList bs head (i ∷ is)
    → head ≡ some i
head_of (next i b is there unused apart rest) = refl

freed-IsSound :
    (count : ℕ) (a : MemoryAlloc) (front back : List ℕ) (i : ℕ)
    → IsSound count a (front ++ i ∷ back)
    → (a' : MemoryAlloc) × (free_memory (pooled i) a ≡ some a')
      × IsSound count a' (front ++ back)
      × (a'.p_header ≡ some i)
freed-IsSound count a front back i h =
    let ((b, there, once), apart, used) = Used-drop h.pool.blocks i front back h.used in
    let (a', ran, v', changed) = free_memory-pooled a i h.free h.pool b there once in
    (
      a',
      ran,
      record {
        free = i ∷ h.free;
        pool = v';
        used =
            subst (λ bs. Used bs (front ++ back)) (sym (blocks_now h.pool v' changed))
              (Used-set h.pool.blocks i _ (front ++ back) apart used);
        all = omega (arith, h.all, length-append front (i ∷ back), length-append front back);
      },
      head_of v'.free,
    )

length-from : (i n : ℕ) → length (from i n) + 0 ≡ n
length-from i zero = omega arith
length-from i (suc n) = omega (arith, length-from (suc i) n)

allocated-IsSound :
    (count : ℕ) (a : MemoryAlloc) (live : List ℕ) (raw : List Block) (size : ℕ) (p : Place)
    (a' : MemoryAlloc)
    → IsSound count a live
    → alloc_memory raw size a ≡ some (p, a')
    → IsSound count a' (live_after p live)
allocated-IsSound count a live raw size p a' h e =
    let (r, ran, allocated) = alloc_memory-Allocated raw size a h.free h.pool in
    let same = some-injective _ _ (sym ran ∙ e) in
    Allocated-IsSound count size a live h.free h.pool p a' h.used h.all
      (subst (λ x. Allocated size a h.free x.0 x.1) same allocated)

Step-IsSound :
    (count : ℕ) (a : MemoryAlloc) (live : List ℕ) (a' : MemoryAlloc) (live' : List ℕ)
    → IsSound count a live
    → Step a live a' live'
    → IsSound count a' live'
Step-IsSound count a live _ _ h (takes raw size i a' e) =
    allocated-IsSound count a live raw size (pooled i) a' h e
Step-IsSound count a live _ _ h (takes_outside raw size room b a' e) =
    allocated-IsSound count a live raw size (outside room b) a' h e
Step-IsSound count a live _ _ h (gives_back front back i a' split e) =
    let (a'', ran, sound, head) =
      freed-IsSound count a front back i (subst (IsSound count a) split h) in
    subst (λ x. IsSound count x (front ++ back)) (some-injective _ _ (sym ran ∙ e)) sound

Reach-IsSound :
    (count : ℕ) {a : MemoryAlloc} {live : List ℕ} {a' : MemoryAlloc} {live' : List ℕ}
    → IsSound count a live
    → Reach a live a' live'
    → IsSound count a' live'
Reach-IsSound count h here = h
Reach-IsSound count h (then_step {a1} {a2} {live1} {live2} before step) =
    Step-IsSound count a1 live1 a2 live2 (Reach-IsSound count h before) step

pub Reach-init_memory :
    (setup : List Block) (n : ℕ) (a a1 a2 : MemoryAlloc) (live : List ℕ)
    → a.n_block_size ≡ suc n
    → length setup ≡ suc n
    → init_memory setup a ≡ some a1
    → Reach a1 [] a2 live
    → IsSound (suc n) a2 live
Reach-init_memory setup n a a1 a2 live count fits made reach =
    let (a1', ran, pool) = init_memory-IsPool setup a n count fits in
    let same = some-injective _ _ (sym ran ∙ made) in
    let first : IsSound (suc n) a1 [] = record {
      free = from 0 (suc n);
      pool = subst (λ x. IsPool x (from 0 (suc n))) same pool;
      used = tt;
      all = length-from 0 (suc n);
    } in
    Reach-IsSound (suc n) first reach

-- What `allocMemory` may return while `live` are in use.
abbrev pub Handed : ℕ → List ℕ → Place → Type 0
Handed count live (pooled i) = NotIn i live × (length live < count)
Handed count live (outside size b) = length live ≡ count

-- Each of the blocks can be given back, and is then the next one to be handed out.
abbrev pub GivenBack : MemoryAlloc → List ℕ → Type 0
GivenBack a [] = Unit {0}
GivenBack a (i ∷ is) =
    Returns (free_memory (pooled i) a) (λ a'. a'.p_header ≡ some i) × GivenBack a is
